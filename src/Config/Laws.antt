-- ===== src/Config/Laws.antt =====
-- Who may be served files under a command line.
use rust_http_proxy.Common.{
  ◌≡◌, refl, Bool, true, false, not, any, is_empty, none, some, List, [], ◌∷◌, Result, ok, arith,
}
use rust_http_proxy.Common.Bytes.{Bytes}
use rust_http_proxy.Ip.{IpAddr}
use rust_http_proxy.Auth.{add_users}
use rust_http_proxy.Http.{Http}
use rust_http_proxy.Reverse.Setup.{Locations}
use rust_http_proxy.Config.{Networks, Param, Config, parse_networks, serving_control, try_from}

module _ (net : Networks) where
  -- The value is a network.
  abbrev pub parses : Bytes → Bool
  parses s = elim (net.from_str s) [ some _ ↦ true | none ↦ false ]

  -- The value is a network that holds the address.
  abbrev pub admits : IpAddr → Bytes → Bool
  admits ip s = elim (net.from_str s) [ some n ↦ net.contains n ip | none ↦ false ]

  pub any-parse_networks :
      (ip : IpAddr) (ss : List Bytes)
      → any (λ n. net.contains n ip) (parse_networks net ss) ≡ any (admits ip) ss
  unfolding parse_networks
  any-parse_networks ip [] = refl
  any-parse_networks ip (s ∷ ss) = ground (arith, any-parse_networks ip ss)

  pub is_empty-parse_networks :
      (ss : List Bytes) → is_empty (parse_networks net ss) ≡ not (any parses ss)
  unfolding parse_networks
  is_empty-parse_networks [] = refl
  is_empty-parse_networks (s ∷ ss) = ground (arith, is_empty-parse_networks ss)

  -- What a configuration has from the command line.
  pub record FromParam (encode : Bytes → Bytes) (param : Param) (config : Config net) : Type 0 where
    pub same_ports : config.port ≡ param.port
    pub same_users : config.basic_auth ≡ add_users encode param.users []
    pub same_over_tls : config.over_tls ≡ param.over_tls
    pub same_cert : config.cert ≡ param.cert
    pub same_key : config.key ≡ param.key
    pub same_path : config.web_content_path ≡ param.web_content_path
    pub same_control :
        config.serving_control
        ≡ serving_control net param.prohibit_serving param.allow_serving_network

  pub try_from-FromParam :
      (http : Http) (encode : Bytes → Bytes) (load : Bytes → Result Locations) (param : Param)
      (config : Config net)
      → try_from net http encode load param ≡ ok config
      → FromParam encode param config
  unfolding try_from
  try_from-FromParam http encode load param config e = record {
    same_ports = ground arith;
    same_users = ground arith;
    same_over_tls = ground arith;
    same_cert = ground arith;
    same_key = ground arith;
    same_path = ground arith;
    same_control = ground arith;
  }
