-- ===== src/Config.antt =====
-- rust_http_proxy/src/config.rs: the command line and the configuration made from it. The
-- `ipnetwork` crate is an interface; parsing the command line itself is left to `clap`.
pub mod Laws
pub mod Load
use rust_http_proxy.Common.{
  ℕ, Bool, not, ◌&&◌, true, false, if◌then◌else◌, any, is_empty, Option, none, some, List, [], ◌∷◌,
  Result, ok, err, panic, ◌>>=◌, map,
}
use rust_http_proxy.Common.Bytes.{Bytes}
use rust_http_proxy.Auth.{BasicAuth, add_users}
use rust_http_proxy.Http.{Http}
use rust_http_proxy.Ip.{IpAddr}
use rust_http_proxy.Reverse.Setup.{Locations, ReverseProxyConfig, parse_reverse_proxy_config}

-- `IpNetwork::from_str` and `IpNetwork::contains`
pub record Networks : Type 1 where
  pub IpNetwork : Type 0
  pub from_str : Bytes → Option IpNetwork
  pub contains : IpNetwork → IpAddr → Bool

pub record Param : Type 0 where
  pub log_dir : Bytes
  pub log_file : Bytes
  pub port : List ℕ
  pub cert : Bytes
  pub key : Bytes
  pub users : List Bytes
  pub web_content_path : Bytes
  pub referer_keywords_to_self : List Bytes
  pub never_ask_for_auth : Bool
  pub prohibit_serving : Bool
  pub allow_serving_network : List Bytes
  pub over_tls : Bool
  pub reverse_proxy_config_file : Option Bytes
  pub enable_github_proxy : Bool
  pub append_upstream_url : List Bytes

module _ (net : Networks) where
  pub record ServingControl : Type 0 where
    pub prohibit_serving : Bool
    pub allowed_networks : List net.IpNetwork

  pub record Config : Type 0 where
    pub cert : Bytes
    pub key : Bytes
    pub basic_auth : BasicAuth
    pub web_content_path : Bytes
    pub referer_keywords_to_self : List Bytes
    pub never_ask_for_auth : Bool
    pub serving_control : ServingControl
    pub over_tls : Bool
    pub port : List ℕ
    pub reverse_proxy_config : ReverseProxyConfig

  -- The loop over `--allow-serving-network`: a value that does not parse is only warned of.
  unfoldable pub parse_networks : List Bytes → List net.IpNetwork
  parse_networks [] = []
  parse_networks (s ∷ ss) = elim (net.from_str s) [
    | some network ↦ network ∷ parse_networks ss
    | none ↦ parse_networks ss
  ]

  unfoldable pub serving_control : Bool → List Bytes → ServingControl
  unfolding parse_networks
  serving_control prohibit_serving allow_serving_network = record {
    prohibit_serving = prohibit_serving;
    allowed_networks =
        if not prohibit_serving && not (is_empty allow_serving_network)
        then parse_networks allow_serving_network
        else [];
  }

  -- `Config::try_from`. `encode` is base64, and `load` reads and parses a configuration file.
  module _ (http : Http) (encode : Bytes → Bytes) (load : Bytes → Result Locations) where
    unfoldable pub try_from : Param → Result Config
    unfolding serving_control
    try_from param = do
      reverse_proxy_config ←
          parse_reverse_proxy_config http
            (elim param.reverse_proxy_config_file [ none ↦ none | some path ↦ some (load path) ])
            param.append_upstream_url param.enable_github_proxy
      ok (record {
        cert = param.cert;
        key = param.key;
        basic_auth = add_users encode param.users [];
        web_content_path = param.web_content_path;
        referer_keywords_to_self = param.referer_keywords_to_self;
        never_ask_for_auth = param.never_ask_for_auth;
        serving_control = serving_control param.prohibit_serving param.allow_serving_network;
        over_tls = param.over_tls;
        port = param.port;
        reverse_proxy_config = reverse_proxy_config;
      })
