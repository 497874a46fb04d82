-- ===== src/Main/Servers.antt =====
-- When the program of rust_http_proxy/src/main.rs serves, and with which servers.
use rust_http_proxy.Common.{
  ℕ, ◌≡◌, ◌↔◌, is_empty, ◌∙◌, refl, ap, subst, sym, true, false, if◌then◌else◌, Option, none, some,
  List, [], ◌∷◌, map, All, Result, arith,
}
use rust_http_proxy.Common.Bytes.{Bytes}
use rust_http_proxy.Http.{Http}
use rust_http_proxy.Auth.{add_users}
use rust_http_proxy.Reverse.Setup.{Locations}
use rust_http_proxy.Log.{Logging}
use rust_http_proxy.Config.{Networks, Param, Config}
use rust_http_proxy.Config.Laws.{FromParam, try_from-FromParam}
use rust_http_proxy.Config.Load.{DebugTexts, Loaded, refused, panicked, loaded}
use rust_http_proxy.Main.{
  NewServer, bootstrap, new, build_hyper_legacy_client, start, serving, ProxyHandler,
}
use rust_http_proxy.Config.Load.Laws.{
  load_from, LoadedFrom, load_config-LoadedFrom, LoadedFrom-load_config,
}

module _ (net : Networks) (debug : DebugTexts net) (http : Http) (encode : Bytes → Bytes)
    (load : Bytes → Result Locations) (l : Logging) (build_time : Bytes)
    (provider : Option Bytes) where
  abbrev LoadedFor : Param → Config net → Type 0
  LoadedFor = LoadedFrom net debug http encode load l build_time provider

  abbrev loaded_for : Param → Loaded net
  loaded_for = load_from net debug http encode load l build_time provider

  module _ {Cache : Type 0} (empty_cache : Cache) where
    -- A server for the command line.
    pub record ServesFor (param : Param) (s : NewServer net empty_cache) : Type 0 where
      pub same_users : s.basic_auth ≡ add_users encode param.users []
      pub idles_for : s.timeout ≡ 600
      pub same_tls : s.tls_param ≡ (
          if param.over_tls
          then some (record { tls = true; cert = param.cert; key = param.key })
          else none)
      pub empty_pool : s.interceptor.cache_conn ≡ empty_cache

    map-ServesFor :
        (param : Param) (config : Config net) (handler : ProxyHandler net empty_cache)
        (ports : List ℕ)
        → FromParam net encode param config
        → handler.cache_conn ≡ empty_cache
        → (map (λ s. s.port) (map (bootstrap net empty_cache config handler) ports) ≡ ports)
          × All (ServesFor param) (map (bootstrap net empty_cache config handler) ports)
    unfolding bootstrap
    map-ServesFor param config handler [] made first = (refl, tt)
    map-ServesFor param config handler (port ∷ ports) made first =
        let (same, all) = map-ServesFor param config handler ports made first in
        (
          ap (◌∷◌ port) same,
          (
            record {
              same_users = made.same_users;
              idles_for = refl;
              same_tls = ground (arith, made.same_over_tls, made.same_cert, made.same_key);
              empty_pool = first;
            },
            all,
          ),
        )

    -- What a program that serves was started with.
    pub record Started (param : Param) (servers : List (NewServer net empty_cache)) : Type 0 where
      pub config : Config net
      pub loaded_from : LoadedFor param config
      pub same_ports : map (λ s. s.port) servers ≡ param.port
      pub all_serve : All (ServesFor param) servers

    start-loaded :
        (config : Config net) (servers : List (NewServer net empty_cache))
        → start net empty_cache (loaded config) ≡ serving servers
        → (handler : ProxyHandler net empty_cache) × (handler.cache_conn ≡ empty_cache)
          × (servers ≡ map (bootstrap net empty_cache config handler) config.port)
    start-loaded config servers e =
        unfold start new in
        (
          record { cache_conn = empty_cache; reverse_proxy_client = build_hyper_legacy_client },
          refl,
          ground arith,
        )

    start-port :
        (config : Config net) (port : ℕ) (ports : List ℕ)
        → config.port ≡ port ∷ ports
        → start net empty_cache (loaded config)
          ≡ serving (
              map
                (bootstrap net empty_cache config (record {
                  cache_conn = empty_cache;
                  reverse_proxy_client = build_hyper_legacy_client;
                }))
                (port ∷ ports))
    unfolding start new
    start-port config port ports e = ground arith

    pub start-ServesFor :
        (param : Param) (servers : List (NewServer net empty_cache))
        → start net empty_cache (loaded_for param) ≡ serving servers
        → Started param servers
    start-ServesFor param servers e = from (loaded_for param) refl e
      where
        from :
            (x : Loaded net)
            → loaded_for param ≡ x
            → start net empty_cache x ≡ serving servers
            → Started param servers
        from (refused why) c e = absurd (unfold start in ground arith)
        from panicked c e = absurd (unfold start in ground arith)
        from (loaded config) c e =
            let (handler, first, same) = start-loaded config servers e in
            let loading =
              load_config-LoadedFrom net debug http encode load l build_time provider param config
                c in
            let made = try_from-FromParam net http encode load param config loading.is_read in
            let (ports, all) = map-ServesFor param config handler config.port made first in
            record {
              config = config;
              loaded_from = loading;
              same_ports = ap (map (λ s. s.port)) same ∙ ports ∙ made.same_ports;
              all_serve = subst (All (ServesFor param)) (sym same) all;
            }

    start-serves :
        (config : Config net) (ports : List ℕ)
        → config.port ≡ ports
        → is_empty ports ≡ false
        → (servers : List (NewServer net empty_cache)) × (start net empty_cache (loaded config)
            ≡ serving servers)
    start-serves config [] e some_port = absurd (ground arith)
    start-serves config (port ∷ ports) e some_port = (_, start-port config port ports e)

    start-has_port :
        (config : Config net) (servers : List (NewServer net empty_cache))
        → start net empty_cache (loaded config) ≡ serving servers
        → is_empty config.port ≡ false
    unfolding start new
    start-has_port config servers e = ground arith

    -- The program serves exactly if the log can be set up, in a directory that is there or is made, the
    -- configuration is read without an error, and the command line has a port. It then has one server for
    -- each port, in their order, each with the users of the command line, a time-out of 600 seconds, the
    -- certificate and the key exactly if TLS is asked for, and a handler with an empty pool.
    pub start-Started :
        (param : Param)
        → ((servers : List (NewServer net empty_cache)) × (start net empty_cache (loaded_for param)
              ≡ serving servers)
            × Started param servers)
          ↔ ((config : Config net) × LoadedFor param config × (is_empty param.port ≡ false))
    start-Started param = (
      λ h.
          let (servers, e, started) = h in
          let same =
            LoadedFrom-load_config net debug http encode load l build_time provider param
              started.config started.loaded_from in
          (
            started.config,
            started.loaded_from,
            subst (λ ports. is_empty ports ≡ false)
                (try_from-FromParam net http encode load param started.config
                  started.loaded_from.is_read).same_ports
                (start-has_port started.config servers (sym (ap (start net empty_cache) same) ∙ e)),
          ),
      λ h.
          let (config, from, some_port) = h in
          let made = try_from-FromParam net http encode load param config from.is_read in
          let (servers, e) = start-serves config param.port made.same_ports some_port in
          let all =
            ap (start net empty_cache) (
              LoadedFrom-load_config net debug http encode load l build_time provider param config
                from)
            ∙ e in
          (servers, all, start-ServesFor param servers all),
    )
