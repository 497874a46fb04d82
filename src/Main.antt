-- ===== src/Main.antt =====
-- rust_http_proxy/src/main.rs: from the configuration to the running servers, and the handler that they
-- share (`ProxyHandler::new` and `build_hyper_legacy_client` of rust_http_proxy/src/proxy.rs). The
-- `axum_bootstrap` crate, which runs a server, and `select_all` are arguments. Durations are seconds.
pub mod Servers
pub mod Counters
use rust_http_proxy.Common.{
  ℕ, Bool, true, false, if◌then◌else◌, Option, none, some, List, [], ◌∷◌, map, Result, ok, err,
  panic, IoError,
}
use rust_http_proxy.Common.Bytes.{Bytes}
use rust_http_proxy.Auth.{BasicAuth}
use rust_http_proxy.Config.{Networks, Config}
use rust_http_proxy.Config.Load.{Loaded, refused, panicked, loaded}
use rust_http_proxy.Proxy.Tunnel.Task.{idle_timeout}

-- `TlsParam`
pub record TlsParam : Type 0 where
  pub tls : Bool
  pub cert : Bytes
  pub key : Bytes

-- How the client for upstreams is built.
pub record LegacyClient : Type 0 where
  pub enforce_http : Bool
  pub keepalive : Option ℕ
  pub pool_idle_timeout : ℕ
  pub pool_max_idle_per_host : ℕ

unfoldable pub build_hyper_legacy_client : LegacyClient
build_hyper_legacy_client =
    let pool_idle_timeout : ℕ = 90 in
    record {
      enforce_http = false;
      keepalive = some pool_idle_timeout;
      pool_idle_timeout = pool_idle_timeout;
      pool_max_idle_per_host = 5;
    }

module _ (net : Networks) {Cache : Type 0} (empty_cache : Cache) where
  -- `ProxyHandler`, with what is in its pool at first.
  pub record ProxyHandler : Type 0 where
    pub cache_conn : Cache
    pub reverse_proxy_client : LegacyClient

  -- `ProxyHandler::new`, and `ForwardProxyClient::new` with it.
  unfoldable pub new : Result ProxyHandler
  unfolding build_hyper_legacy_client
  new = ok (record { cache_conn = empty_cache; reverse_proxy_client = build_hyper_legacy_client })

  -- A server as `bootstrap` sets it up, with the state of its router.
  pub record NewServer : Type 0 where
    pub port : ℕ
    pub basic_auth : BasicAuth
    pub timeout : ℕ
    pub tls_param : Option TlsParam
    pub interceptor : ProxyHandler

  unfoldable pub bootstrap : Config net → ProxyHandler → ℕ → NewServer
  bootstrap config proxy_handler port = record {
    port = port;
    basic_auth = config.basic_auth;
    timeout = idle_timeout;
    tls_param =
        if config.over_tls
        then some (record { tls = true; cert = config.cert; key = config.key })
        else none;
    interceptor = proxy_handler;
  }

  -- What becomes of the program: it ends before it serves, or runs the servers, and ends with the result
  -- of the one that `select_all` finds finished first.
  pub data Run : Type 0 where
    no_config : Run
    ended : IoError → Run
    no_servers : Run
    serving : List NewServer → Run

  -- Without a configuration `expect` panics, and `select_all` panics on no futures.
  unfoldable pub start : Loaded net → Run
  unfolding new bootstrap
  start (refused _) = no_config
  start panicked = no_config
  start (loaded config) = elim new [
    | err e ↦ ended e
    | panic ↦ no_config
    | ok proxy_handler ↦ elim config.port [
      | [] ↦ no_servers
      | port ∷ ports ↦ serving (map (bootstrap config proxy_handler) (port ∷ ports))
    ]
  ]

  -- `main`: an error of the server that ends first is returned.
  unfoldable pub main :
      (select_all : List NewServer → Result (Unit {0})) → Loaded net → Result (Unit {0})
  unfolding start
  main select_all config = elim (start config) [
    | no_config ↦ panic
    | ended e ↦ err e
    | no_servers ↦ panic
    | serving servers ↦ select_all servers
  ]
