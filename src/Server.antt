-- ===== src/Server.antt =====
-- The running server: `ProxyInterceptor` of rust_http_proxy/src/main.rs with the handler of
-- rust_http_proxy/src/proxy.rs, its file server (rust_http_proxy/src/raw_serve.rs) and its forward
-- proxy client (rust_http_proxy/src/forward_proxy_client.rs), and the state that they keep from one
-- request to the next.
pub mod Router
pub mod Accounts
pub mod Paths
pub mod Concurrent
pub mod Pages
use rust_http_proxy.Common.{
  ℕ, Bool, true, false, if◌then◌else◌, any, Option, none, some, List, [], ◌∷◌, Result, ok, err,
  panic, IoError,
}
use rust_http_proxy.Common.Bytes.{Bytes, beq}
use rust_http_proxy.Http.{Http, Request, Response}
use rust_http_proxy.Ip.{SocketAddr}
use rust_http_proxy.Labels.{AccessLabel, ReqLabels, ReverseProxyReqLabel}
use rust_http_proxy.Metrics.{Family}
use rust_http_proxy.IoX.Timeout.{Timer}
use rust_http_proxy.Config.{Networks, Config}
use rust_http_proxy.RawServe.Files.{Files, serve_path}
use rust_http_proxy.RawServe.Serve.{serve_http_request}
use rust_http_proxy.ForwardClient.{Transport, Pool, Clock, HttpConnection, send_request, Sent}
use rust_http_proxy.ForwardClient.Pool.{count_traffic}
use rust_http_proxy.Proxy.{unwrap_or, mod_http1_proxy_req}
use rust_http_proxy.Proxy.Handle as Handle
use rust_http_proxy.Proxy.Handle.{
  Env, Effect, served, proxied, InterceptResultAdapter, drop, return, continue, axum_paths, handle,
}

-- `InterceptResult`, as far as the program makes one; the error is what `AppProxyError` wraps.
pub data InterceptResult (http : Http) : Type 0 where
  dropped : InterceptResult http
  returned : Response http → InterceptResult http
  continued : Request http → InterceptResult http
  failed : IoError → InterceptResult http
  panicked : InterceptResult http

-- `From<InterceptResultAdapter>`
abbrev pub into : (http : Http) → InterceptResultAdapter http → InterceptResult http
into http drop = dropped
into http (return resp) = returned resp
into http (continue req) = continued req

-- The `match` of `intercept`
abbrev pub adapted : (http : Http) → Result (InterceptResultAdapter http) → InterceptResult http
adapted http (ok adaptor) = into http adaptor
adapted http (err e) = failed e
adapted http panic = panicked

-- The counters of the whole program.
pub record Counters : Type 1 where
  pub reverse_proxy_req : Family ReverseProxyReqLabel
  pub http_req_counter : Family ReqLabels
  pub proxy_traffic : Family AccessLabel

module _ (http : Http) (net : Networks) (counters : Counters) (timer : Timer)
    (transport : Transport http counters.proxy_traffic timer)
    (pool : Pool http counters.proxy_traffic timer transport) where
  open counters use {reverse_proxy_req, http_req_counter, proxy_traffic}

  -- What does not change while the server runs, but the captures of the regular expressions, the
  -- clients, the clock of the file system and the random numbers, which are not the program's own.
  pub record Setup : Type 1 where
    pub config : Config net
    pub files : Files
    pub range_captures : Bytes → Option (Bytes × Bytes)
    pub error_text : IoError → Bytes
    pub engine : Bytes → Bytes
    pub send_reverse : Request http → Option (Response http)
    pub percent_decode : Bytes → Option Bytes
    pub random_range : ℕ → ℕ → ℕ
    pub local_ip : Bytes
    pub challenge : http.HeaderValue
    pub proxy_traffic_at : proxy_traffic.State

  pub record World : Type 0 where
    pub reverse_reqs : reverse_proxy_req.State
    pub http_reqs : http_req_counter.State
    pub cache_conn : pool.State

  pub record Arrival : Type 0 where
    pub clock : Clock
    pub req : Request http
    pub client : SocketAddr

  -- A request with its answer, and the connection to the target that it was sent on.
  pub record Handled : Type 0 where
    pub req : Request http
    pub answer : InterceptResult http
    pub used : Option (HttpConnection http proxy_traffic timer transport)

  module _ (setup : Setup) where
    -- `serve_http_request` with the configured directory and referers.
    unfoldable pub file_server :
        Request http
        → Bytes
        → http_req_counter.State
        → http_req_counter.State × Result (Response http)
    unfolding serve_http_request serve_path
    file_server req path metrics =
        serve_http_request http_req_counter http setup.engine setup.config.referer_keywords_to_self
          (serve_path setup.files http setup.range_captures setup.error_text
            setup.config.web_content_path)
          req path metrics

    unfoldable pub forward_client :
        Clock
        → Request http
        → AccessLabel
        → pool.State
        → Sent http proxy_traffic timer transport pool
    unfolding send_request count_traffic
    forward_client clock req access_label cache_conn =
        send_request http proxy_traffic timer transport pool clock req access_label
          (count_traffic http proxy_traffic timer transport setup.proxy_traffic_at) cache_conn

    -- What the handler finds at a request.
    abbrev pub env_at : World → Clock → Env http net reverse_proxy_req
    env_at world clock = record {
      config = setup.config;
      send_reverse = setup.send_reverse;
      send_forward = λ req l. (forward_client clock req l world.cache_conn).result;
      percent_decode = setup.percent_decode;
      serve_http_request = λ req client path. (file_server req path world.http_reqs).1;
      random_range = setup.random_range;
      local_ip = setup.local_ip;
      challenge = setup.challenge;
    }

    abbrev pub decoded_path : Request http → Bytes
    decoded_path req = unwrap_or http (setup.percent_decode (http.path req.uri)) (http.path req.uri)

    -- The counters of the files, after a request with that effect.
    abbrev pub counted_files :
        Effect → Request http → http_req_counter.State → http_req_counter.State
    counted_files served req metrics =
        if any (beq (decoded_path req)) axum_paths
        then metrics
        else (file_server req (decoded_path req) metrics).0
    counted_files _ req metrics = metrics

    abbrev pub sent_to :
        AccessLabel
        → Clock
        → Result (Request http)
        → pool.State
        → Option (Sent http proxy_traffic timer transport pool)
    sent_to l clock (ok req') cache_conn = some (forward_client clock req' l cache_conn)
    sent_to l clock (err e) cache_conn = none
    sent_to l clock panic cache_conn = none

    -- What was sent to a target for a request with that effect, if anything: `simple_proxy` sends the
    -- request that `mod_http1_proxy_req` makes.
    abbrev pub sent_for :
        Effect
        → Clock
        → Request http
        → pool.State
        → Option (Sent http proxy_traffic timer transport pool)
    sent_for (proxied l) clock req cache_conn =
        sent_to l clock (mod_http1_proxy_req http req) cache_conn
    sent_for _ clock req cache_conn = none

    abbrev pub pool_after :
        Option (Sent http proxy_traffic timer transport pool) → pool.State → pool.State
    pool_after none cache_conn = cache_conn
    pool_after (some sent) cache_conn = sent.cache_conn

    abbrev pub connection_used :
        Option (Sent http proxy_traffic timer transport pool)
        → Option (HttpConnection http proxy_traffic timer transport)
    connection_used none = none
    connection_used (some sent) = sent.used

    -- `ProxyInterceptor::intercept`
    unfoldable pub intercept : Arrival → World → World × Handled
    unfolding handle
    intercept a world =
        let outcome =
          handle http net reverse_proxy_req (env_at world a.clock) a.req a.client
            world.reverse_reqs in
        let sent = sent_for outcome.effect a.clock a.req world.cache_conn in
        (
          record {
            reverse_reqs = outcome.metrics;
            http_reqs = counted_files outcome.effect a.req world.http_reqs;
            cache_conn = pool_after sent world.cache_conn;
          },
          record { req = a.req; answer = adapted http outcome.result; used = connection_used sent },
        )

    -- Requests one after the other.
    unfoldable pub intercept_all : List Arrival → World → List Handled
    unfolding intercept
    intercept_all [] world = []
    intercept_all (a ∷ more) world =
        let (after, handled) = intercept a world in handled ∷ intercept_all more after
