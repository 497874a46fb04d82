-- ===== src/Proxy/Handle.antt =====
-- `ProxyHandler::handle` of rust_http_proxy/src/proxy.rs, with `simple_proxy` and `serve_request`.
-- The clients for upstreams and targets, the files and the random numbers are fields of an
-- environment; what the handler does with them is the effect of the outcome.
use rust_http_proxy.Common.{
  ℕ, Bool, not, ◌&&◌, ◌||◌, true, false, ◌==◌, if◌then◌else◌, any, is_empty, Option, none, some,
  List, [], ◌∷◌, Result, ok, err, panic, ◌>>=◌, io, permission_denied,
}
use rust_http_proxy.Common.Bytes.{Bytes, codes, beq}
use rust_http_proxy.Http.{Http, Request, Response, Method, connect}
use rust_http_proxy.Ip.{SocketAddr, to_canonical}
use rust_http_proxy.Labels.{SchemeHostPort, AccessLabel, ReverseProxyReqLabel}
use rust_http_proxy.Metrics.{Family}
use rust_http_proxy.Auth.{check_auth, build_authenticate_resp}
use rust_http_proxy.Config.{Networks, Config}
use rust_http_proxy.RawServe.{not_found}
use rust_http_proxy.Reverse.{LocationConfig}
use rust_http_proxy.Reverse.Handle as ReverseHandle
use rust_http_proxy.Reverse.Handle.{find_location, locations_of}
use rust_http_proxy.Reverse.Setup.{is_some}
use rust_http_proxy.Proxy.{
  is_http_2, extract_scheme_host_port, mod_http1_proxy_req, build_access_label, unwrap_or,
}
use rust_http_proxy.Proxy.Tunnel.{tunnel_proxy}

abbrev pub is_connect : Method → Bool
is_connect connect = true
is_connect _ = false

-- `AXUM_PATHS` of rust_http_proxy/src/axum_handler.rs
abbrev pub axum_paths : List Bytes
axum_paths =
    codes "/ip"
    ∷ codes "/metrics"
    ∷ codes "/nt"
    ∷ codes "/net"
    ∷ codes "/netx"
    ∷ codes "/net.json"
    ∷ []

-- `InterceptResultAdapter`
pub data InterceptResultAdapter (http : Http) : Type 0 where
  drop : InterceptResultAdapter http
  return : Response http → InterceptResultAdapter http
  continue : Request http → InterceptResultAdapter http

-- What a request made the handler do: ask an upstream through a location, look for a file, send the
-- request on to its target, or open a tunnel to it.
pub data Effect : Type 0 where
  nothing : Effect
  reversed : LocationConfig → Effect
  served : Effect
  proxied : AccessLabel → Effect
  tunnelled : AccessLabel → Effect

module _ (http : Http) (net : Networks) (reverse_proxy_req : Family ReverseProxyReqLabel) where
  pub record Env : Type 0 where
    pub config : Config net
    -- the client for upstreams, and the forward proxy's client
    pub send_reverse : Request http → Option (Response http)
    pub send_forward : Request http → AccessLabel → Result (Response http)
    -- `percent_decode_str(…).decode_utf8()`, and `raw_serve::serve_http_request`
    pub percent_decode : Bytes → Option Bytes
    pub serve_http_request : Request http → SocketAddr → Bytes → Result (Response http)
    pub random_range : ℕ → ℕ → ℕ
    pub local_ip : Bytes
    -- `HeaderValue::from_static` of the challenge
    pub challenge : http.HeaderValue

  pub record Outcome : Type 0 where
    pub metrics : reverse_proxy_req.State
    pub effect : Effect
    pub result : Result (InterceptResultAdapter http)

  module _ (env : Env) where
    unfoldable pub serve_request : Request http → SocketAddr → Result (Response http)
    serve_request req client =
        let raw_path = http.path req.uri in
        let path : Bytes = unwrap_or http (env.percent_decode raw_path) raw_path in
        if any (beq path) axum_paths then not_found http else env.serve_http_request req client path

    -- The files: not at all if serving is prohibited, and for the allowed networks only, if any.
    unfoldable pub ip_refused : SocketAddr → Bool
    ip_refused client =
        let networks = env.config.serving_control.allowed_networks in
        not (is_empty networks) && not (any (λ n. net.contains n (to_canonical client.ip)) networks)

    unfoldable pub serve_stage : Request http → SocketAddr → reverse_proxy_req.State → Outcome
    unfolding serve_request ip_refused
    serve_stage req client metrics =
        if env.config.serving_control.prohibit_serving
        then record { metrics = metrics; effect = nothing; result = ok drop }
        else if ip_refused client
        then record { metrics = metrics; effect = nothing; result = ok drop }
        else record {
          metrics = metrics;
          effect = served;
          result = serve_request req client >>= λ res.
              ok (if res.status == 404 then continue req else return res);
        }

    unfoldable pub simple_proxy :
        Request http → SocketAddr → Bytes → Effect × Result (Response http)
    unfolding build_access_label mod_http1_proxy_req
    simple_proxy req client username = elim (build_access_label http req client username) [
      | err e ↦ (nothing, err e)
      | panic ↦ (nothing, panic)
      | ok access_label ↦ elim (mod_http1_proxy_req http req) [
        | err e ↦ (nothing, err e)
        | panic ↦ (nothing, panic)
        | ok req' ↦ (proxied access_label, env.send_forward req' access_label)
      ]
    ]

    abbrev tunnel_effect : Option AccessLabel → Effect
    tunnel_effect none = nothing
    tunnel_effect (some l) = tunnelled l

    unfoldable pub forward : Request http → SocketAddr → Bytes → Effect × Result (Response http)
    unfolding simple_proxy tunnel_proxy
    forward req client username =
        let (label, resp) = tunnel_proxy http env.random_range env.local_ip req client username in
        if is_connect req.method
        then (tunnel_effect label, resp)
        else simple_proxy req client username

    -- The proxy stage: without the right header nothing is sent on.
    unfoldable pub proxy_stage : Request http → SocketAddr → reverse_proxy_req.State → Outcome
    unfolding check_auth forward build_authenticate_resp
    proxy_stage req client metrics =
        elim (check_auth http req.headers "proxy-authorization" env.config.basic_auth) [
          | ok username_option ↦
              let (effect, resp) =
                forward req client (unwrap_or http username_option (codes "unknown")) in
              record { metrics = metrics; effect = effect; result = resp >>= λ r. ok (return r) }
          | err e ↦ record {
            metrics = metrics;
            effect = nothing;
            result =
                if env.config.never_ask_for_auth
                then err (io permission_denied "wrong basic auth, closing socket...")
                else ok (return (build_authenticate_resp http env.challenge true));
          }
          | panic ↦ record { metrics = metrics; effect = nothing; result = panic }
        ]

    -- Nobody is asked where no request for the upstream can be built.
    abbrev reverse_effect : LocationConfig → Option (Request http) → Effect
    reverse_effect location none = nothing
    reverse_effect location (some upstream_req) = reversed location

    unfoldable pub reverse_stage :
        LocationConfig
        → Request http
        → SocketAddr
        → SchemeHostPort
        → reverse_proxy_req.State
        → Outcome
    unfolding ReverseHandle.handle
    reverse_stage location req client origin metrics =
        let (metrics', upstream_req, resp) =
          ReverseHandle.handle http reverse_proxy_req
            env.config.reverse_proxy_config.redirect_bachpaths env.send_reverse location req client
            origin metrics in
        record {
          metrics = metrics';
          effect = reverse_effect location upstream_req;
          result = resp >>= λ r. ok (return r);
        }

    -- The location of the request's domain that its path starts with.
    unfoldable pub matching_location : Request http → Bytes → Option LocationConfig
    unfolding locations_of find_location
    matching_location req domain = elim (locations_of env.config.reverse_proxy_config domain) [
      | none ↦ none
      | some locations ↦ find_location (http.path req.uri) locations
    ]

    abbrev default_scheme : Bytes
    default_scheme = if env.config.over_tls then codes "https" else codes "http"

    unfoldable pub handle : Request http → SocketAddr → reverse_proxy_req.State → Outcome
    unfolding extract_scheme_host_port matching_location reverse_stage serve_stage proxy_stage
    handle req client metrics =
        let proxy : Outcome = proxy_stage req client metrics in
        let other : Outcome = elim (extract_scheme_host_port http req default_scheme) [
          | err e ↦ record { metrics = metrics; effect = nothing; result = err e }
          | panic ↦ record { metrics = metrics; effect = nothing; result = panic }
          | ok (origin, domain) ↦ elim (matching_location req domain) [
            | some location ↦ reverse_stage location req client origin metrics
            | none ↦
                if is_http_2 req.version || not (is_some (http.host req.uri))
                then serve_stage req client metrics
                else proxy
          ]
        ] in
        if is_connect req.method then proxy else other
