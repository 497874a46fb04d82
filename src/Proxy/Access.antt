-- ===== src/Proxy/Access.antt =====
-- Who gets what from `ProxyHandler::handle` of rust_http_proxy/src/proxy.rs.
use rust_http_proxy.Common.{
  ◌≡◌, ◌⊎◌, inl, inr, Bool, true, false, not, ◌||◌, if◌then◌else◌, Option, Option-cases, none, some,
  Result-cases, ok, err, panic, IoError, arith,
}
use rust_http_proxy.Common.Bytes.{Bytes, codes}
use rust_http_proxy.Http.{Http, Request}
use rust_http_proxy.Ip.{SocketAddr}
use rust_http_proxy.Labels.{AccessLabel, ReverseProxyReqLabel, SchemeHostPort}
use rust_http_proxy.Reverse.{LocationConfig}
use rust_http_proxy.Metrics.{Family}
use rust_http_proxy.Auth.{check_auth}
use rust_http_proxy.Config.{Networks}
use rust_http_proxy.Proxy.{build_access_label, unwrap_or, extract_scheme_host_port, is_http_2}
use rust_http_proxy.Reverse.Setup.{is_some}
use rust_http_proxy.Reverse.Handle as ReverseHandle
use rust_http_proxy.Reverse.UpstreamRequest.{build_upstream_req}
use rust_http_proxy.Proxy.Tunnel.{tunnel_proxy}
use rust_http_proxy.Proxy.Handle.{
  Effect, nothing, reversed, served, proxied, tunnelled, Env, Outcome, is_connect, simple_proxy,
  forward, proxy_stage, reverse_stage, serve_stage, ip_refused, matching_location, handle,
}

-- The label of a request that left for its target.
abbrev pub forwarded : Effect → Option AccessLabel
forwarded nothing = none
forwarded (reversed _) = none
forwarded served = none
forwarded (proxied l) = some l
forwarded (tunnelled l) = some l

build_access_label-username :
    (http : Http) (req : Request http) (client : SocketAddr) (username : Bytes) (l : AccessLabel)
    → build_access_label http req client username ≡ ok l
    → l.username ≡ username
unfolding build_access_label
build_access_label-username http req client username l e = ground arith

module _ (http : Http) (net : Networks) (family : Family ReverseProxyReqLabel)
    (env : Env http net family) where
  simple_proxy-username :
      (req : Request http) (client : SocketAddr) (username : Bytes) (l : AccessLabel)
      → forwarded (simple_proxy http net family env req client username).0 ≡ some l
      → l.username ≡ username
  unfolding simple_proxy
  simple_proxy-username req client username l e =
      ground (arith, build_access_label-username http req client username)

  tunnel_proxy-username :
      (req : Request http) (client : SocketAddr) (username : Bytes) (l : AccessLabel)
      → (tunnel_proxy http env.random_range env.local_ip req client username).0 ≡ some l
      → l.username ≡ username
  unfolding tunnel_proxy
  tunnel_proxy-username req client username l e = ground arith

  forward-username :
      (req : Request http) (client : SocketAddr) (username : Bytes) (l : AccessLabel)
      → forwarded (forward http net family env req client username).0 ≡ some l
      → l.username ≡ username
  unfolding forward
  forward-username req client username l e = ground (
    arith,
    simple_proxy-username req client username l,
    tunnel_proxy-username req client username l,
  )

  -- The label names a user whom `check_auth` let pass.
  abbrev pub Passed : Request http → AccessLabel → Type 0
  Passed req l =
      (user : Option Bytes) × (check_auth http req.headers "proxy-authorization"
          env.config.basic_auth
        ≡ ok user)
      × (l.username ≡ unwrap_or http user (codes "unknown"))

  pub proxy_stage-Passed :
      (req : Request http) (client : SocketAddr) (metrics : family.State) (l : AccessLabel)
      → forwarded (proxy_stage http net family env req client metrics).effect ≡ some l
      → Passed req l
  unfolding proxy_stage
  proxy_stage-Passed req client metrics l e =
      elim (Result-cases
        (check_auth http req.headers "proxy-authorization" env.config.basic_auth)) [
          | inl (user, c) ↦ (
            user,
            c,
            ground (arith, forward-username req client (unwrap_or http user (codes "unknown")) l),
          )
          | inr (inl (x, c)) ↦ absurd (ground arith)
          | inr (inr c) ↦ absurd (ground arith)
        ]

  -- Where a request goes that is no `CONNECT`.
  abbrev pub stays : Request http → Bool
  stays req = is_http_2 req.version || not (is_some (http.host req.uri))

  abbrev pub default_scheme : Bytes
  default_scheme = if env.config.over_tls then codes "https" else codes "http"

  pub handle-not_connect :
      (req : Request http) (client : SocketAddr) (metrics : family.State) (origin : SchemeHostPort)
      (domain : Bytes)
      → is_connect req.method ≡ false
      → extract_scheme_host_port http req default_scheme ≡ ok (origin, domain)
      → handle http net family env req client metrics
        ≡ elim (matching_location http net family env req domain)
            as (λ _. Outcome http net family) [
              | some location ↦ reverse_stage http net family env location req client origin metrics
              | none ↦
                  if stays req
                  then serve_stage http net family env req client metrics
                  else proxy_stage http net family env req client metrics
            ]
  handle-not_connect req client metrics origin domain c e = unfold handle in rw (c, e)

  pub handle-connect :
      (req : Request http) (client : SocketAddr) (metrics : family.State)
      → is_connect req.method ≡ true
      → handle http net family env req client metrics
        ≡ proxy_stage http net family env req client metrics
  handle-connect req client metrics c = unfold handle in rw c

  pub handle-nothing :
      (req : Request http) (client : SocketAddr) (metrics : family.State)
      → is_connect req.method ≡ false
      → ((x : IoError) × (extract_scheme_host_port http req default_scheme ≡ err x))
        ⊎ (extract_scheme_host_port http req default_scheme ≡ panic)
      → (handle http net family env req client metrics).effect ≡ nothing
  handle-nothing req client metrics c (inl (x, e)) = unfold handle in rw (c, e)
  handle-nothing req client metrics c (inr e) = unfold handle in rw (c, e)

  -- An upstream is asked if a request for it can be built, and nobody else is.
  pub reverse_stage-effect :
      (location : LocationConfig) (req : Request http) (client : SocketAddr)
      (origin : SchemeHostPort) (metrics : family.State)
      → (reverse_stage http net family env location req client origin metrics).effect
        ≡ elim (build_upstream_req http location req) as (λ _. Effect) [
          | ok upstream_req ↦ reversed location
          | err e ↦ nothing
          | panic ↦ nothing
        ]
  reverse_stage-effect location req client origin metrics =
      unfold reverse_stage ReverseHandle.handle in ground arith

  pub serve_stage-effect :
      (req : Request http) (client : SocketAddr) (metrics : family.State)
      → (serve_stage http net family env req client metrics).effect ≡ (
          if env.config.serving_control.prohibit_serving || ip_refused http net family env client
          then nothing
          else served)
  serve_stage-effect req client metrics = unfold serve_stage in ground arith

  pub handle-effect :
      (req : Request http) (client : SocketAddr) (metrics : family.State)
      → is_connect req.method ≡ false
      → (origin : SchemeHostPort) (domain : Bytes)
      → extract_scheme_host_port http req default_scheme ≡ ok (origin, domain)
      → (handle http net family env req client metrics).effect
        ≡ elim (matching_location http net family env req domain) as (λ _. Effect) [
          | some location ↦ elim (build_upstream_req http location req) as (λ _. Effect) [
            | ok upstream_req ↦ reversed location
            | err e ↦ nothing
            | panic ↦ nothing
          ]
          | none ↦
              if stays req
              then (serve_stage http net family env req client metrics).effect
              else (proxy_stage http net family env req client metrics).effect
        ]
  handle-effect req client metrics c origin domain e =
      elim (Option-cases (matching_location http net family env req domain)) [
        | inl m ↦ rw (handle-not_connect req client metrics origin domain c e, m) (ground arith)
        | inr (location, m) ↦
            rw (handle-not_connect req client metrics origin domain c e, m)
              (reverse_stage-effect location req client origin metrics)
      ]
