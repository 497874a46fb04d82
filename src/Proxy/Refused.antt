-- ===== src/Proxy/Refused.antt =====
-- Options of rust_http_proxy/src/config.rs under which the handler of rust_http_proxy/src/proxy.rs has no
-- response for a stranger.
use rust_http_proxy.Common.{
  ◌≡◌, refl, true, false, Bool-cases, inl, inr, [], Result, ok, err, panic, IoError, io,
  permission_denied, Result-cases, none, arith,
}
use rust_http_proxy.Common.Bytes.{Bytes}
use rust_http_proxy.Http.{Http, Request}
use rust_http_proxy.Ip.{SocketAddr}
use rust_http_proxy.Labels.{ReverseProxyReqLabel}
use rust_http_proxy.Metrics.{Family}
use rust_http_proxy.Auth.{check_auth}
use rust_http_proxy.Config.{Networks}
use rust_http_proxy.Proxy.{extract_scheme_host_port}
use rust_http_proxy.Reverse.Handle.{locations_of}
use rust_http_proxy.Proxy.Handle.{
  Env, Outcome, nothing, InterceptResultAdapter, drop, is_connect, matching_location, serve_stage,
  proxy_stage, handle,
}
use rust_http_proxy.Proxy.Access.{default_scheme, stays, handle-connect, handle-not_connect}

module _ (http : Http) (net : Networks) (family : Family ReverseProxyReqLabel)
    (env : Env http net family) where
  -- Neither a response nor a request to go on with: the handler asks to drop the request, or fails.
  pub data IsDropOrError : Result (InterceptResultAdapter http) → Type 0 where
    dropped : IsDropOrError (ok drop)
    failed : (why : IoError) → IsDropOrError (err why)
    panicked : IsDropOrError panic

  -- Nothing is asked of anybody, nothing is counted, and the handler returns no response.
  pub record IsRefused (metrics : family.State) (outcome : Outcome http net family) : Type 0 where
    pub asks_nobody : outcome.effect ≡ nothing
    pub counts_nothing : outcome.metrics ≡ metrics
    pub is_drop_or_error : IsDropOrError outcome.result

  serve_stage-IsRefused :
      (req : Request http) (client : SocketAddr) (metrics : family.State)
      → env.config.serving_control.prohibit_serving ≡ true
      → IsRefused metrics (serve_stage http net family env req client metrics)
  serve_stage-IsRefused req client metrics off =
      unfold serve_stage in
      rw off (record { asks_nobody = refl; counts_nothing = refl; is_drop_or_error = dropped })

  proxy_stage-refused :
      (req : Request http) (client : SocketAddr) (metrics : family.State) (why : IoError)
      → env.config.never_ask_for_auth ≡ true
      → check_auth http req.headers "proxy-authorization" env.config.basic_auth ≡ err why
      → proxy_stage http net family env req client metrics ≡ record {
        metrics = metrics;
        effect = nothing;
        result = err (io permission_denied "wrong basic auth, closing socket...");
      }
  unfolding proxy_stage
  proxy_stage-refused req client metrics why never refused = ground arith

  proxy_stage-IsRefused :
      (req : Request http) (client : SocketAddr) (metrics : family.State) (why : IoError)
      → env.config.never_ask_for_auth ≡ true
      → check_auth http req.headers "proxy-authorization" env.config.basic_auth ≡ err why
      → IsRefused metrics (proxy_stage http net family env req client metrics)
  proxy_stage-IsRefused req client metrics why never refused =
      rw (proxy_stage-refused req client metrics why never refused)
        (record { asks_nobody = refl; counts_nothing = refl; is_drop_or_error = failed _ })

  matching_location-none :
      (req : Request http) (domain : Bytes)
      → env.config.reverse_proxy_config.locations ≡ []
      → matching_location http net family env req domain ≡ none
  matching_location-none req domain empty = unfold matching_location locations_of in rw empty refl

  handle-stays :
      (req : Request http) (client : SocketAddr) (metrics : family.State) (why : IoError)
      → is_connect req.method ≡ false
      → env.config.serving_control.prohibit_serving ≡ true
      → env.config.never_ask_for_auth ≡ true
      → env.config.reverse_proxy_config.locations ≡ []
      → check_auth http req.headers "proxy-authorization" env.config.basic_auth ≡ err why
      → IsRefused metrics (handle http net family env req client metrics)
  handle-stays req client metrics why c off never empty refused =
      elim (Result-cases (extract_scheme_host_port http req (default_scheme http net family env))) [
        | inl ((origin, domain), x) ↦
            rw
              (
                handle-not_connect http net family env req client metrics origin domain c x,
                matching_location-none req domain empty,
              )
              (elim (Bool-cases (stays http net family env req)) [
                | inl s ↦ rw s (serve_stage-IsRefused req client metrics off)
                | inr s ↦ rw s (proxy_stage-IsRefused req client metrics why never refused)
              ])
        | inr (inl (bad, x)) ↦
            unfold handle in
            rw (c, x)
              (record { asks_nobody = refl; counts_nothing = refl; is_drop_or_error = failed bad })
        | inr (inr x) ↦
            unfold handle in
            rw (c, x)
              (record { asks_nobody = refl; counts_nothing = refl; is_drop_or_error = panicked })
      ]

  -- If serving is prohibited, authentication is never asked for and no location is configured, then
  -- for a request that `check_auth` refuses, whatever its method, path and address are, the handler
  -- has no response and nothing for the router: it returns `drop` or fails, with an error that its
  -- caller hands on. Nothing is asked of anybody, and nothing is counted.
  pub handle-IsRefused :
      (req : Request http) (client : SocketAddr) (metrics : family.State) (why : IoError)
      → env.config.serving_control.prohibit_serving ≡ true
      → env.config.never_ask_for_auth ≡ true
      → env.config.reverse_proxy_config.locations ≡ []
      → check_auth http req.headers "proxy-authorization" env.config.basic_auth ≡ err why
      → IsRefused metrics (handle http net family env req client metrics)
  handle-IsRefused req client metrics why off never empty refused =
      elim (Bool-cases (is_connect req.method)) [
        | inl c ↦
            rw (handle-connect http net family env req client metrics c)
              (proxy_stage-IsRefused req client metrics why never refused)
        | inr c ↦ handle-stays req client metrics why c off never empty refused
      ]
