-- ===== src/Server/Paths.antt =====
-- Paths that the server never serves from files.
use rust_http_proxy.Common.{
  ◌≡◌, refl, ap, inl, inr, Bool, true, Bool-cases, ◌||◌, ◌==◌, any, if◌then◌else◌, Result, none,
  Result-cases, ok, ◌>>=◌, arith,
}
use rust_http_proxy.Common.Bytes.{beq}
use rust_http_proxy.Http.{Http, Request, Response}
use rust_http_proxy.Ip.{SocketAddr}
use rust_http_proxy.Labels.{ReverseProxyReqLabel}
use rust_http_proxy.Metrics.{Family}
use rust_http_proxy.IoX.Timeout.{Timer}
use rust_http_proxy.Config.{Networks}
use rust_http_proxy.RawServe.{not_found}
use rust_http_proxy.RawServe.Files.{forbidden}
use rust_http_proxy.RawServe.Hidden.{serve_http_request-forbidden}
use rust_http_proxy.ForwardClient.{Transport, Pool}
use rust_http_proxy.Proxy.{extract_scheme_host_port}
use rust_http_proxy.Proxy.Handle.{
  Effect, served, Env, is_connect, axum_paths, continue, return, serve_request, serve_stage, handle,
  InterceptResultAdapter, Outcome,
}
use rust_http_proxy.Proxy.Access.{
  default_scheme, handle-connect, handle-nothing, handle-not_connect, handle-effect,
}
use rust_http_proxy.Proxy.Safety.{proxy_stage-located}
use rust_http_proxy.Server.{
  Counters, Setup, World, Arrival, env_at, file_server, decoded_path, counted_files, continued,
  intercept,
}

module _ (http : Http) (net : Networks) (family : Family ReverseProxyReqLabel)
    (env : Env http net family) where
  -- A file that is not there is left to the router.
  abbrev of_file : Request http → SocketAddr → Result (InterceptResultAdapter http)
  of_file req client = serve_request http net family env req client >>= λ res.
      ok (if res.status == 404 then continue req else return res)

  -- The outcome of a request that is served from files.
  abbrev file_outcome : Request http → SocketAddr → family.State → Outcome http net family
  file_outcome req client metrics = record {
    metrics = metrics;
    effect = served;
    result = of_file req client;
  }

  serve_stage-file_outcome :
      (req : Request http) (client : SocketAddr) (metrics : family.State)
      → (serve_stage http net family env req client metrics).effect ≡ served
      → serve_stage http net family env req client metrics ≡ file_outcome req client metrics
  unfolding serve_stage
  serve_stage-file_outcome req client metrics e = ground arith

  handle-file_outcome :
      (req : Request http) (client : SocketAddr) (metrics : family.State)
      → (handle http net family env req client metrics).effect ≡ served
      → handle http net family env req client metrics ≡ file_outcome req client metrics
  handle-file_outcome req client metrics e = elim (Bool-cases (is_connect req.method)) [
    | inl c ↦ absurd (
        ground (
          arith,
          handle-connect http net family env req client metrics c,
          proxy_stage-located http net family env req client metrics,
        ))
    | inr c ↦
        elim (Result-cases
          (extract_scheme_host_port http req (default_scheme http net family env))) [
            | inr bad ↦
                absurd (ground (arith, handle-nothing http net family env req client metrics c bad))
            | inl ((origin, domain), x) ↦ ground (
              arith,
              handle-not_connect http net family env req client metrics origin domain c x,
              handle-effect http net family env req client metrics c origin domain x,
              proxy_stage-located http net family env req client metrics,
              serve_stage-file_outcome req client metrics,
            )
          ]
  ]

module _ (http : Http) (net : Networks) (counters : Counters) (timer : Timer)
    (transport : Transport http counters.proxy_traffic timer)
    (pool : Pool http counters.proxy_traffic timer transport)
    (setup : Setup http net counters timer transport pool)
    (world : World http net counters timer transport pool) where
  -- The paths that are the router's, or never served.
  abbrev pub no_file_path : Request http → Bool
  no_file_path req =
      let path = decoded_path http net counters timer transport pool setup req in
      any (beq path) axum_paths || forbidden path

  abbrev pub handler_effect : Arrival http net counters timer transport pool → Effect
  handler_effect a =
      (handle http net counters.reverse_proxy_req
        (env_at http net counters timer transport pool setup world a.clock) a.req a.client
        world.reverse_reqs).effect

  abbrev the_file_server : Request http → counters.http_req_counter.State × Result (Response http)
  the_file_server req =
      file_server http net counters timer transport pool setup req
        (decoded_path http net counters timer transport pool setup req) world.http_reqs

  file_server-forbidden :
      (req : Request http)
      → forbidden (decoded_path http net counters timer transport pool setup req) ≡ true
      → the_file_server req ≡ (world.http_reqs, not_found http)
  unfolding file_server
  file_server-forbidden req hidden =
      serve_http_request-forbidden setup.files http setup.range_captures setup.error_text
        setup.config.web_content_path counters.http_req_counter setup.engine
        setup.config.referer_keywords_to_self req
        (decoded_path http net counters timer transport pool setup req) world.http_reqs hidden

  serve_request-not_found :
      (a : Arrival http net counters timer transport pool)
      → no_file_path a.req ≡ true
      → serve_request http net counters.reverse_proxy_req
          (env_at http net counters timer transport pool setup world a.clock)
          a.req
          a.client
        ≡ not_found http
  unfolding serve_request
  serve_request-not_found a hidden =
      let path = decoded_path http net counters timer transport pool setup a.req in
      elim (Bool-cases (any (beq path) axum_paths)) [
        | inl routed ↦ rw routed refl
        | inr unrouted ↦ rw unrouted (ap (λ r. r.1) (file_server-forbidden a.req (ground arith)))
      ]

  counted_files-same :
      (req : Request http)
      → no_file_path req ≡ true
      → counted_files http net counters timer transport pool setup served req world.http_reqs
        ≡ world.http_reqs
  counted_files-same req hidden =
      let path = decoded_path http net counters timer transport pool setup req in
      elim (Bool-cases (any (beq path) axum_paths)) [
        | inl routed ↦ rw routed refl
        | inr unrouted ↦ rw unrouted (ap (λ r. r.0) (file_server-forbidden req (ground arith)))
      ]

  -- A request that would be served from files, but whose decoded path is the router's, has `/..` in it
  -- or is below `/.git/`, is given on unchanged to the router: no counter and no pooled connection
  -- changes, and nothing is sent to a target.
  pub intercept-continued :
      (a : Arrival http net counters timer transport pool)
      → handler_effect a ≡ served
      → no_file_path a.req ≡ true
      → intercept http net counters timer transport pool setup a world
        ≡ (world, record { req = a.req; answer = continued a.req; used = none })
  unfolding intercept
  intercept-continued a served_files hidden =
      let env = env_at http net counters timer transport pool setup world a.clock in
      let outcome =
        handle-file_outcome http net counters.reverse_proxy_req env a.req a.client
          world.reverse_reqs served_files in
      let answer = serve_request-not_found a hidden in
      let counted = counted_files-same a.req hidden in rw (outcome, answer, counted) refl
