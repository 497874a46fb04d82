-- ===== src/Proxy/Safety.antt =====
-- What `ProxyHandler::handle` of rust_http_proxy/src/proxy.rs lets a client do: who reaches a
-- target, who is served files, and what is answered without a look at the credentials.
use rust_http_proxy.Common.{
  ◌≡◌, ap, ◌⊎◌, inl, inr, Bool, true, false, ◌||◌, Bool-cases, none, some, List, any, Result-cases,
  arith,
}
use rust_http_proxy.Common.Bytes.{Bytes}
use rust_http_proxy.Http.{Http, Request}
use rust_http_proxy.Ip.{SocketAddr, to_canonical}
use rust_http_proxy.Labels.{AccessLabel, ReverseProxyReqLabel}
use rust_http_proxy.Metrics.{Family}
use rust_http_proxy.Config.{Networks, serving_control}
use rust_http_proxy.Config.Laws.{parses, admits, any-parse_networks, is_empty-parse_networks}
use rust_http_proxy.Proxy.{extract_scheme_host_port}
use rust_http_proxy.Proxy.Tunnel.{tunnel_proxy}
use rust_http_proxy.Proxy.Handle.{
  Effect, reversed, served, Env, is_connect, proxy_stage, forward, simple_proxy, serve_stage,
  ip_refused, handle,
}
use rust_http_proxy.Proxy.Access.{
  forwarded, Passed, default_scheme, proxy_stage-Passed, handle-connect, handle-effect,
  handle-nothing, serve_stage-effect,
}

module _ (http : Http) (net : Networks) (family : Family ReverseProxyReqLabel)
    (env : Env http net family) where
  serve_stage-forwarded :
      (req : Request http) (client : SocketAddr) (metrics : family.State)
      → forwarded (serve_stage http net family env req client metrics).effect ≡ none
  serve_stage-forwarded req client metrics =
      ground (arith, serve_stage-effect http net family env req client metrics)

  -- Sending a request on is neither asking an upstream nor serving a file.
  abbrev pub is_forwarding : Effect → Bool
  is_forwarding (reversed _) = false
  is_forwarding served = false
  is_forwarding _ = true

  pub proxy_stage-located :
      (req : Request http) (client : SocketAddr) (metrics : family.State)
      → is_forwarding (proxy_stage http net family env req client metrics).effect ≡ true
  proxy_stage-located req client metrics =
      unfold proxy_stage forward simple_proxy tunnel_proxy in ground arith

  -- A request that `handle` sends on to its target, through the client or through a tunnel, has
  -- headers that `check_auth` accepts for the proxy, and is accounted to the user that they name,
  -- or to `unknown` where they name none.
  pub handle-Passed :
      (req : Request http) (client : SocketAddr) (metrics : family.State) (l : AccessLabel)
      → forwarded (handle http net family env req client metrics).effect ≡ some l
      → Passed http net family env req l
  handle-Passed req client metrics l e = elim (Bool-cases (is_connect req.method)) [
    | inl c ↦
        proxy_stage-Passed http net family env req client metrics l
          (rw (handle-connect http net family env req client metrics c) at e)
    | inr c ↦
        elim (Result-cases
          (extract_scheme_host_port http req (default_scheme http net family env))) [
            | inr bad ↦
                absurd (ground (arith, handle-nothing http net family env req client metrics c bad))
            | inl ((origin, domain), x) ↦
                proxy_stage-Passed http net family env req client metrics l (
                  ground (
                    arith,
                    handle-effect http net family env req client metrics c origin domain x,
                    serve_stage-forwarded req client metrics,
                  ))
          ]
  ]

  serve_stage-allowed :
      (client : SocketAddr) (prohibit : Bool) (networks : List Bytes)
      → env.config.serving_control ≡ serving_control net prohibit networks
      → (env.config.serving_control.prohibit_serving || ip_refused http net family env client)
        ≡ false
      → (prohibit ≡ false)
        × ((any (parses net) networks ≡ false)
            ⊎ (any (admits net (to_canonical client.ip)) networks ≡ true))
  unfolding ip_refused serving_control
  serve_stage-allowed client prohibit networks k s =
      let p = ap (λ c. c.prohibit_serving) k in
      let a = ap (λ c. c.allowed_networks) k in
      ground (
        arith,
        any-parse_networks net (to_canonical client.ip) networks,
        is_empty-parse_networks net networks,
      )

  -- With the serving control of a command line, files are looked up only if serving is not
  -- prohibited, and, where the command line names a network that parses, only for a client whose
  -- address one of the named networks holds.
  pub handle-served :
      (req : Request http) (client : SocketAddr) (metrics : family.State) (prohibit : Bool)
      (networks : List Bytes)
      → env.config.serving_control ≡ serving_control net prohibit networks
      → (handle http net family env req client metrics).effect ≡ served
      → (prohibit ≡ false)
        × ((any (parses net) networks ≡ false)
            ⊎ (any (admits net (to_canonical client.ip)) networks ≡ true))
  handle-served req client metrics prohibit networks k e =
      elim (Bool-cases (is_connect req.method)) [
        | inl c ↦ absurd (
            ground (
              arith,
              handle-connect http net family env req client metrics c,
              proxy_stage-located req client metrics,
            ))
        | inr c ↦
            elim (Result-cases
              (extract_scheme_host_port http req (default_scheme http net family env))) [
                | inr bad ↦
                    absurd
                      (ground (arith, handle-nothing http net family env req client metrics c bad))
                | inl ((origin, domain), x) ↦ from_stage (
                    ground (
                      arith,
                      handle-effect http net family env req client metrics c origin domain x,
                      proxy_stage-located req client metrics,
                    ))
              ]
      ]
    where
      from_stage :
          (serve_stage http net family env req client metrics).effect ≡ served
          → (prohibit ≡ false)
            × ((any (parses net) networks ≡ false)
                ⊎ (any (admits net (to_canonical client.ip)) networks ≡ true))
      from_stage s =
          serve_stage-allowed client prohibit networks k
            (ground (arith, serve_stage-effect http net family env req client metrics))
