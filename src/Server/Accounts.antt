-- ===== src/Server/Accounts.antt =====
-- Whose account the traffic to the targets is counted on, over all requests that the server handles.
use rust_http_proxy.Common.{
  ◌≡◌, refl, sym, subst, Option, none, some, List, [], ◌∷◌, All, Result, ok, err, panic,
}
use rust_http_proxy.Common.Bytes.{Bytes, codes}
use rust_http_proxy.Http.{Http, Request}
use rust_http_proxy.Labels.{AccessLabel}
use rust_http_proxy.IoX.Timeout.{Timer}
use rust_http_proxy.Auth.{check_auth}
use rust_http_proxy.Config.{Networks}
use rust_http_proxy.ForwardClient.{Transport, Pool, Clock, HttpConnection, Sent}
use rust_http_proxy.ForwardClient.Pool.{counted_for}
use rust_http_proxy.ForwardClient.Pool.Owners.{Owned, Popped, send_request-InOrder}
use rust_http_proxy.Proxy.{unwrap_or, mod_http1_proxy_req}
use rust_http_proxy.Proxy.Handle.{Effect, nothing, reversed, served, proxied, tunnelled}
use rust_http_proxy.Proxy.Access.{forwarded}
use rust_http_proxy.Proxy.Safety.{handle-Passed}
use rust_http_proxy.Server.{
  Counters, Setup, World, Arrival, Handled, forward_client, env_at, sent_to, sent_for, pool_after,
  connection_used, intercept, intercept_all,
}

module _ (http : Http) (net : Networks) (counters : Counters) (timer : Timer)
    (transport : Transport http counters.proxy_traffic timer)
    (pool : Pool http counters.proxy_traffic timer transport)
    (setup : Setup http net counters timer transport pool) where
  -- The label names a user whom the request's headers let pass.
  abbrev pub IsAccountOf : Request http → AccessLabel → Type 0
  IsAccountOf req label =
      (user : Option Bytes) × (check_auth http req.headers "proxy-authorization"
          setup.config.basic_auth
        ≡ ok user)
      × (label.username ≡ unwrap_or http user (codes "unknown"))

  -- The connection that a request was sent on, if any, counts on the account of the request.
  abbrev AccountedOn :
      Request http → Option (HttpConnection http counters.proxy_traffic timer transport) → Type 0
  AccountedOn req none = Unit {0}
  AccountedOn req (some c) =
      IsAccountOf req (counted_for http counters.proxy_traffic timer transport c)

  abbrev pub Accounted : Handled http net counters timer transport pool → Type 0
  Accounted h = AccountedOn h.req h.used

  abbrev OwnedPool : pool.State → Type 0
  OwnedPool = Owned http counters.proxy_traffic timer transport pool

  -- What a step leaves: a pool in order, and a connection on the right account.
  abbrev StepInOrder :
      Request http
      → pool.State
      → Option (Sent http counters.proxy_traffic timer transport pool)
      → Type 0
  StepInOrder req cache_conn sent =
      OwnedPool (pool_after http net counters timer transport pool setup sent cache_conn)
      × AccountedOn req (connection_used http net counters timer transport pool setup sent)

  Popped-AccountedOn :
      (req : Request http) (label : AccessLabel)
      (used : Option (HttpConnection http counters.proxy_traffic timer transport))
      → IsAccountOf req label
      → Popped http counters.proxy_traffic timer transport label used
      → AccountedOn req used
  Popped-AccountedOn req label none account same = tt
  Popped-AccountedOn req label (some c) account same = subst (IsAccountOf req) (sym same) account

  forward_client-StepInOrder :
      (clock : Clock) (req req' : Request http) (label : AccessLabel) (cache_conn : pool.State)
      → IsAccountOf req label
      → OwnedPool cache_conn
      → StepInOrder req cache_conn (
          some (
            forward_client http net counters timer transport pool setup clock req' label
              cache_conn))
  unfolding forward_client
  forward_client-StepInOrder clock req req' label cache_conn account h =
      let (kept, used) =
        send_request-InOrder http counters.proxy_traffic timer transport pool clock req' label
          setup.proxy_traffic_at cache_conn h in
      (kept, Popped-AccountedOn req label _ account used)

  sent_to-StepInOrder :
      (label : AccessLabel) (clock : Clock) (req : Request http) (made : Result (Request http))
      (cache_conn : pool.State)
      → IsAccountOf req label
      → OwnedPool cache_conn
      → StepInOrder req cache_conn
          (sent_to http net counters timer transport pool setup label clock made cache_conn)
  sent_to-StepInOrder label clock req (ok req') cache_conn account h =
      forward_client-StepInOrder clock req req' label cache_conn account h
  sent_to-StepInOrder label clock req (err why) cache_conn account h = (h, tt)
  sent_to-StepInOrder label clock req panic cache_conn account h = (h, tt)

  sent_for-StepInOrder :
      (effect : Effect) (clock : Clock) (req : Request http) (cache_conn : pool.State)
      → ((l : AccessLabel) → forwarded effect ≡ some l → IsAccountOf req l)
      → OwnedPool cache_conn
      → StepInOrder req cache_conn
          (sent_for http net counters timer transport pool setup effect clock req cache_conn)
  sent_for-StepInOrder (proxied l) clock req cache_conn account h =
      sent_to-StepInOrder l clock req (mod_http1_proxy_req http req) cache_conn (account l refl) h
  sent_for-StepInOrder nothing clock req cache_conn account h = (h, tt)
  sent_for-StepInOrder (reversed _) clock req cache_conn account h = (h, tt)
  sent_for-StepInOrder served clock req cache_conn account h = (h, tt)
  sent_for-StepInOrder (tunnelled _) clock req cache_conn account h = (h, tt)

  intercept-StepInOrder :
      (a : Arrival http net counters timer transport pool)
      (world : World http net counters timer transport pool)
      → OwnedPool world.cache_conn
      → OwnedPool (intercept http net counters timer transport pool setup a world).0.cache_conn
        × Accounted (intercept http net counters timer transport pool setup a world).1
  unfolding intercept
  intercept-StepInOrder a world h =
      let env = env_at http net counters timer transport pool setup world a.clock in
      sent_for-StepInOrder _ a.clock a.req world.cache_conn
        (handle-Passed http net counters.reverse_proxy_req env a.req a.client world.reverse_reqs) h

  intercept_all-Owned :
      (arrivals : List (Arrival http net counters timer transport pool))
      (world : World http net counters timer transport pool)
      → OwnedPool world.cache_conn
      → All Accounted (intercept_all http net counters timer transport pool setup arrivals world)
  unfolding intercept_all
  intercept_all-Owned [] world h = tt
  intercept_all-Owned (a ∷ more) world h =
      let (kept, accounted) = intercept-StepInOrder a world h in
      (accounted, intercept_all-Owned more _ kept)

-- From an empty pool on, whatever requests the server handles one after the other, each request that is
-- sent to a target over the pool's client goes over a connection whose traffic is counted for a user
-- whom that request's own headers let pass, or for `unknown` where they name none.
pub intercept_all-Accounted :
    (http : Http) (net : Networks) (counters : Counters) (timer : Timer)
    (transport : Transport http counters.proxy_traffic timer)
    (pool : Pool http counters.proxy_traffic timer transport)
    (setup : Setup http net counters timer transport pool)
    (arrivals : List (Arrival http net counters timer transport pool))
    (world : World http net counters timer transport pool)
    → world.cache_conn ≡ pool.empty
    → All
        (Accounted http net counters timer transport pool setup)
        (intercept_all http net counters timer transport pool setup arrivals world)
intercept_all-Accounted http net counters timer transport pool setup arrivals world fresh =
    intercept_all-Owned http net counters timer transport pool setup arrivals world (
      subst (Owned http counters.proxy_traffic timer transport pool) (sym fresh)
        (λ label q held. absurd (pool.not-Holds-empty label q held)))
