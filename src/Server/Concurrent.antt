-- ===== src/Server/Concurrent.antt =====
-- Requests that the server handles at the same time: each is taken in by the handler of
-- rust_http_proxy/src/proxy.rs, looks for a connection in the pool of
-- rust_http_proxy/src/forward_proxy_client.rs or makes one, and sends itself on it. The steps of all
-- requests stand in one order, in which those of different requests may alternate.
pub mod Accounted
use rust_http_proxy.Common.{
  ℕ, ◌≡◌, refl, sym, ap, subst, ◌∙◌, ◌≢◌, inl, inr, Option, none, some, List, [], ◌∷◌, ◌++◌, All,
  Result, ok, Option-cases, ◌⊎◌,
}
use rust_http_proxy.Http.{Http, Request}
use rust_http_proxy.Labels.{AccessLabel}
use rust_http_proxy.IoX.Timeout.{Timer}
use rust_http_proxy.Config.{Networks}
use rust_http_proxy.Ip.{SocketAddr}
use rust_http_proxy.ForwardClient.{
  Transport, Pool, Clock, HttpConnection, Idle, connect, scheme_of, get_cached_connection,
  give_back, send_request_conn,
}
use rust_http_proxy.ForwardClient.Pool.{count_traffic, counted_for}
use rust_http_proxy.ForwardClient.Pool.Owners.{
  Owned, Popped, get_cached_connection-Owned, give_back-Owned, connect-counted,
}
use rust_http_proxy.ForwardClient.Pool.Steps.{send_request_conn-cases}
use rust_http_proxy.ForwardClient.Pool.Apart.{IsDistinct}
use rust_http_proxy.ForwardClient.Pool.Places.{IsNew}
use rust_http_proxy.ForwardClient.Pool.Exclusive as Exclusive
use rust_http_proxy.ForwardClient.Pool.Exclusive.{Reached-IsDistinct}
use rust_http_proxy.Proxy.{mod_http1_proxy_req}
use rust_http_proxy.Proxy.Handle.{proxied, handle}
use rust_http_proxy.Proxy.Safety.{handle-Passed}
use rust_http_proxy.Server.{Counters, Setup, World, env_at}
use rust_http_proxy.Server.Accounts.{IsAccountOf}

module _ (http : Http) (net : Networks) (counters : Counters) (timer : Timer)
    (transport : Transport http counters.proxy_traffic timer)
    (pool : Pool http counters.proxy_traffic timer transport)
    (setup : Setup http net counters timer transport pool) where
  abbrev pub Conn : Type 0
  Conn = HttpConnection http counters.proxy_traffic timer transport

  -- A request on its way to its target: as it came, its label, as it is sent, and its connection.
  pub record Flight : Type 0 where
    pub req : Request http
    pub label : AccessLabel
    pub sent : Request http
    pub conn : Option Conn

  abbrev pub looked : ℕ → AccessLabel → pool.State → pool.State × Option Conn
  looked = get_cached_connection http counters.proxy_traffic timer transport pool

  -- The connections in use.
  abbrev with_conn : Option Conn → List Conn → List Conn
  with_conn none used = used
  with_conn (some c) used = c ∷ used

  unfoldable pub in_use : List Flight → List Conn
  in_use [] = []
  in_use (f ∷ fs) = with_conn f.conn (in_use fs)

  -- The pools and the requests on their way that the steps may lead to. A request that arrives looks
  -- for a connection; one without a connection may make one; one with a connection is done when it is
  -- answered; and a request may end at any time, by an error or because the client goes away.
  pub data Reached : pool.State → List Flight → Type 0 where
    start : Reached pool.empty []
    arrived :
        (world : World http net counters timer transport pool) (clock : Clock) (req : Request http)
        (client : SocketAddr) (label : AccessLabel) (sent : Request http) (flights : List Flight)
        → Reached world.cache_conn flights
        → (handle http net counters.reverse_proxy_req
            (env_at http net counters timer transport pool setup world clock)
            req
            client
            world.reverse_reqs).effect
          ≡ proxied label
        → mod_http1_proxy_req http req ≡ ok sent
        → Reached (looked clock.asked label world.cache_conn).0 (
            record {
              req = req;
              label = label;
              sent = sent;
              conn = (looked clock.asked label world.cache_conn).1;
            }
            ∷ flights)
    connected :
        (now : ℕ) (traffic : counters.proxy_traffic.State) (s : pool.State) (before : List Flight)
        (req : Request http) (label : AccessLabel) (sent : Request http) (after : List Flight)
        (c : Conn)
        → Reached s
            (before ++ record { req = req; label = label; sent = sent; conn = none } ∷ after)
        → connect http counters.proxy_traffic timer transport now
            (scheme_of http sent)
            label
            (count_traffic http counters.proxy_traffic timer transport traffic)
          ≡ ok c
        → IsNew http counters.proxy_traffic timer transport pool c s (in_use (before ++ after))
        → Reached s
            (record { req = req; label = label; sent = sent; conn = some c } ∷ before ++ after)
    answered :
        (now : ℕ) (s : pool.State) (before : List Flight) (req : Request http) (label : AccessLabel)
        (sent : Request http) (c : Conn) (after : List Flight)
        → Reached s
            (before ++ record { req = req; label = label; sent = sent; conn = some c } ∷ after)
        → Reached
            (send_request_conn http counters.proxy_traffic timer transport pool now label c sent
              s).0
            (before ++ after)
    ended :
        (s : pool.State) (before : List Flight) (flight : Flight) (after : List Flight)
        → Reached s (before ++ flight ∷ after)
        → Reached s (before ++ after)

  with_conn-append :
      (conn : Option Conn) (all used others : List Conn)
      → all ≡ used ++ others
      → with_conn conn all ≡ with_conn conn used ++ others
  with_conn-append none all used others e = e
  with_conn-append (some c) all used others e = ap (◌∷◌ c) e

  in_use-append :
      (before after : List Flight) → in_use (before ++ after) ≡ in_use before ++ in_use after
  unfolding in_use
  in_use-append [] after = refl
  in_use-append (f ∷ before) after =
      with_conn-append f.conn _ (in_use before) (in_use after) (in_use-append before after)

  abbrev pub ReachedAlone : pool.State → List Conn → Type 0
  ReachedAlone = Exclusive.Reached http counters.proxy_traffic timer transport pool

  -- Without one request, its connection is free.
  ended-alone :
      (s : pool.State) (before : List Flight) (conn : Option Conn) (after : List Flight)
      → ReachedAlone s (in_use before ++ with_conn conn (in_use after))
      → ReachedAlone s (in_use (before ++ after))
  ended-alone s before none after alone =
      subst (ReachedAlone s) (sym (in_use-append before after)) alone
  ended-alone s before (some c) after alone =
      subst (ReachedAlone s) (sym (in_use-append before after))
        (Exclusive.dropped s (in_use before) c (in_use after) alone)

  -- An answer gives the connection back, or drops it.
  answered-alone :
      (now : ℕ) (label : AccessLabel) (sent : Request http) (s : pool.State) (before : List Flight)
      (c : Conn) (after : List Flight)
      → ReachedAlone s (in_use before ++ c ∷ in_use after)
      → ReachedAlone
          (send_request_conn http counters.proxy_traffic timer transport pool now label c sent s).0
          (in_use (before ++ after))
  answered-alone now label sent s before c after alone =
      elim (send_request_conn-cases http counters.proxy_traffic timer transport pool now label c
        sent s) [
          | inl same ↦
              subst (λ t. ReachedAlone t (in_use (before ++ after))) (sym same)
                (ended-alone s before (some c) after alone)
          | inr kept ↦
              subst (λ t. ReachedAlone t (in_use (before ++ after))) (sym kept)
                (subst (ReachedAlone _) (sym (in_use-append before after))
                  (Exclusive.given_back now label s (in_use before) c (in_use after) alone))
        ]

  -- What the requests do to the pool are steps of concurrent requests on it.
  pub Reached-alone :
      (s : pool.State) (flights : List Flight) → Reached s flights → ReachedAlone s (in_use flights)
  unfolding in_use
  Reached-alone _ _ start = Exclusive.start
  Reached-alone _ _ (arrived world clock req client label sent flights first opened made) =
      let at = clock.asked in
      let s = world.cache_conn in
      let alone = Reached-alone s flights first in
      elim (Option-cases (looked at label s).1) [
        | inl missing ↦
            subst (λ o. ReachedAlone (looked at label s).0 (with_conn o (in_use flights)))
              (sym missing) (Exclusive.missed at label s (in_use flights) alone missing)
        | inr (c, found) ↦
            subst (λ o. ReachedAlone (looked at label s).0 (with_conn o (in_use flights)))
              (sym found) (Exclusive.taken at label s (in_use flights) c alone found)
      ]
  Reached-alone _ _ (connected now traffic s before req label sent after c first made new) =
      Exclusive.made s (in_use (before ++ after)) c
        (ended-alone s before none after
          (subst (ReachedAlone s) (in_use-append before _) (Reached-alone s _ first)))
        new
  Reached-alone _ _ (answered now s before req label sent c after first) =
      answered-alone now label sent s before c after
        (subst (ReachedAlone s) (in_use-append before _) (Reached-alone s _ first))
  Reached-alone _ _ (ended s before f after first) =
      ended-alone s before f.conn after
        (subst (ReachedAlone s) (in_use-append before _) (Reached-alone s _ first))
