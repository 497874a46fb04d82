-- ===== src/Server/Concurrent/Accounted.antt =====
-- Whose connections concurrent requests use, and on whose account.
use rust_http_proxy.Common.{sym, subst, ap, List, [], ◌∷◌, ◌++◌, All, inl, inr}
use rust_http_proxy.Http.{Http}
use rust_http_proxy.IoX.Timeout.{Timer}
use rust_http_proxy.Config.{Networks}
use rust_http_proxy.ForwardClient.{Transport, Pool, scheme_of}
use rust_http_proxy.ForwardClient.Pool.Owners.{
  Owned, Popped, get_cached_connection-Owned, give_back-Owned, connect-counted,
}
use rust_http_proxy.ForwardClient.Pool.Steps.{send_request_conn-cases}
use rust_http_proxy.ForwardClient.Pool.Apart.{IsDistinct}
use rust_http_proxy.ForwardClient.Pool.Exclusive.{Reached-IsDistinct}
use rust_http_proxy.Proxy.Access.{forwarded}
use rust_http_proxy.Proxy.Safety.{handle-Passed}
use rust_http_proxy.Server.{Counters, Setup, env_at}
use rust_http_proxy.Server.Accounts.{IsAccountOf}
use rust_http_proxy.Server.Concurrent.{
  Flight, Reached, start, arrived, connected, answered, ended, in_use, Reached-alone,
}

module _ {A : Type 0} (P : A → Type 0) where
  -- A property of all elements holds of those without one, and of that one.
  All-without :
      (before : List A) (x : A) (after : List A)
      → All P (before ++ x ∷ after)
      → P x × All P (before ++ after)
  All-without [] x after h = h
  All-without (y ∷ before) x after (p, h) =
      let (q, rest) = All-without before x after h in (q, (p, rest))

module _ (http : Http) (net : Networks) (counters : Counters) (timer : Timer)
    (transport : Transport http counters.proxy_traffic timer)
    (pool : Pool http counters.proxy_traffic timer transport)
    (setup : Setup http net counters timer transport pool) where
  abbrev InFlight : Type 0
  InFlight = Flight http net counters timer transport pool setup

  -- A request on its way has a label on the account of its own headers, and its connection, if it has
  -- one, counts its traffic under that label.
  abbrev pub IsAccounted : InFlight → Type 0
  IsAccounted f =
      IsAccountOf http net counters timer transport pool setup f.req f.label
      × Popped http counters.proxy_traffic timer transport f.label f.conn

  abbrev InOrder : pool.State → List InFlight → Type 0
  InOrder s flights =
      Owned http counters.proxy_traffic timer transport pool s × All IsAccounted flights

  Reached-InOrder :
      (s : pool.State) (flights : List InFlight)
      → Reached http net counters timer transport pool setup s flights
      → InOrder s flights
  Reached-InOrder _ _ start = (λ label q held. absurd (pool.not-Holds-empty label q held), tt)
  Reached-InOrder _ _ (arrived world clock req client label sent flights first opened made) =
      let (owned, accounted) = Reached-InOrder world.cache_conn flights first in
      let (kept, popped) =
        get_cached_connection-Owned http counters.proxy_traffic timer transport pool clock.asked
          label world.cache_conn owned in
      (
        kept,
        (
          (
            handle-Passed http net counters.reverse_proxy_req
                (env_at http net counters timer transport pool setup world clock) req client
                world.reverse_reqs label (ap forwarded opened),
            popped,
          ),
          accounted,
        ),
      )
  Reached-InOrder _ _ (connected now traffic s before req label sent after c first made new) =
      let (owned, all) = Reached-InOrder s _ first in
      let ((account, _), rest) = All-without IsAccounted before _ after all in
      (
        owned,
        (
          (
            account,
            connect-counted http counters.proxy_traffic timer transport now (scheme_of http sent)
                label traffic c made,
          ),
          rest,
        ),
      )
  Reached-InOrder _ _ (answered now s before req label sent c after first) =
      let (owned, all) = Reached-InOrder s _ first in
      let ((_, counted), rest) = All-without IsAccounted before _ after all in
      (
        elim (send_request_conn-cases http counters.proxy_traffic timer transport pool now label c
            sent s) [
              | inl same ↦
                  subst (Owned http counters.proxy_traffic timer transport pool) (sym same) owned
              | inr kept ↦
                  subst (Owned http counters.proxy_traffic timer transport pool) (sym kept) (
                    give_back-Owned http counters.proxy_traffic timer transport pool now label c s
                      counted owned)
            ],
        rest,
      )
  Reached-InOrder _ _ (ended s before f after first) =
      let (owned, all) = Reached-InOrder s _ first in
      (owned, (All-without IsAccounted before f after all).1)

-- However the steps of concurrent requests alternate from an empty pool on, if each new connection is none
-- that is in use or idle: every request on its way is on the account of a user whom its own headers let
-- pass, or of `unknown` where they name none; its connection counts its traffic under that account's
-- label; and no two requests use the same connection.
pub Reached-Accounted :
    (http : Http) (net : Networks) (counters : Counters) (timer : Timer)
    (transport : Transport http counters.proxy_traffic timer)
    (pool : Pool http counters.proxy_traffic timer transport)
    (setup : Setup http net counters timer transport pool) (s : pool.State)
    (flights : List (Flight http net counters timer transport pool setup))
    → Reached http net counters timer transport pool setup s flights
    → All (IsAccounted http net counters timer transport pool setup) flights
      × IsDistinct (in_use http net counters timer transport pool setup flights)
Reached-Accounted http net counters timer transport pool setup s flights reached = (
  (Reached-InOrder http net counters timer transport pool setup s flights reached).1,
  (Reached-IsDistinct http counters.proxy_traffic timer transport pool s
      (in_use http net counters timer transport pool setup flights)
      (Reached-alone http net counters timer transport pool setup s flights reached)).0,
)
