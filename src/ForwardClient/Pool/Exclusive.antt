-- ===== src/ForwardClient/Pool/Exclusive.antt =====
-- Requests that run at the same time share the pool of rust_http_proxy/src/forward_proxy_client.rs: each
-- takes a connection out of it or makes one, and may give it back. The steps of all of them stand in one
-- order, since each holds the lock of the pool.
use rust_http_proxy.Common.{ℕ, ◌≡◌, subst, none, some, List, [], ◌∷◌, ◌++◌}
use rust_http_proxy.Http.{Http}
use rust_http_proxy.Labels.{AccessLabel}
use rust_http_proxy.Metrics.{Family}
use rust_http_proxy.IoX.Timeout.{Timer}
use rust_http_proxy.ForwardClient.{
  Transport, Pool, HttpConnection, Idle, get_cached_connection, give_back,
}
use rust_http_proxy.ForwardClient.Pool.Apart.{IsDistinct, AreApart}
use rust_http_proxy.ForwardClient.Pool.Places.{
  conns, IsNew, IsExclusive, made-IsExclusive, dropped-IsExclusive,
}
use rust_http_proxy.ForwardClient.Pool.Kept.{
  in_use_with, get_cached_connection-IsExclusive, give_back-IsExclusive,
}

module _ (http : Http) (traffic : Family AccessLabel) (timer : Timer)
    (net : Transport http traffic timer) (pool : Pool http traffic timer net) where
  abbrev Conn : Type 0
  Conn = HttpConnection http traffic timer net

  -- The pools and the connections in use that the requests may lead to: a lookup that finds a
  -- connection takes it into use, a lookup may find none, a connection may be made, and one in use may
  -- be given back or dropped.
  pub data Reached : pool.State → List (HttpConnection http traffic timer net) → Type 0 where
    start : Reached pool.empty []
    taken :
        (now : ℕ) (label : AccessLabel) (s : pool.State) (used : List Conn) (c : Conn)
        → Reached s used
        → (get_cached_connection http traffic timer net pool now label s).1 ≡ some c
        → Reached (get_cached_connection http traffic timer net pool now label s).0 (c ∷ used)
    missed :
        (now : ℕ) (label : AccessLabel) (s : pool.State) (used : List Conn)
        → Reached s used
        → (get_cached_connection http traffic timer net pool now label s).1 ≡ none
        → Reached (get_cached_connection http traffic timer net pool now label s).0 used
    made :
        (s : pool.State) (used : List Conn) (c : Conn)
        → Reached s used
        → IsNew http traffic timer net pool c s used
        → Reached s (c ∷ used)
    given_back :
        (now : ℕ) (label : AccessLabel) (s : pool.State) (before : List Conn) (c : Conn)
        (after : List Conn)
        → Reached s (before ++ c ∷ after)
        → Reached (give_back http traffic timer net pool now label c s) (before ++ after)
    dropped :
        (s : pool.State) (before : List Conn) (c : Conn) (after : List Conn)
        → Reached s (before ++ c ∷ after)
        → Reached s (before ++ after)

  Reached-IsExclusive :
      (s : pool.State) (used : List Conn)
      → Reached s used
      → IsExclusive http traffic timer net pool s used
  Reached-IsExclusive s used start = record {
    in_use = tt;
    in_queue = λ l q held. absurd (pool.not-Holds-empty l q held);
    in_queues = λ l j q r off held _. absurd (pool.not-Holds-empty l q held);
  }
  Reached-IsExclusive _ _ (taken now label s used c before found) =
      subst
        (λ f.
          IsExclusive http traffic timer net pool
            (get_cached_connection http traffic timer net pool now label s).0
            (in_use_with http traffic timer net pool f used))
        found
        (get_cached_connection-IsExclusive http traffic timer net pool now label s used
          (Reached-IsExclusive s used before))
  Reached-IsExclusive _ _ (missed now label s used before found) =
      subst
        (λ f.
          IsExclusive http traffic timer net pool
            (get_cached_connection http traffic timer net pool now label s).0
            (in_use_with http traffic timer net pool f used))
        found
        (get_cached_connection-IsExclusive http traffic timer net pool now label s used
          (Reached-IsExclusive s used before))
  Reached-IsExclusive _ _ (made s used c before new) =
      made-IsExclusive http traffic timer net pool s used c (Reached-IsExclusive s used before) new
  Reached-IsExclusive _ _ (given_back now label s front c behind before) =
      let (h, new) =
        dropped-IsExclusive http traffic timer net pool s front c behind
          (Reached-IsExclusive s _ before) in
      give_back-IsExclusive http traffic timer net pool now label c s (front ++ behind) h new
  Reached-IsExclusive _ _ (dropped s front c behind before) =
      (dropped-IsExclusive http traffic timer net pool s front c behind
        (Reached-IsExclusive s _ before)).0

-- However the lookups, new connections, returns and drops of concurrent requests follow one another from
-- an empty pool on, if each new connection is none that is in use or idle, then no connection is in use
-- twice, and none that is in use stands in a queue of the pool.
pub Reached-IsDistinct :
    (http : Http) (traffic : Family AccessLabel) (timer : Timer)
    (net : Transport http traffic timer) (pool : Pool http traffic timer net) (s : pool.State)
    (used : List (HttpConnection http traffic timer net))
    → Reached http traffic timer net pool s used
    → IsDistinct used
      × ((label : AccessLabel) (q : Idle http traffic timer net)
          → pool.Holds s label q
          → AreApart used (conns http traffic timer net pool q))
Reached-IsDistinct http traffic timer net pool s used reached =
    let h = Reached-IsExclusive http traffic timer net pool s used reached in
    (h.in_use, λ label q held. (h.in_queue label q held).1)
