-- ===== src/ForwardClient/Pool/Kept.antt =====
-- Looking up and giving back, as rust_http_proxy/src/forward_proxy_client.rs does them, among the
-- connections that concurrent requests have in use.
use rust_http_proxy.Common.{
  ℕ, ◌≢◌, sym, ap, subst, ◌∙◌, inl, inr, Option, none, some, Option-cases, List, ◌∷◌, All-map,
}
use rust_http_proxy.Http.{Http}
use rust_http_proxy.Labels.{AccessLabel}
use rust_http_proxy.Metrics.{Family}
use rust_http_proxy.IoX.Timeout.{Timer}
use rust_http_proxy.ForwardClient.{
  Transport, Pool, HttpConnection, Idle, get_cached_connection, give_back,
}
use rust_http_proxy.ForwardClient.Pool.Apart.{
  IsOutside, IsDistinct, AreApart, All-behind, IsDistinct-behind, AreApart-nil,
}
use rust_http_proxy.ForwardClient.Pool.Steps.{
  get_cached_connection-missing, give_back-missing, give_back-found,
}
use rust_http_proxy.ForwardClient.Pool.Fresh.{FirstFresh, get_cached_connection-FirstFresh}
use rust_http_proxy.ForwardClient.Pool.Places.{
  conns, IsNew, IsExclusive, made-IsExclusive, pushed-Fits, alone-Fits, replaced-IsExclusive,
  conns-append, get_mut-IsExclusive,
}

module _ (http : Http) (traffic : Family AccessLabel) (timer : Timer)
    (net : Transport http traffic timer) (pool : Pool http traffic timer net) where
  abbrev Conn : Type 0
  Conn = HttpConnection http traffic timer net

  pub give_back-IsExclusive :
      (now : ℕ) (label : AccessLabel) (c : Conn) (s : pool.State) (used : List Conn)
      → IsExclusive http traffic timer net pool s used
      → IsNew http traffic timer net pool c s used
      → IsExclusive http traffic timer net pool
          (give_back http traffic timer net pool now label c s)
          used
  give_back-IsExclusive now label c s used h new =
      elim (Option-cases (pool.get_mut now label s).1) [
        | inl missing ↦
            subst (λ t. IsExclusive http traffic timer net pool t used)
              (sym (give_back-missing http traffic timer net pool now label c s missing))
              (replaced-IsExclusive http traffic timer net pool now label _ s used h
                (alone-Fits http traffic timer net pool now label s used c new))
        | inr (q, found) ↦
            subst (λ t. IsExclusive http traffic timer net pool t used)
              (sym (give_back-found http traffic timer net pool now label c s q found))
              (replaced-IsExclusive http traffic timer net pool now label _ s used h (
                pushed-Fits http traffic timer net pool now label s used c q h new
                  (pool.get_mut-Holds now label s q found)))
      ]

  abbrev pub in_use_with : Option Conn → List Conn → List Conn
  in_use_with none used = used
  in_use_with (some c) used = c ∷ used

  found-IsExclusive :
      (now : ℕ) (label : AccessLabel) (s : pool.State) (used : List Conn)
      (q : Idle http traffic timer net) (found : Option Conn) (left : Idle http traffic timer net)
      → pool.Holds s label q
      → FirstFresh http traffic timer net now q found left
      → IsExclusive http traffic timer net pool s used
      → IsExclusive http traffic timer net pool
          (pool.put now label left (pool.get_mut now label s).0)
          (in_use_with found used)
  found-IsExclusive now label s used q none left held (stale, empty) h =
      replaced-IsExclusive http traffic timer net pool now label left s used h (
        rw empty (record {
          distinct = tt;
          unused = AreApart-nil used;
          elsewhere = λ other r off held_r. tt;
        }))
  found-IsExclusive now label s used q (some c) left held (before, inst, split, _, _) h =
      let (distinct, unused) = h.in_queue label q held in
      let cut =
        ap (conns http traffic timer net pool) split
        ∙ conns-append http traffic timer net pool before ((c, inst) ∷ left) in
      let (out, rest) =
        IsDistinct-behind (conns http traffic timer net pool before) c
          (conns http traffic timer net pool left) (subst IsDistinct cut distinct) in
      let apart : (other : AccessLabel) (r : Idle http traffic timer net)
          → other ≢ label
          → pool.Holds s other r
          → AreApart (c ∷ (conns http traffic timer net pool) left)
              (conns http traffic timer net pool r) =
        λ other r off held_r.
          All-behind (λ x. IsOutside x (conns http traffic timer net pool r))
            (conns http traffic timer net pool before) c (conns http traffic timer net pool left)
            (subst (λ l. AreApart l (conns http traffic timer net pool r)) cut
              (h.in_queues label other q r (λ e. off (sym e)) held held_r)) in
      let free : AreApart used (c ∷ (conns http traffic timer net pool) left) =
        All-map
          (λ u o.
            All-behind (λ x. x ≢ u) (conns http traffic timer net pool before) c
              (conns http traffic timer net pool left) o)
          used (subst (AreApart used) cut unused) in
      let s' = pool.put now label left (pool.get_mut now label s).0 in
      made-IsExclusive http traffic timer net pool s' used c
        (replaced-IsExclusive http traffic timer net pool now label left s used h (record {
          distinct = rest;
          unused = All-map (λ u o. o.1) used free;
          elsewhere = λ other r off held_r. (apart other r off held_r).1;
        }))
        (
          All-map (λ u o e. o.0 (sym e)) used free,
          λ l r held_r. elim (pool.Holds-put now label l left r _ held_r) [
            | inl (_, same) ↦ rw same out
            | inr (off, there) ↦ (apart l r off (pool.Holds-get_mut now label l s r there)).0
          ],
        )

  pub get_cached_connection-IsExclusive :
      (now : ℕ) (label : AccessLabel) (s : pool.State) (used : List Conn)
      → IsExclusive http traffic timer net pool s used
      → IsExclusive http traffic timer net pool
          (get_cached_connection http traffic timer net pool now label s).0
          (in_use_with (get_cached_connection http traffic timer net pool now label s).1 used)
  get_cached_connection-IsExclusive now label s used h =
      elim (Option-cases (pool.get_mut now label s).1) [
        | inl missing ↦
            subst (λ r. IsExclusive http traffic timer net pool r.0 (in_use_with r.1 used))
              (sym (get_cached_connection-missing http traffic timer net pool now label s missing))
              (get_mut-IsExclusive http traffic timer net pool now label s used h)
        | inr (q, found) ↦
            let (left, there, first) =
              get_cached_connection-FirstFresh http traffic timer net pool label now s q found in
            subst
              (λ t. IsExclusive http traffic timer net pool t (
                in_use_with (get_cached_connection http traffic timer net pool now label s).1 used))
              (sym there)
              (found-IsExclusive now label s used q _ left (pool.get_mut-Holds now label s q found)
                first h)
      ]
