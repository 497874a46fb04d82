-- ===== src/ForwardClient/Pool/Fresh.antt =====
-- Which connection the pool of rust_http_proxy/src/forward_proxy_client.rs gives out: the first of its
-- queue that is fresh. A connection that was given back is there for the next request.
use rust_http_proxy.Common.{
  ℕ, ◌≡◌, refl, sym, ap, subst, ◌∙◌, ◌⊎◌, inl, inr, Bool, true, false, Bool-cases, Option, none,
  some, Option-cases, [], ◌∷◌, ◌++◌, All, arith, leb, ◌||◌, ◌+◌, ◌-◌, ◌≤◌, ◌<◌,
}
use rust_http_proxy.Http.{Http, Request, Response, Version}
use rust_http_proxy.Labels.{AccessLabel}
use rust_http_proxy.Metrics.{Family}
use rust_http_proxy.IoX.Timeout.{Timer}
use rust_http_proxy.ForwardClient.KeepAlive.{check_keep_alive}
use rust_http_proxy.ForwardClient.{
  Transport, Pool, HttpConnection, inner, Idle, connection_expire_duration, pop_fresh,
  get_cached_connection, give_back, send_request_conn, send_on,
}
use rust_http_proxy.ForwardClient.Pool.Steps.{
  get_cached_connection-found, give_back-missing, give_back-found,
}

module _ (http : Http) (traffic : Family AccessLabel) (timer : Timer)
    (net : Transport http traffic timer) where
  abbrev Conn : Type 0
  Conn = HttpConnection http traffic timer net

  abbrev pub IsStale : ℕ → Conn × ℕ → Type 0
  IsStale now (c, inst) =
      (inst + connection_expire_duration ≤ now)
      ⊎ (net.is_closed now (inner http traffic timer net c) ≡ true)

  abbrev pub IsFresh : ℕ → Conn × ℕ → Type 0
  IsFresh now (c, inst) =
      (now < inst + connection_expire_duration)
      × (net.is_closed now (inner http traffic timer net c) ≡ false)

  ||_true : (b : Bool) → b || true ≡ true
  ||_true true = refl
  ||_true false = refl

  IsStale-or_IsFresh :
      (now : ℕ) (c : Conn) (inst : ℕ)
      → ((leb connection_expire_duration (now - inst)
              || net.is_closed now (inner http traffic timer net c)
            ≡ true)
          × IsStale now (c, inst))
        ⊎ ((leb connection_expire_duration (now - inst)
                || net.is_closed now (inner http traffic timer net c)
              ≡ false)
            × IsFresh now (c, inst))
  IsStale-or_IsFresh now c inst =
      elim (Bool-cases (net.is_closed now (inner http traffic timer net c))) [
        | inl closed ↦
            inl (rw closed (||_true (leb connection_expire_duration (now - inst))), inr closed)
        | inr open_yet ↦ elim (Bool-cases (leb connection_expire_duration (now - inst))) [
          | inl old ↦ inl (rw old refl, inl (ground arith))
          | inr young ↦ inr (rw (young, open_yet) refl, (ground arith, open_yet))
        ]
      ]

  IsStale-not_IsFresh : (now : ℕ) (e : Conn × ℕ) → IsStale now e → IsFresh now e → ⊥
  IsStale-not_IsFresh now e (inl old) (young, open_yet) = omega arith
  IsStale-not_IsFresh now e (inr closed) (young, open_yet) = cc

  -- What a queue gives out and has left: the first fresh connection and all that is behind it, or
  -- nothing of either.
  abbrev pub FirstFresh :
      ℕ → Idle http traffic timer net → Option Conn → Idle http traffic timer net → Type 0
  FirstFresh now q none left = All (IsStale now) q × (left ≡ [])
  FirstFresh now q (some c) left =
      (before : Idle http traffic timer net) × (inst : ℕ) × (q ≡ before ++ (c, inst) ∷ left)
      × All (IsStale now) before
      × IsFresh now (c, inst)

  FirstFresh-skip :
      (now : ℕ) (e : Conn × ℕ) (q : Idle http traffic timer net) (found : Option Conn)
      (left : Idle http traffic timer net)
      → IsStale now e
      → FirstFresh now q found left
      → FirstFresh now (e ∷ q) found left
  FirstFresh-skip now e q none left stale (all, empty) = ((stale, all), empty)
  FirstFresh-skip now e q (some c) left stale (before, inst, split, all, fresh) =
      (e ∷ before, inst, ap (λ r. e ∷ r) split, (stale, all), fresh)

  pop_fresh-FirstFresh :
      (now : ℕ) (q : Idle http traffic timer net)
      → FirstFresh now q
          (pop_fresh http traffic timer net now q).0
          (pop_fresh http traffic timer net now q).1
  unfolding pop_fresh
  pop_fresh-FirstFresh now [] = (tt, refl)
  pop_fresh-FirstFresh now ((c, inst) ∷ q) = elim (IsStale-or_IsFresh now c inst) [
    | inl (expired, stale) ↦
        rw expired (FirstFresh-skip now (c, inst) q _ _ stale (pop_fresh-FirstFresh now q))
    | inr (usable, fresh) ↦ rw usable ([], inst, refl, tt, fresh)
  ]

  -- A queue with a fresh connection at its end gives out a fresh one.
  pop_fresh-push_back :
      (now : ℕ) (q : Idle http traffic timer net) (c : Conn) (at : ℕ)
      → IsFresh now (c, at)
      → (d : Conn) × ((pop_fresh http traffic timer net now (q ++ (c, at) ∷ [])).0 ≡ some d)
        × (net.is_closed now (inner http traffic timer net d) ≡ false)
  unfolding pop_fresh
  pop_fresh-push_back now [] c at fresh = elim (IsStale-or_IsFresh now c at) [
    | inl (expired, stale) ↦ absurd (IsStale-not_IsFresh now (c, at) stale fresh)
    | inr (usable, _) ↦ rw usable (c, refl, fresh.1)
  ]
  pop_fresh-push_back now ((b, inst) ∷ q) c at fresh = elim (IsStale-or_IsFresh now b inst) [
    | inl (expired, stale) ↦ rw expired (pop_fresh-push_back now q c at fresh)
    | inr (usable, first) ↦ rw usable (b, refl, first.1)
  ]

  module _ (pool : Pool http traffic timer net) (label : AccessLabel) where
    give_back-get_mut :
        (at now : ℕ) (c : Conn) (s : pool.State)
        → at ≤ now
        → now < at + connection_expire_duration
        → (q : Idle http traffic timer net) × ((pool.get_mut now label
              (give_back http traffic timer net pool at label c s)).1
            ≡ some (q ++ (c, at) ∷ []))
    give_back-get_mut at now c s later soon = elim (Option-cases (pool.get_mut at label s).1) [
      | inl missing ↦ (
        [],
        subst (λ t. (pool.get_mut now label t).1 ≡ some ((c, at) ∷ []))
            (sym (give_back-missing http traffic timer net pool at label c s missing))
            (pool.get_mut-put at now label _ _ later soon),
      )
      | inr (q, found) ↦ (
        q,
        subst (λ t. (pool.get_mut now label t).1 ≡ some (q ++ (c, at) ∷ []))
            (sym (give_back-found http traffic timer net pool at label c s q found))
            (pool.get_mut-put at now label _ _ later soon),
      )
    ]

    send_on-kept :
        (at : ℕ) (c : Conn) (req : Request http) (s : pool.State) (version : Version)
        (response : Response http)
        → net.send at (inner http traffic timer net c) req ≡ some (version, response)
        → check_keep_alive http version response.headers false ≡ true
        → (send_on http traffic timer net pool at label c req s).cache_conn
          ≡ give_back http traffic timer net pool at label c s
    unfolding send_on send_request_conn
    send_on-kept at c req s version response answered kept = ground arith

-- Where the cache has a queue for a label, the lookup gives out the first connection of the queue that
-- is younger than the expiry and not closed; it drops the connections before it, which are all too old
-- or closed, and leaves those behind it in the cache. If it gives out none, all were too old or closed,
-- and the queue is left empty.
pub get_cached_connection-FirstFresh :
    (http : Http) (traffic : Family AccessLabel) (timer : Timer)
    (net : Transport http traffic timer) (pool : Pool http traffic timer net) (label : AccessLabel)
    (now : ℕ) (s : pool.State) (q : Idle http traffic timer net)
    → (pool.get_mut now label s).1 ≡ some q
    → (left : Idle http traffic timer net) × ((get_cached_connection http traffic timer net pool now
          label s).0
        ≡ pool.put now label left (pool.get_mut now label s).0)
      × FirstFresh http traffic timer net now q
          (get_cached_connection http traffic timer net pool now label s).1
          left
get_cached_connection-FirstFresh http traffic timer net pool label now s q found =
    let same = get_cached_connection-found http traffic timer net pool now label s q found in
    (
      (pop_fresh http traffic timer net now q).1,
      ap (λ r. r.0) same,
      subst
          (λ r.
            FirstFresh http traffic timer net now q r (pop_fresh http traffic timer net now q).1)
          (sym (ap (λ r. r.1) same)) (pop_fresh-FirstFresh http traffic timer net now q),
    )

-- After an answer that keeps the connection, a lookup for the same label within the expiry gives out a
-- connection that is not closed, if the kept one is not closed by then.
pub send_on-get_cached_connection :
    (http : Http) (traffic : Family AccessLabel) (timer : Timer)
    (net : Transport http traffic timer) (pool : Pool http traffic timer net) (label : AccessLabel)
    (at now : ℕ) (c : HttpConnection http traffic timer net) (req : Request http) (s : pool.State)
    (version : Version) (response : Response http)
    → net.send at (inner http traffic timer net c) req ≡ some (version, response)
    → check_keep_alive http version response.headers false ≡ true
    → at ≤ now
    → now < at + connection_expire_duration
    → net.is_closed now (inner http traffic timer net c) ≡ false
    → (d : HttpConnection http traffic timer net) × ((get_cached_connection http traffic timer net
          pool now label
          (send_on http traffic timer net pool at label c req s).cache_conn).1
        ≡ some d)
      × (net.is_closed now (inner http traffic timer net d) ≡ false)
send_on-get_cached_connection http traffic timer net pool label at now c req s version response
      answered kept later soon open_yet =
    let (q, found) = give_back-get_mut http traffic timer net pool label at now c s later soon in
    let (d, popped, usable) =
      pop_fresh-push_back http traffic timer net now q c at (soon, open_yet) in
    (
      d,
      rw (send_on-kept http traffic timer net pool label at c req s version response answered kept)
          (ap (λ r. r.1)
              (get_cached_connection-found http traffic timer net pool now label _ _ found)
            ∙ popped),
      usable,
    )
