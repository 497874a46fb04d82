-- ===== src/ForwardClient/Pool/Owners.antt =====
-- A request is only ever sent on a connection that counts its traffic for the request's own label.
use rust_http_proxy.Common.{
  ℕ, ◌≡◌, refl, sym, ap, subst, ◌∙◌, inl, inr, Bool-cases, Option, none, some, Option-cases, [],
  ◌∷◌, All, All-append, Result-cases, ok, guard, ok_or, ◌>>◌, >>=-eq-ok, ok-injective, ok_or-eq-ok,
  leb, ◌||◌, ◌-◌,
}
use rust_http_proxy.Common.Bytes.{Bytes}
use rust_http_proxy.Http.{Http, Request}
use rust_http_proxy.Labels.{AccessLabel}
use rust_http_proxy.Metrics.{Family}
use rust_http_proxy.IoX.Counter.{counter_stream}
use rust_http_proxy.IoX.Counter as Counter
use rust_http_proxy.IoX.Timeout as Timeout
use rust_http_proxy.IoX.Timeout.{Timer}
use rust_http_proxy.ForwardClient.{
  Transport, Clock, Pool, Counted, HttpConnection, inner, Idle, Sent, connection_expire_duration,
  connect_http_http1, connect, pop_fresh, get_cached_connection, give_back, send_on, send_request,
  scheme_of,
}
use rust_http_proxy.ForwardClient.Pool.Steps.{
  get_cached_connection-missing, get_cached_connection-found, give_back-missing, give_back-found,
  send_on-cases, send_on-used, send_request-cached, send_request-connected, send_request-refused,
  send_request-panic,
}
use rust_http_proxy.ForwardClient.Pool.{count_traffic, counted_for}

module _ (http : Http) (traffic : Family AccessLabel) (timer : Timer)
    (net : Transport http traffic timer) where
  abbrev pub Conn : Type 0
  Conn = HttpConnection http traffic timer net

  abbrev pub counted : Conn → AccessLabel
  counted = counted_for http traffic timer net

  connect_http_http1-goes_over :
      (now : ℕ) (stream : Counted http traffic timer net) (c : Conn)
      → connect_http_http1 http traffic timer net now stream ≡ ok c
      → (net.goes_over (inner http traffic timer net c)).inner ≡ stream
  unfolding connect_http_http1
  connect_http_http1-goes_over now stream c e =
      let made =
        Timeout.new (counter_stream net.tcp traffic) timer now stream connection_expire_duration in
      let (r, h, same) = >>=-eq-ok (ok_or _ (net.handshake made)) _ e in
      rw (← ok-injective same) (
        ap (λ t. t.inner) (net.handshake-goes_over made r (ok_or-eq-ok _ _ h))
        ∙ (unfold Timeout.new in refl))

  -- A connection that is made for a label counts for it.
  pub connect-counted :
      (now : ℕ) (scheme : Bytes) (label : AccessLabel) (t : traffic.State) (c : Conn)
      → connect http traffic timer net now scheme label (count_traffic http traffic timer net t)
        ≡ ok c
      → counted c ≡ label
  unfolding connect
  connect-counted now scheme label t c e =
      let (stream, _, made) = >>=-eq-ok (guard _ _ >> net.connect_tcp now label.target) _ e in
      ap (λ s. s.label) (connect_http_http1-goes_over now _ c made)
      ∙ (unfold count_traffic Counter.new in refl)

  abbrev pub OwnedBy : AccessLabel → Idle http traffic timer net → Type 0
  OwnedBy label = All (λ e. counted e.0 ≡ label)

  -- What the loop finds and leaves.
  abbrev pub Popped : AccessLabel → Option Conn → Type 0
  Popped label none = Unit {0}
  Popped label (some c) = counted c ≡ label

  pop_fresh-OwnedBy :
      (now : ℕ) (label : AccessLabel) (q : Idle http traffic timer net)
      → OwnedBy label q
      → Popped label (pop_fresh http traffic timer net now q).0
        × OwnedBy label (pop_fresh http traffic timer net now q).1
  unfolding pop_fresh
  pop_fresh-OwnedBy now label [] h = (tt, tt)
  pop_fresh-OwnedBy now label ((c, inst) ∷ q) (hc, h) =
      elim (Bool-cases (
        leb connection_expire_duration (now - inst)
        || net.is_closed now (inner http traffic timer net c))) [
          | inl stale ↦ rw stale (pop_fresh-OwnedBy now label q h)
          | inr fresh ↦ rw fresh (hc, h)
        ]

  module _ (pool : Pool http traffic timer net) where
    -- Every connection in the pool counts for the label it lies under.
    abbrev pub Owned : pool.State → Type 0
    Owned s =
        (label : AccessLabel) (q : Idle http traffic timer net)
        → pool.Holds s label q
        → OwnedBy label q

    get_mut-Owned :
        (now : ℕ) (label : AccessLabel) (s : pool.State)
        → Owned s
        → Owned (pool.get_mut now label s).0
    get_mut-Owned now label s h l q held = h l q (pool.Holds-get_mut now label l s q held)

    put-Owned :
        (now : ℕ) (label : AccessLabel) (q : Idle http traffic timer net) (s : pool.State)
        → OwnedBy label q
        → Owned s
        → Owned (pool.put now label q s)
    put-Owned now label q s hq h l w held = elim (pool.Holds-put now label l q w s held) [
      | inl (same, now_q) ↦ rw (same, now_q) hq
      | inr (_, before) ↦ h l w before
    ]

    pub get_cached_connection-Owned :
        (now : ℕ) (label : AccessLabel) (s : pool.State)
        → Owned s
        → Owned (get_cached_connection http traffic timer net pool now label s).0
          × Popped label (get_cached_connection http traffic timer net pool now label s).1
    get_cached_connection-Owned now label s h = elim (Option-cases (pool.get_mut now label s).1) [
      | inl missing ↦
          subst (λ r. Owned r.0 × Popped label r.1)
            (sym (get_cached_connection-missing http traffic timer net pool now label s missing))
            (get_mut-Owned now label s h, tt)
      | inr (q, found) ↦
          let (hc, left) =
            pop_fresh-OwnedBy now label q (h label q (pool.get_mut-Holds now label s q found)) in
          subst (λ r. Owned r.0 × Popped label r.1)
            (sym (get_cached_connection-found http traffic timer net pool now label s q found))
            (put-Owned now label _ _ left (get_mut-Owned now label s h), hc)
    ]

    pub give_back-Owned :
        (now : ℕ) (label : AccessLabel) (c : Conn) (s : pool.State)
        → counted c ≡ label
        → Owned s
        → Owned (give_back http traffic timer net pool now label c s)
    give_back-Owned now label c s hc h = elim (Option-cases (pool.get_mut now label s).1) [
      | inl missing ↦
          subst Owned (sym (give_back-missing http traffic timer net pool now label c s missing))
            (put-Owned now label _ _ (hc, tt) (get_mut-Owned now label s h))
      | inr (q, found) ↦
          subst Owned (sym (give_back-found http traffic timer net pool now label c s q found)) (
            put-Owned now label _ _
              (All-append (λ e. counted e.0 ≡ label) q _
                (h label q (pool.get_mut-Holds now label s q found)) (hc, tt))
              (get_mut-Owned now label s h))
    ]

    send_on-Owned :
        (now : ℕ) (label : AccessLabel) (c : Conn) (req : Request http) (s : pool.State)
        → counted c ≡ label
        → Owned s
        → Owned (send_on http traffic timer net pool now label c req s).cache_conn
    send_on-Owned now label c req s hc h =
        elim (send_on-cases http traffic timer net pool now label c req s) [
          | inl same ↦ subst Owned (sym same) h
          | inr kept ↦ subst Owned (sym kept) (give_back-Owned now label c s hc h)
        ]

    module _ (clock : Clock) (req : Request http) (label : AccessLabel) (t : traffic.State) where
      -- The request, with the streams that `simple_proxy` makes.
      abbrev pub sent : pool.State → Sent http traffic timer net pool
      sent =
          send_request http traffic timer net pool clock req label
            (count_traffic http traffic timer net t)

      -- A request leaves the pool in order and goes over a connection that counts for its label.
      abbrev pub InOrder : Sent http traffic timer net pool → Type 0
      InOrder r = Owned r.cache_conn × Popped label r.used

      send_on-InOrder :
          (c : Conn) (s : pool.State)
          → counted c ≡ label
          → Owned s
          → InOrder (send_on http traffic timer net pool clock.answered label c req s)
      send_on-InOrder c s hc h = (
        send_on-Owned clock.answered label c req s hc h,
        subst (Popped label)
            (sym (send_on-used http traffic timer net pool clock.answered label c req s)) hc,
      )

      pub send_request-InOrder : (s : pool.State) → Owned s → InOrder (sent s)
      send_request-InOrder s h =
          let wrap = count_traffic http traffic timer net t in
          let (kept, popped) = get_cached_connection-Owned clock.asked label s h in
          elim (Option-cases
            (get_cached_connection http traffic timer net pool clock.asked label s).1) [
              | inr (c, cached) ↦
                  subst InOrder
                    (sym (
                      send_request-cached http traffic timer net pool clock req label wrap s c
                        cached))
                    (send_on-InOrder c _ (subst (Popped label) cached popped) kept)
              | inl missing ↦
                  elim (Result-cases (
                    connect http traffic timer net clock.connected (scheme_of http req) label
                      wrap)) [
                        | inl (c, made) ↦
                            subst InOrder
                              (sym (
                                send_request-connected http traffic timer net pool clock req label
                                  wrap s c missing made))
                              (send_on-InOrder c _
                                (connect-counted clock.connected _ label t c made) kept)
                        | inr (inl (why, refused)) ↦
                            subst InOrder
                              (sym (
                                send_request-refused http traffic timer net pool clock req label
                                  wrap s why missing refused))
                              (kept, tt)
                        | inr (inr failed) ↦
                            subst InOrder
                              (sym (
                                send_request-panic http traffic timer net pool clock req label wrap
                                  s missing failed))
                              (kept, tt)
                      ]
            ]
