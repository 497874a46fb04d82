-- ===== src/ForwardClient/Pool/Places.antt =====
-- Where the connections of the pool of rust_http_proxy/src/forward_proxy_client.rs are: in use by a
-- request, or in a queue of the pool.
use rust_http_proxy.Common.{
  ℕ, ◌≡◌, ◌≢◌, refl, sym, ap, subst, ◌∙◌, inl, inr, List, [], ◌∷◌, ◌++◌, All-append,
}
use rust_http_proxy.Http.{Http}
use rust_http_proxy.Labels.{AccessLabel}
use rust_http_proxy.Metrics.{Family}
use rust_http_proxy.IoX.Timeout.{Timer}
use rust_http_proxy.ForwardClient.{Transport, Pool, HttpConnection, Idle}
use rust_http_proxy.ForwardClient.Pool.Apart.{
  IsOutside, IsDistinct, AreApart, All-behind, All-without, IsDistinct-without, AreApart-sym,
  AreApart-nil, IsDistinct-append, AreApart-append,
}

module _ (http : Http) (traffic : Family AccessLabel) (timer : Timer)
    (net : Transport http traffic timer) (pool : Pool http traffic timer net) where
  abbrev Conn : Type 0
  Conn = HttpConnection http traffic timer net

  abbrev pub conns : Idle http traffic timer net → List Conn
  conns [] = []
  conns ((c, inst) ∷ q) = c ∷ conns q

  -- A connection that was just made: none that is in use or in the pool.
  abbrev pub IsNew : Conn → pool.State → List Conn → Type 0
  IsNew c s used =
      IsOutside c used
      × ((label : AccessLabel) (q : Idle http traffic timer net)
          → pool.Holds s label q
          → IsOutside c (conns q))

  -- No connection is there twice: neither in use, nor in one queue, nor in two of these places.
  pub record IsExclusive (s : pool.State) (used : List Conn) : Type 0 where
    pub in_use : IsDistinct used
    pub in_queue :
        (label : AccessLabel) (q : Idle http traffic timer net)
        → pool.Holds s label q
        → IsDistinct (conns q) × AreApart used (conns q)
    pub in_queues :
        (label other : AccessLabel) (q r : Idle http traffic timer net)
        → label ≢ other
        → pool.Holds s label q
        → pool.Holds s other r
        → AreApart (conns q) (conns r)

  -- A queue that may be put under a label.
  pub record Fits (s : pool.State) (used : List Conn) (label : AccessLabel)
      (q : Idle http traffic timer net) : Type 0 where
    pub distinct : IsDistinct (conns q)
    pub unused : AreApart used (conns q)
    pub elsewhere :
        (other : AccessLabel) (r : Idle http traffic timer net)
        → other ≢ label
        → pool.Holds s other r
        → AreApart (conns q) (conns r)

  pub get_mut-IsExclusive :
      (now : ℕ) (label : AccessLabel) (s : pool.State) (used : List Conn)
      → IsExclusive s used
      → IsExclusive (pool.get_mut now label s).0 used
  get_mut-IsExclusive now label s used h = record {
    in_use = h.in_use;
    in_queue = λ l q held. h.in_queue l q (pool.Holds-get_mut now label l s q held);
    in_queues = λ l j q r apart held_q held_r.
        h.in_queues l j q r apart (pool.Holds-get_mut now label l s q held_q)
          (pool.Holds-get_mut now label j s r held_r);
  }

  put-IsExclusive :
      (now : ℕ) (label : AccessLabel) (q : Idle http traffic timer net) (s : pool.State)
      (used : List Conn)
      → IsExclusive s used
      → Fits s used label q
      → IsExclusive (pool.put now label q s) used
  put-IsExclusive now label q s used h fits = record {
    in_use = h.in_use;
    in_queue = λ l r held. elim (pool.Holds-put now label l q r s held) [
      | inl (_, same) ↦ rw same (fits.distinct, fits.unused)
      | inr (_, before) ↦ h.in_queue l r before
    ];
    in_queues = λ l j r t apart held_r held_t. elim (pool.Holds-put now label l q r s held_r) [
      | inl (at, same) ↦ elim (pool.Holds-put now label j q t s held_t) [
        | inl (at', _) ↦ absurd (apart (at ∙ sym at'))
        | inr (off, before) ↦ rw same (fits.elsewhere j t off before)
      ]
      | inr (off, before) ↦ elim (pool.Holds-put now label j q t s held_t) [
        | inl (_, same) ↦ rw same (AreApart-sym (conns q) (conns r) (fits.elsewhere l r off before))
        | inr (_, before') ↦ h.in_queues l j r t apart before before'
      ]
    ];
  }

  pub conns-append : (q r : Idle http traffic timer net) → conns (q ++ r) ≡ conns q ++ conns r
  conns-append [] r = refl
  conns-append ((c, inst) ∷ q) r = ap (λ l. c ∷ l) (conns-append q r)

  pub made-IsExclusive :
      (s : pool.State) (used : List Conn) (c : Conn)
      → IsExclusive s used
      → IsNew c s used
      → IsExclusive s (c ∷ used)
  made-IsExclusive s used c h (out, nowhere) = record {
    in_use = (out, h.in_use);
    in_queue = λ l q held.
        let (distinct, unused) = h.in_queue l q held in (distinct, (nowhere l q held, unused));
    in_queues = h.in_queues;
  }

  -- A connection that goes out of use is as good as new.
  pub dropped-IsExclusive :
      (s : pool.State) (before : List Conn) (c : Conn) (after : List Conn)
      → IsExclusive s (before ++ c ∷ after)
      → IsExclusive s (before ++ after) × IsNew c s (before ++ after)
  dropped-IsExclusive s before c after h =
      let (out, distinct) = IsDistinct-without before c after h.in_use in
      (
        record {
          in_use = distinct;
          in_queue = λ l q held.
              let (once, unused) = h.in_queue l q held in
              (once, All-without (λ u. IsOutside u (conns q)) before c after unused);
          in_queues = h.in_queues;
        },
        (
          out,
          λ l q held.
              let (_, unused) = h.in_queue l q held in
              (All-behind (λ u. IsOutside u (conns q)) before c after unused).0,
        ),
      )

  -- A connection that is new is put at the end of a queue.
  pub pushed-Fits :
      (now : ℕ) (label : AccessLabel) (s : pool.State) (used : List Conn) (c : Conn)
      (q : Idle http traffic timer net)
      → IsExclusive s used
      → IsNew c s used
      → pool.Holds s label q
      → Fits s used label (q ++ (c, now) ∷ [])
  pushed-Fits now label s used c q h (out, nowhere) held =
      let (distinct, unused) = h.in_queue label q held in
      let same = sym (conns-append q ((c, now) ∷ [])) in
      record {
        distinct =
            subst IsDistinct same (IsDistinct-append (conns q) c distinct (nowhere label q held));
        unused = subst (AreApart used) same (AreApart-append used (conns q) c unused out);
        elsewhere = λ other r off held_r.
            subst (λ l. AreApart l (conns r)) same
              (All-append (λ x. IsOutside x (conns r)) (conns q) (c ∷ [])
                (h.in_queues label other q r (λ e. off (sym e)) held held_r)
                (nowhere other r held_r, tt));
      }

  pub alone-Fits :
      (now : ℕ) (label : AccessLabel) (s : pool.State) (used : List Conn) (c : Conn)
      → IsNew c s used
      → Fits s used label ((c, now) ∷ [])
  alone-Fits now label s used c (out, nowhere) = record {
    distinct = (tt, tt);
    unused = AreApart-append used [] c (AreApart-nil used) out;
    elsewhere = λ other r off held. (nowhere other r held, tt);
  }

  -- A queue that fits still fits after a look at the cache.
  get_mut-Fits :
      (now : ℕ) (label : AccessLabel) (s : pool.State) (used : List Conn)
      (q : Idle http traffic timer net)
      → Fits s used label q
      → Fits (pool.get_mut now label s).0 used label q
  get_mut-Fits now label s used q fits = record {
    distinct = fits.distinct;
    unused = fits.unused;
    elsewhere = λ other r off held.
        fits.elsewhere other r off (pool.Holds-get_mut now label other s r held);
  }

  pub replaced-IsExclusive :
      (now : ℕ) (label : AccessLabel) (q : Idle http traffic timer net) (s : pool.State)
      (used : List Conn)
      → IsExclusive s used
      → Fits s used label q
      → IsExclusive (pool.put now label q (pool.get_mut now label s).0) used
  replaced-IsExclusive now label q s used h fits =
      put-IsExclusive now label q _ used (get_mut-IsExclusive now label s used h)
        (get_mut-Fits now label s used q fits)
