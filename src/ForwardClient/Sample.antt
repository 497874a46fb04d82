-- ===== src/ForwardClient/Sample.antt =====
-- A cache with expiry as a list of entries, for evaluating the model. It meets the laws.
use mathlib.Core.Logic.{ite, if_pos, if_neg}
use mathlib.Core.Option.{some-injective}
use rust_http_proxy.Common.{
  ℕ, ◌+◌, ◌≤◌, ◌<◌, ◌≡◌, ◌≢◌, refl, sym, ap, ◌⊎◌, inl, inr, Bool-cases, ltb, lt→ltb, if◌then◌else◌,
  Option, none, some, List, [], ◌∷◌,
}
use rust_http_proxy.ForwardClient.{LruCache}

abbrev Entries : Type 0 → Type 0 → Type 0
Entries K V = List (K × V × ℕ)

module _ {K V : Type 0} (same : Discrete K) (expiry : ℕ) where
  unfoldable pub lookup : K → Entries K V → Option (V × ℕ)
  lookup k [] = none
  lookup k ((j, v, used) ∷ s) = let rest = lookup k s in ite (same j k) (some (v, used)) rest

  -- What is found is used now, unless it was not used for too long.
  abbrev found_at : ℕ → K → Entries K V → Option (V × ℕ) → Entries K V × Option V
  found_at now k s none = (s, none)
  found_at now k s (some (v, used)) =
      if ltb now (used + expiry) then ((k, v, now) ∷ s, some v) else (s, none)

  unfoldable pub get_mut : ℕ → K → Entries K V → Entries K V × Option V
  get_mut now k s = found_at now k s (lookup k s)

  abbrev pub Holds : Entries K V → K → V → Type 0
  Holds [] k v = ⊥
  Holds ((j, w, used) ∷ s) k v = ((k ≡ j) × (v ≡ w)) ⊎ ((k ≢ j) × Holds s k v)

  lookup-Holds :
      (k : K) (s : Entries K V) (v : V) (used : ℕ) → lookup k s ≡ some (v, used) → Holds s k v
  unfolding lookup
  lookup-Holds k [] v used e = cc
  lookup-Holds k ((j, w, at) ∷ s) v used e = elim (same j k) [
    | yes p ↦ inl (sym p, ap (λ r. r.0) (sym (some-injective _ _ (rw (if_pos (same j k) p) at e))))
    | no p ↦ inr (λ q. p (sym q), lookup-Holds k s v used (rw (if_neg (same j k) p) at e))
  ]

  found_at-Holds :
      (now : ℕ) (k : K) (s : Entries K V) (v : V) (r : Option (V × ℕ))
      → lookup k s ≡ r
      → (found_at now k s r).1 ≡ some v
      → Holds s k v
  found_at-Holds now k s v none e found = cc
  found_at-Holds now k s v (some (w, used)) e found = elim (Bool-cases (ltb now (used + expiry))) [
    | inl soon ↦ lookup-Holds k s v used (rw (some-injective w v (rw soon at found)) at e)
    | inr late ↦ cc (rw late at found)
  ]

  Holds-found_at :
      (now : ℕ) (k j : K) (s : Entries K V) (w : V) (r : Option (V × ℕ))
      → lookup k s ≡ r
      → Holds (found_at now k s r).0 j w
      → Holds s j w
  Holds-found_at now k j s w none e held = held
  Holds-found_at now k j s w (some (v, used)) e held = elim (Bool-cases (ltb now (used + expiry))) [
    | inl soon ↦
        let held' : ((j ≡ k) × (w ≡ v)) ⊎ ((j ≢ k) × Holds s j w) = rw soon at held in
        elim held' [ inl (p, q) ↦ rw (p, q) (lookup-Holds k s v used e) | inr (_, before) ↦ before ]
    | inr late ↦ rw late at held
  ]

  pub get_mut-Holds_lem :
      (now : ℕ) (k : K) (s : Entries K V) (v : V) → (get_mut now k s).1 ≡ some v → Holds s k v
  unfolding get_mut
  get_mut-Holds_lem now k s v found = found_at-Holds now k s v (lookup k s) refl found

  pub Holds-get_mut_lem :
      (now : ℕ) (k j : K) (s : Entries K V) (w : V) → Holds (get_mut now k s).0 j w → Holds s j w
  unfolding get_mut
  Holds-get_mut_lem now k j s w held = Holds-found_at now k j s w (lookup k s) refl held

  pub get_mut-put_lem :
      (at now : ℕ) (k : K) (v : V) (s : Entries K V)
      → at ≤ now
      → now < at + expiry
      → (get_mut now k ((k, v, at) ∷ s)).1 ≡ some v
  unfolding get_mut lookup
  get_mut-put_lem at now k v s later soon =
      rw (if_pos (same k k) refl, lt→ltb now (at + expiry) soon) refl

-- The cache over keys that can be told apart.
abbrev pub sample_cache : {K V : Type 0} → Discrete K → (expiry : ℕ) → LruCache K V expiry
sample_cache {K} {V} same expiry = record {
  State = Entries K V;
  empty = [];
  get_mut = get_mut same expiry;
  put = λ now k v s. (k, v, now) ∷ s;
  Holds = Holds same expiry;
  not-Holds-empty = λ k v held. held;
  get_mut-Holds = get_mut-Holds_lem same expiry;
  Holds-get_mut = Holds-get_mut_lem same expiry;
  Holds-put = λ now k j v w s held. held;
  get_mut-put = get_mut-put_lem same expiry;
}
