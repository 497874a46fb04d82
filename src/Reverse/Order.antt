-- ===== src/Reverse/Order.antt =====
-- The order of the locations: the first match is the longest one.
use rust_http_proxy.Common.{
  ◌≤◌, ◌≡◌, Bool, true, false, some, List, [], ◌∷◌, All, All-map, find, length, Bool-cases, inl,
  inr, arith, subst, Ordering,
}
use rust_http_proxy.Common.Bytes.{Bytes, starts_with, cmp}
use rust_http_proxy.Common.Bytes.Laws.{cmp_trans, cmp_flip, prefix_order}
use rust_http_proxy.Common.Sort.{sort_by, IsSorted, sort_by-IsSorted}
use rust_http_proxy.Reverse.{
  LocationConfig, RedirectBackpaths, location_config_cmp, backpath_cmp, not_greater,
  reverse_ordering,
}
use rust_http_proxy.Reverse.Setup.{by_location, by_redirect_url}
use mathlib.Core.Option.{some-injective}

-- The order that both sorts use, on the texts that they compare.
abbrev pub above : Bytes → Bytes → Bool
above s t = not_greater (reverse_ordering (cmp s t))

above-ne-lt : (s t : Bytes) → above s t ≡ true → ¬ (cmp s t ≡ Ordering.lt)
above-ne-lt s t h e = ground arith

ne-lt-above : (s t : Bytes) → ¬ (cmp s t ≡ Ordering.lt) → above s t ≡ true
ne-lt-above s t h = ground arith

above_total : (s t : Bytes) → above s t ≡ false → above t s ≡ true
above_total s t h = ground (arith, cmp_flip s t)

above_trans : (s t u : Bytes) → above s t ≡ true → above t u ≡ true → above s u ≡ true
above_trans s t u h k = ne-lt-above s u (cmp_trans s t u (above-ne-lt s t h) (above-ne-lt t u k))

module _ {A : Type 0} (text : A → Bytes) where
  -- In a list with the greater texts first, the first prefix of `s` is the longest.
  pub find-longest :
      (s : Bytes) (xs : List A) {x : A}
      → IsSorted (λ a b. above (text a) (text b)) xs
      → find (λ a. starts_with s (text a)) xs ≡ some x
      → All (λ a. starts_with s (text a) ≡ true → length (text a) ≤ length (text x)) xs
  find-longest s [] h e = tt
  find-longest s (y ∷ ys) {x} (hy, h) e = elim (Bool-cases (starts_with s (text y))) [
    | inl hit ↦
        let same : y ≡ x = some-injective y x (rw hit at e) in
        subst
          (λ z.
            All (λ a. starts_with s (text a) ≡ true → length (text a) ≤ length (text z)) (y ∷ ys))
          same
          (
            λ _. omega arith,
            All-map (λ a k p. prefix_order s (text y) (text a) hit p (above-ne-lt _ _ k)) ys hy,
          )
    | inr miss ↦ (λ p. cc, find-longest s ys h (rw miss at e))
  ]

pub sort_by_location-IsSorted :
    (ls : List LocationConfig)
    → IsSorted (λ a b. above a.location b.location) (sort_by by_location ls)
unfolding location_config_cmp
sort_by_location-IsSorted ls =
    sort_by-IsSorted by_location (λ x y. above_total x.location y.location)
      (λ x y z. above_trans x.location y.location z.location) ls

pub sort_by_redirect_url-IsSorted :
    (bs : List RedirectBackpaths)
    → IsSorted (λ a b. above a.redirect_url b.redirect_url) (sort_by by_redirect_url bs)
unfolding backpath_cmp
sort_by_redirect_url-IsSorted bs =
    sort_by-IsSorted by_redirect_url (λ x y. above_total x.redirect_url y.redirect_url)
      (λ x y z. above_trans x.redirect_url y.redirect_url z.redirect_url) bs
