-- ===== src/ForwardClient/Pool/Apart.antt =====
-- Lists without repetition, and lists that share nothing, for the pool of
-- rust_http_proxy/src/forward_proxy_client.rs.
use rust_http_proxy.Common.{◌≢◌, sym, List, [], ◌∷◌, ◌++◌, All, All-map, All-append}

module _ {A : Type 0} where
  -- The element does not stand in the list.
  abbrev pub IsOutside : A → List A → Type 0
  IsOutside a xs = All (λ x. x ≢ a) xs

  abbrev pub IsDistinct : List A → Type 0
  IsDistinct [] = Unit {0}
  IsDistinct (x ∷ xs) = IsOutside x xs × IsDistinct xs

  abbrev pub AreApart : List A → List A → Type 0
  AreApart xs ys = All (λ x. IsOutside x ys) xs

  pub All-behind :
      (P : A → Type 0) (before : List A) (a : A) (after : List A)
      → All P (before ++ a ∷ after)
      → P a × All P after
  All-behind P [] a after (pa, h) = (pa, h)
  All-behind P (x ∷ before) a after (px, h) = All-behind P before a after h

  pub All-without :
      (P : A → Type 0) (before : List A) (a : A) (after : List A)
      → All P (before ++ a ∷ after)
      → All P (before ++ after)
  All-without P [] a after (pa, h) = h
  All-without P (x ∷ before) a after (px, h) = (px, All-without P before a after h)

  pub IsDistinct-behind :
      (before : List A) (a : A) (after : List A)
      → IsDistinct (before ++ a ∷ after)
      → IsOutside a after × IsDistinct after
  IsDistinct-behind [] a after (out, h) = (out, h)
  IsDistinct-behind (x ∷ before) a after (out, h) = IsDistinct-behind before a after h

  -- What is taken out of a list without repetition is outside of the rest.
  pub IsDistinct-without :
      (before : List A) (a : A) (after : List A)
      → IsDistinct (before ++ a ∷ after)
      → IsOutside a (before ++ after) × IsDistinct (before ++ after)
  IsDistinct-without [] a after (out, h) = (out, h)
  IsDistinct-without (x ∷ before) a after (out, h) =
      let (rest_out, rest) = IsDistinct-without before a after h in
      let (other, _) = All-behind (λ y. y ≢ x) before a after out in
      ((λ e. other (sym e), rest_out), (All-without (λ y. y ≢ x) before a after out, rest))

  pub AreApart-sym : (xs ys : List A) → AreApart xs ys → AreApart ys xs
  AreApart-sym xs [] h = tt
  AreApart-sym xs (y ∷ ys) h = (
    All-map (λ x (other, _) e. other (sym e)) xs h,
    AreApart-sym xs ys (All-map (λ x (_, rest). rest) xs h),
  )

  pub AreApart-nil : (xs : List A) → AreApart xs []
  AreApart-nil [] = tt
  AreApart-nil (x ∷ xs) = (tt, AreApart-nil xs)

  -- One more at the end.
  pub IsDistinct-append :
      (xs : List A) (a : A) → IsDistinct xs → IsOutside a xs → IsDistinct (xs ++ a ∷ [])
  IsDistinct-append [] a h out = (tt, tt)
  IsDistinct-append (x ∷ xs) a (first, h) (other, out) = (
    All-append (λ y. y ≢ x) xs (a ∷ []) first (λ e. other (sym e), tt),
    IsDistinct-append xs a h out,
  )

  pub AreApart-append :
      (us xs : List A) (a : A) → AreApart us xs → IsOutside a us → AreApart us (xs ++ a ∷ [])
  AreApart-append [] xs a h out = tt
  AreApart-append (u ∷ us) xs a (first, h) (other, out) = (
    All-append (λ y. y ≢ u) xs (a ∷ []) first (λ e. other (sym e), tt),
    AreApart-append us xs a h out,
  )
