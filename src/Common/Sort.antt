-- ===== src/Common/Sort.antt =====
-- `Vec::sort` and `sort_by`: a stable sort by a comparison. `le x y` says that `x` may stand before
-- `y`, that is, that the comparison does not answer `Greater`.
use mathlib.Core.List.{Perm, Permᴰ}
use mathlib.Core.List.Perm
use rust_http_proxy.Common.Tests.{if◌then◌else◌, Bool-cases}
use rust_http_proxy.Common.Lists.{All, All-map}
use native.Mathlib.Omega.{arith}
use mathlib.Core.Path.{◌≡◌, refl, ap, ◌∙◌}
use mathlib.Core.Logic.{inl, inr, ∥∥₁_elim}
use mathlib.Core.Bool.{Bool, true, false}
use mathlib.Core.List.{List, [], ◌∷◌}

module _ {ℓ} {A : Type ℓ} (le : A → A → Bool) where
  unfoldable pub insert : A → List A → List A
  insert x [] = x ∷ []
  insert x (y ∷ ys) = if le x y then x ∷ y ∷ ys else y ∷ insert x ys

  unfoldable pub sort_by : List A → List A
  unfolding insert
  sort_by [] = []
  sort_by (x ∷ xs) = insert x (sort_by xs)

  -- Every element may stand before every later one.
  abbrev pub IsSorted : List A → Type ℓ
  IsSorted [] = Unit
  IsSorted (x ∷ xs) = All (λ y. le x y ≡ true) xs × IsSorted xs

  insert-perm : (x : A) (xs : List A) → Perm (insert x xs) (x ∷ xs)
  unfolding insert
  insert-perm x [] = Perm.refl _
  insert-perm x (y ∷ ys) = elim (Bool-cases (le x y)) [
    | inl e ↦ rw e (Perm.refl _)
    | inr e ↦ rw e (Perm.trans (Perm.cons y (insert-perm x ys)) (Perm.swap x y ys))
  ]

  pub sort_by-perm : (xs : List A) → Perm (sort_by xs) xs
  unfolding sort_by
  sort_by-perm [] = Perm.refl _
  sort_by-perm (x ∷ xs) = Perm.trans (insert-perm x (sort_by xs)) (Perm.cons x (sort_by-perm xs))

  module _ {κ} (P : A → Type κ) where
    insert-All : (x : A) (xs : List A) → P x → All P xs → All P (insert x xs)
    unfolding insert
    insert-All x [] px h = (px, tt)
    insert-All x (y ∷ ys) px (py, h) = elim (Bool-cases (le x y)) [
      | inl e ↦ rw e (px, (py, h))
      | inr e ↦ rw e (py, insert-All x ys px h)
    ]

    pub sort_by-All : (xs : List A) → All P xs → All P (sort_by xs)
    unfolding sort_by
    sort_by-All [] h = tt
    sort_by-All (x ∷ xs) (px, h) = insert-All x (sort_by xs) px (sort_by-All xs h)

  module _ (total : (x y : A) → le x y ≡ false → le y x ≡ true)
      (trans : (x y z : A) → le x y ≡ true → le y z ≡ true → le x z ≡ true) where
    insert-IsSorted : (x : A) (xs : List A) → IsSorted xs → IsSorted (insert x xs)
    unfolding insert
    insert-IsSorted x [] h = (tt, tt)
    insert-IsSorted x (y ∷ ys) (hy, h) = elim (Bool-cases (le x y)) [
      | inl e ↦ rw e ((e, All-map (λ z hz. trans x y z e hz) ys hy), (hy, h))
      | inr e ↦ rw e (insert-All _ x ys (total x y e) hy, insert-IsSorted x ys h)
    ]

    pub sort_by-IsSorted : (xs : List A) → IsSorted (sort_by xs)
    unfolding sort_by
    sort_by-IsSorted [] = tt
    sort_by-IsSorted (x ∷ xs) = insert-IsSorted x (sort_by xs) (sort_by-IsSorted xs)

    module _ (antisym : (x y : A) → le x y ≡ true → le y x ≡ true → x ≡ y) where
      insert_comm : (x y : A) (zs : List A) → insert x (insert y zs) ≡ insert y (insert x zs)
      unfolding insert
      insert_comm x y [] = ground (arith, total x y, antisym x y)
      insert_comm x y (z ∷ zs) = ground (
        arith,
        insert_comm x y zs,
        total x y,
        antisym x y,
        total x z,
        total y z,
        trans x y z,
        trans y x z,
        trans y z x,
        trans x z y,
        antisym x z,
        antisym y z,
      )

      sort_by-eqᴰ : {xs ys : List A} → Permᴰ xs ys → sort_by xs ≡ sort_by ys
      unfolding sort_by
      sort_by-eqᴰ Permᴰ.nil = refl
      sort_by-eqᴰ (Permᴰ.cons {b = b} {l₁ = xs} e p) =
          ap (λ x. insert x (sort_by xs)) e ∙ ap (insert b) (sort_by-eqᴰ p)
      sort_by-eqᴰ (Permᴰ.swap {a = a} {b = b} {l = xs} e f) =
          insert_comm a b (sort_by xs) ∙ (λ i. insert (f i) (insert (e i) (sort_by xs)))
      sort_by-eqᴰ (Permᴰ.trans p q) = sort_by-eqᴰ p ∙ sort_by-eqᴰ q

      -- The order that a list comes in does not matter to its sorting.
      pub sort_by-eq : IsSet A → {xs ys : List A} → Perm xs ys → sort_by xs ≡ sort_by ys
      sort_by-eq set {xs} {ys} p =
          let prop : IsProp (sort_by xs ≡ sort_by ys) = hlevel in ∥∥₁_elim p prop sort_by-eqᴰ
