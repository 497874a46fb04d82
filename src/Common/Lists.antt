-- ===== src/Common/Lists.antt =====
-- Lists measured by native numbers, Boolean searches, and a predicate on every element.
use Prim.Native.Nat.{ℕ, zero, suc, ◌+◌, ◌-◌, ◌≤◌}
use mathlib.Core.Path.{◌≡◌, refl, sym, subst}
use mathlib.Core.List.Memᴰ
use mathlib.Core.List.{Memᴰ}
use mathlib.Core.Logic.{inl, inr}
use mathlib.Core.Bool.{Bool, true, false, ◌||◌}
use mathlib.Core.List.{List, [], ◌∷◌, ◌++◌}
use mathlib.Core.Option.{Option, none, some, some-injective}
use native.Mathlib.Omega.{arith}
use rust_http_proxy.Common.Tests.{if◌then◌else◌, Bool-cases}

module _ {ℓ} {A : Type ℓ} where
  abbrev pub length : List A → ℕ
  length [] = 0
  length (x ∷ xs) = suc (length xs)

  abbrev pub is_empty : List A → Bool
  is_empty [] = true
  is_empty (x ∷ xs) = false

  abbrev pub take : ℕ → List A → List A
  take zero xs = []
  take (suc n) [] = []
  take (suc n) (x ∷ xs) = x ∷ take n xs

  abbrev pub drop : ℕ → List A → List A
  drop zero xs = xs
  drop (suc n) [] = []
  drop (suc n) (x ∷ xs) = drop n xs

  abbrev pub replicate : ℕ → A → List A
  replicate zero a = []
  replicate (suc n) a = a ∷ replicate n a

  -- `iter().any(p)`
  abbrev pub any : (A → Bool) → List A → Bool
  any p [] = false
  any p (x ∷ xs) = p x || any p xs

  -- `iter().find(p)`
  abbrev pub find : (A → Bool) → List A → Option A
  find p [] = none
  find p (x ∷ xs) = if p x then some x else find p xs

  abbrev pub All {κ} : (A → Type κ) → List A → Type κ
  All P [] = Unit
  All P (x ∷ xs) = P x × All P xs

  pub length-append : (xs ys : List A) → length (xs ++ ys) ≡ length xs + length ys
  length-append [] ys = omega arith
  length-append (x ∷ xs) ys = omega (arith, length-append xs ys)

  pub length-replicate : (n : ℕ) (a : A) → length (replicate n a) ≡ n
  length-replicate zero a = refl
  length-replicate (suc n) a = omega (arith, length-replicate n a)

  pub drop-length_append : (xs ys : List A) → drop (length xs) (xs ++ ys) ≡ ys
  drop-length_append [] ys = refl
  drop-length_append (x ∷ xs) ys = drop-length_append xs ys

  pub length-drop : (n : ℕ) (xs : List A) → length (drop n xs) ≡ length xs - n
  length-drop zero xs = omega arith
  length-drop (suc n) [] = omega arith
  length-drop (suc n) (x ∷ xs) = omega (arith, length-drop n xs)

  pub drop_short : (n : ℕ) (xs : List A) → length xs ≤ n → drop n xs ≡ []
  drop_short zero [] h = refl
  drop_short zero (x ∷ xs) h = absurd (omega arith)
  drop_short (suc n) [] h = refl
  drop_short (suc n) (x ∷ xs) h = drop_short n xs (omega arith)

pub find-hit {ℓ} :
    {A : Type ℓ} (p : A → Bool) (xs : List A) {x : A} → find p xs ≡ some x → p x ≡ true
find-hit p [] e = cc
find-hit p (y ∷ xs) {x} e = elim (Bool-cases (p y)) [
  | inl hit ↦ subst (λ z. p z ≡ true) (some-injective y x (rw hit at e)) hit
  | inr miss ↦ find-hit p xs (rw miss at e)
]

module _ {ℓ κ} {A : Type ℓ} (P : A → Type κ) where
  pub All-append : (xs ys : List A) → All P xs → All P ys → All P (xs ++ ys)
  All-append [] ys hx hy = hy
  All-append (x ∷ xs) ys (px, hx) hy = (px, All-append xs ys hx hy)

  pub find-All : (p : A → Bool) (xs : List A) {x : A} → All P xs → find p xs ≡ some x → P x
  find-All p [] h e = cc
  find-All p (y ∷ xs) {x} (py, h) e = elim (Bool-cases (p y)) [
    | inl hit ↦ subst P (some-injective y x (rw hit at e)) py
    | inr miss ↦ find-All p xs h (rw miss at e)
  ]

pub find-Mem {ℓ} :
    {A : Type ℓ} (p : A → Bool) (xs : List A) {x : A} → find p xs ≡ some x → Memᴰ x xs
find-Mem p [] e = cc
find-Mem p (y ∷ xs) {x} e = elim (Bool-cases (p y)) [
  | inl hit ↦ Memᴰ.head (sym (some-injective y x (rw hit at e)))
  | inr miss ↦ Memᴰ.tail (find-Mem p xs (rw miss at e))
]

module _ {ℓ κ μ} {A : Type ℓ} {P : A → Type κ} {Q : A → Type μ} where
  pub All-map : (f : (a : A) → P a → Q a) (xs : List A) → All P xs → All Q xs
  All-map f [] h = tt
  All-map f (x ∷ xs) (px, h) = (f x px, All-map f xs h)

pub All-mem {ℓ κ} : {A : Type ℓ} (P : A → Type κ) (xs : List A) {x : A} → All P xs → Memᴰ x xs → P x
All-mem P [] h m = absurd (Memᴰ.not-nil m)
All-mem P (y ∷ xs) (py, h) (Memᴰ.head e) = subst P (sym e) py
All-mem P (y ∷ xs) (py, h) (Memᴰ.tail m) = All-mem P xs h m
