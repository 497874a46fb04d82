-- ===== src/Common/Results.antt =====
-- `io::Result` with the panics of the code kept apart from its errors, and the chain of `?`.
use Prim.Native.String.{String}
use mathlib.Core.Path.{◌≡◌, refl}
use mathlib.Core.Logic.{◌≢◌, ◌⊎◌, inl, inr}
use mathlib.Core.Bool.{Bool, true, false}
use mathlib.Core.Option.{Option, none, some}

-- `io::ErrorKind`, as far as the program names it.
pub data ErrorKind : Type 0 where
  invalid_data invalid_input not_found permission_denied timed_out other : ErrorKind

-- An error of the program's own carries its message; one that only passes on the text of another
-- library's error is `wrapped`, and `boxed` is a message turned into a `Box<dyn Error>`.
pub data IoError : Type 0 where
  io : ErrorKind → String → IoError
  wrapped : ErrorKind → IoError
  boxed : String → IoError

pub data Result {ℓ} (T : Type ℓ) : Type ℓ where
  panic : Result T
  err : IoError → Result T
  ok : T → Result T

-- `ok_or`
abbrev pub ok_or {ℓ} : {T : Type ℓ} → IoError → Option T → Result T
ok_or why (some value) = ok value
ok_or why none = err why

-- `if !holds { return Err(why) }`
abbrev pub guard : Bool → IoError → Result (Unit {0})
guard false why = err why
guard true why = ok tt

module _ {ℓ κ} {T : Type ℓ} {U : Type κ} where
  infixl 5 ◌>>=◌
  -- `?`: what follows a success; an error or a panic ends the function.
  abbrev pub ◌>>=◌ : Result T → (T → Result U) → Result U
  panic >>= next = panic
  err why >>= next = err why
  ok value >>= next = next value

  -- A chain that succeeds has a first step that does, and goes on from its value.
  pub >>=-eq-ok :
      (first : Result T) (next : T → Result U) {out : U}
      → (first >>= next) ≡ ok out
      → (value : T) × (first ≡ ok value) × (next value ≡ ok out)
  >>=-eq-ok panic next e = cc
  >>=-eq-ok (err why) next e = cc
  >>=-eq-ok (ok value) next e = (value, refl, e)

  -- A chain of steps without panics has none.
  pub >>=-ne-panic :
      (first : Result T) (next : T → Result U)
      → first ≢ panic
      → ((value : T) → next value ≢ panic)
      → (first >>= next) ≢ panic
  >>=-ne-panic panic next calm rest = absurd (calm refl)
  >>=-ne-panic (err why) next calm rest = λ p. cc
  >>=-ne-panic (ok value) next calm rest = rest value

infixl 5 ◌>>◌
abbrev pub ◌>>◌ {κ} : {U : Type κ} → Result (Unit {0}) → Result U → Result U
first >> second = first >>= λ done. second

module _ {ℓ} {T : Type ℓ} where
  pub ok_or-eq-ok :
      (why : IoError) (found : Option T) {value : T}
      → ok_or why found ≡ ok value
      → found ≡ some value
  ok_or-eq-ok why none e = cc
  ok_or-eq-ok why (some x) e = cc

  pub ok_or-ne-panic : (why : IoError) (found : Option T) → ok_or why found ≢ panic
  ok_or-ne-panic why none p = cc
  ok_or-ne-panic why (some x) p = cc

  pub ok-injective : {x y : T} → ◌≡◌ {A = Result T} (ok x) (ok y) → x ≡ y
  ok-injective e = cc

  pub Result-cases :
      (r : Result T)
      → ((value : T) × (r ≡ ok value)) ⊎ (((why : IoError) × (r ≡ err why)) ⊎ (r ≡ panic))
  Result-cases panic = inr (inr refl)
  Result-cases (err why) = inr (inl (why, refl))
  Result-cases (ok value) = inl (value, refl)
