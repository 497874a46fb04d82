-- ===== src/Common/Numbers/RoundTrip.antt =====
-- What is printed is read back, and printing loses nothing.
use rust_http_proxy.Common.Tests.{ltb, Bool-cases}
use rust_http_proxy.Common.Bytes.{Bytes}
use rust_http_proxy.Common.Numbers.{scan, parse_uint, digits, decimal, digit}
use Prim.Native.Nat.{ℕ, zero, suc, ◌/◌, ◌%◌, ◌≤◌, ◌<◌}
use mathlib.Core.List.{[], ◌∷◌}
use mathlib.Core.Option.{some}
use mathlib.Core.Logic.{inl, inr}
use mathlib.Core.Path.{◌≡◌}
use native.Mathlib.Omega.{arith}

scan-digits :
    (limit fuel n : ℕ) (out : Bytes)
    → n < fuel
    → n ≤ limit
    → scan limit (digits 10 fuel n out) 0 ≡ scan limit out n
unfolding scan digits
scan-digits limit zero n out h fits = absurd (omega arith)
scan-digits limit (suc fuel) n out h fits =
    ground (arith, scan-digits limit fuel (n / 10) (digit (n % 10) ∷ out))

-- The print begins with a digit, which is no `+`.
digits_head :
    (fuel n : ℕ) (out : Bytes)
    → n < fuel
    → (c : ℕ) × (s : Bytes) × (digits 10 fuel n out ≡ c ∷ s) × (b'0' ≤ c)
unfolding digits
digits_head zero n out h = absurd (omega arith)
digits_head (suc fuel) n out h = elim (Bool-cases (ltb n 10)) [
  | inl e ↦ (digit n, out, rw e, ground arith)
  | inr e ↦ rw e (digits_head fuel (n / 10) (digit (n % 10) ∷ out) (ground arith))
]

-- Every number of the type is read back from its decimal print.
pub parse_uint-decimal : (limit n : ℕ) → n ≤ limit → parse_uint limit (decimal n) ≡ some n
unfolding parse_uint decimal scan
parse_uint-decimal limit n fits =
    ground (arith, digits_head (suc n) n [], scan-digits limit (suc n) n [])
