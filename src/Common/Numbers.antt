-- ===== src/Common/Numbers.antt =====
-- Numbers as text: `from_str` of the unsigned integers, and their decimal and hexadecimal print.
pub mod RoundTrip
pub mod Hex
use rust_http_proxy.Common.Tests.{leb, ltb, ◌==◌, if◌then◌else◌}
use rust_http_proxy.Common.Lists.{is_empty}
use rust_http_proxy.Common.Bytes.{Bytes, codes}
use Prim.Native.Nat.{ℕ, zero, suc, ◌+◌, ◌-◌, ◌*◌, ◌/◌, ◌%◌, ◌^◌}
use mathlib.Core.Bool.{Bool, true, false, ◌&&◌}
use mathlib.Core.List.{[], ◌∷◌}
use mathlib.Core.Option.{Option, none, some}
use mathlib.Core.Path.{◌≡◌, refl}

abbrev pub u16_max : ℕ
u16_max = 2 ^ 16 - 1

abbrev pub u64_mod : ℕ
u64_mod = 2 ^ 64

abbrev pub u64_max : ℕ
u64_max = 2 ^ 64 - 1

abbrev pub is_digit : ℕ → Bool
is_digit c = leb b'0' c && leb c b'9'

-- The digits still to read, behind the number read so far.
unfoldable pub scan : ℕ → Bytes → ℕ → Option ℕ
scan limit [] n = some n
scan limit (c ∷ s) n =
    let m = n * 10 + (c - b'0') in
    let rest = scan limit s m in if is_digit c then (if leb m limit then rest else none) else none

-- `s.parse::<uN>()`, with the largest number of the type: a `+` may lead, and an empty text, a
-- character that is no digit, and a number that does not fit are errors.
unfoldable pub parse_uint : ℕ → Bytes → Option ℕ
unfolding scan
parse_uint limit [] = none
parse_uint limit (c ∷ s) =
    if c == b'+' then (if is_empty s then none else scan limit s 0) else scan limit (c ∷ s) 0

abbrev pub digit : ℕ → ℕ
digit d = if ltb d 10 then b'0' + d else b'a' + d - 10

-- The digits of `n` in front of `out`; the fuel counts the digits.
unfoldable pub digits : ℕ → ℕ → ℕ → Bytes → Bytes
digits radix zero n out = out
digits radix (suc fuel) n out =
    let longer = digits radix fuel (n / radix) (digit (n % radix) ∷ out) in
    if ltb n radix then digit n ∷ out else longer

-- `{n}` and `{n:x}`
unfoldable pub decimal : ℕ → Bytes
unfolding digits
decimal n = digits 10 (suc n) n []

unfoldable pub hex : ℕ → Bytes
unfolding digits
hex n = digits 16 (suc n) n []

numbers_test :
    (decimal 0 ≡ codes "0") × (decimal 65535 ≡ codes "65535") × (hex 48879 ≡ codes "beef")
unfolding decimal hex
numbers_test = (refl, refl, refl)

parse_uint_test :
    (parse_uint 65535 (codes "+80") ≡ some 80)
    × (parse_uint 65535 (codes "65536") ≡ none)
    × (parse_uint 65535 (codes "+") ≡ none)
unfolding parse_uint
parse_uint_test = (refl, refl, refl)
