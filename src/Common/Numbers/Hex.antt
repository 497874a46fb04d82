-- ===== src/Common/Numbers/Hex.antt =====
-- Hexadecimal prints: they differ for different numbers, and have no punctuation.
use rust_http_proxy.Common.Tests.{leb, ◌==◌, if◌then◌else◌}
use rust_http_proxy.Common.Lists.{any}
use rust_http_proxy.Common.Bytes.{Bytes}
use rust_http_proxy.Common.Numbers.{digits, hex, digit}
use Prim.Native.Nat.{ℕ, zero, suc, ◌+◌, ◌-◌, ◌*◌, ◌/◌, ◌%◌, ◌<◌}
use mathlib.Core.Bool.{false}
use mathlib.Core.List.{[], ◌∷◌, ◌++◌}
use mathlib.Core.Path.{◌≡◌, refl, sym, ap, ◌∙◌}
use native.Mathlib.Omega.{arith}

abbrev digit_value : ℕ → ℕ
digit_value c = if leb c b'9' then c - b'0' else c - b'a' + 10

unfoldable read_hex : Bytes → ℕ → ℕ
read_hex [] n = n
read_hex (c ∷ s) n = read_hex s (n * 16 + digit_value c)

read_hex-digits :
    (fuel n : ℕ) (out : Bytes) → n < fuel → read_hex (digits 16 fuel n out) 0 ≡ read_hex out n
unfolding read_hex digits
read_hex-digits zero n out h = absurd (omega arith)
read_hex-digits (suc fuel) n out h =
    ground (arith, read_hex-digits fuel (n / 16) (digit (n % 16) ∷ out))

read_hex-hex : (n : ℕ) → read_hex (hex n) 0 ≡ n
unfolding hex
read_hex-hex n = read_hex-digits (suc n) n [] (omega arith) ∙ (unfold read_hex in refl)

pub hex-injective : (m n : ℕ) → hex m ≡ hex n → m ≡ n
hex-injective m n e = sym (read_hex-hex m) ∙ ap (λ s. read_hex s 0) e ∙ read_hex-hex n

-- The byte does not stand in the text.
abbrev pub Without : ℕ → Bytes → Type 0
Without c s = any (λ a. a == c) s ≡ false

digits-Without :
    (c fuel n : ℕ) (out : Bytes) → c < b'0' → Without c out → Without c (digits 16 fuel n out)
unfolding digits
digits-Without c zero n out k h = h
digits-Without c (suc fuel) n out k h =
    ground (arith, digits-Without c fuel (n / 16) (digit (n % 16) ∷ out) k)

pub hex-Without : (c n : ℕ) → c < b'0' → Without c (hex n)
hex-Without c n k = unfold hex in digits-Without c (suc n) n [] k refl

-- Two texts that are joined by a byte which stands in neither front are equal in front and behind.
pub cut :
    (c : ℕ) (s t u v : Bytes)
    → Without c s
    → Without c t
    → (s ++ c ∷ u) ≡ t ++ c ∷ v
    → (s ≡ t) × (u ≡ v)
cut c [] [] u v hs ht e = (refl, ground arith)
cut c [] (b ∷ t) u v hs ht e = absurd (ground arith)
cut c (a ∷ s) [] u v hs ht e = absurd (ground arith)
cut c (a ∷ s) (b ∷ t) u v hs ht e =
    let tails : (s ++ c ∷ u) ≡ t ++ c ∷ v = cc in
    let same : a ≡ b = cc in
    let (front, behind) = cut c s t u v (ground arith) (ground arith) tails in (cc, behind)
