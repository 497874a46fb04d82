-- ===== src/Common/Bytes.antt =====
-- Texts as lists of bytes, with the functions of Rust's `str` that the program calls. Slices are at
-- byte offsets; the program slices at the ends of matched prefixes and of ASCII separators only.
pub mod Laws
pub mod Search
use Prim.Native.Nat.{ℕ, compare, Ordering, ◌+◌, ◌-◌}
use Prim.Native.Char.{code}
use Prim.Native.String.{String}
use mathlib.Core.Bool.{Bool, true, false, ◌&&◌, ◌||◌}
use mathlib.Core.List.{List, [], ◌∷◌, ◌++◌, map, reverse}
use mathlib.Core.Option.{Option, none, some}
use rust_http_proxy.Common.Tests.{leb, ◌==◌, if◌then◌else◌}

abbrev pub Bytes : Type 0
Bytes = List ℕ

-- The bytes of an ASCII literal.
abbrev pub codes : String → Bytes
codes String.[] = []
codes (String.◌∷◌ c s) = code c ∷ codes s

-- `==` on texts
unfoldable pub beq : Bytes → Bytes → Bool
beq [] [] = true
beq [] (_ ∷ _) = false
beq (_ ∷ _) [] = false
beq (a ∷ s) (b ∷ t) = (a == b) && beq s t

-- `Ord::cmp` on texts
unfoldable pub cmp : Bytes → Bytes → Ordering
cmp [] [] = Ordering.eq
cmp [] (_ ∷ _) = Ordering.lt
cmp (_ ∷ _) [] = Ordering.gt
cmp (a ∷ s) (b ∷ t) = elim (compare a b) [
  | Ordering.lt ↦ Ordering.lt
  | Ordering.gt ↦ Ordering.gt
  | Ordering.eq ↦ cmp s t
]

-- `s.starts_with(p)`, as `starts_with s p`
unfoldable pub starts_with : Bytes → Bytes → Bool
starts_with s [] = true
starts_with [] (_ ∷ _) = false
starts_with (a ∷ s) (b ∷ p) = (a == b) && starts_with s p

-- `s.ends_with(p)`
unfoldable pub ends_with : Bytes → Bytes → Bool
unfolding starts_with
ends_with s p = starts_with (reverse s) (reverse p)

-- `s.contains(p)`
unfoldable pub contains : Bytes → Bytes → Bool
unfolding starts_with
contains [] p = starts_with [] p
contains (a ∷ s) p = starts_with (a ∷ s) p || contains s p

-- The pieces of `s.split(c)`: the first one, and the rest. The first is there for every text.
unfoldable pub split_first : ℕ → Bytes → Bytes × List Bytes
split_first c [] = ([], [])
split_first c (a ∷ s) =
    let (piece, rest) = split_first c s in if a == c then ([], piece ∷ rest) else (a ∷ piece, rest)

unfoldable pub split : ℕ → Bytes → List Bytes
unfolding split_first
split c s = let (piece, rest) = split_first c s in piece ∷ rest

-- `to_ascii_lowercase` on a byte
abbrev pub to_lower : ℕ → ℕ
to_lower a = if leb b'A' a && leb a b'Z' then a + 32 else a

-- `s.eq_ignore_ascii_case(t)`
unfoldable pub eq_ignore_ascii_case : Bytes → Bytes → Bool
unfolding beq
eq_ignore_ascii_case s t = beq (map to_lower s) (map to_lower t)

-- The ASCII bytes that `char::is_whitespace` accepts.
abbrev pub is_whitespace : ℕ → Bool
is_whitespace a = (leb 9 a && leb a 13) || a == 32

unfoldable pub trim_start : Bytes → Bytes
trim_start [] = []
trim_start (a ∷ s) = if is_whitespace a then trim_start s else a ∷ s

-- `s.trim()`
unfoldable pub trim : Bytes → Bytes
unfolding trim_start
trim s = reverse (trim_start (reverse (trim_start s)))
