-- ===== src/Common/Bytes/Search.antt =====
-- The functions of Rust's `str` that look for something in a text or cut it up, on texts as lists of
-- bytes. Offsets are those of bytes.
use Prim.Native.Nat.{ℕ, zero, suc, ◌-◌}
use mathlib.Core.Bool.{Bool}
use mathlib.Core.List.{List, [], ◌∷◌, ◌++◌, reverse}
use mathlib.Core.Option.{Option, none, some}
use rust_http_proxy.Common.Tests.{◌==◌, if◌then◌else◌}
use rust_http_proxy.Common.Lists.{length, is_empty, replicate}
use rust_http_proxy.Common.Bytes.{Bytes, starts_with, split_first, is_whitespace}

abbrev pub next : Option ℕ → Option ℕ
next none = none
next (some i) = some (suc i)

-- `s.find(p)` for a text
unfoldable pub find_text : Bytes → Bytes → Option ℕ
unfolding starts_with
find_text [] p = if starts_with [] p then some 0 else none
find_text (a ∷ s) p =
    let rest = find_text s p in if starts_with (a ∷ s) p then some 0 else next rest

-- `s.find(f)` for a test on a character
unfoldable pub find_by : (ℕ → Bool) → Bytes → Option ℕ
find_by f [] = none
find_by f (a ∷ s) = let rest = find_by f s in if f a then some 0 else next rest

-- `s.rfind(c)`
unfoldable pub rfind : ℕ → Bytes → Option ℕ
rfind c [] = none
rfind c (a ∷ s) = elim (rfind c s) [
  | some i ↦ some (suc i)
  | none ↦ if a == c then some 0 else none
]

-- `s.replace(p, "")` for a text that is not empty; the number counts the bytes still to leave out.
unfoldable pub leave_out : Bytes → ℕ → Bytes → Bytes
unfolding starts_with
leave_out p skip [] = []
leave_out p (suc skip) (a ∷ s) = leave_out p skip s
leave_out p zero (a ∷ s) =
    let without = leave_out p (length p - 1) s in
    let rest = leave_out p 0 s in if starts_with (a ∷ s) p then without else a ∷ rest

-- A line without the `\r` at its end.
abbrev pub strip_cr : Bytes → Bytes
strip_cr line = elim (reverse line) [ [] ↦ [] | a ∷ s ↦ if a == 13 then reverse s else line ]

-- The lines of a text that is cut at `\n`: the last piece is a line only if it is not empty, and its
-- `\r` stays.
unfoldable pub lines_of : Bytes → List Bytes → List Bytes
lines_of piece [] = if is_empty piece then [] else piece ∷ []
lines_of piece (following ∷ rest) = strip_cr piece ∷ lines_of following rest

-- `s.lines()`
unfoldable pub lines : Bytes → List Bytes
unfolding lines_of split_first
lines s = let (piece, rest) = split_first 10 s in lines_of piece rest

abbrev pub not_blank : List Bytes → List Bytes
not_blank [] = []
not_blank (s ∷ ss) = if is_empty s then not_blank ss else s ∷ not_blank ss

-- The pieces between the bytes that a test holds of.
unfoldable pub split_by : (ℕ → Bool) → Bytes → Bytes × List Bytes
split_by f [] = ([], [])
split_by f (a ∷ s) =
    let (piece, rest) = split_by f s in if f a then ([], piece ∷ rest) else (a ∷ piece, rest)

-- `s.split_whitespace()`
unfoldable pub split_whitespace : Bytes → List Bytes
unfolding split_by
split_whitespace s = let (piece, rest) = split_by is_whitespace s in not_blank (piece ∷ rest)

-- `{s:>n}` and `{s:<n}`
abbrev pub pad_left : ℕ → Bytes → Bytes
pad_left n s = replicate (n - length s) b' ' ++ s

abbrev pub pad_right : ℕ → Bytes → Bytes
pad_right n s = s ++ replicate (n - length s) b' '

-- `ss.join(sep)`
unfoldable pub join : Bytes → List Bytes → Bytes
join sep [] = []
join sep (s ∷ ss) = elim ss [ [] ↦ s | t ∷ ts ↦ s ++ sep ++ join sep ss ]
