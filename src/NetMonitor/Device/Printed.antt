-- ===== src/NetMonitor/Device/Printed.antt =====
-- What is read from a device table as the kernel prints it: its columns stand behind one another with
-- any whitespace between them.
use rust_http_proxy.Common.{
  ℕ, ◌≡◌, ◌⊎◌, inl, inr, refl, sym, ap, ◌∙◌, Bool, true, false, not, ◌&&◌, any, is_empty, ◌==◌,
  some, List, [], ◌∷◌, ◌++◌, All, map, append-nil, arith,
}
use rust_http_proxy.Common.Bytes.{Bytes, split, split_first, is_whitespace}
use rust_http_proxy.Common.Bytes.Search.{split_by, split_whitespace}
use rust_http_proxy.NetMonitor.Device.{crlf_to_lf, add_line, add_lines, get_egress_ingress}

-- A word: a text that is not empty and has no whitespace.
abbrev pub IsWord : Bytes → Type 0
IsWord s = (is_empty s ≡ false) × (any is_whitespace s ≡ false)

-- Whitespace within a line.
abbrev pub is_gap : Bytes → Bool
is_gap [] = true
is_gap (a ∷ s) = (is_whitespace a && (not (a == 10) && not (a == 13))) && is_gap s

-- The words of a line, each behind its gap, and what is behind the last of them.
pub record Line : Type 0 where
  pub cells : List (Bytes × Bytes)
  pub tail : Bytes

abbrev pub words_of : Line → List Bytes
words_of l = map (λ c. c.1) l.cells

abbrev pub print_cells : List (Bytes × Bytes) → Bytes → Bytes
print_cells [] tail = tail
print_cells ((gap, w) ∷ cells) tail = gap ++ (w ++ print_cells cells tail)

-- Each cell has its gap and its word.
abbrev pub AreCells : List (Bytes × Bytes) → Type 0
AreCells cells = All (λ c. (is_gap c.0 ≡ true) × IsWord c.1) cells

-- Only the first gap may be empty.
abbrev pub AreApart : List (Bytes × Bytes) → Type 0
AreApart [] = Unit
AreApart (c ∷ cells) = All (λ c. is_empty c.0 ≡ false) cells

abbrev pub IsLine : Line → Type 0
IsLine l = AreCells l.cells × AreApart l.cells × (is_gap l.tail ≡ true)

-- A table of lines, each with its `\n`.
abbrev pub print_lines : List Line → Bytes
print_lines [] = []
print_lines (l ∷ lines) = print_cells l.cells l.tail ++ 10 ∷ print_lines lines

split_whitespace-gap :
    (gap s : Bytes) → is_gap gap ≡ true → split_whitespace (gap ++ s) ≡ split_whitespace s
unfolding split_whitespace split_by
split_whitespace-gap [] s h = refl
split_whitespace-gap (a ∷ gap) s h = ground (arith, split_whitespace-gap gap s)

split_by-word :
    (w s : Bytes)
    → any is_whitespace w ≡ false
    → split_by is_whitespace (w ++ s)
      ≡ (w ++ (split_by is_whitespace s).0, (split_by is_whitespace s).1)
unfolding split_by
split_by-word [] s h = refl
split_by-word (a ∷ w) s h = ground (arith, split_by-word w s)

-- Where a word ends.
abbrev ends_word : Bytes → Bool
ends_word [] = true
ends_word (a ∷ s) = is_whitespace a

split_whitespace-word :
    (w s : Bytes)
    → IsWord w
    → ends_word s ≡ true
    → split_whitespace (w ++ s) ≡ w ∷ split_whitespace s
unfolding split_whitespace split_by
split_whitespace-word w [] (full, solid) h =
    rw (split_by-word w [] solid, split_by, append-nil w, full) refl
split_whitespace-word w (a ∷ s) (full, solid) h =
    rw (split_by-word w (a ∷ s) solid, split_by, h, append-nil w, full) refl

gap_ends_word :
    (gap s : Bytes) → is_gap gap ≡ true → is_empty gap ≡ false → ends_word (gap ++ s) ≡ true
gap_ends_word [] s h full = absurd cc
gap_ends_word (a ∷ gap) s h full = ground arith

tail_ends_word : (tail : Bytes) → is_gap tail ≡ true → ends_word tail ≡ true
tail_ends_word [] h = refl
tail_ends_word (a ∷ tail) h = ground arith

cells_end_word :
    (cells : List (Bytes × Bytes)) (tail : Bytes)
    → AreCells cells
    → All (λ c. is_empty c.0 ≡ false) cells
    → is_gap tail ≡ true
    → ends_word (print_cells cells tail) ≡ true
cells_end_word [] tail h full t = tail_ends_word tail t
cells_end_word ((gap, w) ∷ cells) tail ((g, _), _) (full, _) t =
    gap_ends_word gap (w ++ print_cells cells tail) g full

apart_behind :
    (cells : List (Bytes × Bytes)) → All (λ c. is_empty c.0 ≡ false) cells → AreApart cells
apart_behind [] h = tt
apart_behind (c ∷ cells) (_, h) = h

split_whitespace-print_cells :
    (cells : List (Bytes × Bytes)) (tail : Bytes)
    → AreCells cells
    → AreApart cells
    → is_gap tail ≡ true
    → split_whitespace (print_cells cells tail) ≡ map (λ c. c.1) cells
split_whitespace-print_cells [] tail h apart t =
    ap split_whitespace (sym (append-nil tail))
    ∙ split_whitespace-gap tail [] t
    ∙ (unfold split_whitespace split_by in refl)
split_whitespace-print_cells ((gap, w) ∷ cells) tail ((g, word), h) apart t =
    split_whitespace-gap gap (w ++ print_cells cells tail) g
    ∙ split_whitespace-word w (print_cells cells tail) word (cells_end_word cells tail h apart t)
    ∙ ap (λ ws. w ∷ ws) (split_whitespace-print_cells cells tail h (apart_behind cells apart) t)

abbrev has_byte : ℕ → Bytes → Bool
has_byte c s = any (λ a. a == c) s

-- The bytes that end a line.
abbrev IsEnd : ℕ → Type 0
IsEnd c = (c ≡ 10) ⊎ (c ≡ 13)

word_lem : (c : ℕ) (w : Bytes) → IsEnd c → any is_whitespace w ≡ false → has_byte c w ≡ false
word_lem c [] end h = refl
word_lem c (a ∷ w) end h = ground (arith, word_lem c w end)

gap_lem : (c : ℕ) (gap : Bytes) → IsEnd c → is_gap gap ≡ true → has_byte c gap ≡ false
gap_lem c [] end h = refl
gap_lem c (a ∷ gap) end h = ground (arith, gap_lem c gap end)

has_byte-append :
    (c : ℕ) (s t : Bytes)
    → has_byte c s ≡ false
    → has_byte c t ≡ false
    → has_byte c (s ++ t) ≡ false
has_byte-append c [] t h k = k
has_byte-append c (a ∷ s) t h k = ground (arith, has_byte-append c s t)

has_byte-print_cells :
    (c : ℕ) (cells : List (Bytes × Bytes)) (tail : Bytes)
    → IsEnd c
    → AreCells cells
    → is_gap tail ≡ true
    → has_byte c (print_cells cells tail) ≡ false
has_byte-print_cells c [] tail end h t = gap_lem c tail end t
has_byte-print_cells c ((gap, w) ∷ cells) tail end ((g, (_, solid)), h) t =
    has_byte-append c gap (w ++ print_cells cells tail) (gap_lem c gap end g) (
      has_byte-append c w (print_cells cells tail) (word_lem c w end solid)
        (has_byte-print_cells c cells tail end h t))

has_byte-print_lines :
    (lines : List Line) → All IsLine lines → has_byte 13 (print_lines lines) ≡ false
has_byte-print_lines [] h = refl
has_byte-print_lines (l ∷ lines) ((cells, _, t), h) =
    has_byte-append 13 (print_cells l.cells l.tail) (10 ∷ print_lines lines)
      (has_byte-print_cells 13 l.cells l.tail (inr refl) cells t) (has_byte-print_lines lines h)

crlf_to_lf_lem : (s : Bytes) → has_byte 13 s ≡ false → crlf_to_lf s ≡ s
unfolding crlf_to_lf
crlf_to_lf_lem [] h = refl
crlf_to_lf_lem (a ∷ s) h = ground (arith, crlf_to_lf_lem s)

split_first-line :
    (s t : Bytes)
    → has_byte 10 s ≡ false
    → split_first 10 (s ++ 10 ∷ t) ≡ (s, (split_first 10 t).0 ∷ (split_first 10 t).1)
unfolding split_first
split_first-line [] t h = refl
split_first-line (a ∷ s) t h = ground (arith, split_first-line s t)

-- The lines as they were, and an empty one behind the last `\n`.
abbrev printed : List Line → List Bytes
printed [] = [] ∷ []
printed (l ∷ lines) = print_cells l.cells l.tail ∷ printed lines

split-print_lines :
    (lines : List Line) → All IsLine lines → split 10 (print_lines lines) ≡ printed lines
unfolding split split_first
split-print_lines [] h = refl
split-print_lines (l ∷ lines) ((cells, _, t), h) =
    let rest = split-print_lines lines h in
    rw
      (split_first-line (print_cells l.cells l.tail) (print_lines lines)
        (has_byte-print_cells 10 l.cells l.tail (inl refl) cells t))
      (ap (λ r. print_cells l.cells l.tail ∷ r) rest)

-- The sums over the lines of words.
abbrev pub add_words : List (List Bytes) → ℕ × ℕ → ℕ × ℕ
add_words [] sums = sums
add_words (ws ∷ lines) sums = add_words lines (add_line ws sums)

add_lines-printed :
    (lines : List Line) (sums : ℕ × ℕ)
    → All IsLine lines
    → add_lines (printed lines) sums ≡ add_words (map words_of lines) sums
unfolding add_lines
add_lines-printed [] sums h = unfold split_whitespace split_by add_line in refl
add_lines-printed (l ∷ lines) sums ((cells, apart, t), h) =
    ap (λ a. add_lines (printed lines) (add_line a sums))
      (split_whitespace-print_cells l.cells l.tail cells apart t)
    ∙ add_lines-printed lines (add_line (words_of l) sums) h

pub get_egress_ingress-print_lines :
    (lines : List Line)
    → All IsLine lines
    → get_egress_ingress (some (print_lines lines)) ≡ add_words (map words_of lines) (0, 0)
unfolding get_egress_ingress
get_egress_ingress-print_lines lines h =
    rw
      (crlf_to_lf_lem (print_lines lines) (has_byte-print_lines lines h), split-print_lines lines h)
      (add_lines-printed lines (0, 0) h)
