-- ===== src/LinuxPages/Tally.antt =====
-- The counts on the page `/nt`: every connection has the number of lines that show it, the greater
-- counts stand first, and the order of the hash map does not matter.
use mathlib.Core.List.{Perm}
use native.Mathlib.Bridge.{le_prop}
use mathlib.Core.List.Perm
use mathlib.Core.List.{Mem, Memᴰ}
use mathlib.Core.List.Memᴰ
use mathlib.Core.Logic.{∥∥₁_elim}
use rust_http_proxy.Common.{
  ℕ, ◌+◌, ◌≤◌, ◌≡◌, refl, sym, ap, subst, ◌∙◌, ◌⊎◌, inl, inr, ◌↔◌, true, false, Bool-cases,
  if◌then◌else◌, List, [], ◌∷◌, map, Ordering, Ordering-cases, ◌≢◌, ◌<◌, arith,
}
use rust_http_proxy.Common.Bytes.{Bytes, codes, beq, cmp}
use rust_http_proxy.Common.Bytes.Search.{join}
use rust_http_proxy.Common.Bytes.Laws.{
  beq_iff, beq_sound, cmp_flip, cmp_flip_gt, cmp_sound, cmp_trans,
}
use rust_http_proxy.Common.Sort.{IsSorted, sort_by-IsSorted, sort_by-perm, sort_by-eq}
use rust_http_proxy.LinuxPages.{
  Counts, add_one, connection_counts, order, may_precede, page_of, shown, sorted_connections,
}

-- How often a text stands in a list.
abbrev pub occurrences : Bytes → List Bytes → ℕ
occurrences s [] = 0
occurrences s (t ∷ ts) = (if beq t s then 1 else 0) + occurrences s ts

-- The count that a map has for a text, nothing counting as zero.
abbrev pub count_of : Bytes → Counts → ℕ
count_of s [] = 0
count_of s ((k, n) ∷ counts) = if beq k s then n else count_of s counts

count_of-add_one :
    (s t : Bytes) (counts : Counts)
    → count_of s (add_one t counts) ≡ (if beq t s then 1 else 0) + count_of s counts
unfolding add_one
count_of-add_one s t [] = ground arith
count_of-add_one s t ((k, n) ∷ counts) =
    ground (arith, count_of-add_one s t counts, beq_iff k t, beq_iff k s, beq_iff t s)

count_of-connection_counts :
    (s : Bytes) (ts : List Bytes) (counts : Counts)
    → count_of s (connection_counts ts counts) ≡ occurrences s ts + count_of s counts
unfolding connection_counts
count_of-connection_counts s [] counts = omega arith
count_of-connection_counts s (t ∷ ts) counts =
    let rest = count_of-connection_counts s ts (add_one t counts) in
    let one = count_of-add_one s t counts in omega arith

cmp_antisym : (s t : Bytes) → cmp s t ≢ Ordering.gt → cmp t s ≢ Ordering.gt → s ≡ t
cmp_antisym s t h k = elim (Ordering-cases (cmp s t)) [
  | inl lt ↦ absurd (k (cmp_flip s t lt))
  | inr (inl eq) ↦ cmp_sound s t eq
  | inr (inr gt) ↦ absurd (h gt)
]

cmp_le_trans :
    (s t u : Bytes) → cmp s t ≢ Ordering.gt → cmp t u ≢ Ordering.gt → cmp s u ≢ Ordering.gt
cmp_le_trans s t u h k e =
    cmp_trans u t s (λ lt. k (cmp_flip u t lt)) (λ lt. h (cmp_flip t s lt)) (cmp_flip_gt s u e)

-- The greater count goes first, and of equal counts the text that is not above the other.
may_precede_iff :
    (s t : Bytes) (m n : ℕ)
    → (may_precede (s, m) (t, n) ≡ true) ↔ ((n < m) ⊎ ((m ≡ n) × (cmp s t ≢ Ordering.gt)))
unfolding order
may_precede_iff s t m n = elim (Ordering-cases (cmp s t)) [
  | inl lt ↦ ground (arith)
  | inr (inl eq) ↦ ground (arith)
  | inr (inr gt) ↦ ground (arith)
]

may_precede_total : (x y : Bytes × ℕ) → may_precede x y ≡ false → may_precede y x ≡ true
may_precede_total (s, m) (t, n) h =
    let to = may_precede_iff s t m n in
    let back = may_precede_iff t s n m in
    ground (arith, to, back, cmp_flip s t, cmp_flip_gt s t, Ordering-cases (cmp s t))

may_precede_trans :
    (x y z : Bytes × ℕ) → may_precede x y ≡ true → may_precede y z ≡ true → may_precede x z ≡ true
may_precede_trans (s, l) (t, m) (u, n) h k =
    let first = (may_precede_iff s t l m).0 h in
    let second = (may_precede_iff t u m n).0 k in
    (may_precede_iff s u l n).1 (ground (arith, first, second, cmp_le_trans s t u))

may_precede_antisym : (x y : Bytes × ℕ) → may_precede x y ≡ true → may_precede y x ≡ true → x ≡ y
may_precede_antisym (s, m) (t, n) h k =
    let first = (may_precede_iff s t m n).0 h in
    let second = (may_precede_iff t s n m).0 k in ground (arith, first, second, cmp_antisym s t)

-- Each text has one entry, and no count is zero.
abbrev IsMap : Counts → Type 0
IsMap [] = Unit {0}
IsMap ((k, n) ∷ counts) = (1 ≤ n) × (count_of k counts ≡ 0) × IsMap counts

add_one-IsMap : (t : Bytes) (counts : Counts) → IsMap counts → IsMap (add_one t counts)
unfolding add_one
add_one-IsMap t [] h = (omega arith, refl, tt)
add_one-IsMap t ((k, n) ∷ counts) (some_lines, once, h) = elim (Bool-cases (beq k t)) [
  | inl hit ↦ rw hit (omega arith, once, h)
  | inr miss ↦ rw miss (
    some_lines,
    ground (arith, count_of-add_one k t counts, beq_iff k t, beq_iff t k),
    add_one-IsMap t counts h,
  )
]

connection_counts-IsMap :
    (ts : List Bytes) (counts : Counts) → IsMap counts → IsMap (connection_counts ts counts)
unfolding connection_counts
connection_counts-IsMap [] counts h = h
connection_counts-IsMap (t ∷ ts) counts h =
    connection_counts-IsMap ts (add_one t counts) (add_one-IsMap t counts h)

entry_counted :
    (s : Bytes) (n : ℕ) (counts : Counts)
    → IsMap counts
    → Memᴰ (s, n) counts
    → (1 ≤ n) × (n ≡ count_of s counts)
entry_counted s n [] h there = absurd (Memᴰ.not-nil there)
entry_counted s n ((k, m) ∷ counts) (some_lines, once, h) (Memᴰ.head e) =
    let key : s ≡ k = ap (λ r. r.0) e in
    let count : n ≡ m = ap (λ r. r.1) e in ground (arith, beq_iff k s)
entry_counted s n ((k, m) ∷ counts) (some_lines, once, h) (Memᴰ.tail there) =
    let (positive, counted) = entry_counted s n counts h there in
    elim (Bool-cases (beq k s)) [
      | inl hit ↦
          let none_left : count_of s counts ≡ 0 =
            subst (λ r. count_of r counts ≡ 0) (beq_sound k s hit) once in
          absurd (omega arith)
      | inr miss ↦ (positive, rw miss counted)
    ]

counted_entry :
    (s : Bytes) (n : ℕ) (counts : Counts) → 1 ≤ n → n ≡ count_of s counts → Memᴰ (s, n) counts
counted_entry s n [] h e = absurd (omega arith)
counted_entry s n ((k, m) ∷ counts) h e = elim (Bool-cases (beq k s)) [
  | inl hit ↦ Memᴰ.head (ground (arith, beq_sound k s hit))
  | inr miss ↦ Memᴰ.tail (counted_entry s n counts h (rw miss at e))
]

count_of-total :
    (s : Bytes) (texts : List Bytes) → count_of s (connection_counts texts []) ≡ occurrences s texts
count_of-total s texts = ground (arith, count_of-connection_counts s texts [])

entry_there :
    (s : Bytes) (n : ℕ) (texts : List Bytes)
    → Mem (s, n) (connection_counts texts [])
    → (1 ≤ n) × (n ≡ occurrences s texts)
entry_there s n texts there =
    let prop : IsProp ((1 ≤ n) × (n ≡ occurrences s texts)) = hlevel le_prop in
    ∥∥₁_elim there prop (λ d.
      let (positive, counted) =
        entry_counted s n (connection_counts texts []) (connection_counts-IsMap texts [] tt) d in
      (positive, counted ∙ count_of-total s texts))

Counts_set : IsSet (Bytes × ℕ)
Counts_set = hlevel

-- The page does not depend on the order in which the hash map gives out its entries.
pub page_of-into_iter :
    (into_iter : Counts → Counts) (listed : List Bytes)
    → ((counts : Counts) → Perm (into_iter counts) counts)
    → page_of into_iter listed ≡ page_of (λ counts. counts) listed
unfolding page_of sorted_connections
page_of-into_iter into_iter listed all =
    ap (λ sorted. join (codes "\n") (map shown sorted))
      (sort_by-eq may_precede may_precede_total may_precede_trans may_precede_antisym Counts_set
        (all _))

-- The page has an entry for a connection and a number exactly if the number is not zero and as many
-- lines show that connection; the entries stand in the order of the comparison, the greater counts
-- first; for any order in which the hash map gives out its entries.
pub sorted_connections-occurrences :
    (into_iter : Counts → Counts) (texts : List Bytes)
    → ((counts : Counts) → Perm (into_iter counts) counts)
    → IsSorted may_precede (sorted_connections into_iter texts)
      × ((text : Bytes) (count : ℕ)
          → Mem (text, count) (sorted_connections into_iter texts)
            ↔ ((1 ≤ count) × (count ≡ occurrences text texts)))
unfolding sorted_connections
sorted_connections-occurrences into_iter texts all =
    let counts = connection_counts texts [] in
    let same = Perm.trans (sort_by-perm may_precede (into_iter counts)) (all counts) in
    (
      sort_by-IsSorted may_precede may_precede_total may_precede_trans (into_iter counts),
      λ text count. (
        λ there. entry_there text count texts ((Perm.mem_iff same).0 there),
        λ (positive, counted).
            (Perm.mem_iff same).1
              ∣ counted_entry text count counts positive
                (counted ∙ sym (count_of-total text texts)) ∣₁,
      ),
    )
