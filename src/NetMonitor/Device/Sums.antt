-- ===== src/NetMonitor/Device/Sums.antt =====
-- The sums of the counters that the kernel prints: `get_egress_ingress` of
-- rust_http_proxy/src/linux_monitor.rs.
use rust_http_proxy.Common.{
  ℕ, ◌+◌, ◌%◌, ◌<◌, ◌≡◌, ◌≢◌, refl, sym, ap, ◌∙◌, inl, inr, Bool-cases, if◌then◌else◌, some, List,
  [], ◌∷◌, ◌++◌, All, map, length, length-append, arith,
}
use rust_http_proxy.Common.Bytes.{Bytes}
use rust_http_proxy.Common.Numbers.{u64_mod, u64_max, parse_uint, decimal}
use rust_http_proxy.Common.Numbers.RoundTrip.{parse_uint-decimal}
use rust_http_proxy.NetMonitor.Device.{
  is_ignored, add_line, get_egress_ingress, nth_or_empty, counter_at, number_or_zero,
}
use rust_http_proxy.NetMonitor.Device.Printed.{
  Line, IsLine, words_of, print_lines, add_words, get_egress_ingress-print_lines,
}

-- A line of the table: the received bytes and seven more counts, and the same for what was sent.
pub record Interface : Type 0 where
  pub name : Bytes
  pub received : ℕ
  pub received_more : List Bytes
  pub sent : ℕ
  pub sent_more : List Bytes

abbrev pub words : Interface → List Bytes
words i = i.name ∷ decimal i.received ∷ i.received_more ++ decimal i.sent ∷ i.sent_more

abbrev pub IsInterface : Interface → Type 0
IsInterface i =
    (i.received < u64_mod)
    × (i.sent < u64_mod)
    × (length i.received_more ≡ 7)
    × (length i.sent_more ≡ 7)

-- What the interfaces sent and received that are not ignored.
abbrev pub all_sent : List Interface → ℕ
all_sent [] = 0
all_sent (i ∷ is) = (if is_ignored i.name then 0 else i.sent) + all_sent is

abbrev pub all_received : List Interface → ℕ
all_received [] = 0
all_received (i ∷ is) = (if is_ignored i.name then 0 else i.received) + all_received is

nth_behind :
    (xs ys : List Bytes) (y : Bytes) (n : ℕ) → length xs ≡ n → nth_or_empty n (xs ++ y ∷ ys) ≡ y
nth_behind [] ys y n e = rw (sym e) refl
nth_behind (x ∷ xs) ys y n e = rw (sym e) (nth_behind xs ys y (length xs) refl)

counter_at-decimal :
    (i n : ℕ) (array : List Bytes)
    → n < u64_mod
    → nth_or_empty i array ≡ decimal n
    → counter_at i array ≡ n
counter_at-decimal i n array fits at =
    ap (λ t. number_or_zero (parse_uint u64_max t)) at
    ∙ ap number_or_zero (parse_uint-decimal u64_max n (omega arith))

add_line-words :
    (i : Interface) (e r : ℕ)
    → IsInterface i
    → add_line (words i) (e, r)
      ≡ (if is_ignored i.name then (e, r) else ((e + i.sent) % u64_mod, (r + i.received) % u64_mod))
unfolding add_line
add_line-words i e r (fits_received, fits_sent, seven, seven_more) =
    let size : length (words i) ≡ 17 =
      ground (arith, length-append i.received_more (decimal i.sent ∷ i.sent_more)) in
    let sent : counter_at 9 (words i) ≡ i.sent =
      counter_at-decimal 9 i.sent (words i) fits_sent
        (nth_behind i.received_more i.sent_more (decimal i.sent) 7 seven) in
    let received : counter_at 1 (words i) ≡ i.received =
      counter_at-decimal 1 i.received (words i) fits_received refl in
    rw (size, sent, received) refl

add_words-interfaces :
    (is : List Interface) (e r : ℕ)
    → All IsInterface is
    → e < u64_mod
    → r < u64_mod
    → add_words (map words is) (e, r)
      ≡ ((e + all_sent is) % u64_mod, (r + all_received is) % u64_mod)
add_words-interfaces [] e r h small_e small_r = ground arith
add_words-interfaces (i ∷ is) e r (hi, h) small_e small_r = elim (Bool-cases (is_ignored i.name)) [
  | inl ignored ↦
      ap (add_words (map words is)) (add_line-words i e r hi ∙ rw ignored refl)
      ∙ add_words-interfaces is e r h small_e small_r
      ∙ ground arith
  | inr counted ↦
      ap (add_words (map words is)) (add_line-words i e r hi ∙ rw counted refl)
      ∙ add_words-interfaces is ((e + i.sent) % u64_mod) ((r + i.received) % u64_mod) h
          (omega arith) (omega arith)
      ∙ rw counted (ground arith)
]

add_line-other : (ws : List Bytes) (sums : ℕ × ℕ) → length ws ≢ 17 → add_line ws sums ≡ sums
unfolding add_line
add_line-other ws (e, r) other = ground arith

add_words-headers :
    (headers lines : List (List Bytes)) (sums : ℕ × ℕ)
    → All (λ ws. length ws ≢ 17) headers
    → add_words (headers ++ lines) sums ≡ add_words lines sums
add_words-headers [] lines sums h = refl
add_words-headers (ws ∷ headers) lines sums (other, h) =
    ap (add_words (headers ++ lines)) (add_line-other ws sums other)
    ∙ add_words-headers headers lines sums h

-- From a table with any lines of words of another number than 17 in front, and then a line for each
-- interface with its counters of 64 bits, whatever whitespace there is between the words of a line, the
-- sums of what the interfaces sent and received are read, as 64-bit numbers, without the interfaces
-- that are ignored by the beginnings of their names.
pub get_egress_ingress-sums :
    (table : List Line) (headers : List (List Bytes)) (is : List Interface)
    → All IsLine table
    → map words_of table ≡ headers ++ map words is
    → All (λ ws. length ws ≢ 17) headers
    → All IsInterface is
    → get_egress_ingress (some (print_lines table))
      ≡ (all_sent is % u64_mod, all_received is % u64_mod)
get_egress_ingress-sums table headers is lines shows other h =
    get_egress_ingress-print_lines table lines
    ∙ ap (λ t. add_words t (0, 0)) shows
    ∙ add_words-headers headers (map words is) (0, 0) other
    ∙ add_words-interfaces is 0 0 h (omega arith) (omega arith)
    ∙ ground arith
