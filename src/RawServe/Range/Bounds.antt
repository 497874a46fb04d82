-- ===== src/RawServe/Range/Bounds.antt =====
-- Which part of a file a `Range` header gets: `parse_range` of rust_http_proxy/src/raw_serve.rs.
use rust_http_proxy.Common.{
  ℕ, ◌-◌, ◌≤◌, ◌<◌, ◌≡◌, ◌↔◌, inl, inr, sym, ap, ◌∙◌, Option, none, some, [], ◌∷◌, Result,
  Option-cases, ok, ◌>>=◌, ok_or, >>=-eq-ok, ok-injective, arith,
}
use rust_http_proxy.Common.Bytes.{Bytes}
use rust_http_proxy.Common.Numbers.{parse_uint, u64_mod, u64_max}
use rust_http_proxy.Http.{Http}
use rust_http_proxy.RawServe.{Builder, header, with_status}
use rust_http_proxy.RawServe.Range.{last_byte, range_of, check_range, content_range, parse_range}

-- What the two groups of the header ask of a file of the size: all of it, its last bytes, all from
-- a position on, or the bytes between two positions.
abbrev pub Asks : Bytes → Bytes → ℕ → ℕ → ℕ → Type 0
Asks [] [] size start end = (start ≡ 0) × (end ≡ size - 1) × (1 ≤ size)
Asks [] (c ∷ right) size start end =
    (n : ℕ) × (parse_uint u64_max (c ∷ right) ≡ some n)
    × (start ≡ size - n)
    × (end ≡ size - 1)
    × (1 ≤ n)
    × (n < size)
Asks (c ∷ left) [] size start end =
    (parse_uint u64_max (c ∷ left) ≡ some start) × (end ≡ size - 1) × (start < size)
Asks (c ∷ left) (d ∷ right) size start end =
    (parse_uint u64_max (c ∷ left) ≡ some start)
    × (parse_uint u64_max (d ∷ right) ≡ some end)
    × (start ≤ end)
    × (end < size)

check_range-ok :
    (start end size : ℕ) → (check_range start end size ≡ ok tt) ↔ ((start ≤ end) × (end < size))
unfolding check_range
check_range-ok start end size = (λ e. ground arith, λ e. ground arith)

last_byte-size : (size : ℕ) → 1 ≤ size → size < u64_mod → last_byte size ≡ size - 1
last_byte-size size h k = omega arith

last_byte-out : (size : ℕ) → size < u64_mod → last_byte size < size → 1 ≤ size
last_byte-out size h k = omega arith

-- The two checks together, by the groups of the header.
abbrev Grants : Bytes → Bytes → ℕ → ℕ → ℕ → Type 0
Grants left right size start end =
    (range_of left right size ≡ ok (start, end)) × (check_range start end size ≡ ok tt)

Grants-Asks :
    (left right : Bytes) (size start end : ℕ)
    → size < u64_mod
    → Grants left right size start end
    → Asks left right size start end
unfolding range_of
Grants-Asks [] [] size start end q (e, c) =
    let (l, b) = (check_range-ok start end size).0 c in (ground arith, ground arith, ground arith)
Grants-Asks [] (d ∷ right) size start end q (e, c) =
    let (l, b) = (check_range-ok start end size).0 c in
    elim (Option-cases (parse_uint u64_max (d ∷ right))) [
      | inl bad ↦ absurd (ground arith)
      | inr (n, good) ↦ (n, good, ground arith, ground arith, ground arith, ground arith)
    ]
Grants-Asks (d ∷ left) [] size start end q (e, c) =
    let (l, b) = (check_range-ok start end size).0 c in (ground arith, ground arith, ground arith)
Grants-Asks (d ∷ left) (f ∷ right) size start end q (e, c) =
    let (l, b) = (check_range-ok start end size).0 c in (ground arith, ground arith, l, b)

Asks-Grants :
    (left right : Bytes) (size start end : ℕ)
    → size < u64_mod
    → Asks left right size start end
    → Grants left right size start end
unfolding range_of
Asks-Grants [] [] size start end q (s, e, p) =
    (ground arith, (check_range-ok start end size).1 (omega arith, omega arith))
Asks-Grants [] (d ∷ right) size start end q (n, good, s, e, h, k) =
    (ground arith, (check_range-ok start end size).1 (omega arith, omega arith))
Asks-Grants (d ∷ left) [] size start end q (s, e, h) =
    (ground arith, (check_range-ok start end size).1 (omega arith, omega arith))
Asks-Grants (d ∷ left) (f ∷ right) size start end q (s, e, h, k) =
    (ground arith, (check_range-ok start end size).1 (h, k))

module _ (http : Http) (captures : Bytes → Option (Bytes × Bytes)) where
  -- The answer to a `Range` header whose two groups were captured.
  abbrev pub partial : ℕ → ℕ → ℕ → Builder http → Builder http
  partial start end size builder =
      with_status http 206 (header http "content-range" (content_range start end size) builder)

  abbrev pub Reads : http.HeaderValue → Bytes → Bytes → Type 0
  Reads value left right =
      (text : Bytes) × (http.to_str value ≡ some text) × (captures text ≡ some (left, right))

  -- The two steps behind the reading of the header.
  abbrev step : ℕ → Builder http → ℕ × ℕ → Result (ℕ × ℕ × Builder http)
  step size b (start, end) =
      check_range start end size >>= λ _. ok (start, end, partial start end size b)

  parse_range-Reads :
      (value : http.HeaderValue) (left right : Bytes) (size : ℕ) (b : Builder http)
      → Reads value left right
      → parse_range http captures (some value) size b ≡ (range_of left right size >>= step size b)
  parse_range-Reads value left right size b (text, t, c) = unfold parse_range in rw (t, c)

  -- For a file of less than 2 ^ 64 bytes and a `Range` header whose two groups are `left` and
  -- `right`, a start and an end are granted exactly if they are what the groups ask for by `Asks`,
  -- and the response then has status 206 and names them.
  pub parse_range-Asks :
      (value : http.HeaderValue) (left right : Bytes) (size start end : ℕ) (b b' : Builder http)
      → size < u64_mod
      → Reads value left right
      → (parse_range http captures (some value) size b ≡ ok (start, end, b'))
        ↔ (Asks left right size start end × (b' ≡ partial start end size b))
  parse_range-Asks value left right size start end b b' q reads = (there, back)
    where
      there :
          parse_range http captures (some value) size b ≡ ok (start, end, b')
          → Asks left right size start end × (b' ≡ partial start end size b)
      there e =
          let ((s, f), er, e1) =
            >>=-eq-ok (range_of left right size) (step size b)
              (sym (parse_range-Reads value left right size b reads) ∙ e) in
          let (u, ec, e2) = >>=-eq-ok (check_range s f size) _ e1 in
          let same = ok-injective e2 in
          let hs : s ≡ start = ap (λ (x, y, z). x) same in
          let hf : f ≡ end = ap (λ (x, y, z). y) same in
          (
            Grants-Asks left right size start end q (rw (← hs, ← hf) (er, ec)),
            sym (ap (λ (x, y, z). z) same) ∙ rw (hs, hf),
          )

      back :
          Asks left right size start end × (b' ≡ partial start end size b)
          → parse_range http captures (some value) size b ≡ ok (start, end, b')
      back (a, same) =
          let (er, ec) = Asks-Grants left right size start end q a in
          parse_range-Reads value left right size b reads ∙ rw (er, ec, same)

  parse_range-checked :
      (header : Option http.HeaderValue) (size start end : ℕ) (b b' : Builder http)
      → parse_range http captures header size b ≡ ok (start, end, b')
      → check_range start end size ≡ ok tt
  unfolding parse_range
  parse_range-checked none size start end b b' e =
      let (u, ec, e1) = >>=-eq-ok (check_range 0 (last_byte size) size) _ e in
      let same = ok-injective e1 in
      let hs : 0 ≡ start = ap (λ (x, y, z). x) same in
      let hf : last_byte size ≡ end = ap (λ (x, y, z). y) same in rw (← hs, ← hf) ec
  parse_range-checked (some value) size start end b b' e =
      let (text, t, e1) = >>=-eq-ok (ok_or _ (http.to_str value)) _ e in
      let ((left, right), c, e2) = >>=-eq-ok (ok_or _ (captures text)) _ e1 in
      let ((s, f), er, e3) = >>=-eq-ok (range_of left right size) _ e2 in
      let (u, ec, e4) = >>=-eq-ok (check_range s f size) _ e3 in
      let same = ok-injective e4 in
      let hs : s ≡ start = ap (λ (x, y, z). x) same in
      let hf : f ≡ end = ap (λ (x, y, z). y) same in rw (← hs, ← hf) ec

  -- A range that is granted lies in the file, whatever the header is.
  pub parse_range-bounds :
      (header : Option http.HeaderValue) (size start end : ℕ) (b b' : Builder http)
      → parse_range http captures header size b ≡ ok (start, end, b')
      → (start ≤ end) × (end < size)
  parse_range-bounds header size start end b b' e =
      (check_range-ok start end size).0 (parse_range-checked header size start end b b' e)
