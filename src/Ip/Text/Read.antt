-- ===== src/Ip/Text/Read.antt =====
-- `FromStr` of `Ipv4Addr` and `Ipv6Addr` in the standard library: a parser that reads a value off
-- the front of the text and hands on the rest.
use rust_http_proxy.Common.{
  ℕ, zero, suc, ◌+◌, ◌-◌, ◌*◌, Bool, true, false, not, ◌&&◌, ◌==◌, ltb, leb, if◌then◌else◌, Option,
  none, some, List, [], ◌∷◌, ◌++◌, length, replicate,
}
use rust_http_proxy.Common.Bytes.{Bytes, to_lower}
use rust_http_proxy.Ip.{Ipv4Addr, Ipv6Addr}

infixl 5 ◌>>=◌
abbrev ◌>>=◌ {ℓ κ} : {A : Type ℓ} {B : Type κ} → Option A → (A → Option B) → Option B
none >>= f = none
some a >>= f = f a

-- `char::to_digit`
to_digit : ℕ → ℕ → Option ℕ
to_digit radix c =
    let d : ℕ =
      if leb b'0' c && leb c b'9'
      then c - b'0'
      else if leb b'a' (to_lower c) && leb (to_lower c) b'f'
      then to_lower c - b'a' + 10
      else radix in
    if ltb d radix then some d else none

-- The digits that the text begins with, as their number and value, and the rest.
pub record Run : Type 0 where
  pub count : ℕ
  pub value : ℕ
  pub rest : Bytes

run_from : ℕ → ℕ → ℕ → Bytes → Run
unfolding to_digit
run_from radix n v [] = record { count = n; value = v; rest = [] }
run_from radix n v (c ∷ s) = elim (to_digit radix c) [
  | none ↦ record { count = n; value = v; rest = c ∷ s }
  | some d ↦ run_from radix (n + 1) (v * radix + d) s
]

abbrev begins_with_zero : Bytes → Bool
begins_with_zero [] = false
begins_with_zero (c ∷ s) = c == b'0'

-- `read_number`, for a type whose numbers are at most `limit`.
read_number : ℕ → ℕ → Bool → ℕ → Bytes → Option (ℕ × Bytes)
unfolding run_from
read_number radix max_digits allow_zero_prefix limit s =
    let r = run_from radix 0 0 s in
    if r.count == 0
    then none
    else if ltb max_digits r.count
    then none
    else if not allow_zero_prefix && begins_with_zero s && ltb 1 r.count
    then none
    else if leb r.value limit
    then some (r.value, r.rest)
    else none

read_char : ℕ → Bytes → Option Bytes
read_char c [] = none
read_char c (a ∷ s) = if a == c then some s else none

abbrev octet : Bytes → Option (ℕ × Bytes)
octet = read_number 10 3 false 255

read_v4 : Bytes → Option (Ipv4Addr × Bytes)
unfolding read_number read_char
read_v4 s = octet s >>= λ p. read_char b'.' p.1 >>= λ s'. octet s' >>= λ q.
    read_char b'.' q.1 >>= λ t. octet t >>= λ r. read_char b'.' r.1 >>= λ t'.
    octet t' >>= λ u. some (record { a = p.0; b = q.0; c = r.0; d = u.0 }, u.1)

abbrev at_end {ℓ} : {A : Type ℓ} → Option (A × Bytes) → Option A
at_end none = none
at_end (some (a, [])) = some a
at_end (some (a, _ ∷ _)) = none

unfoldable pub parse_v4 : Bytes → Option Ipv4Addr
unfolding read_v4
parse_v4 s = if ltb 15 (length s) then none else at_end (read_v4 s)

-- `read_separator`: a colon stands before every group but the first.
separator : Bool → Bytes → Option Bytes
unfolding read_char
separator first s = if first then some s else read_char b':' s

pub record Groups : Type 0 where
  pub groups : List ℕ
  pub ends_in_v4 : Bool
  pub rest : Bytes

abbrev two_groups : Ipv4Addr → List ℕ
two_groups x = (x.a * 256 + x.b) ∷ (x.c * 256 + x.d) ∷ []

-- `read_groups` with room for so many groups.
read_groups : ℕ → Bool → Bytes → Groups
unfolding separator read_v4 read_number
read_groups zero first s = record { groups = []; ends_in_v4 = false; rest = s }
read_groups (suc room) first s =
    let embedded : Option (Ipv4Addr × Bytes) =
      if ltb 0 room then separator first s >>= read_v4 else none in
    elim embedded [
      | some (x, r) ↦ record { groups = two_groups x; ends_in_v4 = true; rest = r }
      | none ↦ elim (separator first s >>= read_number 16 4 true 0xffff) [
        | none ↦ record { groups = []; ends_in_v4 = false; rest = s }
        | some (g, r) ↦
            let later = read_groups room false r in record later { groups = g ∷ later.groups }
      ]
    ]

of_groups : List ℕ → Option Ipv6Addr
of_groups (a ∷ b ∷ c ∷ d ∷ e ∷ f ∷ g ∷ h ∷ []) =
    some (record { s0 = a; s1 = b; s2 = c; s3 = d; s4 = e; s5 = f; s6 = g; s7 = h })
of_groups _ = none

-- The groups around `::`, and zeros between them.
read_v6 : Bytes → Option (Ipv6Addr × Bytes)
unfolding read_groups read_char of_groups
read_v6 s =
    let head = read_groups 8 true s in
    let n = length head.groups in
    let full = of_groups head.groups >>= λ x. some (x, head.rest) in
    let split = read_char b':' head.rest >>= λ t. read_char b':' t >>= λ t'.
    let tail = read_groups (8 - (n + 1)) true t' in
    of_groups (head.groups ++ (replicate (8 - n - length tail.groups) 0 ++ tail.groups)) >>= λ x.
    some (x, tail.rest) in
    if n == 8 then full else if head.ends_in_v4 then none else split

unfoldable pub parse_v6 : Bytes → Option Ipv6Addr
unfolding read_v6
parse_v6 s = at_end (read_v6 s)
