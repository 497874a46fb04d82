-- ===== src/LinuxPages/Parse/RoundTrip.antt =====
-- Reading an address and its port gives back what was written.
use rust_http_proxy.Common.{
  ℕ, zero, suc, ◌+◌, ◌/◌, ◌%◌, ◌≤◌, ◌<◌, ◌≡◌, refl, sym, ap, subst, ◌∙◌, false, ◌==◌, none, some,
  [], ◌∷◌, ◌++◌, length, take, drop, drop-length_append, append_assoc, length-append, arith,
}
use rust_http_proxy.Common.Bytes.{Bytes, codes, starts_with}
use rust_http_proxy.Common.Bytes.Search.{rfind, find_by, leave_out}
use rust_http_proxy.Common.Numbers.{u16_max, parse_uint, decimal, digits, digit}
use rust_http_proxy.Common.Numbers.Hex.{Without}
use rust_http_proxy.Common.Numbers.RoundTrip.{parse_uint-decimal}
use rust_http_proxy.LinuxPages.Parse.{parse_ip_and_port, parse_bracketed, parse_plain}

digits-Without :
    (c fuel n : ℕ) (out : Bytes) → b'9' < c → Without c out → Without c (digits 10 fuel n out)
unfolding digits
digits-Without c zero n out k h = h
digits-Without c (suc fuel) n out k h =
    ground (arith, digits-Without c fuel (n / 10) (digit (n % 10) ∷ out) k)

decimal-Without : (c n : ℕ) → b'9' < c → Without c (decimal n)
decimal-Without c n k = unfold decimal in digits-Without c (suc n) n [] k refl

rfind-Without : (c : ℕ) (s : Bytes) → Without c s → rfind c s ≡ none
unfolding rfind
rfind-Without c [] h = refl
rfind-Without c (a ∷ s) h = ground (arith, rfind-Without c s)

rfind-last : (c : ℕ) (s t : Bytes) → Without c t → rfind c (s ++ c ∷ t) ≡ some (length s)
unfolding rfind
rfind-last c [] t h = ground (arith, rfind-Without c t)
rfind-last c (a ∷ s) t h = rw (rfind-last c s t h) refl

take-length_append : (s t : Bytes) → take (length s) (s ++ t) ≡ s
take-length_append [] t = refl
take-length_append (a ∷ s) t = ap (λ r. a ∷ r) (take-length_append s t)

parse_plain-at :
    (s : Bytes) (colon_pos port : ℕ)
    → rfind b':' s ≡ some colon_pos
    → parse_uint u16_max (drop (colon_pos + 1) s) ≡ some port
    → parse_plain s ≡ (take colon_pos s, port)
unfolding parse_plain
parse_plain-at s colon_pos port at read = ground arith

parse_bracketed-ends :
    (s : Bytes) (bracket_end port_start port : ℕ)
    → rfind b']' s ≡ some bracket_end
    → find_by (λ a. a == b':') (drop bracket_end s) ≡ some port_start
    → parse_uint u16_max (drop (bracket_end + port_start + 1) s) ≡ some port
    → parse_bracketed s ≡ (leave_out (codes "::ffff:") 0 (drop 1 (take bracket_end s)), port)
unfolding parse_bracketed
parse_bracketed-ends s bracket_end port_start port at colon read = ground arith

parse_bracketed-at :
    (s : Bytes) (bracket_end port_start i port : ℕ)
    → bracket_end + port_start + 1 ≡ i
    → rfind b']' s ≡ some bracket_end
    → find_by (λ a. a == b':') (drop bracket_end s) ≡ some port_start
    → parse_uint u16_max (drop i s) ≡ some port
    → parse_bracketed s ≡ (leave_out (codes "::ffff:") 0 (drop 1 (take bracket_end s)), port)
parse_bracketed-at s bracket_end port_start i port there at colon read =
    parse_bracketed-ends s bracket_end port_start port at colon
      (subst (λ k. parse_uint u16_max (drop k s) ≡ some port) (sym there) read)

drop-behind : (s t u : Bytes) → drop (length s + length t) (s ++ (t ++ u)) ≡ u
drop-behind s t u =
    ap (λ k. drop k (s ++ (t ++ u))) (sym (length-append s t))
    ∙ ap (drop (length (s ++ t))) (sym (append_assoc s t u))
    ∙ drop-length_append (s ++ t) u

read_back :
    (s : Bytes) (port i : ℕ)
    → port ≤ u16_max
    → drop i s ≡ decimal port
    → parse_uint u16_max (drop i s) ≡ some port
read_back s port i fits e = rw e (parse_uint-decimal u16_max port fits)

parse_plain-decimal :
    (addr : Bytes) (port : ℕ)
    → port ≤ u16_max
    → parse_plain (addr ++ b':' ∷ decimal port) ≡ (addr, port)
parse_plain-decimal addr port fits =
    parse_plain-at _ (length addr) port
      (rfind-last b':' addr (decimal port) (decimal-Without b':' port (omega arith)))
      (read_back (addr ++ b':' ∷ decimal port) port (length addr + 1) fits
        (drop-behind addr (b':' ∷ []) (decimal port)))
    ∙ ap (λ a. (a, port)) (take-length_append addr (b':' ∷ decimal port))

parse_bracketed-decimal :
    (addr : Bytes) (port : ℕ)
    → port ≤ u16_max
    → parse_bracketed (b'[' ∷ addr ++ b']' ∷ b':' ∷ decimal port)
      ≡ (leave_out (codes "::ffff:") 0 addr, port)
parse_bracketed-decimal addr port fits =
    let front : Bytes = b'[' ∷ addr in
    let digits_free : Without b']' (b':' ∷ decimal port) =
      ground (arith, decimal-Without b']' port) in
    parse_bracketed-at (front ++ b']' ∷ b':' ∷ decimal port) (length front) 1 (length front + 2)
      port (omega arith) (rfind-last b']' front (b':' ∷ decimal port) digits_free)
      (ap (find_by (λ a. a == b':')) (drop-length_append front (b']' ∷ b':' ∷ decimal port))
        ∙ (unfold find_by in refl))
      (read_back (front ++ b']' ∷ b':' ∷ decimal port) port (length front + 2) fits
        (drop-behind front (b']' ∷ b':' ∷ []) (decimal port)))
    ∙ ap (λ a. (leave_out (codes "::ffff:") 0 (drop 1 a), port))
        (take-length_append front (b']' ∷ b':' ∷ decimal port))

parse_ip_and_port-plain :
    (s : Bytes) → starts_with s (codes "[") ≡ false → parse_ip_and_port s ≡ parse_plain s
unfolding parse_ip_and_port
parse_ip_and_port-plain s h = rw h refl

parse_ip_and_port-bracketed :
    (s : Bytes) → parse_ip_and_port (b'[' ∷ s) ≡ parse_bracketed (b'[' ∷ s)
unfolding parse_ip_and_port starts_with
parse_ip_and_port-bracketed s = refl

starts_with-front :
    (s t : Bytes)
    → starts_with s (codes "[") ≡ false
    → starts_with (s ++ b':' ∷ t) (codes "[") ≡ false
unfolding starts_with
starts_with-front [] t h = refl
starts_with-front (a ∷ s) t h = ground arith

-- An address that does not begin with `[` and a port are read back from their text with a colon
-- between them, whatever colons the address has; from the text with the address in brackets, the port
-- and the address without each `::ffff:` are read.
pub parse_ip_and_port-decimal :
    (addr : Bytes) (port : ℕ)
    → port ≤ u16_max
    → starts_with addr (codes "[") ≡ false
    → (parse_ip_and_port (addr ++ b':' ∷ decimal port) ≡ (addr, port))
      × (parse_ip_and_port (b'[' ∷ addr ++ b']' ∷ b':' ∷ decimal port)
          ≡ (leave_out (codes "::ffff:") 0 addr, port))
parse_ip_and_port-decimal addr port fits plain = (
  parse_ip_and_port-plain _ (starts_with-front addr (decimal port) plain)
      ∙ parse_plain-decimal addr port fits,
  parse_ip_and_port-bracketed _ ∙ parse_bracketed-decimal addr port fits,
)
