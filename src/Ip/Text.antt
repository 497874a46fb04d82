-- ===== src/Ip/Text.antt =====
-- Addresses as text: the standard library's `Display` and `FromStr` of `net`, as far as the program
-- prints and reads addresses, and `SocketAddrFormat` of rust_http_proxy/src/ip_x.rs.
pub mod Read
pub use Read.{parse_v4, parse_v6}
use rust_http_proxy.Common.{
  ℕ, suc, ◌+◌, ◌-◌, ◌/◌, ◌%◌, ◌≡◌, refl, Bool, ◌==◌, ltb, if◌then◌else◌, List, [], ◌∷◌, ◌++◌, drop,
  take, some,
}
use rust_http_proxy.Common.Bytes.{Bytes, codes}
use rust_http_proxy.Common.Numbers.{decimal, hex}
use rust_http_proxy.Ip.{
  IpAddr, Ipv4Addr, Ipv6Addr, v4, v6, SocketAddr, to_canonical, zero_bytes, high_byte, low_byte,
}

unfoldable pub print_v4 : Ipv4Addr → Bytes
unfolding decimal
print_v4 x = decimal x.a ++ (b'.' ∷ decimal x.b) ++ (b'.' ∷ decimal x.c) ++ (b'.' ∷ decimal x.d)

-- A run of zero segments: where it starts and how long it is.
pub record Span : Type 0 where
  pub start : ℕ
  pub len : ℕ

-- The loop over the segments: the longest run so far, and the current one.
longest_zeros : ℕ → List ℕ → Span → Span → Span
longest_zeros i [] longest current = longest
longest_zeros i (s ∷ ss) longest current =
    let grown : Span = record {
      start = if current.len == 0 then i else current.start;
      len = current.len + 1;
    } in
    let zero_run =
      longest_zeros (i + 1) ss (if ltb longest.len grown.len then grown else longest) grown in
    let broken = longest_zeros (i + 1) ss longest (record { start = 0; len = 0 }) in
    if s == 0 then zero_run else broken

-- `fmt_subslice`: groups in hexadecimal with colons between them.
print_groups : List ℕ → Bytes
unfolding hex
print_groups [] = []
print_groups (s ∷ []) = hex s
print_groups (s ∷ (t ∷ ss)) = hex s ++ (b':' ∷ print_groups (t ∷ ss))

abbrev segments : Ipv6Addr → List ℕ
segments x = x.s0 ∷ x.s1 ∷ x.s2 ∷ x.s3 ∷ x.s4 ∷ x.s5 ∷ x.s6 ∷ x.s7 ∷ []

print_segments : List ℕ → Bytes
unfolding longest_zeros print_groups
print_segments ss =
    let zeros =
      longest_zeros 0 ss (record { start = 0; len = 0 }) (record { start = 0; len = 0 }) in
    if ltb 1 zeros.len
    then print_groups (take zeros.start ss)
      ++ (codes "::" ++ print_groups (drop (zeros.start + zeros.len) ss))
    else print_groups ss

-- `Ipv6Addr` prints an IPv4-mapped address with its IPv4 part in decimal.
print_v6_as : IpAddr → Ipv6Addr → Bytes
unfolding print_v4 print_segments
print_v6_as (v4 y) x = codes "::ffff:" ++ print_v4 y
print_v6_as (v6 y) x = print_segments (segments x)

unfoldable pub print_v6 : Ipv6Addr → Bytes
unfolding print_v6_as to_canonical
print_v6 x = print_v6_as (to_canonical (v6 x)) x

unfoldable pub print_ip : IpAddr → Bytes
unfolding print_v4 print_v6
print_ip (v4 x) = print_v4 x
print_ip (v6 x) = print_v6 x

unfoldable pub print_socket_addr : SocketAddr → Bytes
unfolding print_ip decimal
print_socket_addr s = elim s.ip [
  | v4 x ↦ print_v4 x ++ (b':' ∷ decimal s.port)
  | v6 x ↦ b'[' ∷ (print_v6 x ++ (codes "]:" ++ decimal s.port))
]

-- `SocketAddrFormat`, which the log lines print.
unfoldable pub socket_addr_format : SocketAddr → Bytes
unfolding print_ip to_canonical decimal
socket_addr_format s =
    codes "https://ip.im/" ++ (print_ip (to_canonical s.ip) ++ (b' ' ∷ decimal s.port))

print_tests :
    (print_ip
        (v6 (record { s0 = 0x2001; s1 = 0xdb8; s2 = 0; s3 = 0; s4 = 1; s5 = 0; s6 = 0; s7 = 1 }))
      ≡ codes "2001:db8::1:0:0:1")
    × (print_ip
          (v6 (record { s0 = 0; s1 = 0; s2 = 0; s3 = 0; s4 = 0; s5 = 0xffff; s6 = 0xc0a8; s7 = 1 }))
        ≡ codes "::ffff:192.168.0.1")
    × (print_ip (v6 (record { s0 = 0; s1 = 0; s2 = 0; s3 = 0; s4 = 0; s5 = 0; s6 = 0; s7 = 1 }))
        ≡ codes "::1")
unfolding print_ip
print_tests = (refl, refl, refl)

parse_tests :
    (parse_v4 (codes "192.168.0.1") ≡ some (record { a = 192; b = 168; c = 0; d = 1 }))
    × (parse_v6 (codes "::1")
        ≡ some (record { s0 = 0; s1 = 0; s2 = 0; s3 = 0; s4 = 0; s5 = 0; s6 = 0; s7 = 1 }))
    × (parse_v6 (codes "2001:db8::1:0:0:1")
        ≡ some (record { s0 = 0x2001; s1 = 0xdb8; s2 = 0; s3 = 0; s4 = 1; s5 = 0; s6 = 0; s7 = 1 }))
    × (parse_v6 (codes "::ffff:1.2.3.4")
        ≡ some (record { s0 = 0; s1 = 0; s2 = 0; s3 = 0; s4 = 0; s5 = 0xffff; s6 = 258; s7 = 772 }))
unfolding parse_v4 parse_v6
parse_tests = (refl, refl, refl, refl)
