-- ===== src/Ip.antt =====
-- Addresses of the standard library's `net`, as far as the program uses them, and
-- rust_http_proxy/src/ip_x.rs.
pub mod Text
pub mod Mapped
pub mod Local
use rust_http_proxy.Common.{ℕ, ◌+◌, ◌*◌, ◌/◌, ◌%◌, ◌^◌, ◌<◌, Bool, ◌&&◌, ◌==◌, if◌then◌else◌, ltb}

-- `Ipv4Addr` by its octets and `Ipv6Addr` by its segments.
pub record Ipv4Addr : Type 0 where
  pub a : ℕ
  pub b : ℕ
  pub c : ℕ
  pub d : ℕ

pub record Ipv6Addr : Type 0 where
  pub s0 : ℕ
  pub s1 : ℕ
  pub s2 : ℕ
  pub s3 : ℕ
  pub s4 : ℕ
  pub s5 : ℕ
  pub s6 : ℕ
  pub s7 : ℕ

pub data IpAddr : Type 0 where
  v4 : Ipv4Addr → IpAddr
  v6 : Ipv6Addr → IpAddr

pub record SocketAddr : Type 0 where
  pub ip : IpAddr
  pub port : ℕ

-- `x as u8`
abbrev as_u8 : ℕ → ℕ
as_u8 x = x % 2 ^ 8

-- `ip4_bits >> 8`
abbrev shr_8 : ℕ → ℕ
shr_8 x = x / 2 ^ 8

unfoldable pub _ipv6_mapped_to_ipv4 : IpAddr → IpAddr
_ipv6_mapped_to_ipv4 (v6 x) =
    if x.s0 == 0 && x.s1 == 0 && x.s2 == 0 && x.s3 == 0 && x.s4 == 0 && x.s5 == 0xffff
    then v4
        (record { a = as_u8 (shr_8 x.s6); b = as_u8 x.s6; c = as_u8 (shr_8 x.s7); d = as_u8 x.s7 })
    else v6 x
_ipv6_mapped_to_ipv4 (v4 x) = v4 x

-- The standard library's `to_canonical`, by the bytes of the address: ten zeros, two 0xff, and the
-- four octets of the IPv4 address.
abbrev high_byte : ℕ → ℕ
high_byte x = x / 256

abbrev low_byte : ℕ → ℕ
low_byte x = x % 256

abbrev zero_bytes : ℕ → Bool
zero_bytes x = high_byte x == 0 && low_byte x == 0

unfoldable pub to_canonical : IpAddr → IpAddr
to_canonical (v6 x) =
    if (zero_bytes x.s0 && zero_bytes x.s1 && zero_bytes x.s2 && zero_bytes x.s3 && zero_bytes x.s4)
      && (high_byte x.s5 == 0xff && low_byte x.s5 == 0xff)
    then v4
        (record { a = high_byte x.s6; b = low_byte x.s6; c = high_byte x.s7; d = low_byte x.s7 })
    else v6 x
to_canonical (v4 x) = v4 x

-- The ranges of the fields' types.
abbrev pub IsV4 : Ipv4Addr → Type 0
IsV4 x = (x.a < 2 ^ 8) × (x.b < 2 ^ 8) × (x.c < 2 ^ 8) × (x.d < 2 ^ 8)

abbrev pub IsV6 : Ipv6Addr → Type 0
IsV6 x =
    (x.s0 < 2 ^ 16)
    × (x.s1 < 2 ^ 16)
    × (x.s2 < 2 ^ 16)
    × (x.s3 < 2 ^ 16)
    × (x.s4 < 2 ^ 16)
    × (x.s5 < 2 ^ 16)
    × (x.s6 < 2 ^ 16)
    × (x.s7 < 2 ^ 16)

abbrev pub IsIp : IpAddr → Type 0
IsIp (v4 x) = IsV4 x
IsIp (v6 x) = IsV6 x
