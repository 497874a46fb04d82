-- ===== src/Ip/Mapped.antt =====
-- The conversion of IPv4-mapped addresses in rust_http_proxy/src/ip_x.rs.
use rust_http_proxy.Common.{◌≡◌, refl, arith}
use rust_http_proxy.Ip.{IpAddr, v4, v6, _ipv6_mapped_to_ipv4, to_canonical, IsIp}

-- On every address whose parts fit their widths, the conversion of IPv4-mapped addresses, which
-- works by segments and shifts, gives what the standard library's `to_canonical` gives by bytes.
pub _ipv6_mapped_to_ipv4-eq-to_canonical :
    (x : IpAddr) → IsIp x → _ipv6_mapped_to_ipv4 x ≡ to_canonical x
unfolding _ipv6_mapped_to_ipv4 to_canonical
_ipv6_mapped_to_ipv4-eq-to_canonical (v4 x) h = refl
_ipv6_mapped_to_ipv4-eq-to_canonical (v6 x) h = ground arith
