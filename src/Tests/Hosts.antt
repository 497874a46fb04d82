-- ===== src/Tests/Hosts.antt =====
-- The theorems on the host of a request and the addresses of clients, applied to concrete data.
use rust_http_proxy.Common.{
  ℕ, ◌+◌, ◌*◌, ◌/◌, ◌≤◌, ◌<◌, ◌≡◌, ◌≢◌, ◌↔◌, ◌⊎◌, inl, inr, refl, Bool, true, false, any, Option,
  none, some, List, [], ◌∷◌, ◌++◌, length, replicate, Result, ok, err, wrapped, ErrorKind,
  invalid_data, arith,
}
use rust_http_proxy.Common.Bytes.{Bytes, codes}
use rust_http_proxy.Http.{Request}
use rust_http_proxy.Http.Sample.{sample}
use rust_http_proxy.Ip.{IpAddr, v6, to_canonical, _ipv6_mapped_to_ipv4, IsIp}
use rust_http_proxy.Ip.Mapped.{_ipv6_mapped_to_ipv4-eq-to_canonical}
use rust_http_proxy.Proxy.{extract_scheme_host_port}
use rust_http_proxy.Proxy.Extract.{extract-print, extract-double_colon, HasHost}
use rust_http_proxy.Common.{io, ErrorKind, not_found}
use rust_http_proxy.Tests.Proxy.{file_request}

abbrev with_host : Bytes → Request sample
with_host text = record (file_request) { headers = ("host", text) ∷ [] }

has_host : HasHost sample (with_host (codes "files.example:8080")) (codes "files.example:8080")
has_host = record { value = codes "files.example:8080"; old = refl; first = refl; visible = refl }

port_fits : 8080 ≤ 65535
port_fits = omega arith

extract-print_example :
    extract_scheme_host_port sample (with_host (codes "files.example:8080")) (codes "http")
    ≡ ok (
      record { scheme = codes "http"; host = codes "files.example"; port = some 8080 },
      codes "files.example",
    )
unfolding rust_http_proxy.Common.Numbers.decimal
extract-print_example =
    extract-print sample (with_host (codes "files.example:8080")) (codes "http")
      (codes "files.example") (some 8080) has_host refl port_fits

ipv6_host : HasHost sample (with_host (codes "[::1]:8080")) (codes "[::1]:8080")
ipv6_host = record { value = codes "[::1]:8080"; old = refl; first = refl; visible = refl }

extract-double_colon_example :
    extract_scheme_host_port sample (with_host (codes "[::1]:8080")) (codes "http")
    ≡ err (wrapped invalid_data)
extract-double_colon_example =
    extract-double_colon sample (with_host (codes "[::1]:8080")) (codes "http") (codes "[")
      (codes "1]:8080") ipv6_host refl

abbrev mapped : IpAddr
mapped = v6 (record { s0 = 0; s1 = 0; s2 = 0; s3 = 0; s4 = 0; s5 = 65535; s6 = 49320; s7 = 7 })

mapped_fits : IsIp mapped
mapped_fits = (
  omega arith,
  omega arith,
  omega arith,
  omega arith,
  omega arith,
  omega arith,
  omega arith,
  omega arith,
)

mapped_alike : _ipv6_mapped_to_ipv4 mapped ≡ to_canonical mapped
mapped_alike = _ipv6_mapped_to_ipv4-eq-to_canonical mapped mapped_fits
