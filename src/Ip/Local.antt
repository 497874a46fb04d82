-- ===== src/Ip/Local.antt =====
-- `local_ip` of rust_http_proxy/src/ip_x.rs, in both builds. The sockets and the `pnet` crate are
-- outside the repository: what they answer is an argument.
use rust_http_proxy.Common.{
  Bool, not, ◌&&◌, is_empty, find, Option, none, some, List, [], ◌∷◌, Result, ok, err, panic, ◌>>=◌,
  ok_or, io, ErrorKind,
}
use rust_http_proxy.Common.Bytes.{Bytes, codes}
use rust_http_proxy.Ip.{SocketAddr, IpAddr, v4, v6}
use rust_http_proxy.Ip.Text.{print_ip}
use rust_http_proxy.NetMonitor.Device.{is_ignored}

-- What `bind`, `connect` and `local_addr` of a UDP socket answer.
pub record UdpSocket : Type 0 where
  pub bind : Result (Unit {0})
  pub connect : Result (Unit {0})
  pub local_addr : Result SocketAddr

unfoldable pub local_ip : UdpSocket → Result Bytes
local_ip s = do opened ← s.bind; joined ← s.connect; addr ← s.local_addr; ok (print_ip addr.ip)

-- `NetworkInterface` of the `pnet` crate, with the addresses of its networks.
pub record NetworkInterface : Type 0 where
  pub name : Bytes
  pub is_up : Bool
  pub is_loopback : Bool
  pub ips : List IpAddr

-- The first address of the fourth version, if there is one.
unfoldable pub first_ipv4 : List IpAddr → Option Bytes
first_ipv4 [] = none
first_ipv4 (v4 a ∷ ips) = some (print_ip (v4 a))
first_ipv4 (v6 a ∷ ips) = first_ipv4 ips

-- `find` behind `filter`: the first interface that is counted and in use.
abbrev pub is_candidate : NetworkInterface → Bool
is_candidate interface =
    not (is_ignored interface.name)
    && (interface.is_up && (not interface.is_loopback && not (is_empty interface.ips)))

-- `local_ip` of the build with `pnet`
unfoldable pub local_ip_pnet : List NetworkInterface → Result Bytes
unfolding is_ignored first_ipv4
local_ip_pnet all_interfaces = elim (find is_candidate all_interfaces) [
  | none ↦ err (io ErrorKind.not_found "No ip found")
  | some interface ↦ ok_or (io ErrorKind.not_found "No ipv4 found") (first_ipv4 interface.ips)
]

-- `LOCAL_IP` of rust_http_proxy/src/proxy.rs
unfoldable pub local_ip_or_any : Result Bytes → Result Bytes
local_ip_or_any (ok text) = ok text
local_ip_or_any (err why) = ok (codes "0.0.0.0")
local_ip_or_any panic = panic
