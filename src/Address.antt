-- ===== src/Address.antt =====
-- rust_http_proxy/src/address.rs: the address that a URI names.
use rust_http_proxy.Common.{
  ℕ, ◌-◌, ◌&&◌, if◌then◌else◌, Option, none, some, ◌∷◌, ◌++◌, drop, take, length,
}
use rust_http_proxy.Common.Bytes.{Bytes, codes, beq, starts_with, ends_with}
use rust_http_proxy.Common.Numbers.{decimal}
use rust_http_proxy.Http.{Http}
use rust_http_proxy.Ip.{v4, v6, SocketAddr}
use rust_http_proxy.Ip.Text.{parse_v4, parse_v6, print_ip, print_socket_addr}

pub data Address : Type 0 where
  socket_address : SocketAddr → Address
  domain_name_address : Bytes → ℕ → Address

unfoldable pub host : Address → Bytes
host (socket_address addr) = print_ip addr.ip
host (domain_name_address name port) = name

-- `Display`
unfoldable pub to_string : Address → Bytes
to_string (socket_address addr) = print_socket_addr addr
to_string (domain_name_address addr port) = addr ++ (b':' ∷ decimal port)

-- The port where the authority names none: `none` stands for a scheme that is not supported.
unfoldable pub default_port : Option Bytes → Option ℕ
default_port none = some 80
default_port (some scheme) =
    if beq scheme (codes "http")
    then some 80
    else if beq scheme (codes "https")
    then some 443
    else none

-- `Address::from` on a parsed address; a text that is no address of the kind becomes `other`.
abbrev of_v6 : Bytes → ℕ → Option Address
of_v6 addr port = elim (parse_v6 addr) [
  | some a ↦ some (socket_address (record { ip = v6 a; port = port }))
  | none ↦ none
]

abbrev of_v4 : Bytes → ℕ → Option Address
of_v4 host_str port = elim (parse_v4 host_str) [
  | some a ↦ some (socket_address (record { ip = v4 a; port = port }))
  | none ↦ some (domain_name_address host_str port)
]

-- `&host_str[1..host_str.len() - 1]`
abbrev pub strip_brackets : Bytes → Bytes
strip_brackets host_str = drop 1 (take (length host_str - 1) host_str)

unfoldable pub host_str_addr : Bytes → ℕ → Option Address
host_str_addr host_str port =
    if starts_with host_str (codes "[") && ends_with host_str (codes "]")
    then of_v6 (strip_brackets host_str) port
    else of_v4 host_str port

module _ (http : Http) where
  open http use {Uri, Authority, authority, scheme_str, authority_host, authority_port_u16}

  unfoldable pub authority_addr : Option Bytes → Authority → Option Address
  unfolding default_port host_str_addr
  authority_addr scheme auth = elim (authority_port_u16 auth) [
    | some port ↦ host_str_addr (authority_host auth) port
    | none ↦ elim (default_port scheme) [
      | none ↦ none
      | some port ↦ host_str_addr (authority_host auth) port
    ]
  ]

  unfoldable pub host_addr : Uri → Option Address
  unfolding authority_addr
  host_addr uri = elim (authority uri) [
    | none ↦ none
    | some auth ↦ authority_addr (scheme_str uri) auth
  ]
