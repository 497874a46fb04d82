-- ===== src/Proxy.antt =====
-- rust_http_proxy/src/proxy.rs: what a request names, and the request that a forward proxy sends on.
pub mod Tunnel
pub mod Handle
pub mod Rewrite
pub mod Extract
pub mod Access
pub mod Safety
pub mod Reversed
pub mod Refused
use rust_http_proxy.Common.{
  ℕ, Bool, true, false, ◌||◌, ◌==◌, if◌then◌else◌, Option, none, some, List, [], ◌∷◌, ◌++◌, String,
  Result, ok, err, panic, ◌>>=◌, ok_or, io, wrapped, ErrorKind, invalid_data,
}
use rust_http_proxy.Common.Bytes.{Bytes, codes, beq, split}
use rust_http_proxy.Common.Numbers.{parse_uint, u16_max}
use rust_http_proxy.Http.{Http, Request, Version, http_2, get}
use rust_http_proxy.Ip.{SocketAddr, to_canonical}
use rust_http_proxy.Ip.Text.{print_ip}
use rust_http_proxy.Address.{host_addr, to_string}
use rust_http_proxy.Labels.{SchemeHostPort, AccessLabel}
use rust_http_proxy.Auth.{next_or_empty, after_next}

abbrev pub is_http_2 : Version → Bool
is_http_2 http_2 = true
is_http_2 _ = false

-- The port behind the first colon of a `Host` header, if there is a colon.
unfoldable pub header_port : List Bytes → Result (Option ℕ)
header_port [] = ok none
header_port (port ∷ more) = do
  number ← ok_or (wrapped invalid_data) (parse_uint u16_max port)
  ok (some number)

module _ (http : Http) where
  open http use {Uri, HeaderMap, HeaderValue, to_str, of_str, scheme_str, host, port_u16}

  -- `get(HOST).and_then(to_str).and_then(split(':').next())`
  unfoldable pub host_in_header : HeaderMap → Option Bytes
  unfolding split
  host_in_header headers = elim (get http "host" headers) [
    | none ↦ none
    | some value ↦ elim (to_str value) [
      | none ↦ none
      | some text ↦ some (next_or_empty (split b':' text))
    ]
  ]

  abbrev pub unwrap_or {ℓ} : {A : Type ℓ} → Option A → A → A
  unwrap_or none d = d
  unwrap_or (some a) d = a

  -- The scheme, host and port, and the domain that the reverse proxy looks up.
  unfoldable pub extract_http_2 : Request http → Bytes → Result (SchemeHostPort × Bytes)
  unfolding host_in_header
  extract_http_2 req scheme = do
    host_in_url ← ok_or (io invalid_data "authority is absent in HTTP/2") (host req.uri)
    ok (
      record { scheme = scheme; host = host_in_url; port = port_u16 req.uri },
      unwrap_or (host_in_header req.headers) host_in_url,
    )

  unfoldable pub extract_http_1 : Request http → Bytes → Result (SchemeHostPort × Bytes)
  unfolding split header_port
  extract_http_1 req scheme = do
    value ←
        ok_or (io invalid_data "Host Header is absent in HTTP/1.1") (get http "host" req.headers)
    text ← ok_or (wrapped invalid_data) (to_str value)
    port ← header_port (after_next (split b':' text))
    let name = next_or_empty (split b':' text)
    ok (record { scheme = scheme; host = name; port = port }, name)

  unfoldable pub extract_scheme_host_port : Request http → Bytes → Result (SchemeHostPort × Bytes)
  unfolding extract_http_2 extract_http_1
  extract_scheme_host_port req default_scheme =
      let scheme : Bytes = unwrap_or (scheme_str req.uri) default_scheme in
      if is_http_2 req.version then extract_http_2 req scheme else extract_http_1 req scheme

  unfoldable pub is_schema_secure : Uri → Bool
  is_schema_secure uri = elim (scheme_str uri) [
    | none ↦ false
    | some scheme ↦ beq scheme (codes "wss") || beq scheme (codes "https")
  ]

  -- The port that the `Host` header names: none where it is the scheme's own.
  unfoldable pub explicit_port : Uri → Option Bytes
  unfolding is_schema_secure
  explicit_port uri = elim (http.port uri) [
    | none ↦ none
    | some (text, number) ↦
        if (if is_schema_secure uri then number == 443 else number == 80) then none else some text
  ]

  unfoldable pub host_header : Uri → Bytes → Bytes
  unfolding explicit_port
  host_header uri hostname = elim (explicit_port uri) [
    | none ↦ hostname
    | some port ↦ hostname ++ (b':' ∷ port)
  ]

  -- The URI without scheme and authority.
  unfoldable pub origin_form : Uri → Result Uri
  origin_form uri = elim (http.path_and_query uri) [
    | none ↦ ok http.default_uri
    | some path ↦
        let relative : Result Uri = ok_or (wrapped invalid_data) (http.of_path_and_query path) in
        if beq path (codes "/") then ok http.default_uri else relative
  ]

  unfoldable pub mod_http1_proxy_req : Request http → Result (Request http)
  unfolding host_header origin_form
  mod_http1_proxy_req req = do
    let stripped = http.remove "proxy-connection" (http.remove "proxy-authorization" req.headers)
    hostname ← ok_or (io invalid_data "host is absent in HTTP/1.1") (host req.uri)
    value ← ok_or (wrapped invalid_data) (of_str (host_header req.uri hostname))
    uri ← origin_form req.uri
    ok (record req { uri = uri; headers = http.insert "host" value stripped })

  unfoldable pub build_access_label : Request http → SocketAddr → Bytes → Result AccessLabel
  build_access_label req client username = do
    addr ← ok_or (io invalid_data "URI missing host") (host_addr http req.uri)
    ok (record {
      client = print_ip (to_canonical client.ip);
      target = to_string addr;
      username = username;
    })
