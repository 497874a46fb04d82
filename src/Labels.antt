-- ===== src/Labels.antt =====
-- The labels and the scheme, host and port of a request, from rust_http_proxy/src/proxy.rs.
pub mod Wrapped
use rust_http_proxy.Common.{ℕ, Option, none, some, ◌∷◌, ◌++◌}
use rust_http_proxy.Common.Bytes.{Bytes, codes}
use rust_http_proxy.Common.Numbers.{decimal}

pub record SchemeHostPort : Type 0 where
  pub scheme : Bytes
  pub host : Bytes
  pub port : Option ℕ

-- `format!(":{port}")`, or nothing
abbrev pub port_part : Option ℕ → Bytes
port_part none = codes ""
port_part (some port) = b':' ∷ decimal port

-- `Display` of `SchemeHostPort`
unfoldable pub scheme_host_port_text : SchemeHostPort → Bytes
scheme_host_port_text s = s.scheme ++ (codes "://" ++ (s.host ++ port_part s.port))

pub record ReqLabels : Type 0 where
  pub referer : Bytes
  pub path : Bytes

pub record AccessLabel : Type 0 where
  pub client : Bytes
  pub target : Bytes
  pub username : Bytes

pub record ReverseProxyReqLabel : Type 0 where
  pub client : Bytes
  pub origin : Bytes
  pub upstream : Bytes

-- `Display` of `AccessLabel`
unfoldable pub access_label_text : AccessLabel → Bytes
access_label_text l = l.client ++ (codes " -> " ++ l.target)
