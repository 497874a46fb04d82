-- ===== src/Reverse.antt =====
-- rust_http_proxy/src/reverse.rs: the data of the reverse proxy and the order of its locations.
pub mod Order
pub mod SetupLaws
pub mod Valid
pub mod Backpaths
pub mod Headers
pub mod Redirect
pub mod UpstreamRequest
pub mod Setup
pub mod Handle
pub mod Longest
use rust_http_proxy.Common.{
  ℕ, ◌-◌, Bool, true, false, leb, if◌then◌else◌, Option, List, take, length, Ordering,
}
use rust_http_proxy.Common.Bytes.{Bytes, codes, cmp}

pub data Version : Type 0 where
  h1 h2 auto : Version

pub record Upstream : Type 0 where
  pub url_base : Bytes
  pub version : Version
  pub authority_override : Option Bytes

pub record LocationConfig : Type 0 where
  pub location : Bytes
  pub upstream : Upstream

-- `RedirectBackpaths`
pub record RedirectBackpaths : Type 0 where
  pub redirect_url : Bytes
  pub host : Bytes
  pub location : Bytes

abbrev pub default_host : Bytes
default_host = codes "default_host"

-- `default_version` and `root`, the values of fields that a configuration leaves out
abbrev pub default_version : Version
default_version = auto

abbrev pub root : Bytes
root = codes "/"

-- `Ordering::reverse`
abbrev pub reverse_ordering : Ordering → Ordering
reverse_ordering Ordering.lt = Ordering.gt
reverse_ordering Ordering.eq = Ordering.eq
reverse_ordering Ordering.gt = Ordering.lt

-- `Ord` of `LocationConfig`
unfoldable pub location_config_cmp : LocationConfig → LocationConfig → Ordering
location_config_cmp x y = reverse_ordering (cmp x.location y.location)

-- The comparison that sorts the redirect back paths.
unfoldable pub backpath_cmp : RedirectBackpaths → RedirectBackpaths → Ordering
backpath_cmp x y = reverse_ordering (cmp x.redirect_url y.redirect_url)

-- A sort may leave two elements as they stand unless the comparison answers `Greater`.
abbrev pub not_greater : Ordering → Bool
not_greater Ordering.gt = false
not_greater _ = true

unfoldable pub truncate_string : Bytes → ℕ → Bytes
truncate_string s n = if leb (length s) n then codes "" else take (length s - n) s
