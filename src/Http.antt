-- ===== src/Http.antt =====
-- The `http` crate as the program sees it: an interface of URIs and header maps, and the requests
-- and responses over it. The crate is not part of the repository, so its types are abstract here,
-- and what the program relies on is records of laws, each a behaviour of the crate.
pub mod Sample
use rust_http_proxy.Common.{
  ℕ, ◌≡◌, ◌⊎◌, Bool, true, if◌then◌else◌, Option, none, some, List, [], ◌∷◌, ◌++◌, String, IoError,
}
use rust_http_proxy.Common.Bytes.{Bytes, codes, starts_with}
use mathlib.Core.List.{head?}
use text.Mathlib.Text.{◌==◌ as same_name}

-- Header names are the lower-case texts that the crate normalises them to.
abbrev pub HeaderName : Type 0
HeaderName = String

pub record Http : Type 1 where
  pub Uri : Type 0
  pub Authority : Type 0
  -- `str::parse::<Uri>` and `Uri::to_string`
  pub parse_uri : Bytes → Option Uri
  pub uri_text : Uri → Bytes
  pub scheme_str : Uri → Option Bytes
  pub authority : Uri → Option Authority
  pub host : Uri → Option Bytes
  -- `Uri::port`, as the text that `Port` prints and `as_u16`
  pub port : Uri → Option (Bytes × ℕ)
  pub port_u16 : Uri → Option ℕ
  pub path : Uri → Bytes
  pub query : Uri → Option Bytes
  pub path_and_query : Uri → Option Bytes
  -- `Authority::host`, `Authority::port_u16`, `str::parse::<Authority>`
  pub authority_host : Authority → Bytes
  pub authority_port_u16 : Authority → Option ℕ
  pub parse_authority : Bytes → Option Authority
  -- `Uri::from_parts` of the parts of a URI with another authority, and of a path and query alone
  pub with_authority : Authority → Uri → Option Uri
  pub of_path_and_query : Bytes → Option Uri
  -- `Uri::default`
  pub default_uri : Uri
  pub HeaderMap : Type 0
  pub HeaderValue : Type 0
  pub no_headers : HeaderMap
  -- `HeaderMap::iter`, `get_all`, `append`, `insert` and `remove`
  pub entries : HeaderMap → List (HeaderName × HeaderValue)
  pub get_all : HeaderName → HeaderMap → List HeaderValue
  pub append : HeaderName → HeaderValue → HeaderMap → HeaderMap
  pub insert : HeaderName → HeaderValue → HeaderMap → HeaderMap
  pub remove : HeaderName → HeaderMap → HeaderMap
  -- `HeaderValue::to_str` and `HeaderValue::from_str`
  pub to_str : HeaderValue → Option Bytes
  pub of_str : Bytes → Option HeaderValue

-- `HeaderMap::get`: the first value under the name.
abbrev pub get : (h : Http) → HeaderName → h.HeaderMap → Option h.HeaderValue
get h n m = head? (h.get_all n m)

-- The values that a list of entries has under a name.
abbrev pub values {ℓ} : {V : Type ℓ} → HeaderName → List (HeaderName × V) → List V
values n [] = []
values n ((m, v) ∷ es) = if same_name m n then v ∷ values n es else values n es

-- What the `http` crate documents of header maps and header values.
pub record HeaderLaws (h : Http) : Type 0 where
  pub get_all-no_headers : (n : HeaderName) → h.get_all n h.no_headers ≡ []
  pub get_all-append :
      (n m : HeaderName) (v : h.HeaderValue) (s : h.HeaderMap)
      → h.get_all n (h.append m v s)
        ≡ (if same_name m n then h.get_all n s ++ v ∷ [] else h.get_all n s)
  pub get_all-insert :
      (n m : HeaderName) (v : h.HeaderValue) (s : h.HeaderMap)
      → h.get_all n (h.insert m v s) ≡ (if same_name m n then v ∷ [] else h.get_all n s)
  pub get_all-remove :
      (n m : HeaderName) (s : h.HeaderMap)
      → h.get_all n (h.remove m s) ≡ (if same_name m n then [] else h.get_all n s)
  pub get_all-entries : (n : HeaderName) (s : h.HeaderMap) → h.get_all n s ≡ values n (h.entries s)
  pub to_str-of_str : (s : Bytes) (v : h.HeaderValue) → h.of_str s ≡ some v → h.to_str v ≡ some s

pub data Version : Type 0 where
  http_09 http_10 http_11 http_2 http_3 : Version

pub data Method : Type 0 where
  get_method head_method connect other_method : Method

-- What a body sends: nothing, a text, the bytes of a file that may be compressed on the way, or the
-- stream of another connection.
pub data Body : Type 0 where
  empty_body : Body
  full_body : Bytes → Body
  file_body : Bool → Bytes → Body
  incoming : Bytes → Body

pub record Request (h : Http) : Type 0 where
  pub method : Method
  pub uri : h.Uri
  pub version : Version
  pub headers : h.HeaderMap
  pub body : Body

pub record Response (h : Http) : Type 0 where
  pub status : ℕ
  pub headers : h.HeaderMap
  pub body : Body

-- What the `http` crate does with URIs: the path is the front of the path and query, except that
-- `path` answers `/` where the URI has a query and no path, while `path_and_query` begins with `?`
-- there; and the path is empty if there is neither.
pub record UriLaws (h : Http) : Type 0 where
  pub path_and_query_some :
      (u : h.Uri) (pq : Bytes)
      → h.path_and_query u ≡ some pq
      → (starts_with pq (h.path u) ≡ true)
        ⊎ ((h.path u ≡ codes "/") × (starts_with pq (codes "?") ≡ true))
  pub path_and_query_none : (u : h.Uri) → h.path_and_query u ≡ none → h.path u ≡ []
