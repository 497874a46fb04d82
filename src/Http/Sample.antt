-- ===== src/Http/Sample.antt =====
-- A concrete `http` crate for evaluating the model: URIs with their parts, and header maps as lists
-- of entries. It meets the laws, so theorems that take them as hypotheses can be applied.
use rust_http_proxy.Common.{
  ℕ, ◌≡◌, refl, ◌⊎◌, inl, inr, Bool, Bool-cases, not, true, if◌then◌else◌, ◌==◌, Option, none, some,
  List, [], ◌∷◌, ◌++◌, drop, arith, is_empty,
}
use rust_http_proxy.Common.Bytes.{Bytes, codes, starts_with}
use rust_http_proxy.Common.Numbers.{u16_max, parse_uint}
use rust_http_proxy.Http.{Http, HeaderName, HeaderLaws, UriLaws, values}
use text.Mathlib.Text.{◌==◌ as same_name}
use text.Mathlib.TextEquality.{eq_iff}

pub record SampleUri : Type 0 where
  pub scheme : Option Bytes
  pub authority : Option Bytes
  pub path : Bytes
  pub query : Option Bytes

-- The text up to a byte that `stop` accepts, and the rest from there.
unfoldable pub before : (ℕ → Bool) → Bytes → Bytes × Bytes
before stop [] = ([], [])
before stop (a ∷ s) =
    let (piece, rest) = before stop s in if stop a then ([], a ∷ s) else (a ∷ piece, rest)

abbrev or_slash : Bytes → Bytes
or_slash p = if is_empty p then codes "/" else p

of_tail : Option Bytes → Option Bytes → Bytes → SampleUri
unfolding before
of_tail scheme authority s =
    let (path, rest) = before (λ a. a == b'?') s in
    record {
      scheme = scheme;
      authority = authority;
      path = path;
      query = if is_empty rest then none else some (drop 1 rest);
    }

of_authority : Bytes → Bytes → SampleUri
unfolding of_tail
of_authority scheme s =
    let (authority, rest) = before (λ a. if a == b'/' then true else a == b'?') s in
    of_tail (some scheme) (some authority) rest

unfoldable pub sample_parse : Bytes → Option SampleUri
unfolding of_authority starts_with
sample_parse [] = none
sample_parse (a ∷ s) =
    if starts_with (a ∷ s) (codes "http://")
    then some (of_authority (codes "http") (drop 7 (a ∷ s)))
    else if starts_with (a ∷ s) (codes "https://")
    then some (of_authority (codes "https") (drop 8 (a ∷ s)))
    else if a == b'/'
    then some (of_tail none none (a ∷ s))
    else some (record { scheme = none; authority = some (a ∷ s); path = []; query = none })

abbrev opt {ℓ} : {A : Type ℓ} → Option A → (A → Bytes) → Bytes
opt none f = []
opt (some a) f = f a

abbrev target : SampleUri → Bytes
target u = u.path ++ opt u.query (λ q. b'?' ∷ q)

-- `Uri::has_path`
abbrev has_path : SampleUri → Bool
has_path u = elim u.scheme [ some s ↦ true | none ↦ not (is_empty (target u)) ]

abbrev sample_path : SampleUri → Bytes
sample_path u = if has_path u then or_slash u.path else []

abbrev sample_path_and_query : SampleUri → Option Bytes
sample_path_and_query u = if has_path u then some (or_slash (target u)) else none

abbrev sample_text : SampleUri → Bytes
sample_text u =
    opt u.scheme (λ s. s ++ codes "://")
    ++ (opt u.authority (λ a. a) ++ (sample_path u ++ opt u.query (λ q. b'?' ∷ q)))

abbrev host_part : Bytes → Bytes
host_part a = (before (λ c. c == b':') a).0

abbrev port_part : Bytes → Option ℕ
port_part a = parse_uint u16_max (drop 1 (before (λ c. c == b':') a).1)

abbrev bind {ℓ κ} : {A : Type ℓ} {B : Type κ} → Option A → (A → Option B) → Option B
bind none f = none
bind (some a) f = f a

abbrev pub Entries : Type 0
Entries = List (HeaderName × Bytes)

abbrev sample_remove : HeaderName → Entries → Entries
sample_remove n [] = []
sample_remove n ((m, v) ∷ es) =
    if same_name n m then sample_remove n es else (m, v) ∷ sample_remove n es

abbrev pub sample : Http
sample = record {
  Uri = SampleUri;
  Authority = Bytes;
  parse_uri = sample_parse;
  uri_text = sample_text;
  scheme_str = λ u. u.scheme;
  authority = λ u. u.authority;
  host = λ u. bind u.authority (λ a. some (host_part a));
  port = λ u.
      bind u.authority
        (λ a. bind (port_part a) (λ n. some (drop 1 (before (λ c. c == b':') a).1, n)));
  port_u16 = λ u. bind u.authority port_part;
  path = sample_path;
  query = λ u. u.query;
  path_and_query = sample_path_and_query;
  authority_host = host_part;
  authority_port_u16 = port_part;
  parse_authority = λ s. if is_empty s then none else some s;
  with_authority = λ a u. some (record u { authority = some a });
  of_path_and_query = sample_parse;
  default_uri = record { scheme = none; authority = none; path = codes "/"; query = none };
  HeaderMap = Entries;
  HeaderValue = Bytes;
  no_headers = [];
  entries = λ m. m;
  get_all = values;
  append = λ n v m. m ++ (n, v) ∷ [];
  insert = λ n v m. (n, v) ∷ sample_remove n m;
  remove = sample_remove;
  to_str = some;
  of_str = some;
}

values-append :
    (n m : HeaderName) (v : Bytes) (s : Entries)
    → values n (s ++ (m, v) ∷ []) ≡ (if same_name m n then values n s ++ v ∷ [] else values n s)
values-append n m v [] = refl
values-append n m v ((k, w) ∷ s) = ground (arith, values-append n m v s)

values-remove :
    (n m : HeaderName) (s : Entries)
    → values n (sample_remove m s) ≡ (if same_name m n then [] else values n s)
values-remove n m [] = ground arith
values-remove n m ((k, w) ∷ s) =
    ground (arith, values-remove n m s, eq_iff m k, eq_iff k n, eq_iff m n)

values-insert :
    (n m : HeaderName) (v : Bytes) (s : Entries)
    → values n ((m, v) ∷ sample_remove m s) ≡ (if same_name m n then v ∷ [] else values n s)
values-insert n m v s = ground (arith, values-remove n m s)

pub sample-HeaderLaws : HeaderLaws sample
sample-HeaderLaws = record {
  get_all-no_headers = λ n. refl;
  get_all-append = values-append;
  get_all-insert = values-insert;
  get_all-remove = values-remove;
  get_all-entries = λ n s. refl;
  to_str-of_str = λ s v e. cc;
}

starts_with-front : (s t : Bytes) → starts_with (s ++ t) s ≡ true
unfolding starts_with
starts_with-front [] [] = refl
starts_with-front [] (a ∷ t) = refl
starts_with-front (a ∷ s) t = ground (arith, starts_with-front s t)

-- The front of the target, by its parts.
or_slash_front :
    (path : Bytes) (query : Option Bytes)
    → let all = path ++ opt query (λ q. b'?' ∷ q) in
      (starts_with (or_slash all) (or_slash path) ≡ true)
      ⊎ ((or_slash path ≡ codes "/") × (starts_with (or_slash all) (codes "?") ≡ true))
unfolding starts_with
or_slash_front [] none = inl refl
or_slash_front [] (some q) = inr (refl, refl)
or_slash_front (a ∷ path) query = inl (starts_with-front (a ∷ path) _)

path_and_query-front :
    (u : SampleUri) (pq : Bytes)
    → sample_path_and_query u ≡ some pq
    → (starts_with pq (sample_path u) ≡ true)
      ⊎ ((sample_path u ≡ codes "/") × (starts_with pq (codes "?") ≡ true))
path_and_query-front u pq e = elim (Bool-cases (has_path u)) [
  | inl h ↦ ground (arith, or_slash_front u.path u.query)
  | inr h ↦ absurd (ground arith)
]

path_and_query-missing : (u : SampleUri) → sample_path_and_query u ≡ none → sample_path u ≡ []
path_and_query-missing u e = ground arith

pub sample-UriLaws : UriLaws sample
sample-UriLaws = record {
  path_and_query_some = path_and_query-front;
  path_and_query_none = path_and_query-missing;
}
