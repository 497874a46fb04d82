-- ===== src/Reverse/Setup.antt =====
-- The configuration of the reverse proxy: `parse_reverse_proxy_config` of
-- rust_http_proxy/src/reverse.rs. The hash map is the list of its entries, in the order in which it
-- is iterated. Reading and parsing the file is an argument, and messages stand without the texts
-- that are put into them.
use rust_http_proxy.Common.{
  Bool, not, ◌&&◌, true, false, if◌then◌else◌, Option, none, some, List, [], ◌∷◌, ◌++◌, length,
  is_empty, Result, ok, ◌>>=◌, ◌>>◌, ok_or, guard, wrapped, boxed, other,
}
use rust_http_proxy.Common.Bytes.{Bytes, codes, beq, starts_with, ends_with}
use rust_http_proxy.Common.Sort.{sort_by}
use rust_http_proxy.Http.{Http}
use rust_http_proxy.Reverse.{
  RedirectBackpaths, LocationConfig, auto, default_host, location_config_cmp, backpath_cmp,
  not_greater, truncate_string,
}

abbrev pub Locations : Type 0
Locations = List (Bytes × List LocationConfig)

pub record ReverseProxyConfig : Type 0 where
  pub locations : Locations
  pub redirect_bachpaths : List RedirectBackpaths

abbrev pub github_url_base : List Bytes
github_url_base =
    codes "https://github.com"
    ∷ codes "https://gist.githubusercontent.com"
    ∷ codes "https://gist.github.com"
    ∷ codes "https://objects.githubusercontent.com"
    ∷ codes "https://raw.githubusercontent.com"
    ∷ []

-- `HashMap::get`
unfoldable pub get_host {ℓ} : {V : Type ℓ} → Bytes → List (Bytes × V) → Option V
get_host key [] = none
get_host key ((k, v) ∷ m) = if beq k key then some v else get_host key m

-- `if !locations.contains_key(DEFAULT_HOST) { insert }`, and `get_mut` with what is pushed there.
unfoldable pub push_default : List LocationConfig → Locations → Locations
push_default new [] = (default_host, new) ∷ []
push_default new ((k, v) ∷ m) =
    if beq k default_host then (k, v ++ new) ∷ m else (k, v) ∷ push_default new m

abbrev pub by_location : LocationConfig → LocationConfig → Bool
by_location x y = not_greater (location_config_cmp x y)

abbrev pub by_redirect_url : RedirectBackpaths → RedirectBackpaths → Bool
by_redirect_url x y = not_greater (backpath_cmp x y)

-- `reverse_proxy_configs.sort()` for every host
unfoldable pub sort_locations : Locations → Locations
sort_locations [] = []
sort_locations ((k, v) ∷ m) = (k, sort_by by_location v) ∷ sort_locations m

abbrev pub is_some {ℓ} : {A : Type ℓ} → Option A → Bool
is_some none = false
is_some (some a) = true

module _ (http : Http) where
  open http use {Uri, parse_uri, uri_text, scheme_str, authority, path, query}

  -- What one `--append-upstream-url` adds: nothing if it has a query or is no URI.
  unfoldable pub appended : Bytes → List LocationConfig
  appended upstream_url = elim (parse_uri upstream_url) [
    | none ↦ []
    | some uri ↦
        let base = truncate_string (uri_text uri) (length (path uri)) in
        let rest : Bytes = if beq (path uri) (codes "/") then codes "" else path uri in
        if is_some (query uri)
        then []
        else record {
          location = codes "/" ++ (base ++ rest);
          upstream = record { url_base = base ++ rest; version = auto; authority_override = none };
        }
          ∷ []
  ]

  unfoldable pub append_all : List Bytes → List LocationConfig
  unfolding appended
  append_all [] = []
  append_all (u ∷ us) = appended u ++ append_all us

  -- The location completed: `url_base` gets its last `/` where the location ends with one and the
  -- URL has no path.
  unfoldable pub complete : LocationConfig → Uri → LocationConfig
  complete c uri =
      if ends_with c.location (codes "/")
        && beq (path uri) (codes "/")
        && not (ends_with c.upstream.url_base (codes "/"))
      then record c { upstream = record (c.upstream) { url_base = uri_text uri } }
      else c

  unfoldable pub validate : LocationConfig → Result LocationConfig
  unfolding complete
  validate c = do
    guard (starts_with c.location (codes "/")) (boxed "location should start with '/'")
    uri ← ok_or (boxed "parse upstream upstream_url_base error") (parse_uri c.upstream.url_base)
    guard (is_some (scheme_str uri)) (boxed "wrong upstream_url_base: scheme is empty")
    guard (is_some (authority uri)) (boxed "wrong upstream_url_base: authority is empty")
    guard (not (is_some (query uri))) (boxed "wrong upstream_url_base: query is not empty")
    ok (complete c uri)

  unfoldable pub validate_all : List LocationConfig → Result (List LocationConfig)
  unfolding validate
  validate_all [] = ok []
  validate_all (c ∷ cs) = do c' ← validate c; cs' ← validate_all cs; ok (c' ∷ cs')

  unfoldable pub validate_locations : Locations → Result Locations
  unfolding validate_all
  validate_locations [] = ok []
  validate_locations ((k, v) ∷ m) = do
    v' ← validate_all v
    m' ← validate_locations m
    ok ((k, v') ∷ m')

  -- The back path under the overridden authority, if there is one.
  unfoldable pub override_backpath : Bytes → LocationConfig → Result (List RedirectBackpaths)
  override_backpath host c = elim c.upstream.authority_override [
    | none ↦ ok []
    | some authority_override ↦ do
      url_base ← ok_or (wrapped other) (parse_uri c.upstream.url_base)
      auth ← ok_or (boxed "parse host override error") (http.parse_authority authority_override)
      new_url_base ← ok_or (boxed "build uri error") (http.with_authority auth url_base)
      ok (record { redirect_url = uri_text new_url_base; host = host; location = c.location } ∷ [])
  ]

  unfoldable pub backpaths_of : Bytes → List LocationConfig → Result (List RedirectBackpaths)
  unfolding override_backpath
  backpaths_of host [] = ok []
  backpaths_of host (c ∷ cs) = do
    overridden ← override_backpath host c
    more ← backpaths_of host cs
    ok (
        overridden
        ++ (record { redirect_url = c.upstream.url_base; host = host; location = c.location }
            ∷ more))

  unfoldable pub backpaths_all : Locations → Result (List RedirectBackpaths)
  unfolding backpaths_of
  backpaths_all [] = ok []
  backpaths_all ((host, cs) ∷ m) = do
    here ← backpaths_of host cs
    more ← backpaths_all m
    ok (here ++ more)

  -- The locations of the file, with the appended ones under the default host.
  unfoldable pub add_urls : List Bytes → Bool → Locations → Locations
  unfolding push_default append_all
  add_urls append_upstream_url enable_github_proxy loaded =
      let urls : List Bytes =
        if enable_github_proxy
        then append_upstream_url ++ github_url_base
        else append_upstream_url in
      if is_empty urls then loaded else push_default (append_all urls) loaded

  -- The redirect back paths of the locations, collected and sorted.
  unfoldable pub collect : Locations → Result ReverseProxyConfig
  unfolding backpaths_all
  collect locations = do
    backpaths ← backpaths_all locations
    ok (record { locations = locations; redirect_bachpaths = sort_by by_redirect_url backpaths })

  -- The locations sorted and validated first.
  unfoldable pub finish : Locations → Result ReverseProxyConfig
  unfolding sort_locations validate_locations collect
  finish added = do locations ← validate_locations (sort_locations added); collect locations

  -- `load` is the configuration file, read and parsed; without a file there are no locations yet.
  unfoldable pub parse_reverse_proxy_config :
      Option (Result Locations) → List Bytes → Bool → Result ReverseProxyConfig
  unfolding add_urls finish
  parse_reverse_proxy_config none append_upstream_url enable_github_proxy =
      finish (add_urls append_upstream_url enable_github_proxy [])
  parse_reverse_proxy_config (some file) append_upstream_url enable_github_proxy = do
    loaded ← file
    finish (add_urls append_upstream_url enable_github_proxy loaded)
