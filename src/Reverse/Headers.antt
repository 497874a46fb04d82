-- ===== src/Reverse/Headers.antt =====
-- What the upstream request carries: the headers and the URL of `build_upstream_req` in
-- rust_http_proxy/src/reverse.rs.
use rust_http_proxy.Common.{
  ◌≡◌, ◌⊎◌, ◌≢◌, refl, sym, ◌∙◌, true, if◌then◌else◌, Bool-cases, inl, inr, Option, none, some,
  List, [], ◌∷◌, ◌++◌, append_assoc, append-nil, length, drop, ok, >>=-eq-ok, ok-injective, ok_or,
  ok_or-eq-ok, arith,
}
use rust_http_proxy.Common.Bytes.{codes, Bytes, starts_with}
use rust_http_proxy.Common.Bytes.Laws.{starts_with-length, starts_with_trans, starts_with-split}
use rust_http_proxy.Common.{find-hit}
use rust_http_proxy.Http.{Http, HeaderName, HeaderLaws, UriLaws, Request, values}
use rust_http_proxy.Reverse.{LocationConfig}
use rust_http_proxy.Reverse.Handle.{find_location}
use rust_http_proxy.Reverse.UpstreamRequest.{
  copy_headers, override_host, upstream_url, url_behind, build_upstream_req,
}
use text.Mathlib.Text.{◌==◌ as same_name}
use text.Mathlib.TextEquality.{eq_iff}

module _ (http : Http) (laws : HeaderLaws http) where
  open http use {HeaderMap, HeaderValue, get_all, entries, no_headers}

  copy_headers_lem :
      (n : HeaderName) (es : List (HeaderName × HeaderValue)) (m : HeaderMap)
      → get_all n (copy_headers http es m)
        ≡ (if same_name n "host" then get_all n m else get_all n m ++ values n es)
  unfolding copy_headers
  copy_headers_lem n [] m = elim (Bool-cases (same_name n "host")) [
    | inl e ↦ rw e
    | inr e ↦ rw e (sym (append-nil _))
  ]
  copy_headers_lem n ((k, v) ∷ es) m = ground (
    arith,
    copy_headers_lem n es m,
    copy_headers_lem n es (http.append k v m),
    laws.get_all-append n k v m,
    append_assoc (get_all n m) (v ∷ []) (values n es),
    eq_iff k "host",
    eq_iff n "host",
    eq_iff k n,
  )

  -- The values of `Host` that the upstream gets: the configured one, or none.
  abbrev pub HostIs : Option Bytes → List HeaderValue → Type 0
  HostIs none vs = vs ≡ []
  HostIs (some authority) vs = (v : HeaderValue) × (vs ≡ v ∷ []) × (http.to_str v ≡ some authority)

  override_host_lem :
      (n : HeaderName) (o : Option Bytes) (m m' : HeaderMap)
      → n ≢ "host"
      → override_host http o m ≡ ok m'
      → get_all "host" m ≡ []
      → HostIs o (get_all "host" m') × (get_all n m' ≡ get_all n m)
  unfolding override_host
  override_host_lem n none m m' ne e h = let same = ok-injective e in rw (← same) (h, refl)
  override_host_lem n (some a) m m' ne e h =
      let (v, ev, e') = >>=-eq-ok _ _ e in
      let same = ok-injective e' in
      rw (← same) (
        (v, laws.get_all-insert "host" "host" v m, laws.to_str-of_str a v (ok_or-eq-ok _ _ ev)),
        ground (arith, laws.get_all-insert n "host" v m, eq_iff "host" n),
      )

  copied-host : (m : HeaderMap) → get_all "host" (copy_headers http (entries m) no_headers) ≡ []
  copied-host m = copy_headers_lem "host" (entries m) no_headers ∙ laws.get_all-no_headers "host"

  copied_ne :
      (n : HeaderName) (m : HeaderMap)
      → n ≢ "host"
      → get_all n (copy_headers http (entries m) no_headers) ≡ get_all n m
  copied_ne n m ne = ground (
    arith,
    copy_headers_lem n (entries m) no_headers,
    laws.get_all-no_headers n,
    laws.get_all-entries n m,
    eq_iff n "host",
  )

  -- A request that is built for the upstream has every header of the client's request but `Host`,
  -- with all its values in their order; its `Host` is the configured override, or absent; method
  -- and body are the client's, and its URI is the parsed text that `upstream_url` computes.
  pub build_upstream_req_lem :
      (config : LocationConfig) (req up : Request http) (n : HeaderName)
      → build_upstream_req http config req ≡ ok up
      → n ≢ "host"
      → (get_all n up.headers ≡ get_all n req.headers)
        × HostIs config.upstream.authority_override (get_all "host" up.headers)
        × (up.method ≡ req.method)
        × (up.body ≡ req.body)
        × ((url : Bytes) × (upstream_url http config req.uri ≡ ok url)
            × (http.parse_uri url ≡ some up.uri))
  unfolding build_upstream_req
  build_upstream_req_lem config req up n e ne =
      let (url, eu, e1) = >>=-eq-ok (upstream_url http config req.uri) _ e in
      let (uri, ep, e2) = >>=-eq-ok (ok_or _ (http.parse_uri url)) _ e1 in
      let copied = copy_headers http (entries req.headers) no_headers in
      let (headers, eh, e3) =
        >>=-eq-ok (override_host http config.upstream.authority_override copied) _ e2 in
      let (host_is, kept) =
        override_host_lem n config.upstream.authority_override copied headers ne eh
          (copied-host req.headers) in
      rw (← ok-injective e3)
        (kept ∙ copied_ne n req.headers ne, host_is, refl, refl, (url, eu, ok_or-eq-ok _ _ ep))

abbrev pub or_empty : Option Bytes → Bytes
or_empty none = []
or_empty (some pq) = pq

module _ (http : Http) (laws : UriLaws http) where
  slice_ne_panic :
      (config : LocationConfig) (pq : Bytes)
      → starts_with pq config.location ≡ true
      → url_behind config pq ≡ ok (config.upstream.url_base ++ drop (length config.location) pq)
  unfolding url_behind
  slice_ne_panic config pq h = ground (arith, starts_with-length pq config.location h)

  abbrev pub path_and_query_text : http.Uri → Bytes
  path_and_query_text uri = or_empty (http.path_and_query uri)

  -- What the URI begins with, if a location is a front of its path.
  path_and_query-location :
      (uri : http.Uri) (location : Bytes)
      → starts_with (http.path uri) location ≡ true
      → (starts_with (path_and_query_text uri) location ≡ true)
        ⊎ ((http.path uri ≡ codes "/") × (starts_with (path_and_query_text uri) (codes "?") ≡ true))
  path_and_query-location uri location hit = text_of (http.path_and_query uri) refl
    where
      text_of :
          (found : Option Bytes)
          → http.path_and_query uri ≡ found
          → (starts_with (or_empty found) location ≡ true)
            ⊎ ((http.path uri ≡ codes "/") × (starts_with (or_empty found) (codes "?") ≡ true))
      text_of none e = inl (rw (laws.path_and_query_none uri e) at hit)
      text_of (some pq) e = elim (laws.path_and_query_some uri pq e) [
        | inl front ↦ inl (starts_with_trans pq (http.path uri) location front hit)
        | inr only ↦ inr only
      ]

  url_behind-short :
      (config : LocationConfig) (pq : Bytes)
      → starts_with (codes "/") config.location ≡ true
      → starts_with pq (codes "?") ≡ true
      → url_behind config pq ≡ ok (config.upstream.url_base ++ drop (length config.location) pq)
  unfolding url_behind
  url_behind-short config pq h q =
      ground (
        arith,
        starts_with-length (codes "/") config.location h,
        starts_with-length pq (codes "?") q,
      )

  -- For a URI and a location that was chosen for its path, the slice behind the location's length
  -- never panics. The upstream URL is `url_base` and what the path and query have behind the
  -- location, which is their front, unless the URI has a query and no path: its path then counts as
  -- `/`, and as many bytes as the location has are left out in front of the query.
  pub upstream_url-find_location :
      (uri : http.Uri) (ls : List LocationConfig) (config : LocationConfig)
      → find_location (http.path uri) ls ≡ some config
      → let pq = path_and_query_text uri in
        (upstream_url http config uri
          ≡ ok (config.upstream.url_base ++ drop (length config.location) pq))
        × ((pq ≡ config.location ++ drop (length config.location) pq)
            ⊎ ((http.path uri ≡ codes "/") × (starts_with pq (codes "?") ≡ true)))
  unfolding upstream_url find_location
  upstream_url-find_location uri ls config f =
      let hit = find-hit _ ls f in
      let pq = path_and_query_text uri in
      elim (path_and_query-location uri config.location hit) [
        | inl front ↦
            (slice_ne_panic config pq front, inl (starts_with-split pq config.location front))
        | inr (root, q) ↦ (url_behind-short config pq (rw (← root) hit) q, inr (root, q))
      ]
