-- ===== src/Reverse/UpstreamRequest.antt =====
-- The request to the upstream: `LocationConfig::build_upstream_req` of rust_http_proxy/src/reverse.rs.
use rust_http_proxy.Common.{
  ℕ, leb, if◌then◌else◌, Option, none, some, List, [], ◌∷◌, ◌++◌, drop, length, Result, ok, panic,
  ◌>>=◌, ok_or, io, wrapped, invalid_data,
}
use rust_http_proxy.Common.Bytes.{Bytes, codes, starts_with}
use rust_http_proxy.Http.{Http, HeaderName, Version, Request}
use rust_http_proxy.Reverse.{Upstream, LocationConfig}
use rust_http_proxy.Reverse as Reverse
use text.Mathlib.Text.{◌==◌ as same_name}

-- `&s[n..]`
abbrev pub slice_from : Bytes → ℕ → Result Bytes
slice_from s n = if leb n (length s) then ok (drop n s) else panic

-- The version of the upstream request.
unfoldable pub upstream_version : Upstream → Version → Version
upstream_version upstream version = elim upstream.version [
  | Reverse.h1 ↦ Version.http_11
  | Reverse.h2 ↦ Version.http_2
  | Reverse.auto ↦
      if starts_with upstream.url_base (codes "https:") then version else Version.http_11
]

-- `upstream.url_base` and what the path and query have behind the location.
unfoldable pub url_behind : LocationConfig → Bytes → Result Bytes
url_behind config path_and_query = do
  rest ← slice_from path_and_query (length config.location)
  ok (config.upstream.url_base ++ rest)

module _ (http : Http) where
  open http use {HeaderMap, HeaderValue, no_headers, entries, append, insert, of_str}

  -- Every header but `Host` is appended to the new request's.
  unfoldable pub copy_headers : List (HeaderName × HeaderValue) → HeaderMap → HeaderMap
  copy_headers [] header_map = header_map
  copy_headers ((name, value) ∷ more) header_map =
      copy_headers more (if same_name name "host" then header_map else append name value header_map)

  unfoldable pub override_host : Option Bytes → HeaderMap → Result HeaderMap
  override_host none header_map = ok header_map
  override_host (some authority) header_map = do
    value ← ok_or (wrapped invalid_data) (of_str authority)
    ok (insert "host" value header_map)

  unfoldable pub upstream_url : LocationConfig → http.Uri → Result Bytes
  unfolding url_behind
  upstream_url config uri =
      url_behind config (elim (http.path_and_query uri) [ none ↦ codes "" | some pq ↦ pq ])

  unfoldable pub build_upstream_req : LocationConfig → Request http → Result (Request http)
  unfolding upstream_url upstream_version copy_headers override_host
  build_upstream_req config req = do
    url ← upstream_url config req.uri
    uri ← ok_or (io invalid_data "new_req.headers_mut() is None") (http.parse_uri url)
    headers ←
        override_host config.upstream.authority_override
          (copy_headers (entries req.headers) no_headers)
    ok (record {
      method = req.method;
      uri = uri;
      version = upstream_version config.upstream req.version;
      headers = headers;
      body = req.body;
    })
