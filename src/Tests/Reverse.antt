-- ===== src/Tests/Reverse.antt =====
-- The theorems on the reverse proxy, applied to concrete data.
use mathlib.Core.List.{Memᴰ}
use rust_http_proxy.Common.{
  ℕ, ◌≤◌, ◌⊎◌, ◌≡◌, ◌≢◌, refl, Bool, true, false, Option, none, some, List, [], ◌∷◌, ◌++◌, length,
  All, Result, ok, drop,
}
use rust_http_proxy.Common.Bytes.{Bytes, codes, starts_with}
use rust_http_proxy.Http.{Http, HeaderName, Request, get_method, http_11, empty_body}
use rust_http_proxy.Http.Sample.{sample, sample-HeaderLaws, sample-UriLaws}
use rust_http_proxy.Reverse.{LocationConfig, RedirectBackpaths, default_host}
use rust_http_proxy.Reverse.Setup.{parse_reverse_proxy_config}
use rust_http_proxy.Reverse.Handle.{find_location, locations_of}
use rust_http_proxy.Reverse.UpstreamRequest.{upstream_url, build_upstream_req}
use rust_http_proxy.Reverse.SetupLaws.{find_location-longest}
use rust_http_proxy.Reverse.Headers.{
  build_upstream_req_lem, upstream_url-find_location, path_and_query_text, HostIs,
}
use rust_http_proxy.Reverse.Backpaths.{FromLocation, redirect_bachpaths-FromLocation}
use rust_http_proxy.Tests.Data.{loaded, whole_site, api, renamed, config_in, sample_parsed}

abbrev sorted_locations : List LocationConfig
sorted_locations = renamed ∷ api ∷ whole_site ∷ []

abbrev api_path : Bytes
api_path = codes "/api/items"

found_locations : locations_of (config_in sample) (codes "proxy.example") ≡ some sorted_locations
unfolding locations_of parse_reverse_proxy_config rust_http_proxy.Common.Sort.sort_by
    rust_http_proxy.Reverse.location_config_cmp rust_http_proxy.Common.Bytes.cmp starts_with
    rust_http_proxy.Http.Sample.sample_parse rust_http_proxy.Common.Bytes.ends_with
    rust_http_proxy.Common.Bytes.beq
found_locations = refl

found_api : find_location api_path sorted_locations ≡ some api
unfolding find_location starts_with
found_api = refl

site_prefix : starts_with api_path whole_site.location ≡ true
unfolding starts_with
site_prefix = refl

find_location-longest_example :
    (starts_with api_path api.location ≡ true) × (length whole_site.location ≤ length api.location)
find_location-longest_example =
    find_location-longest sample loaded [] false (config_in sample) (codes "proxy.example") api_path
      sorted_locations api whole_site sample_parsed found_locations found_api
      (Memᴰ.tail (Memᴰ.tail (Memᴰ.head refl))) site_prefix

abbrev request : Request sample
request = record {
  method = get_method;
  uri = record {
    scheme = none;
    authority = none;
    path = codes "/renamed/x";
    query = some (codes "q=1");
  };
  version = http_11;
  headers = ("host", codes "proxy.example") ∷ ("accept", codes "*/*") ∷ [];
  body = empty_body;
}

abbrev upstream_request : Request sample
upstream_request = record {
  method = get_method;
  uri = record {
    scheme = some (codes "http");
    authority = some (codes "inner.example");
    path = codes "/x";
    query = some (codes "q=1");
  };
  version = http_11;
  headers = ("host", codes "outer.example") ∷ ("accept", codes "*/*") ∷ [];
  body = empty_body;
}

built : build_upstream_req sample renamed request ≡ ok upstream_request
unfolding build_upstream_req rust_http_proxy.Http.Sample.sample_parse
built = refl

accept_ne_host : ◌≢◌ {A = HeaderName} "accept" "host"
accept_ne_host = λ e. cc

build_upstream_req_lem_example :
    (sample.get_all "accept" upstream_request.headers ≡ sample.get_all "accept" request.headers)
    × HostIs sample sample-HeaderLaws
        (some (codes "outer.example"))
        (sample.get_all "host" upstream_request.headers)
    × (upstream_request.method ≡ request.method)
    × (upstream_request.body ≡ request.body)
    × ((url : Bytes) × (upstream_url sample renamed request.uri ≡ ok url)
        × (sample.parse_uri url ≡ some upstream_request.uri))
build_upstream_req_lem_example =
    build_upstream_req_lem sample sample-HeaderLaws renamed request upstream_request "accept" built
      accept_ne_host

abbrev api_uri : sample.Uri
api_uri = record {
  scheme = none;
  authority = none;
  path = codes "/api/items";
  query = some (codes "page=2");
}

find_api : find_location (sample.path api_uri) sorted_locations ≡ some api
unfolding find_location starts_with
find_api = refl

upstream_url-find_location_example :
    (upstream_url sample api api_uri
      ≡ ok (
          codes "http://api.example/v1/"
          ++ drop (length api.location) (path_and_query_text sample sample-UriLaws api_uri)))
    × ((path_and_query_text sample sample-UriLaws api_uri
          ≡ api.location
            ++ drop (length api.location) (path_and_query_text sample sample-UriLaws api_uri))
        ⊎ ((sample.path api_uri ≡ codes "/")
            × (starts_with (path_and_query_text sample sample-UriLaws api_uri) (codes "?") ≡ true)))
upstream_url-find_location_example =
    upstream_url-find_location sample sample-UriLaws api_uri sorted_locations api find_api

-- `http://proxy.example?page=2`: the query becomes a part of the path.
abbrev bare_uri : sample.Uri
bare_uri = record {
  scheme = some (codes "http");
  authority = some (codes "proxy.example");
  path = [];
  query = some (codes "page=2");
}

query_in_path :
    upstream_url sample whole_site bare_uri ≡ ok (whole_site.upstream.url_base ++ codes "page=2")
unfolding upstream_url rust_http_proxy.Reverse.UpstreamRequest.url_behind
query_in_path = refl

backpaths_located :
    All (FromLocation (config_in sample).locations) (config_in sample).redirect_bachpaths
backpaths_located =
    redirect_bachpaths-FromLocation sample loaded [] false (config_in sample) sample_parsed

abbrev redirect : Bytes
redirect = codes "http://api.example/v1/login"

abbrev rewritten : Bytes
rewritten = codes "https://proxy.example:8443/api/login"

abbrev api_backpath : RedirectBackpaths
api_backpath = record {
  redirect_url = codes "http://api.example/v1/";
  host = default_host;
  location = codes "/api/";
}
