-- ===== src/RawServe/Serve.antt =====
-- `serve_http_request` of rust_http_proxy/src/raw_serve.rs, and the counting of requests.
use rust_http_proxy.Common.{
  ℕ, Bool, not, ◌&&◌, ◌||◌, true, false, leb, ltb, if◌then◌else◌, any, is_empty, Option, none, some,
  List, Result, ok, err, panic,
}
use rust_http_proxy.Common.Bytes.{Bytes, codes, ends_with, contains}
use rust_http_proxy.Http.{
  Http, Request, Response, Method, get_method, head_method, connect, other_method,
}
use rust_http_proxy.Labels.{ReqLabels}
use rust_http_proxy.Metrics.{Family}
use rust_http_proxy.RawServe.{not_found, text_or_empty}

-- `ALL_HTTP_REQ`
abbrev pub all_http_req : ReqLabels
all_http_req = record { referer = codes "all"; path = codes "all" }

abbrev pub or_else {ℓ} : {A : Type ℓ} → Option A → A → A
or_else none d = d
or_else (some a) d = a

-- The captures of the two regular expressions, each with its first group.
unfoldable pub extract_search_engine_from_referer :
    (address_captures engine_captures : Bytes → Option (Option Bytes)) → Bytes → Bytes
extract_search_engine_from_referer address_captures engine_captures referer =
    elim (address_captures referer) [
      | none ↦ referer
      | some caps ↦
          let address = or_else caps referer in
          elim (engine_captures address) [ none ↦ address | some engine ↦ or_else engine address ]
    ]

-- `is_success() || is_redirection()`
abbrev pub is_counted : ℕ → Bool
is_counted status = (leb 200 status && ltb status 300) || (leb 300 status && ltb status 400)

-- A page that is reached from a page elsewhere.
abbrev pub names_self : List Bytes → Bytes → Bool
names_self referer_keywords_to_self referer_header =
    any (λ refer. contains referer_header refer) referer_keywords_to_self

abbrev pub from_outside : List Bytes → Bytes → Bool
from_outside referer_keywords_to_self referer_header =
    not (is_empty referer_header)
    && (not (is_empty referer_keywords_to_self)
        && not (names_self referer_keywords_to_self referer_header))

abbrev pub is_image : Bytes → Bool
is_image path =
    ends_with path (codes ".png")
    || (ends_with path (codes ".jpeg") || ends_with path (codes ".jpg"))

abbrev pub is_page : Bytes → Bool
is_page path = ends_with path (codes "/") || ends_with path (codes ".html")

module _ (http_req_counter : Family ReqLabels) (http : Http) where
  unfoldable pub incr_counter_if_need :
      (engine : Bytes → Bytes)
      → Result (Response http)
      → Bool
      → Bytes
      → Bytes
      → http_req_counter.State
      → http_req_counter.State
  incr_counter_if_need engine (ok res) is_outer_view_html referer_header path metrics =
      let label : ReqLabels = record { referer = engine referer_header; path = path } in
      if is_outer_view_html && is_counted res.status
      then http_req_counter.inc_by all_http_req 1 (http_req_counter.inc_by label 1 metrics)
      else metrics
  incr_counter_if_need engine (err e) is_outer_view_html referer_header path metrics = metrics
  incr_counter_if_need engine panic is_outer_view_html referer_header path metrics = metrics

  -- `engine` is `extract_search_engine_from_referer`, and `files_at` is `serve_path` with the
  -- configured directory.
  module _ (engine : Bytes → Bytes) (referer_keywords_to_self : List Bytes)
      (files_at : Bytes → http.HeaderMap → Bool → Bool → Result (Response http)) where
    unfoldable pub serve_method :
        Method
        → Bytes
        → http.HeaderMap
        → http_req_counter.State
        → http_req_counter.State × Result (Response http)
    unfolding contains ends_with incr_counter_if_need
    serve_method get_method path headers metrics =
        let referer_header = text_or_empty http "referer" headers in
        let can_gzip = contains (text_or_empty http "accept-encoding" headers) (codes "gzip") in
        let r = files_at path headers can_gzip true in
        let is_outer_view_html =
          is_page path && from_outside referer_keywords_to_self referer_header in
        (incr_counter_if_need engine r is_outer_view_html referer_header path metrics, r)
    serve_method head_method path headers metrics = (metrics, files_at path headers false false)
    serve_method connect path headers metrics = (metrics, not_found http)
    serve_method other_method path headers metrics = (metrics, not_found http)

    unfoldable pub serve_http_request :
        Request http
        → Bytes
        → http_req_counter.State
        → http_req_counter.State × Result (Response http)
    unfolding serve_method
    serve_http_request req path metrics =
        let referer_header = text_or_empty http "referer" req.headers in
        if is_image path && from_outside referer_keywords_to_self referer_header
        then (metrics, not_found http)
        else serve_method req.method path req.headers metrics
