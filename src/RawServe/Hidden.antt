-- ===== src/RawServe/Hidden.antt =====
-- Paths that are never served: `serve_path` and `serve_http_request` of
-- rust_http_proxy/src/raw_serve.rs.
use rust_http_proxy.Common.{◌≡◌, refl, ap, Bool, true, false, List, Option, Result, IoError, arith}
use rust_http_proxy.Common.Bytes.{Bytes, codes, contains}
use rust_http_proxy.Http.{
  Http, Request, Response, Method, get_method, head_method, connect, other_method,
}
use rust_http_proxy.Labels.{ReqLabels}
use rust_http_proxy.Metrics.{Family}
use rust_http_proxy.RawServe.{not_found, text_or_empty}
use rust_http_proxy.RawServe.Files.{Files, forbidden, serve_path}
use rust_http_proxy.RawServe.Serve.{serve_http_request, serve_method, incr_counter_if_need}

module _ (files : Files) (http : Http) (captures : Bytes → Option (Bytes × Bytes))
    (error_text : IoError → Bytes) (web_content_path : Bytes) where
  abbrev pub files_at : Bytes → http.HeaderMap → Bool → Bool → Result (Response http)
  files_at = serve_path files http captures error_text web_content_path

  serve_path-forbidden :
      (path : Bytes) (headers : http.HeaderMap) (gzip need_body : Bool)
      → forbidden path ≡ true
      → files_at path headers gzip need_body ≡ not_found http
  serve_path-forbidden path headers gzip need_body h = unfold serve_path in rw h

  module _ (family : Family ReqLabels) (engine : Bytes → Bytes) (keywords : List Bytes) where
    incr_counter_if_need-not_found :
        (outer : Bool) (referer path : Bytes) (metrics : family.State)
        → incr_counter_if_need family http engine (not_found http) outer referer path metrics
          ≡ metrics
    incr_counter_if_need-not_found outer referer path metrics =
        unfold incr_counter_if_need in ground arith

    serve_method-forbidden :
        (method : Method) (path : Bytes) (headers : http.HeaderMap) (metrics : family.State)
        → forbidden path ≡ true
        → serve_method family http engine keywords files_at method path headers metrics
          ≡ (metrics, not_found http)
    unfolding serve_method
    serve_method-forbidden get_method path headers metrics h =
        rw
          (serve_path-forbidden path headers
            (contains (text_or_empty http "accept-encoding" headers) (codes "gzip")) true h)
          (ap (λ m. (m, not_found http)) (incr_counter_if_need-not_found _ _ path metrics))
    serve_method-forbidden head_method path headers metrics h =
        rw (serve_path-forbidden path headers false false h)
    serve_method-forbidden connect path headers metrics h = refl
    serve_method-forbidden other_method path headers metrics h = refl

    -- A path with `/..` in it or below `/.git/` is answered 404, whatever the file system holds and
    -- whatever the method and the headers are, and the request is not counted.
    pub serve_http_request-forbidden :
        (req : Request http) (path : Bytes) (metrics : family.State)
        → forbidden path ≡ true
        → serve_http_request family http engine keywords files_at req path metrics
          ≡ (metrics, not_found http)
    serve_http_request-forbidden req path metrics h =
        unfold serve_http_request in
        ground (arith, serve_method-forbidden req.method path req.headers metrics h)
