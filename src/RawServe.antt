-- ===== src/RawServe.antt =====
-- rust_http_proxy/src/raw_serve.rs: responses that are built step by step, and the checks on the
-- headers of a request for a file.
pub mod Range
pub mod Files
pub mod Serve
pub mod Etag
pub mod Hidden
pub mod Counts
use rust_http_proxy.Common.{
  ℕ, Bool, true, false, if◌then◌else◌, Option, none, some, List, [], ◌∷◌, ◌++◌, Result, ok, err,
  ◌>>=◌, wrapped, ErrorKind, invalid_data,
}
use rust_http_proxy.Common.Bytes.{Bytes, codes, beq}
use rust_http_proxy.Common.Numbers.{hex}
use rust_http_proxy.Http.{Http, HeaderName, Request, Response, Body, empty_body, full_body, get}

abbrev pub server_name : Bytes
server_name = codes "The Bad Server"

-- `cal_file_etag`, with the time as the milliseconds since the epoch
unfoldable pub cal_file_etag : ℕ → ℕ → Bytes
cal_file_etag last_modified_secs file_len =
    codes "\"" ++ (hex last_modified_secs ++ (codes "-" ++ (hex file_len ++ codes "\"")))

module _ (http : Http) where
  -- `http::response::Builder`: nothing, once a value was no header value.
  abbrev pub Builder : Type 0
  Builder = Option (ℕ × http.HeaderMap)

  abbrev pub builder : Builder
  builder = some (200, http.no_headers)

  abbrev pub header : HeaderName → Bytes → Builder → Builder
  header name value none = none
  header name value (some (status, headers)) = elim (http.of_str value) [
    | none ↦ none
    | some v ↦ some (status, http.append name v headers)
  ]

  abbrev pub with_status : ℕ → Builder → Builder
  with_status status none = none
  with_status status (some (_, headers)) = some (status, headers)

  -- `Builder::body`; its error is what `serve_request` turns into invalid data.
  abbrev pub finish : Builder → Body → Result (Response http)
  finish none body = err (wrapped invalid_data)
  finish (some (status, headers)) body =
      ok (record { status = status; headers = headers; body = body })

  abbrev pub not_found : Result (Response http)
  not_found = finish (with_status 404 builder) empty_body

  abbrev pub build_500_resp : Response http
  build_500_resp = record {
    status = 500;
    headers = http.no_headers;
    body = full_body (codes "Internal Server Error");
  }

  -- `h.to_str().unwrap_or("")` of a header, or nothing.
  abbrev pub text_or_empty : HeaderName → http.HeaderMap → Bytes
  text_or_empty name headers = elim (get http name headers) [
    | none ↦ codes ""
    | some value ↦ elim (http.to_str value) [ none ↦ codes "" | some text ↦ text ]
  ]

  -- The dates are printed as `fmt_http_date` does.
  unfoldable pub not_modified : Bytes → Bytes → Result (Response http)
  not_modified last_modified file_etag =
      finish
        (header "server" server_name (
          header "last-modified" last_modified (header "etag" file_etag (with_status 304 builder))))
        empty_body

  -- `http::HeaderValue::to_str().ok()?` and the comparison with it
  abbrev text_is : http.HeaderValue → Bytes → Bool
  text_is value expected = elim (http.to_str value) [ none ↦ false | some text ↦ beq text expected ]

  -- Whether the request names the file as it is: by its tag, or else by its date.
  unfoldable pub is_not_modified : http.HeaderMap → Bytes → Bytes → Bool
  is_not_modified headers file_etag last_modified = elim (get http "if-none-match" headers) [
    | some if_none_match ↦ text_is if_none_match file_etag
    | none ↦ elim (get http "if-modified-since" headers) [
      | none ↦ false
      | some if_modified_since ↦ text_is if_modified_since last_modified
    ]
  ]

  unfoldable pub return_304_if_not_modified :
      http.HeaderMap → Bytes → Bytes → Option (Result (Response http))
  unfolding is_not_modified not_modified
  return_304_if_not_modified headers file_etag last_modified =
      if is_not_modified headers file_etag last_modified
      then some (not_modified last_modified file_etag)
      else none
