-- ===== src/Reverse/Redirect.antt =====
-- Redirects of an upstream, rewritten to lead back through the proxy: `lookup_replacement`,
-- `normalize302` and `_ensure_absolute` of rust_http_proxy/src/reverse.rs.
use rust_http_proxy.Common.{
  ◌-◌, ◌&&◌, if◌then◌else◌, Option, none, some, List, [], ◌∷◌, ◌++◌, take, drop, length, Result, ok,
  ◌>>=◌, ok_or, io, wrapped, invalid_data,
}
use rust_http_proxy.Common.Bytes.{Bytes, codes, beq, starts_with, ends_with}
use rust_http_proxy.Http.{Http, get}
use rust_http_proxy.Labels.{SchemeHostPort, port_part}
use rust_http_proxy.Reverse.{RedirectBackpaths, Upstream, default_host}

-- The URL that a matching back path puts in place of the redirect.
unfoldable pub replacement : SchemeHostPort → Bytes → RedirectBackpaths → Bytes
replacement origin absolute_redirect_url backpath =
    let host : Bytes = if beq backpath.host default_host then origin.host else backpath.host in
    origin.scheme
    ++ (codes "://"
        ++ (host
            ++ (port_part origin.port
                ++ (backpath.location
                    ++ drop (length backpath.redirect_url) absolute_redirect_url))))

-- The loop takes the first back path whose URL the redirect starts with.
unfoldable pub lookup_replacement : SchemeHostPort → Bytes → List RedirectBackpaths → Option Bytes
unfolding replacement
lookup_replacement origin absolute_redirect_url [] = none
lookup_replacement origin absolute_redirect_url (backpath ∷ more) =
    if starts_with absolute_redirect_url backpath.redirect_url
    then some (replacement origin absolute_redirect_url backpath)
    else lookup_replacement origin absolute_redirect_url more

module _ (http : Http) where
  open http use {Uri, HeaderMap, parse_uri, uri_text, scheme_str, path, insert, to_str, of_str}

  -- The headers of the response, with its `Location` replaced where there is a back path for it.
  unfoldable pub normalize302 :
      List RedirectBackpaths → SchemeHostPort → HeaderMap → Result HeaderMap
  unfolding lookup_replacement
  normalize302 backpaths origin resp_headers = do
    location ← ok_or (io invalid_data "LOCATION absent when 30x") (get http "location" resp_headers)
    text ← ok_or (wrapped invalid_data) (to_str location)
    redirect_url ← ok_or (wrapped invalid_data) (parse_uri text)
    let absolute : Result HeaderMap =
        elim (lookup_replacement origin (uri_text redirect_url) backpaths) [
          | none ↦ ok resp_headers
          | some new_location ↦ do
            value ← ok_or (wrapped invalid_data) (of_str new_location)
            ok (insert "location" value resp_headers)
        ]
    elim (scheme_str redirect_url) [ none ↦ ok resp_headers | some _ ↦ absolute ]

  unfoldable pub _ensure_absolute : http.HeaderValue → Upstream → Result Bytes
  _ensure_absolute location_header upstream = do
    location ← ok_or (wrapped invalid_data) (to_str location_header)
    redirect_url ← ok_or (wrapped invalid_data) (parse_uri location)
    let relative : Result Bytes = do
      url_base ← ok_or (wrapped invalid_data) (parse_uri upstream.url_base)
      let base : Bytes =
          if ends_with (path url_base) (codes "/") && starts_with location (codes "/")
          then take (length (uri_text url_base) - 1) (uri_text url_base)
          else uri_text url_base
      ok (base ++ location)
    elim (scheme_str redirect_url) [ none ↦ relative | some _ ↦ ok location ]
