-- ===== src/Server/Router.antt =====
-- The router of rust_http_proxy/src/axum_handler.rs as `build_router` sets it up on Linux, and the
-- pages that the file itself makes. What axum and its layers do around the handlers is not modelled.
use rust_http_proxy.Common.{
  ◌++◌, ℕ, ◌≡◌, any, if◌then◌else◌, Option, none, some, List, [], ◌∷◌, Result, ok, err, panic,
  IoError, arith, wrapped, other,
}
use rust_http_proxy.Common.Bytes.{Bytes, codes, beq}
use rust_http_proxy.Http.{Http}
use rust_http_proxy.Auth.{BasicAuth, check_auth}
use rust_http_proxy.Ip.{SocketAddr, to_canonical}
use rust_http_proxy.Ip.Text.{print_ip}
use rust_http_proxy.Reverse.Setup.{is_some}
use rust_http_proxy.Proxy.Handle.{axum_paths}

-- The handlers that `get(…)` is given.
pub data Handler : Type 0 where
  ip serve_metrics_page count_stream_page net_html netx_html net_json : Handler

-- The routes in the order in which they are added.
abbrev pub routes : List (Bytes × Handler)
routes =
    (codes "/ip", ip)
    ∷ (codes "/metrics", serve_metrics_page)
    ∷ (codes "/nt", count_stream_page)
    ∷ (codes "/net", net_html)
    ∷ (codes "/netx", netx_html)
    ∷ (codes "/net.json", net_json)
    ∷ []

-- The handler of a path; without one the fallback answers.
abbrev pub find_route : Bytes → List (Bytes × Handler) → Option Handler
find_route path [] = none
find_route path ((route, handler) ∷ rest) =
    if beq path route then some handler else find_route path rest

module _ (http : Http) where
  abbrev pub Page : Type 0
  Page = ℕ × http.HeaderMap × Bytes

  -- The answer of `/ip`
  unfoldable pub serve_ip : SocketAddr → ℕ × Bytes
  serve_ip addr = (200, print_ip (to_canonical addr.ip))

  -- `from_static` is `HeaderValue::from_static`, `body404` the page of `html/404.html`.
  module _ (from_static : Bytes → http.HeaderValue) (body404 : Bytes) where
    unfoldable pub fallback : Page
    fallback = (
      404,
      http.insert "content-type" (from_static (codes "text/html; charset=utf-8")) http.no_headers,
      body404,
    )

    -- `serve_metrics`: `encoded` is what encoding the registry gives, and `error_text` prints an error.
    unfoldable pub serve_metrics :
        (error_text : IoError → Bytes) → Option Bytes → BasicAuth → http.HeaderMap → Result Page
    unfolding check_auth
    serve_metrics error_text encoded basic_auth headers =
        elim (check_auth http headers "authorization" basic_auth) [
          | ok some_user ↦ elim encoded [
            | none ↦ err (wrapped other)
            | some buffer ↦ ok (200, http.no_headers, buffer)
          ]
          | err e ↦ ok (
            401,
            http.insert "www-authenticate"
                (from_static (codes "Basic realm=\"are you kidding me\"")) http.no_headers,
            error_text e,
          )
          | panic ↦ panic
        ]

-- What a handler answers through axum's `Html` or as plain text.
pub data PageBody : Type 0 where
  html plain : Bytes → PageBody

-- `HtmlTemplate::into_response`: what rendering gave, or the text of its error.
unfoldable pub template_response : Bytes → Option Bytes → ℕ × PageBody
template_response error_text (some page) = (200, html page)
template_response error_text none =
    (500, plain (codes "Failed to render template. Error: " ++ error_text))

-- `AppProxyError::into_response`: `render` is the rendering of `ErrorTemplate` with its message.
unfoldable pub app_proxy_error_response : (render : Bytes → Option Bytes) → Bytes → ℕ × PageBody
app_proxy_error_response render error_text =
    let msg : Bytes = codes "Internal server error: " ++ error_text in
    elim (render msg) [
      | none ↦ (500, html (codes "Failed to render error template"))
      | some page ↦ (500, html page)
    ]

-- A path is left to the router by the file server exactly if the router has a route for it.
pub axum_paths-find_route :
    (path : Bytes) → any (beq path) axum_paths ≡ is_some (find_route path routes)
axum_paths-find_route path = ground arith
