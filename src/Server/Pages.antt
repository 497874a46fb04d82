-- ===== src/Server/Pages.antt =====
-- The pages behind the router of rust_http_proxy/src/axum_handler.rs: what each handler answers, with
-- those of rust_http_proxy/src/linux_axum_handler.rs, and which layers `build_router` puts around it.
-- Running `ss`, encoding the registry and rendering a template are arguments.
use rust_http_proxy.Common.{ℕ, Option, none, some, List, [], ◌∷◌, Result, ok, err, panic, IoError}
use rust_http_proxy.Common.Bytes.{Bytes, codes}
use rust_http_proxy.Http.{Http}
use rust_http_proxy.Auth.{BasicAuth}
use rust_http_proxy.Ip.{SocketAddr}
use rust_http_proxy.NetMonitor.{NetMonitor}
use rust_http_proxy.NetMonitor.Page.{Snapshot, fetch_all}
use rust_http_proxy.LinuxPages.{Counts, count_stream}
use rust_http_proxy.Server.Router.{
  Handler, ip, serve_metrics_page, count_stream_page, net_html, netx_html, net_json, routes,
  find_route, PageBody, plain, serve_ip, serve_metrics, fallback, template_response,
}

-- The layers of the router.
pub data Layer : Type 0 where
  trace cors compression : Layer
  timeout : ℕ → Layer

abbrev pub layers : List Layer
layers = trace ∷ cors ∷ timeout 30 ∷ compression ∷ []

-- A layer is put around the routes that are there when it is added, which are `/ip`, `/metrics` and the
-- fallback; the pages for Linux are added behind it.
unfoldable pub layers_of : Option Handler → List Layer
layers_of none = layers
layers_of (some ip) = layers
layers_of (some serve_metrics_page) = layers
layers_of (some _) = []

-- What `make_span` notes of a request.
pub record Span : Type 0 where
  pub method : Bytes
  pub path : Bytes
  pub matched_path : Option Bytes

unfoldable pub make_span : Bytes → Bytes → Option Bytes → Span
make_span method path matched_path = record {
  method = method;
  path = path;
  matched_path = matched_path;
}

-- The answers of the handlers.
pub data Answer (http : Http) : Type 0 where
  page : ℕ → http.HeaderMap → PageBody → Answer http
  json : Snapshot → Answer http
  app_error : IoError → Answer http
  panicked : Answer http

-- `net_html` and `netx_html`, by the rendering of their templates with the host of the request.
unfoldable pub net_template_response : (Bytes → Option Bytes) → Bytes → Bytes → ℕ × PageBody
unfolding template_response
net_template_response render error_text hostname = template_response error_text (render hostname)

-- What the handlers find: the state of the router, the monitor, and what is outside the repository.
pub record PageEnv (http : Http) : Type 0 where
  pub basic_auth : BasicAuth
  pub monitor : NetMonitor
  pub encoded : Option Bytes
  pub ss_output : Result (Bytes × Bytes)
  pub from_utf8 : Bytes → Option Bytes
  pub into_iter : Counts → Counts
  pub from_static : Bytes → http.HeaderValue
  pub error_text : IoError → Bytes
  pub template_error : Bytes
  pub render_net : Bytes → Option Bytes
  pub render_netx : Bytes → Option Bytes
  pub body404 : Bytes

module _ (http : Http) (env : PageEnv http) where
  abbrev as_page : ℕ × PageBody → Answer http
  as_page (status, body) = page status http.no_headers body

  abbrev of_metrics : Result (ℕ × http.HeaderMap × Bytes) → Answer http
  of_metrics (ok (status, headers, body)) = page status headers (plain body)
  of_metrics (err e) = app_error e
  of_metrics panic = panicked

  abbrev of_stream : Result (http.HeaderMap × Bytes) → Answer http
  of_stream (ok (headers, body)) = page 200 headers (plain body)
  of_stream (err e) = app_error e
  of_stream panic = panicked

  -- The handler of each route; `net_json` hands the snapshot to serde.
  unfoldable pub answer_of : Handler → http.HeaderMap → SocketAddr → Bytes → Answer http
  unfolding serve_ip serve_metrics count_stream net_template_response fetch_all
  answer_of ip headers addr hostname =
      let (status, body) = serve_ip http addr in page status http.no_headers (plain body)
  answer_of serve_metrics_page headers addr hostname = of_metrics (
      serve_metrics http env.from_static env.body404 env.error_text env.encoded env.basic_auth
        headers)
  answer_of count_stream_page headers addr hostname =
      of_stream
        (count_stream http env.from_utf8 env.into_iter (env.from_static (codes "3")) env.ss_output)
  answer_of net_html headers addr hostname =
      as_page (net_template_response env.render_net env.template_error hostname)
  answer_of netx_html headers addr hostname =
      as_page (net_template_response env.render_netx env.template_error hostname)
  answer_of net_json headers addr hostname = json (fetch_all env.monitor)

  -- The handler of a route, or the fallback.
  unfoldable pub answer_to : Option Handler → http.HeaderMap → SocketAddr → Bytes → Answer http
  unfolding answer_of fallback
  answer_to (some handler) headers addr hostname = answer_of handler headers addr hostname
  answer_to none headers addr hostname =
      let (status, sent, body) = fallback http env.from_static env.body404 in
      page status sent (plain body)

  -- A `GET` for a path.
  unfoldable pub answer_at : Bytes → http.HeaderMap → SocketAddr → Bytes → Answer http
  unfolding answer_to
  answer_at path headers addr hostname = answer_to (find_route path routes) headers addr hostname
