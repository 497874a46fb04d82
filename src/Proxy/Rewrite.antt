-- ===== src/Proxy/Rewrite.antt =====
-- What the forward proxy sends on: `mod_http1_proxy_req` of rust_http_proxy/src/proxy.rs.
use rust_http_proxy.Common.{
  ◌≡◌, ◌≢◌, refl, if◌then◌else◌, some, [], ◌∷◌, ok, ok_or, >>=-eq-ok, ok-injective, ok_or-eq-ok,
  arith,
}
use rust_http_proxy.Common.Bytes.{Bytes}
use rust_http_proxy.Http.{Http, HeaderName, HeaderLaws, Request}
use rust_http_proxy.Proxy.{mod_http1_proxy_req, host_header, origin_form}
use text.Mathlib.Text.{◌==◌ as same_name}
use text.Mathlib.TextEquality.{eq_iff}

module _ (http : Http) (laws : HeaderLaws http) where
  open http use {HeaderMap, HeaderValue, get_all}

  abbrev stripped : HeaderMap → HeaderMap
  stripped m = http.remove "proxy-connection" (http.remove "proxy-authorization" m)

  sent_headers :
      (n : HeaderName) (value : HeaderValue) (m : HeaderMap)
      → get_all n (http.insert "host" value (stripped m)) ≡ (
          if same_name "host" n
          then value ∷ []
          else if same_name "proxy-connection" n
          then []
          else if same_name "proxy-authorization" n
          then []
          else get_all n m)
  sent_headers n value m = ground (
    arith,
    laws.get_all-insert n "host" value (stripped m),
    laws.get_all-remove n "proxy-connection" (http.remove "proxy-authorization" m),
    laws.get_all-remove n "proxy-authorization" m,
  )

  -- A request that is prepared for its target has no credentials for the proxy and no
  -- `Proxy-Connection`, one `Host` with the text of `host_header` for the host of the request's
  -- URI, and every other header as it came; its URI is the `origin_form` of the request's, method
  -- and body are the client's.
  pub mod_http1_proxy_req_lem :
      (req out : Request http) (n : HeaderName)
      → mod_http1_proxy_req http req ≡ ok out
      → n ≢ "host"
      → n ≢ "proxy-connection"
      → n ≢ "proxy-authorization"
      → (get_all "proxy-authorization" out.headers ≡ [])
        × (get_all "proxy-connection" out.headers ≡ [])
        × (get_all n out.headers ≡ get_all n req.headers)
        × ((name : Bytes) × (value : HeaderValue) × (http.host req.uri ≡ some name)
            × (get_all "host" out.headers ≡ value ∷ [])
            × (http.to_str value ≡ some (host_header http req.uri name)))
        × (origin_form http req.uri ≡ ok out.uri)
        × (out.method ≡ req.method)
        × (out.body ≡ req.body)
  unfolding mod_http1_proxy_req
  mod_http1_proxy_req_lem req out n e h1 h2 h3 =
      let (name, en, e1) = >>=-eq-ok (ok_or _ (http.host req.uri)) _ e in
      let (value, ev, e2) =
        >>=-eq-ok (ok_or _ (http.of_str (host_header http req.uri name))) _ e1 in
      let (uri, eu, e3) = >>=-eq-ok (origin_form http req.uri) _ e2 in
      rw (← ok-injective e3) (
        sent_headers "proxy-authorization" value req.headers,
        sent_headers "proxy-connection" value req.headers,
        ground (
          arith,
          sent_headers n value req.headers,
          eq_iff "host" n,
          eq_iff "proxy-connection" n,
          eq_iff "proxy-authorization" n,
        ),
        (
          name,
          value,
          ok_or-eq-ok _ _ en,
          sent_headers "host" value req.headers,
          laws.to_str-of_str _ value (ok_or-eq-ok _ _ ev),
        ),
        eu,
        refl,
        refl,
      )
