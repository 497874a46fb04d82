-- ===== src/Reverse/Valid.antt =====
-- Every location of a successful set-up is well formed.
use rust_http_proxy.Common.{◌≡◌, true, false, not, ◌&&◌, if◌then◌else◌, some}
use rust_http_proxy.Common.Bytes.{Bytes, codes, beq, starts_with, ends_with}
use rust_http_proxy.Http.{Http}
use rust_http_proxy.Reverse.{LocationConfig}
use rust_http_proxy.Reverse.Setup.{is_some}

-- The location begins with `/`; its upstream was written as a URI with a scheme, an authority and no
-- query; and `url_base` is that text, or, for a location that ends with `/` and a URI whose path is
-- `/`, a text with its last `/`: the written one, if it ends with `/`, or the one that the URI prints.
pub record IsValid (http : Http) (c : LocationConfig) : Type 0 where
  pub written : Bytes
  pub uri : http.Uri
  pub rooted : starts_with c.location (codes "/") ≡ true
  pub parsed : http.parse_uri written ≡ some uri
  pub has_scheme : is_some (http.scheme_str uri) ≡ true
  pub has_authority : is_some (http.authority uri) ≡ true
  pub no_query : is_some (http.query uri) ≡ false
  pub text : c.upstream.url_base ≡ (
      if (ends_with c.location (codes "/") && beq (http.path uri) (codes "/"))
        && not (ends_with written (codes "/"))
      then http.uri_text uri
      else written)
