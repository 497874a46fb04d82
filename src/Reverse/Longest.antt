-- ===== src/Reverse/Longest.antt =====
-- Which back path rewrites a redirect of an upstream: `lookup_replacement` of
-- rust_http_proxy/src/reverse.rs.
use mathlib.Core.List.{Memᴰ}
use rust_http_proxy.Common.{◌≡◌, Option, List, ◌++◌, if◌then◌else◌}
use mathlib.Core.Option
use rust_http_proxy.Common.Bytes.{Bytes, codes, beq}
use rust_http_proxy.Http.{Http}
use rust_http_proxy.Labels.{SchemeHostPort, port_part}
use rust_http_proxy.Reverse.{RedirectBackpaths, default_host}
use rust_http_proxy.Reverse.Setup.{ReverseProxyConfig}
use rust_http_proxy.Reverse.Backpaths.{FromLocation}

-- A redirect of an upstream that a back path rewrites: the scheme and the port are the client's, the
-- host is that of the back path's location, or the client's for the default host, and the path is the
-- location with what the redirect has behind the URL of the back path.
pub record RewrittenBy (config : ReverseProxyConfig) (origin : SchemeHostPort) (url new : Bytes)
    (b : RedirectBackpaths) : Type 0 where
  pub listed : Memᴰ b config.redirect_bachpaths
  pub from_location : FromLocation config.locations b
  pub rest : Bytes
  pub front : url ≡ b.redirect_url ++ rest
  pub text :
      new
      ≡ origin.scheme
        ++ (codes "://"
            ++ ((if beq b.host default_host then origin.host else b.host)
                ++ (port_part origin.port ++ (b.location ++ rest))))
