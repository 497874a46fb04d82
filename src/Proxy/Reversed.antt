-- ===== src/Proxy/Reversed.antt =====
-- Which requests `ProxyHandler::handle` of rust_http_proxy/src/proxy.rs hands to the reverse proxy, and
-- what `LocationConfig::handle` of rust_http_proxy/src/reverse.rs counts for them.
use rust_http_proxy.Common.{◌≡◌, false, some, ok, ◌>>=◌, ok_or, wrapped, invalid_data}
use rust_http_proxy.Common.Bytes.{Bytes}
use rust_http_proxy.Http.{Http, Request}
use rust_http_proxy.Ip.{SocketAddr}
use rust_http_proxy.Labels.{ReverseProxyReqLabel, SchemeHostPort}
use rust_http_proxy.Reverse.{LocationConfig}
use rust_http_proxy.Reverse.Handle as ReverseHandle
use rust_http_proxy.Reverse.Handle.{all_reverse_proxy_req, request_label, rewrite_redirect}
use rust_http_proxy.Reverse.UpstreamRequest.{build_upstream_req}
use rust_http_proxy.Metrics.{Family}
use rust_http_proxy.Config.{Networks}
use rust_http_proxy.Proxy.{extract_scheme_host_port}
use rust_http_proxy.Proxy.Handle.{Env, Outcome, return, is_connect, matching_location}
use rust_http_proxy.Proxy.Access.{default_scheme}

module _ (http : Http) (net : Networks) (family : Family ReverseProxyReqLabel)
    (env : Env http net family) where
  -- The location found for a request, and the request that is built for its upstream.
  pub record Located (req : Request http) (location : LocationConfig) : Type 0 where
    pub origin : SchemeHostPort
    pub domain : Bytes
    pub upstream_req : Request http
    pub not_connect : is_connect req.method ≡ false
    pub extracted :
        extract_scheme_host_port http req (default_scheme http net family env) ≡ ok (origin, domain)
    pub found : matching_location http net family env req domain ≡ some location
    pub built : build_upstream_req http location req ≡ ok upstream_req

  -- A request for which the upstream was asked: counted once under its label and once under the one of
  -- all, and answered with what the client for upstreams answered, its redirects rewritten.
  pub record Asked (req : Request http) (client : SocketAddr) (metrics : family.State)
      (outcome : Outcome http net family) : Type 0 where
    pub location : LocationConfig
    pub located : Located req location
    pub counted :
        outcome.metrics
        ≡ family.inc_by all_reverse_proxy_req 1
            (family.inc_by (request_label http family client located.origin location) 1 metrics)
    pub answered : outcome.result ≡ (
        (ok_or (wrapped invalid_data) (env.send_reverse located.upstream_req) >>= λ resp.
        rewrite_redirect http family env.config.reverse_proxy_config.redirect_bachpaths
          located.origin resp)
        >>= λ r. ok (return r))
