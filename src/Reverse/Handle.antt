-- ===== src/Reverse/Handle.antt =====
-- Choosing a location and answering through it: the `find` of `ProxyHandler::handle` in
-- rust_http_proxy/src/proxy.rs and `LocationConfig::handle` of rust_http_proxy/src/reverse.rs.
use rust_http_proxy.Common.{
  ℕ, Bool, ◌&&◌, leb, ltb, if◌then◌else◌, Option, none, some, List, ◌++◌, find, Result, ok, err,
  panic, ◌>>=◌, ok_or, wrapped, invalid_data,
}
use rust_http_proxy.Common.Bytes.{Bytes, codes, starts_with}
use rust_http_proxy.Http.{Http, Request, Response, get}
use rust_http_proxy.Ip.{SocketAddr, to_canonical}
use rust_http_proxy.Ip.Text.{print_ip}
use rust_http_proxy.Labels.{SchemeHostPort, scheme_host_port_text, ReverseProxyReqLabel}
use rust_http_proxy.Metrics.{Family}
use rust_http_proxy.Reverse.{LocationConfig, RedirectBackpaths, default_host}
use rust_http_proxy.Reverse.Setup.{get_host, is_some, ReverseProxyConfig}
use rust_http_proxy.Reverse.UpstreamRequest.{build_upstream_req}
use rust_http_proxy.Reverse.Redirect.{normalize302}

-- The first location that the path starts with.
unfoldable pub find_location : Bytes → List LocationConfig → Option LocationConfig
find_location path locations = find (λ c. starts_with path c.location) locations

-- The locations of the domain, or those of the default host.
unfoldable pub locations_of : ReverseProxyConfig → Bytes → Option (List LocationConfig)
unfolding get_host
locations_of config domain = elim (get_host domain config.locations) [
  | some ls ↦ some ls
  | none ↦ get_host default_host config.locations
]

-- `ALL_REVERSE_PROXY_REQ`
abbrev pub all_reverse_proxy_req : ReverseProxyReqLabel
all_reverse_proxy_req = record {
  client = codes "all";
  origin = codes "all";
  upstream = codes "all";
}

-- `is_redirection`
abbrev pub is_redirection : ℕ → Bool
is_redirection status = leb 300 status && ltb status 400

module _ (http : Http) (reverse_proxy_req : Family ReverseProxyReqLabel) where
  open reverse_proxy_req use {State, inc_by}

  -- A redirect of the upstream is rewritten.
  unfoldable pub rewrite_redirect :
      List RedirectBackpaths → SchemeHostPort → Response http → Result (Response http)
  unfolding normalize302
  rewrite_redirect backpaths origin resp =
      let rewritten : Result (Response http) =
        normalize302 http backpaths origin resp.headers >>= λ headers.
        ok (record resp { headers = headers }) in
      if is_redirection resp.status && is_some (get http "location" resp.headers)
      then rewritten
      else ok resp

  -- The label that a request through a location is counted under.
  unfoldable pub request_label : SocketAddr → SchemeHostPort → LocationConfig → ReverseProxyReqLabel
  unfolding scheme_host_port_text print_ip to_canonical
  request_label client origin config = record {
    client = print_ip (to_canonical client.ip);
    origin = scheme_host_port_text origin ++ config.location;
    upstream = config.upstream.url_base;
  }

  -- `send` is the client for upstreams: the response, or nothing where the request fails. The request
  -- that it is given is returned too; it is given none where none can be built.
  unfoldable pub handle :
      List RedirectBackpaths
      → (Request http → Option (Response http))
      → LocationConfig
      → Request http
      → SocketAddr
      → SchemeHostPort
      → State
      → State × Option (Request http) × Result (Response http)
  unfolding build_upstream_req rewrite_redirect request_label
  handle backpaths send config req client origin metrics =
      elim (build_upstream_req http config req) [
        | err e ↦ (metrics, none, err e)
        | panic ↦ (metrics, none, panic)
        | ok upstream_req ↦
            let counted =
              inc_by all_reverse_proxy_req 1
                (inc_by (request_label client origin config) 1 metrics) in
            (
              counted,
              some upstream_req,
              ok_or (wrapped invalid_data) (send upstream_req) >>= λ resp.
                  rewrite_redirect backpaths origin resp,
            )
      ]
