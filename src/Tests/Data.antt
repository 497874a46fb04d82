-- ===== src/Tests/Data.antt =====
-- A configuration and requests that the tests share.
use rust_http_proxy.Common.{
  ℕ, String, ◌≡◌, refl, Bool, true, false, Option, none, some, List, [], ◌∷◌, Result, ok, err,
  panic,
}
use rust_http_proxy.Common.Bytes.{Bytes, codes}
use rust_http_proxy.Http.{Http, Request, Method, Version, get_method, http_11, empty_body}
use rust_http_proxy.Http.Sample.{sample}
use rust_http_proxy.Ip.{SocketAddr, v4}
use rust_http_proxy.Labels.{SchemeHostPort}
use rust_http_proxy.Reverse.{LocationConfig, Upstream, auto, default_host}
use rust_http_proxy.Reverse.Setup.{Locations, ReverseProxyConfig, parse_reverse_proxy_config}

abbrev pub at : String → String → Option Bytes → LocationConfig
at location url_base authority_override = record {
  location = codes location;
  upstream = record {
    url_base = codes url_base;
    version = auto;
    authority_override = authority_override;
  };
}

abbrev pub whole_site : LocationConfig
whole_site = at "/" "http://site.example/" none

abbrev pub api : LocationConfig
api = at "/api/" "http://api.example/v1/" none

abbrev pub renamed : LocationConfig
renamed = at "/renamed/" "http://inner.example/" (some (codes "outer.example"))

abbrev pub written_locations : Locations
written_locations = (default_host, whole_site ∷ renamed ∷ api ∷ []) ∷ []

abbrev pub loaded : Option (Result Locations)
loaded = some (ok written_locations)

abbrev config_of : Result ReverseProxyConfig → ReverseProxyConfig
config_of (ok c) = c
config_of (err _) = record { locations = []; redirect_bachpaths = [] }
config_of panic = record { locations = []; redirect_bachpaths = [] }

abbrev pub config_in : Http → ReverseProxyConfig
config_in http = config_of (parse_reverse_proxy_config http loaded [] false)

pub sample_parsed : parse_reverse_proxy_config sample loaded [] false ≡ ok (config_in sample)
unfolding parse_reverse_proxy_config rust_http_proxy.Common.Sort.sort_by
    rust_http_proxy.Reverse.location_config_cmp rust_http_proxy.Common.Bytes.cmp
    rust_http_proxy.Common.Bytes.starts_with rust_http_proxy.Http.Sample.sample_parse
    rust_http_proxy.Common.Bytes.ends_with rust_http_proxy.Common.Bytes.beq
sample_parsed = refl

abbrev pub client : SocketAddr
client = record { ip = v4 (record { a = 192; b = 168; c = 0; d = 7 }); port = 40000 }

abbrev pub origin : SchemeHostPort
origin = record { scheme = codes "https"; host = codes "proxy.example"; port = some 8443 }
