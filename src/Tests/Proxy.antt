-- ===== src/Tests/Proxy.antt =====
-- The theorems on the proxy handler, applied to concrete data.
use rust_http_proxy.Common.{
  ℕ, ◌+◌, ◌*◌, ◌/◌, ◌≤◌, ◌<◌, ◌≡◌, ◌≢◌, ◌⊎◌, inl, inr, refl, Bool, true, false, any, Option, none,
  some, List, [], ◌∷◌, ◌++◌, length, replicate, Result, ok, err, wrapped, ErrorKind, invalid_data,
  arith,
}
use rust_http_proxy.Common.Bytes.{Bytes, codes}
use rust_http_proxy.Http.{
  Http, HeaderName, Request, Response, get_method, connect, http_11, empty_body, get,
}
use rust_http_proxy.Http.Sample.{sample, sample-HeaderLaws}
use rust_http_proxy.Ip.{v4, v6, to_canonical}
use rust_http_proxy.Labels.{ReverseProxyReqLabel}
use rust_http_proxy.Metrics.{Family}
use rust_http_proxy.Metrics.Sample.{sample_family, label_discrete}
use rust_http_proxy.Config.{Networks, serving_control}
use rust_http_proxy.Config.Laws.{parses, admits}
use rust_http_proxy.Proxy.{mod_http1_proxy_req, host_header, origin_form}
use rust_http_proxy.Proxy.Handle.{Env, served, reversed, handle}
use rust_http_proxy.Proxy.Safety.{handle-served}
use rust_http_proxy.Proxy.Rewrite.{mod_http1_proxy_req_lem}
use rust_http_proxy.Common.{io, ErrorKind, not_found}
use rust_http_proxy.Auth.{check_auth}
use rust_http_proxy.Proxy.Refused.{IsRefused, handle-IsRefused}
use rust_http_proxy.Tests.Data.{api, client, config_in}

-- One network, which holds the IPv4 addresses.
abbrev pub net : Networks
net = record {
  IpNetwork = Unit {0};
  from_str = λ s. some tt;
  contains = λ n ip. elim ip [ v4 _ ↦ true | v6 _ ↦ false ];
}

abbrev pub family : Family ReverseProxyReqLabel
family = sample_family label_discrete

abbrev pub no_counts : family.State
no_counts = λ l. 0

abbrev pub no_answer : Response sample
no_answer = record { status = 204; headers = []; body = empty_body }

abbrev pub env : Env sample net family
env = record {
  config = record {
    cert = codes "";
    key = codes "";
    basic_auth = (codes "Basic bert:1234", codes "bert") ∷ [];
    web_content_path = codes "/w";
    referer_keywords_to_self = [];
    never_ask_for_auth = false;
    serving_control = serving_control net false (codes "192.168.0.0/16" ∷ []);
    over_tls = false;
    port = 3128 ∷ [];
    reverse_proxy_config = record {
      locations = (codes "files.example", []) ∷ (config_in sample).locations;
      redirect_bachpaths = (config_in sample).redirect_bachpaths;
    };
  };
  send_reverse = λ req. some no_answer;
  send_forward = λ req l. ok no_answer;
  percent_decode = some;
  serve_http_request = λ req c path. ok no_answer;
  random_range = λ low high. low;
  local_ip = codes "10.0.0.2";
  challenge = codes "Basic realm=\"are you kidding me\"";
}

abbrev pub file_request : Request sample
file_request = record {
  method = get_method;
  uri = record { scheme = none; authority = none; path = codes "/a.txt"; query = none };
  version = http_11;
  headers = ("host", codes "files.example") ∷ [];
  body = empty_body;
}

file_served : (handle sample net family env file_request client no_counts).effect ≡ served
unfolding handle rust_http_proxy.Common.Bytes.beq serving_control
file_served = refl

handle-served_example :
    (false ≡ false)
    × ((any (parses net) (codes "192.168.0.0/16" ∷ []) ≡ false)
        ⊎ (any (admits net (to_canonical client.ip)) (codes "192.168.0.0/16" ∷ []) ≡ true))
handle-served_example =
    handle-served sample net family env file_request client no_counts false
      (codes "192.168.0.0/16" ∷ []) refl file_served

abbrev api_request : Request sample
api_request = record {
  method = get_method;
  uri = record { scheme = none; authority = none; path = codes "/api/items"; query = none };
  version = http_11;
  headers = ("host", codes "proxy.example") ∷ [];
  body = empty_body;
}

-- That request is handed to the location's upstream.
api_reversed : (handle sample net family env api_request client no_counts).effect ≡ reversed api
unfolding handle rust_http_proxy.Common.Bytes.beq serving_control
    rust_http_proxy.Reverse.Setup.parse_reverse_proxy_config rust_http_proxy.Common.Sort.sort_by
    rust_http_proxy.Reverse.location_config_cmp rust_http_proxy.Common.Bytes.cmp
    rust_http_proxy.Common.Bytes.starts_with rust_http_proxy.Http.Sample.sample_parse
    rust_http_proxy.Common.Bytes.ends_with
api_reversed = refl

abbrev pub proxy_request : Request sample
proxy_request = record {
  method = get_method;
  uri = record {
    scheme = some (codes "http");
    authority = some (codes "target.example:8080");
    path = codes "/x";
    query = none;
  };
  version = http_11;
  headers =
      ("host", codes "wrong.example")
      ∷ ("proxy-authorization", codes "Basic bert:1234")
      ∷ ("proxy-connection", codes "keep-alive")
      ∷ ("accept", codes "*/*")
      ∷ [];
  body = empty_body;
}

abbrev sent_request : Request sample
sent_request = record {
  method = get_method;
  uri = record { scheme = none; authority = none; path = codes "/x"; query = none };
  version = http_11;
  headers = ("host", codes "target.example:8080") ∷ ("accept", codes "*/*") ∷ [];
  body = empty_body;
}

-- The same for a host that has no location.
abbrev pub direct_request : Request sample
direct_request = record (proxy_request) {
  headers = ("host", codes "files.example") ∷ ("proxy-authorization", codes "Basic bert:1234") ∷ [];
}

abbrev pub direct_sent : Request sample
direct_sent = record (sent_request) { headers = ("host", codes "target.example:8080") ∷ [] }

pub direct_request_sent : mod_http1_proxy_req sample direct_request ≡ ok direct_sent
unfolding mod_http1_proxy_req rust_http_proxy.Common.Bytes.beq
    rust_http_proxy.Http.Sample.sample_parse rust_http_proxy.Common.Numbers.parse_uint
direct_request_sent = refl

request_sent : mod_http1_proxy_req sample proxy_request ≡ ok sent_request
unfolding mod_http1_proxy_req rust_http_proxy.Common.Bytes.beq
    rust_http_proxy.Http.Sample.sample_parse rust_http_proxy.Common.Numbers.parse_uint
request_sent = refl

abbrev Differs : HeaderName → HeaderName → Type 0
Differs n m = n ≢ m

accept_ne_host : Differs "accept" "host"
accept_ne_host = λ e. cc

accept_ne_connection : Differs "accept" "proxy-connection"
accept_ne_connection = λ e. cc

accept_ne_authorization : Differs "accept" "proxy-authorization"
accept_ne_authorization = λ e. cc

mod_http1_proxy_req_lem_example :
    (sample.get_all "proxy-authorization" sent_request.headers ≡ [])
    × (sample.get_all "proxy-connection" sent_request.headers ≡ [])
    × (sample.get_all "accept" sent_request.headers ≡ sample.get_all "accept" proxy_request.headers)
    × ((name : Bytes) × (value : Bytes) × (sample.host proxy_request.uri ≡ some name)
        × (sample.get_all "host" sent_request.headers ≡ value ∷ [])
        × (sample.to_str value ≡ some (host_header sample proxy_request.uri name)))
    × (origin_form sample proxy_request.uri ≡ ok sent_request.uri)
    × (sent_request.method ≡ proxy_request.method)
    × (sent_request.body ≡ proxy_request.body)
mod_http1_proxy_req_lem_example =
    mod_http1_proxy_req_lem sample sample-HeaderLaws proxy_request sent_request "accept"
      request_sent accept_ne_host accept_ne_connection accept_ne_authorization

-- The same options, but files prohibited, no question for credentials, and no location.
abbrev quiet_env : Env sample net family
quiet_env = record (env) {
  config = record (env.config) {
    never_ask_for_auth = true;
    serving_control = serving_control net true (codes "192.168.0.0/16" ∷ []);
    reverse_proxy_config = record { locations = []; redirect_bachpaths = [] };
  };
}

stranger_refused :
    check_auth sample file_request.headers "proxy-authorization" quiet_env.config.basic_auth
    ≡ err (io not_found "no Authorization header found")
unfolding check_auth
stranger_refused = refl

prohibited : quiet_env.config.serving_control.prohibit_serving ≡ true
unfolding serving_control
prohibited = refl

handle-IsRefused_example :
    IsRefused sample net family quiet_env no_counts
      (handle sample net family quiet_env file_request client no_counts)
handle-IsRefused_example =
    handle-IsRefused sample net family quiet_env file_request client no_counts
      (io not_found "no Authorization header found") prohibited refl refl stranger_refused
