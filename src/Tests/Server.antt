-- ===== src/Tests/Server.antt =====
-- The theorems on the running server, applied to concrete data.
use rust_http_proxy.Common.{
  none, ℕ, ◌≡◌, refl, true, Bool, any, List, [], ◌∷◌, All, Option, none, some,
}
use rust_http_proxy.Common.Bytes.{Bytes, codes, beq}
use rust_http_proxy.Http.{Request}
use rust_http_proxy.Http.Sample.{sample}
use rust_http_proxy.Proxy.Handle.{axum_paths, served}
use rust_http_proxy.Server.{Counters, Setup, World, Arrival, intercept, intercept_all, continued}
use rust_http_proxy.Server.Accounts.{Accounted, intercept_all-Accounted}
use rust_http_proxy.Server.Paths.{no_file_path, handler_effect, intercept-continued}
use rust_http_proxy.Tests.Data.{client}
use rust_http_proxy.Tests.ForwardClient.{traffic, pool}
use rust_http_proxy.Tests.ForwardClient.{net as transport}
use rust_http_proxy.Tests.IoX.{timer}
use rust_http_proxy.Tests.Proxy.{net, family, env, direct_request, no_counts, file_request}
use rust_http_proxy.Tests.RawServe.{files, captures, error_text, requests}

abbrev pub counters : Counters
counters = record {
  reverse_proxy_req = family;
  http_req_counter = requests;
  proxy_traffic = traffic;
}

abbrev pub setup : Setup sample net counters timer transport pool
setup = record {
  config = env.config;
  files = files;
  range_captures = captures;
  error_text = error_text;
  engine = λ referer. referer;
  send_reverse = env.send_reverse;
  percent_decode = env.percent_decode;
  random_range = env.random_range;
  local_ip = env.local_ip;
  challenge = env.challenge;
  proxy_traffic_at = λ l. 0;
}

abbrev pub world : World sample net counters timer transport pool
world = record { reverse_reqs = no_counts; http_reqs = λ l. 0; cache_conn = pool.empty }

abbrev hidden_request : Request sample
hidden_request = record (file_request) {
  uri = record { scheme = none; authority = none; path = codes "/.git/config"; query = none };
}

abbrev arriving : Request sample → Arrival sample net counters timer transport pool
arriving req = record {
  clock = record { asked = 1; connected = 2; answered = 3 };
  req = req;
  client = client;
}

from_files :
    handler_effect sample net counters timer transport pool setup world (arriving hidden_request)
    ≡ served
unfolding rust_http_proxy.Proxy.Handle.handle beq rust_http_proxy.Config.serving_control
from_files = refl

hidden : no_file_path sample net counters timer transport pool setup world hidden_request ≡ true
unfolding beq rust_http_proxy.Common.Bytes.contains
hidden = refl

intercept-continued_example :
    intercept sample net counters timer transport pool setup (arriving hidden_request) world
    ≡ (world, record { req = hidden_request; answer = continued hidden_request; used = none })
intercept-continued_example =
    intercept-continued sample net counters timer transport pool setup world
      (arriving hidden_request) from_files hidden

intercept_all-Accounted_example : All (Accounted sample net counters timer transport pool setup) (
    intercept_all sample net counters timer transport pool setup
      (arriving direct_request ∷ arriving hidden_request ∷ arriving direct_request ∷ [])
      world)
intercept_all-Accounted_example =
    intercept_all-Accounted sample net counters timer transport pool setup
      (arriving direct_request ∷ arriving hidden_request ∷ arriving direct_request ∷ []) world refl
