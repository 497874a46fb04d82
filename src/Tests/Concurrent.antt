-- ===== src/Tests/Concurrent.antt =====
-- The theorems on concurrent requests, applied to concrete data.
use rust_http_proxy.Common.{ℕ, ◌≡◌, refl, Option, none, some, List, [], ◌∷◌, All, ok}
use rust_http_proxy.Common.Bytes.{codes}
use rust_http_proxy.Http.{Request}
use rust_http_proxy.Http.Sample.{sample}
use rust_http_proxy.Labels.{AccessLabel}
use rust_http_proxy.ForwardClient.{
  Clock, HttpConnection, Idle, http1, connect, get_cached_connection, scheme_of,
}
use rust_http_proxy.ForwardClient.Pool.{count_traffic}
use rust_http_proxy.ForwardClient.Pool.Apart.{IsDistinct, IsOutside}
use rust_http_proxy.ForwardClient.Pool.Places.{conns}
use rust_http_proxy.Proxy.Handle.{proxied, handle}
use rust_http_proxy.Server.{World, env_at}
use rust_http_proxy.Server.Concurrent.{Flight, Reached, start, arrived, connected, in_use}
use rust_http_proxy.Server.Concurrent.Accounted.{IsAccounted, Reached-Accounted}
use rust_http_proxy.Tests.Data.{client}
use rust_http_proxy.Tests.ForwardClient.{traffic, pool}
use rust_http_proxy.Tests.ForwardClient.{net as transport}
use rust_http_proxy.Tests.IoX.{timer}
use rust_http_proxy.Tests.Proxy.{
  net, family, direct_request, direct_sent, direct_request_sent, no_counts,
}
use rust_http_proxy.Tests.Server.{counters, setup, world}

abbrev label : AccessLabel
label = record {
  client = codes "192.168.0.7";
  target = codes "target.example:8080";
  username = codes "bert";
}

abbrev clock : Clock
clock = record { asked = 1; connected = 2; answered = 3 }

opened :
    (world' : World sample net counters timer transport pool)
    → (handle sample net family
        (env_at sample net counters timer transport pool setup world' clock)
        direct_request
        client
        world'.reverse_reqs).effect
      ≡ proxied label
unfolding handle rust_http_proxy.Common.Bytes.beq rust_http_proxy.Address.host_addr
    rust_http_proxy.Common.Numbers.parse_uint rust_http_proxy.Http.Sample.before
    rust_http_proxy.Common.Bytes.starts_with rust_http_proxy.Ip.Text.Read.parse_v4
    rust_http_proxy.Http.Sample.sample_parse rust_http_proxy.Address.to_string
opened world' = refl

-- The connection that the first of two requests makes, once both looked for one.
abbrev conn : HttpConnection sample traffic timer transport
conn = http1 (record {
  inner = record { inner = 0; traffic_counter = λ l. 0; label = label };
  timeout = 30;
  idle_future = 32;
})

abbrev after_one : pool.State
after_one = (get_cached_connection sample traffic timer transport pool 1 label pool.empty).0

abbrev world_one : World sample net counters timer transport pool
world_one = record { reverse_reqs = no_counts; http_reqs = λ l. 0; cache_conn = after_one }

abbrev after_two : pool.State
after_two = (get_cached_connection sample traffic timer transport pool 1 label after_one).0

abbrev flight :
    Option (HttpConnection sample traffic timer transport)
    → Flight sample net counters timer transport pool setup
flight conn = record { req = direct_request; label = label; sent = direct_sent; conn = conn }

made :
    connect sample traffic timer transport 2
      (scheme_of sample direct_sent)
      label
      (count_traffic sample traffic timer transport (λ l. 0))
    ≡ ok conn
unfolding connect rust_http_proxy.Common.Bytes.beq count_traffic
made = refl

nothing_idle :
    (l : AccessLabel) (q : Idle sample traffic timer transport)
    → pool.Holds after_two l q
    → IsOutside conn (conns sample traffic timer transport pool q)
unfolding get_cached_connection rust_http_proxy.ForwardClient.Sample.get_mut
    rust_http_proxy.ForwardClient.Sample.lookup
nothing_idle l q held = absurd (
    pool.not-Holds-empty l q
      (pool.Holds-get_mut 1 label l pool.empty q (pool.Holds-get_mut 1 label l after_one q held)))

both_looked :
    Reached sample net counters timer transport pool setup after_two
      (flight none ∷ flight none ∷ [])
unfolding get_cached_connection rust_http_proxy.ForwardClient.Sample.get_mut
    rust_http_proxy.ForwardClient.Sample.lookup
both_looked =
    arrived world_one clock direct_request client label direct_sent (flight none ∷ [])
      (arrived world clock direct_request client label direct_sent [] start (opened world)
        direct_request_sent)
      (opened world_one) direct_request_sent

one_connected :
    Reached sample net counters timer transport pool setup after_two
      (flight (some conn) ∷ flight none ∷ [])
unfolding in_use
one_connected =
    connected 2 (λ l. 0) after_two (flight none ∷ []) direct_request label direct_sent [] conn
      both_looked made (tt, nothing_idle)

Reached-Accounted_example :
    All
      (IsAccounted sample net counters timer transport pool setup)
      (flight (some conn) ∷ flight none ∷ [])
    × IsDistinct (
        in_use sample net counters timer transport pool setup
          (flight (some conn) ∷ flight none ∷ []))
Reached-Accounted_example =
    Reached-Accounted sample net counters timer transport pool setup after_two
      (flight (some conn) ∷ flight none ∷ []) one_connected
