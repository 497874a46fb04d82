-- ===== src/Tests/ForwardClient.antt =====
-- The theorems on the client of the forward proxy, applied to concrete data.
use mathlib.Core.Option.{some-injective}
use rust_http_proxy.Common.{
  ℕ, ◌≢◌, ap, sym, ◌+◌, ◌≡◌, refl, ◌≤◌, ◌<◌, true, false, leb, none, some, [], ◌∷◌, ok, arith,
}
use rust_http_proxy.Common.Bytes.{codes}
use rust_http_proxy.Http.{Request, Response, http_10, http_11, get_method, empty_body}
use rust_http_proxy.Http.Sample.{sample}
use rust_http_proxy.Labels.{AccessLabel}
use rust_http_proxy.Metrics.{Family}
use rust_http_proxy.Metrics.Sample.{sample_family, access_discrete}
use rust_http_proxy.IoX.Timeout.{TimeoutIo}
use rust_http_proxy.IoX.Counter.{counter_stream}
use rust_http_proxy.ForwardClient.{
  Transport, Pool, HttpConnection, http1, inner, Idle, get_cached_connection, send_on, give_back,
  connection_expire_duration,
}
use rust_http_proxy.ForwardClient.KeepAlive.{check_keep_alive, or_keep, keeps_by_default}
use rust_http_proxy.ForwardClient.KeepAlive.Last.{last_said, counting, check_keep_alive-last_said}
use rust_http_proxy.ForwardClient.Sample.{sample_cache}
use rust_http_proxy.ForwardClient.Pool.Apart.{IsOutside, IsDistinct, AreApart}
use rust_http_proxy.ForwardClient.Pool.Places.{conns}
use rust_http_proxy.ForwardClient.Pool.Exclusive.{
  Reached, start, made, given_back, Reached-IsDistinct,
}
use rust_http_proxy.ForwardClient.Pool.Fresh.{
  FirstFresh, get_cached_connection-FirstFresh, send_on-get_cached_connection,
}
use rust_http_proxy.Tests.IoX.{short_stream, timer}

abbrev pub traffic : Family AccessLabel
traffic = sample_family access_discrete

-- A connection is the stream it goes over; it is closed from the instant 100 on, and every answer is
-- empty.
abbrev pub net : Transport sample traffic timer
net = record {
  tcp = short_stream;
  connect_tcp = λ now target. ok 0;
  SendRequest = TimeoutIo (counter_stream short_stream traffic) timer;
  handshake = some;
  is_closed = λ now c. leb 100 now;
  send = λ now c req. some (http_11, record { status = 200; headers = []; body = empty_body });
  goes_over = λ c. c;
  handshake-goes_over = λ t c e. sym (some-injective t c e);
}

abbrev pub pool : Pool sample traffic timer net
pool = sample_cache access_discrete connection_expire_duration

abbrev label : AccessLabel
label = record { client = codes "10.0.0.1"; target = codes "a.example:80"; username = codes "bert" }

abbrev conn : HttpConnection sample traffic timer net
conn = http1 (record {
  inner = record { inner = 0; traffic_counter = λ l. 0; label = label };
  timeout = connection_expire_duration;
  idle_future = 30;
})

abbrev request : Request sample
request = record {
  method = get_method;
  uri = record { scheme = none; authority = none; path = codes "/x"; query = none };
  version = http_11;
  headers = [];
  body = empty_body;
}

abbrev answer : Response sample
answer = record { status = 200; headers = []; body = empty_body }

-- An old connection in front of a young one.
abbrev queue : Idle sample traffic timer net
queue = (conn, 0) ∷ (conn, 20) ∷ []

abbrev pooled : pool.State
pooled = pool.put 20 label queue pool.empty

queue_there : (pool.get_mut 40 label pooled).1 ≡ some queue
queue_there = pool.get_mut-put 20 40 label queue pool.empty (omega arith) (omega arith)

get_cached_connection-FirstFresh_example :
    (left : Idle sample traffic timer net) × ((get_cached_connection sample traffic timer net pool
        40 label pooled).0
      ≡ pool.put 40 label left (pool.get_mut 40 label pooled).0)
    × FirstFresh sample traffic timer net 40 queue
        (get_cached_connection sample traffic timer net pool 40 label pooled).1
        left
get_cached_connection-FirstFresh_example =
    get_cached_connection-FirstFresh sample traffic timer net pool label 40 pooled queue queue_there

kept : check_keep_alive sample http_11 answer.headers false ≡ true
unfolding check_keep_alive
kept = refl

before_now : 3 ≤ 32
before_now = omega arith

in_time : 32 < 3 + connection_expire_duration
in_time = omega arith

send_on-get_cached_connection_example :
    (d : HttpConnection sample traffic timer net) × ((get_cached_connection sample traffic timer net
        pool 32 label
        (send_on sample traffic timer net pool 3 label conn request pooled).cache_conn).1
      ≡ some d)
    × (net.is_closed 32 (inner sample traffic timer net d) ≡ false)
send_on-get_cached_connection_example =
    send_on-get_cached_connection sample traffic timer net pool label 3 32 conn request pooled
      http_11 answer refl kept before_now in_time refl

check_keep_alive-last_said_example :
    check_keep_alive sample http_10
      (("connection", codes "keep-alive") ∷ ("connection", codes "x") ∷ [])
      true
    ≡ or_keep
        (last_said sample (
          counting sample
            (("connection", codes "keep-alive") ∷ ("connection", codes "x") ∷ [])
            true))
        (keeps_by_default http_10)
check_keep_alive-last_said_example =
    check_keep_alive-last_said sample http_10
      (("connection", codes "keep-alive") ∷ ("connection", codes "x") ∷ []) true

-- `close` counts as the whole value only: in a list it does not close the connection.
close_in_list :
    check_keep_alive sample http_11 (("connection", codes "close, te") ∷ []) false ≡ true
unfolding check_keep_alive
close_in_list = refl

close_alone : check_keep_alive sample http_11 (("connection", codes "Close") ∷ []) false ≡ false
unfolding check_keep_alive
close_alone = refl

kept_for_list :
    check_keep_alive sample http_10 (("connection", codes "te, Keep-Alive") ∷ []) false ≡ true
unfolding check_keep_alive
kept_for_list = refl

-- Another connection, made a second later.
abbrev other_conn : HttpConnection sample traffic timer net
other_conn = http1 (record {
  inner = record { inner = 0; traffic_counter = λ l. 0; label = label };
  timeout = connection_expire_duration;
  idle_future = 31;
})

sleeping : HttpConnection sample traffic timer net → ℕ
sleeping c = (inner sample traffic timer net c).idle_future

apart : conn ≢ other_conn
unfolding sleeping
apart e = let same : ◌≡◌ {A = ℕ} 30 31 = ap sleeping e in absurd (ground arith)

nothing_idle :
    (c : HttpConnection sample traffic timer net) (l : AccessLabel)
    (q : Idle sample traffic timer net)
    → pool.Holds pool.empty l q
    → IsOutside c (conns sample traffic timer net pool q)
nothing_idle c l q held = absurd (pool.not-Holds-empty l q held)

-- Two connections are made, and the first is given back.
reached :
    Reached sample traffic timer net pool
      (give_back sample traffic timer net pool 3 label conn pool.empty)
      (other_conn ∷ [])
reached = given_back 3 label pool.empty (other_conn ∷ []) conn [] (
    made pool.empty (conn ∷ []) other_conn (made pool.empty [] conn start (tt, nothing_idle conn))
      ((apart, tt), nothing_idle other_conn))

Reached-IsDistinct_example :
    IsDistinct (other_conn ∷ [])
    × ((l : AccessLabel) (q : Idle sample traffic timer net)
        → pool.Holds (give_back sample traffic timer net pool 3 label conn pool.empty) l q
        → AreApart (other_conn ∷ []) (conns sample traffic timer net pool q))
Reached-IsDistinct_example =
    Reached-IsDistinct sample traffic timer net pool
      (give_back sample traffic timer net pool 3 label conn pool.empty) (other_conn ∷ []) reached
