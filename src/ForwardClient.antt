-- ===== src/ForwardClient.antt =====
-- rust_http_proxy/src/forward_proxy_client.rs: the client of the forward proxy and its pool of idle
-- connections. The cache of the `lru_time_cache` crate, TCP and hyper's connections are interfaces.
-- Instants and durations are numbers of seconds; a lookup in the pool runs within one instant.
pub mod KeepAlive
pub mod Pool
pub mod Sample
pub mod Errors
use rust_http_proxy.Common.{
  ℕ, ◌+◌, ◌-◌, ◌≤◌, ◌<◌, ◌≡◌, ◌≢◌, ◌⊎◌, Bool, ◌||◌, leb, if◌then◌else◌, Option, none, some, List,
  [], ◌∷◌, ◌++◌, Result, ok, err, panic, ◌>>=◌, ◌>>◌, false, guard, ok_or, io, wrapped, ErrorKind,
  invalid_input, invalid_data, other,
}
use rust_http_proxy.Common.Bytes.{Bytes, codes, beq}
use rust_http_proxy.Http.{Http, Request, Response, Version}
use rust_http_proxy.Labels.{AccessLabel}
use rust_http_proxy.Metrics.{Family}
use rust_http_proxy.IoX.{Stream}
use rust_http_proxy.IoX.Counter.{CounterIo, counter_stream}
use rust_http_proxy.IoX.Timeout as Timeout
use rust_http_proxy.IoX.Timeout.{Timer, TimeoutIo}
use rust_http_proxy.ForwardClient.KeepAlive.{check_keep_alive}

-- In a release build.
abbrev pub connection_expire_duration : ℕ
connection_expire_duration = 30

-- `LruCache::with_expiry_duration`: a map whose entries are dropped once they were not used for a
-- time. `get_mut` is asked at an instant, and `put` is what a mutable reference or an entry leaves
-- under its key. `Holds` says that an entry is there, used or not.
pub record LruCache (K V : Type 0) (expiry : ℕ) : Type 1 where
  pub State : Type 0
  pub empty : State
  pub get_mut : ℕ → K → State → State × Option V
  pub put : ℕ → K → V → State → State
  pub Holds : State → K → V → Type 0
  pub not-Holds-empty : (k : K) (v : V) → Holds empty k v → ⊥
  pub get_mut-Holds :
      (now : ℕ) (k : K) (s : State) (v : V) → (get_mut now k s).1 ≡ some v → Holds s k v
  pub Holds-get_mut :
      (now : ℕ) (k j : K) (s : State) (w : V) → Holds (get_mut now k s).0 j w → Holds s j w
  pub Holds-put :
      (now : ℕ) (k j : K) (v w : V) (s : State)
      → Holds (put now k v s) j w
      → ((j ≡ k) × (w ≡ v)) ⊎ ((j ≢ k) × Holds s j w)
  pub get_mut-put :
      (at now : ℕ) (k : K) (v : V) (s : State)
      → at ≤ now
      → now < at + expiry
      → (get_mut now k (put at k v s)).1 ≡ some v

-- TCP and hyper: connecting at an instant, the HTTP/1 handshake on a stream, and sending on a
-- connection, which answers with the version and the response, or fails. A connection goes over the
-- stream that the handshake was made on.
pub record Transport (http : Http) (traffic : Family AccessLabel) (timer : Timer) : Type 1 where
  pub tcp : Stream
  pub connect_tcp : ℕ → Bytes → Result tcp.State
  pub SendRequest : Type 0
  pub handshake : TimeoutIo (counter_stream tcp traffic) timer → Option SendRequest
  pub is_closed : ℕ → SendRequest → Bool
  pub send : ℕ → SendRequest → Request http → Option (Version × Response http)
  pub goes_over : SendRequest → TimeoutIo (counter_stream tcp traffic) timer
  pub handshake-goes_over :
      (t : TimeoutIo (counter_stream tcp traffic) timer) (c : SendRequest)
      → handshake t ≡ some c
      → goes_over c ≡ t

-- The instants of a request: when the cache is asked, when a new connection is made, and when the
-- answer is there.
pub record Clock : Type 0 where
  pub asked : ℕ
  pub connected : ℕ
  pub answered : ℕ

-- The scheme that a request is sent with: `http` where the target names none.
abbrev pub scheme_of : (http : Http) → Request http → Bytes
scheme_of http req = elim (http.scheme_str req.uri) [ none ↦ codes "http" | some scheme ↦ scheme ]

module _ (http : Http) (traffic : Family AccessLabel) (timer : Timer)
    (net : Transport http traffic timer) where
  open net use {tcp, connect_tcp, SendRequest, handshake, is_closed, send}

  pub data HttpConnection : Type 0 where
    http1 : SendRequest → HttpConnection

  abbrev pub inner : HttpConnection → SendRequest
  inner (http1 r) = r

  abbrev pub Idle : Type 0
  Idle = List (HttpConnection × ℕ)

  abbrev pub Pool : Type 1
  Pool = LruCache AccessLabel Idle connection_expire_duration

  abbrev pub Counted : Type 0
  Counted = CounterIo tcp traffic

  -- `HttpConnection::connect_http_http1`
  unfoldable pub connect_http_http1 : ℕ → Counted → Result HttpConnection
  unfolding Timeout.new
  connect_http_http1 now stream = do
    send_request ← ok_or (wrapped other) (
        handshake
          (Timeout.new (counter_stream tcp traffic) timer now stream connection_expire_duration))
    ok (http1 send_request)

  -- `HttpConnection::connect`
  unfoldable pub connect :
      ℕ → Bytes → AccessLabel → (tcp.State → AccessLabel → Counted) → Result HttpConnection
  unfolding connect_http_http1
  connect now scheme access_label stream_map_func =
      guard (beq scheme (codes "http") || beq scheme (codes "https"))
        (io invalid_input "invalid scheme")
      >> connect_tcp now access_label.target
      >>= λ stream. connect_http_http1 now (stream_map_func stream access_label)

  -- The loop of `get_cached_connection`: the first connection of the queue that is neither too old
  -- nor closed, and what the queue then has left.
  unfoldable pub pop_fresh : ℕ → Idle → Option HttpConnection × Idle
  pop_fresh now [] = (none, [])
  pop_fresh now ((c, inst) ∷ q) =
      let rest = pop_fresh now q in
      if leb connection_expire_duration (now - inst) || is_closed now (inner c)
      then rest
      else (some c, q)

  module _ (pool : Pool) where
    unfoldable pub get_cached_connection :
        ℕ → AccessLabel → pool.State → pool.State × Option HttpConnection
    unfolding pop_fresh
    get_cached_connection now access_label cache_conn =
        let (touched, found) = pool.get_mut now access_label cache_conn in
        elim found [
          | none ↦ (touched, none)
          | some q ↦ let (c, left) = pop_fresh now q in (pool.put now access_label left touched, c)
        ]

    -- `entry(access_label).or_insert_with(VecDeque::new).push_back((c, now))`
    unfoldable pub give_back : ℕ → AccessLabel → HttpConnection → pool.State → pool.State
    give_back now access_label c cache_conn =
        let (touched, found) = pool.get_mut now access_label cache_conn in
        let q : Idle = elim found [ none ↦ [] | some q ↦ q ] in
        pool.put now access_label (q ++ (c, now) ∷ []) touched

    unfoldable pub send_request_conn :
        ℕ
        → AccessLabel
        → HttpConnection
        → Request http
        → pool.State
        → pool.State × Option (Response http)
    unfolding check_keep_alive give_back
    send_request_conn now access_label c req cache_conn = elim (send now (inner c) req) [
      | none ↦ (cache_conn, none)
      | some (version, response) ↦ (
        if check_keep_alive http version response.headers false
            then give_back now access_label c cache_conn
            else cache_conn,
        some response,
      )
    ]

    -- The pool afterwards, the connection that the request was sent on, and what is returned.
    pub record Sent : Type 0 where
      pub cache_conn : pool.State
      pub used : Option HttpConnection
      pub result : Result (Response http)

    unfoldable pub send_on : ℕ → AccessLabel → HttpConnection → Request http → pool.State → Sent
    unfolding send_request_conn
    send_on now access_label c req cache_conn =
        let (after, response) = send_request_conn now access_label c req cache_conn in
        record { cache_conn = after; used = some c; result = ok_or (wrapped invalid_data) response }

    unfoldable pub send_request :
        Clock → Request http → AccessLabel → (tcp.State → AccessLabel → Counted) → pool.State → Sent
    unfolding get_cached_connection connect send_on
    send_request clock req access_label stream_map_func cache_conn =
        let (after, cached) = get_cached_connection clock.asked access_label cache_conn in
        elim cached [
          | some c ↦ send_on clock.answered access_label c req after
          | none ↦
              elim (connect clock.connected (scheme_of http req) access_label stream_map_func) [
                | err e ↦ record {
                  cache_conn = after;
                  used = none;
                  result = err (wrapped invalid_data);
                }
                | panic ↦ record { cache_conn = after; used = none; result = panic }
                | ok c ↦ send_on clock.answered access_label c req after
              ]
        ]
