-- ===== src/ForwardClient/Pool/Steps.antt =====
-- The steps of the pool in rust_http_proxy/src/forward_proxy_client.rs, case by case.
use rust_http_proxy.Common.{
  ℕ, ◌≡◌, refl, ◌⊎◌, inl, inr, false, Bool-cases, Option, none, some, Option-cases, [], ◌∷◌, ◌++◌,
  ok, err, panic, IoError, wrapped, invalid_data, arith,
}
use rust_http_proxy.Http.{Http, Request}
use rust_http_proxy.Labels.{AccessLabel}
use rust_http_proxy.Metrics.{Family}
use rust_http_proxy.IoX.Timeout.{Timer}
use rust_http_proxy.ForwardClient.KeepAlive.{check_keep_alive}
use rust_http_proxy.ForwardClient.{
  Transport, Pool, HttpConnection, inner, Idle, pop_fresh, get_cached_connection, Counted, connect,
  give_back, send_request_conn, send_on, Clock, scheme_of, send_request,
}

module _ (http : Http) (traffic : Family AccessLabel) (timer : Timer)
    (net : Transport http traffic timer) (pool : Pool http traffic timer net) where
  pub get_cached_connection-missing :
      (now : ℕ) (label : AccessLabel) (s : pool.State)
      → (pool.get_mut now label s).1 ≡ none
      → get_cached_connection http traffic timer net pool now label s
        ≡ ((pool.get_mut now label s).0, none)
  unfolding get_cached_connection
  get_cached_connection-missing now label s missing = ground arith

  pub get_cached_connection-found :
      (now : ℕ) (label : AccessLabel) (s : pool.State) (q : Idle http traffic timer net)
      → (pool.get_mut now label s).1 ≡ some q
      → get_cached_connection http traffic timer net pool now label s ≡ (
        pool.put now label (pop_fresh http traffic timer net now q).1 (pool.get_mut now label s).0,
        (pop_fresh http traffic timer net now q).0,
      )
  unfolding get_cached_connection
  get_cached_connection-found now label s q found = ground arith

  pub give_back-missing :
      (now : ℕ) (label : AccessLabel) (c : HttpConnection http traffic timer net) (s : pool.State)
      → (pool.get_mut now label s).1 ≡ none
      → give_back http traffic timer net pool now label c s
        ≡ pool.put now label ((c, now) ∷ []) (pool.get_mut now label s).0
  unfolding give_back
  give_back-missing now label c s missing = ground arith

  pub give_back-found :
      (now : ℕ) (label : AccessLabel) (c : HttpConnection http traffic timer net) (s : pool.State)
      (q : Idle http traffic timer net)
      → (pool.get_mut now label s).1 ≡ some q
      → give_back http traffic timer net pool now label c s
        ≡ pool.put now label (q ++ (c, now) ∷ []) (pool.get_mut now label s).0
  unfolding give_back
  give_back-found now label c s q found = ground arith

  -- After an answer the pool is as it was, or has the connection back.
  pub send_request_conn-cases :
      (now : ℕ) (label : AccessLabel) (c : HttpConnection http traffic timer net)
      (req : Request http) (s : pool.State)
      → ((send_request_conn http traffic timer net pool now label c req s).0 ≡ s)
        ⊎ ((send_request_conn http traffic timer net pool now label c req s).0
            ≡ give_back http traffic timer net pool now label c s)
  unfolding send_request_conn
  send_request_conn-cases now label c req s =
      elim (Option-cases (net.send now (inner http traffic timer net c) req)) [
        | inl failed ↦ inl (ground arith)
        | inr ((version, response), answered) ↦
            elim (Bool-cases (check_keep_alive http version response.headers false)) [
              | inl kept ↦ inr (ground arith)
              | inr closed ↦ inl (ground arith)
            ]
      ]

  pub send_on-cases :
      (now : ℕ) (label : AccessLabel) (c : HttpConnection http traffic timer net)
      (req : Request http) (s : pool.State)
      → ((send_on http traffic timer net pool now label c req s).cache_conn ≡ s)
        ⊎ ((send_on http traffic timer net pool now label c req s).cache_conn
            ≡ give_back http traffic timer net pool now label c s)
  unfolding send_on
  send_on-cases now label c req s = send_request_conn-cases now label c req s

  pub send_on-used :
      (now : ℕ) (label : AccessLabel) (c : HttpConnection http traffic timer net)
      (req : Request http) (s : pool.State)
      → (send_on http traffic timer net pool now label c req s).used ≡ some c
  unfolding send_on
  send_on-used now label c req s = refl

  module _ (clock : Clock) (req : Request http) (label : AccessLabel)
      (wrap : net.tcp.State → AccessLabel → Counted http traffic timer net) (s : pool.State) where
    -- The pool once it was asked for a connection.
    abbrev asked : pool.State × Option (HttpConnection http traffic timer net)
    asked = get_cached_connection http traffic timer net pool clock.asked label s

    pub send_request-cached :
        (c : HttpConnection http traffic timer net)
        → asked.1 ≡ some c
        → send_request http traffic timer net pool clock req label wrap s
          ≡ send_on http traffic timer net pool clock.answered label c req asked.0
    unfolding send_request
    send_request-cached c cached = ground arith

    pub send_request-connected :
        (c : HttpConnection http traffic timer net)
        → asked.1 ≡ none
        → connect http traffic timer net clock.connected (scheme_of http req) label wrap ≡ ok c
        → send_request http traffic timer net pool clock req label wrap s
          ≡ send_on http traffic timer net pool clock.answered label c req asked.0
    unfolding send_request
    send_request-connected c missing made = ground arith

    pub send_request-refused :
        (why : IoError)
        → asked.1 ≡ none
        → connect http traffic timer net clock.connected (scheme_of http req) label wrap ≡ err why
        → send_request http traffic timer net pool clock req label wrap s
          ≡ record { cache_conn = asked.0; used = none; result = err (wrapped invalid_data) }
    unfolding send_request
    send_request-refused why missing failed = ground arith

    pub send_request-panic :
        asked.1 ≡ none
        → connect http traffic timer net clock.connected (scheme_of http req) label wrap ≡ panic
        → send_request http traffic timer net pool clock req label wrap s
          ≡ record { cache_conn = asked.0; used = none; result = panic }
    unfolding send_request
    send_request-panic missing failed = ground arith
