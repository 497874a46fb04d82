-- ===== src/Proxy/Tunnel/Padding.antt =====
-- The random padding in the answer to `CONNECT`: `tunnel_proxy` of rust_http_proxy/src/proxy.rs.
use rust_http_proxy.Common.{
  ℕ, zero, suc, ◌≤◌, ◌<◌, ◌*◌, ◌/◌, ◌≡◌, refl, sym, some, [], ◌∷◌, ◌++◌, replicate, length, ok,
  arith, append_assoc, append-nil,
}
use native.Mathlib.Nat.{le-div_iff_mul-le}
use rust_http_proxy.Common.Bytes.{Bytes}
use rust_http_proxy.Http.{Http, HeaderLaws, Request, Response, empty_body}
use rust_http_proxy.Ip.{SocketAddr, to_canonical}
use rust_http_proxy.Ip.Text.{print_ip}
use rust_http_proxy.Address.{Address, host_addr, to_string}
use rust_http_proxy.Proxy.Tunnel.{pad, padding_count, connected, tunnel_proxy}

module _ (http : Http) (laws : HeaderLaws http) where
  pad_lem :
      (n : ℕ) (v : http.HeaderValue) (m : http.HeaderMap)
      → http.get_all "server" (pad http n v m) ≡ http.get_all "server" m ++ replicate n v
  unfolding pad
  pad_lem zero v m = sym (append-nil _)
  pad_lem (suc n) v m = ground (
    arith,
    pad_lem n v (http.append "server" v m),
    laws.get_all-append "server" "server" v m,
    append_assoc (http.get_all "server" m) (v ∷ []) (replicate n v),
  )

  padding_count_lem :
      (random_range : ℕ → ℕ → ℕ) (local_ip : Bytes)
      → 1 ≤ length local_ip
      → 1 < 2048 / length local_ip
      → padding_count http random_range local_ip ≡ ok (random_range 1 (2048 / length local_ip))
  padding_count_lem random_range local_ip h room = unfold padding_count in ground arith

  tunnel_proxy_lem :
      (random_range : ℕ → ℕ → ℕ) (local_ip username : Bytes) (req : Request http)
      (client : SocketAddr) (addr : Address) (value : http.HeaderValue) (count : ℕ)
      → host_addr http req.uri ≡ some addr
      → padding_count http random_range local_ip ≡ ok count
      → http.of_str local_ip ≡ some value
      → tunnel_proxy http random_range local_ip req client username ≡ (
        some (record {
          client = print_ip (to_canonical client.ip);
          target = to_string addr;
          username = username;
        }),
        ok (record {
          status = 200;
          headers = pad http count value http.no_headers;
          body = empty_body;
        }),
      )
  tunnel_proxy_lem random_range local_ip username req client addr value count a c v =
      unfold tunnel_proxy connected in ground arith

  -- The answer to a `CONNECT` whose target can be read: the tunnel is for that target and the given
  -- user, the status is 200, and the padding is at least one `Server` header and at most 2048
  -- bytes, if the text of the local address has 1 to 1024 bytes and is a header value, and the
  -- random numbers lie in the range that is asked for.
  pub tunnel_proxy-padding :
      (random_range : ℕ → ℕ → ℕ) (local_ip username : Bytes) (req : Request http)
      (client : SocketAddr) (addr : Address) (value : http.HeaderValue)
      → ((low high : ℕ)
          → low < high
          → (low ≤ random_range low high) × (random_range low high < high))
      → 1 ≤ length local_ip
      → length local_ip ≤ 1024
      → http.of_str local_ip ≡ some value
      → host_addr http req.uri ≡ some addr
      → (resp : Response http) × (count : ℕ) × (tunnel_proxy http random_range local_ip req client
            username
          ≡ (
            some (record {
              client = print_ip (to_canonical client.ip);
              target = to_string addr;
              username = username;
            }),
            ok resp,
          ))
        × (resp.status ≡ 200)
        × (http.get_all "server" resp.headers ≡ replicate count value)
        × (1 ≤ count)
        × (count * length local_ip ≤ 2048)
  tunnel_proxy-padding random_range local_ip username req client addr value random l1 l2 v a =
      let room : 1 < 2048 / length local_ip =
        (le-div_iff_mul-le {k = length local_ip} {x = 2} {y = 2048} l1).1 (omega arith) in
      let count = random_range 1 (2048 / length local_ip) in
      let (low, high) = random 1 (2048 / length local_ip) room in
      (
        record { status = 200; headers = pad http count value http.no_headers; body = empty_body },
        count,
        tunnel_proxy_lem random_range local_ip username req client addr value count a
            (padding_count_lem random_range local_ip l1 room) v,
        refl,
        rw (pad_lem count value http.no_headers, laws.get_all-no_headers "server"),
        low,
        (le-div_iff_mul-le {k = length local_ip} {x = count} {y = 2048} l1).0 (omega (arith, high)),
      )
