-- ===== src/Proxy/Tunnel.antt =====
-- `tunnel_proxy` of rust_http_proxy/src/proxy.rs. The task that carries the bytes starts once the
-- connection is upgraded; it is given by the label with the target that it connects to.
pub mod Padding
pub mod Task
pub mod Traffic
use rust_http_proxy.Common.{
  ℕ, suc, zero, ◌/◌, ◌==◌, leb, if◌then◌else◌, Bool, Option, none, some, Result, ok, err, panic,
  ◌>>=◌, length,
}
use rust_http_proxy.Common.Bytes.{Bytes, codes}
use rust_http_proxy.Http.{Http, Request, Response, empty_body, full_body}
use rust_http_proxy.Ip.{SocketAddr, to_canonical}
use rust_http_proxy.Ip.Text.{print_ip}
use rust_http_proxy.Address.{host_addr, to_string}
use rust_http_proxy.Labels.{AccessLabel}

module _ (http : Http) where
  open http use {HeaderMap, HeaderValue}

  -- `for _ in 0..count { headers.append(SERVER, LOCAL_IP) }`
  unfoldable pub pad : ℕ → HeaderValue → HeaderMap → HeaderMap
  pad zero value headers = headers
  pad (suc count) value headers = pad count value (http.append "server" value headers)

  -- `random_range lo hi` is a number of the range, which must not be empty; `local_ip` is not empty
  -- and a header value, or the code panics.
  unfoldable pub padding_count : (ℕ → ℕ → ℕ) → Bytes → Result ℕ
  padding_count random_range local_ip =
      if length local_ip == 0
      then panic
      else if leb (2048 / length local_ip) 1
      then panic
      else ok (random_range 1 (2048 / length local_ip))

  unfoldable pub connected : (ℕ → ℕ → ℕ) → Bytes → Result (Response http)
  unfolding pad padding_count
  connected random_range local_ip = do
    count ← padding_count random_range local_ip
    value ← elim (http.of_str local_ip) [ none ↦ panic | some v ↦ ok v ]
    ok (record { status = 200; headers = pad count value http.no_headers; body = empty_body })

  unfoldable pub tunnel_proxy :
      (ℕ → ℕ → ℕ)
      → Bytes
      → Request http
      → SocketAddr
      → Bytes
      → Option AccessLabel × Result (Response http)
  unfolding connected
  tunnel_proxy random_range local_ip req client username = elim (host_addr http req.uri) [
    | none ↦ (
      none,
      ok (record {
        status = 400;
        headers = http.no_headers;
        body = full_body (codes "CONNECT must be to a socket address");
      }),
    )
    | some addr ↦ (
      some (record {
        client = print_ip (to_canonical client.ip);
        target = to_string addr;
        username = username;
      }),
      connected random_range local_ip,
    )
  ]
