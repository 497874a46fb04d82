-- ===== src/Tests/Tunnel.antt =====
-- The theorems on tunnels, applied to concrete data.
use rust_http_proxy.Common.{
  ℕ, ◌+◌, ◌*◌, ◌/◌, ◌≤◌, ◌<◌, ◌≡◌, ◌≢◌, ◌↔◌, ◌⊎◌, inl, inr, refl, Bool, true, false, any, Option,
  none, some, List, [], ◌∷◌, ◌++◌, length, replicate, Result, ok, err, wrapped, ErrorKind,
  invalid_data, arith,
}
use rust_http_proxy.Common.Bytes.{Bytes, codes}
use rust_http_proxy.Http.{
  Http, HeaderName, Request, Response, get_method, connect, http_11, empty_body, get,
}
use rust_http_proxy.Http.Sample.{sample, sample-HeaderLaws}
use rust_http_proxy.Ip.{
  SocketAddr, IpAddr, Ipv6Addr, v4, v6, to_canonical, _ipv6_mapped_to_ipv4, IsIp,
}
use rust_http_proxy.Ip.Text.{print_ip}
use rust_http_proxy.Address.{domain_name_address, host_addr, to_string}
use rust_http_proxy.Labels.{AccessLabel}
use rust_http_proxy.Proxy.Handle.{handle}
use rust_http_proxy.Proxy.Access.{forwarded, Passed}
use rust_http_proxy.Proxy.Safety.{handle-Passed}
use rust_http_proxy.Proxy.Tunnel.{tunnel_proxy}
use rust_http_proxy.Proxy.Tunnel.Padding.{tunnel_proxy-padding}
use rust_http_proxy.Tests.Data.{client}
use rust_http_proxy.Common.{IoError, io, timed_out, ◌%◌, ◌∷◌}
use rust_http_proxy.Common.Numbers.{u64_mod}
use rust_http_proxy.Metrics.Sums.{sum, inc_all}
use rust_http_proxy.IoX.Traffic.{Call, read, write, shutdown, Timed, poll_all}
use rust_http_proxy.Proxy.Handle.{tunnelled}
use rust_http_proxy.Proxy.Tunnel.Task.{ErrorTexts, tunnel_task}
use rust_http_proxy.Proxy.Tunnel.Traffic.{carried, tunnel_task-Passed}
use rust_http_proxy.Tests.ForwardClient.{traffic}
use rust_http_proxy.Tests.IoX.{short_stream, timer}
use rust_http_proxy.Tests.Proxy.{net, family, env, no_counts}

abbrev connect_request : Request sample
connect_request = record {
  method = connect;
  uri = record {
    scheme = none;
    authority = some (codes "target.example:443");
    path = [];
    query = none;
  };
  version = http_11;
  headers = ("proxy-authorization", codes "Basic bert:1234") ∷ [];
  body = empty_body;
}

abbrev label : AccessLabel
label = record {
  client = codes "192.168.0.7";
  target = codes "target.example:443";
  username = codes "bert";
}

tunnel_opened :
    forwarded (handle sample net family env connect_request client no_counts).effect ≡ some label
unfolding handle rust_http_proxy.Common.Bytes.beq host_addr
    rust_http_proxy.Common.Numbers.parse_uint rust_http_proxy.Http.Sample.before
    rust_http_proxy.Common.Bytes.starts_with rust_http_proxy.Ip.Text.Read.parse_v4 to_string
tunnel_opened = refl

tunnel_effect :
    (handle sample net family env connect_request client no_counts).effect ≡ tunnelled label
unfolding handle rust_http_proxy.Common.Bytes.beq host_addr
    rust_http_proxy.Common.Numbers.parse_uint rust_http_proxy.Http.Sample.before
    rust_http_proxy.Common.Bytes.starts_with rust_http_proxy.Ip.Text.Read.parse_v4 to_string
tunnel_effect = refl

handle-Passed_example : Passed sample net family env connect_request label
handle-Passed_example =
    handle-Passed sample net family env connect_request client no_counts label tunnel_opened

random_low :
    (low high : ℕ)
    → low < high
    → (low ≤ env.random_range low high) × (env.random_range low high < high)
random_low low high h = (omega arith, h)

target_read :
    host_addr sample connect_request.uri ≡ some (domain_name_address (codes "target.example") 443)
unfolding host_addr rust_http_proxy.Common.Numbers.parse_uint rust_http_proxy.Http.Sample.before
    rust_http_proxy.Common.Bytes.starts_with rust_http_proxy.Ip.Text.Read.parse_v4
target_read = refl

ip_size : (1 ≤ length env.local_ip) × (length env.local_ip ≤ 1024)
ip_size = (omega arith, omega arith)

tunnel_proxy-padding_example :
    (resp : Response sample) × (count : ℕ) × (tunnel_proxy sample env.random_range env.local_ip
        connect_request client
        (codes "bert")
      ≡ (
        some (record {
          client = print_ip (to_canonical client.ip);
          target = to_string (domain_name_address (codes "target.example") 443);
          username = codes "bert";
        }),
        ok resp,
      ))
    × (resp.status ≡ 200)
    × (sample.get_all "server" resp.headers ≡ replicate count env.local_ip)
    × (1 ≤ count)
    × (count * length env.local_ip ≤ 2048)
tunnel_proxy-padding_example =
    tunnel_proxy-padding sample sample-HeaderLaws env.random_range env.local_ip (codes "bert")
      connect_request client (domain_name_address (codes "target.example") 443) env.local_ip
      random_low ip_size.0 ip_size.1 refl target_read

-- The task of the tunnel reads `hi` into a buffer that already holds one byte, writes, and then waits.
abbrev texts : ErrorTexts
texts = record { kind_text = λ e. codes "timed out"; error_text = λ e. codes "read idle" }

abbrev polls : List (ℕ × Call)
polls = (3, read (record { filled = codes "x" })) ∷ (4, write (codes "abcd")) ∷ (604, shutdown) ∷ []

abbrev copied :
    Unit {0}
    → Timed short_stream traffic timer
    → Timed short_stream traffic timer × (IoError ⊎ (ℕ × ℕ))
copied u t = (poll_all short_stream traffic timer polls t, inl (io timed_out "write idle"))

abbrev to_target : Bytes → IoError ⊎ ℕ
to_target address = inr 0

abbrev nothing_counted : traffic.State
nothing_counted = λ l. 0

tunnel_counts :
    carried traffic timer short_stream copied
      (λ u t. polls)
      (inr tt)
      to_target
      2
      label
      nothing_counted
    ≡ 3 ∷ 3 ∷ []
unfolding carried
tunnel_counts = refl

tunnel_task-Passed_example :
    let ended =
      tunnel_task traffic timer short_stream copied texts
        (inr tt)
        to_target
        2
        label
        nothing_counted in
    Passed sample net family env connect_request label
    × (ended.proxy_traffic
        ≡ inc_all traffic label
            (carried traffic timer short_stream copied
              (λ u t. polls)
              (inr tt)
              to_target
              2
              label
              nothing_counted)
            nothing_counted)
    × (traffic.value label ended.proxy_traffic
        ≡ (0
            + sum (
                carried traffic timer short_stream copied
                  (λ u t. polls)
                  (inr tt)
                  to_target
                  2
                  label
                  nothing_counted))
          % u64_mod)
tunnel_task-Passed_example =
    tunnel_task-Passed traffic timer short_stream copied (λ u t. polls) sample net family env
      connect_request client no_counts label tunnel_effect (λ u t. refl) texts (inr tt) to_target 2
      nothing_counted (omega arith)
