-- ===== src/Lib.antt =====
-- A verification library for rust_http_proxy, an HTTP proxy that is a forward proxy with
-- authentication, a reverse proxy, and a server of static files on one port.
--
-- The program's parts and the files that model them, by paths from the repository's root:
--
-- - rust_http_proxy/src/reverse.rs is modelled by Reverse: the locations of a host and their order,
--   `parse_reverse_proxy_config` (Reverse/Setup), `build_upstream_req` (Reverse/UpstreamRequest),
--   `lookup_replacement` and `normalize302` (Reverse/Redirect), and `LocationConfig::handle`
--   (Reverse/Handle). Proofs are in Reverse/Order, SetupLaws, Valid, Backpaths, Headers and Longest.
-- - rust_http_proxy/src/proxy.rs is modelled by Proxy: `extract_scheme_host_port`,
--   `mod_http1_proxy_req`, `origin_form` and `build_access_label` in Proxy itself, `tunnel_proxy` in
--   Proxy/Tunnel, the task that it spawns with `tunnel` in Proxy/Tunnel/Task, and
--   `ProxyHandler::handle` with its stages in Proxy/Handle. Proofs are in Proxy/Access, Safety, Reversed,
--   Refused, Rewrite, Extract, Tunnel/Padding and Tunnel/Traffic. Its labels are in Labels, and prom_label/src/lib.rs,
--   which wraps them, in Labels/Wrapped.
-- - rust_http_proxy/src/raw_serve.rs is modelled by RawServe: `parse_range` (RawServe/Range),
--   `serve_path` and `serve_favico` (RawServe/Files), and `serve_http_request` with the counting of
--   requests (RawServe/Serve). Proofs are in RawServe/Range/Bounds, Files/Laws, Etag,
--   Hidden and Counts.
-- - rust_http_proxy/src/config.rs is modelled by Config, and its table of users by Auth, which also has
--   `check_auth` of rust_http_proxy/src/axum_handler.rs and `build_authenticate_resp` of proxy.rs.
--   Config/Load has `load_config` and `log_config`, which start with the log: log_x/src/lib.rs is
--   modelled by Log.
-- - io_x/src/lib.rs is modelled by IoX: `CounterIO` (IoX/Counter) and `TimeoutIO` (IoX/Timeout). What
--   polls of the one around the other count is in IoX/Traffic, and when they time out in IoX/Timeout/Polls.
-- - rust_http_proxy/src/metrics.rs is modelled by Metrics, an interface for the counters, and
--   Metrics/Cleaner: what is registered, and the task that clears a family. Proofs are in Metrics/Sums
--   and Metrics/Cleaner/Recent; Metrics/Cleaner/Shared has all connections on the same counters.
-- - rust_http_proxy/src/forward_proxy_client.rs is modelled by ForwardClient: the pool, connecting and
--   `send_request` in ForwardClient itself, `check_keep_alive` in ForwardClient/KeepAlive. Proofs are in
--   ForwardClient/Pool (Steps, Owners, Fresh, Apart, Places, Kept, Exclusive) and KeepAlive/Last.
--   ForwardClient/Errors has the line that is logged when a connection ends.
-- - rust_http_proxy/src/main.rs: `intercept` is modelled by Server, which fills the environment of the
--   handler with the file server of RawServe and the client of ForwardClient, and keeps the counters and
--   the pool from one request to the next; Server/Concurrent has requests whose steps alternate. Main has
--   `main` and `bootstrap`. Server/Router has the routes and `serve_metrics` of
--   rust_http_proxy/src/axum_handler.rs, and Server/Pages the answers of all routes. Proofs are in
--   Server/Accounts, Server/Paths, Server/Concurrent/Accounted, Main/Servers and Main/Counters.
-- - rust_http_proxy/src/linux_monitor.rs is modelled by NetMonitor: the rounds of the sampling task, the
--   reading of the counters (NetMonitor/Device) and the snapshot for the page (NetMonitor/Page). Proofs
--   are in NetMonitor/Window, Page, Device/Printed and Device/Sums.
-- - rust_http_proxy/src/linux_axum_handler.rs: `count_stream` is modelled by LinuxPages, and the parsing
--   of addresses and processes by LinuxPages/Parse. Proofs are in LinuxPages/Parse/RoundTrip and Tally.
-- - rust_http_proxy/src/ebpf.rs: `init_once`, the counters and `snapshot_metrics` are modelled by Ebpf.
-- - rust_http_proxy/src/address.rs is modelled by Address, and rust_http_proxy/src/ip_x.rs by Ip.
--
-- How they interact: `Config::try_from` builds the table of users, the networks and the reverse proxy's
-- configuration. `ProxyHandler::handle` looks up a location first, then serves files, and proxies what
-- is left after `check_auth`. Its result in the model is a record of the new counters, the effect (what
-- was asked of the network or the file system), and the value that the function returns.
--
-- State is passed explicitly. A function that returns `io::Result` returns `Result`, whose third case
-- is a panic; errors carry their kind, and their message where the program writes it. Texts are lists
-- of bytes. A hash map is the list of its entries in the order in which it is iterated, and no theorem
-- depends on that order. Numbers of the machine are natural numbers with their wrap-around written out;
-- no definition needs fuel but the printing of numbers, whose fuel is the number plus one; the loops of
-- the code run over a list or a queue, but for those of tasks that never end, which are runs of rounds.
--
-- What is not part of the repository is an interface: the http crate (Http, with the laws that the
-- theorems rely on in HeaderLaws and UriLaws), the counters of prometheus_client (Metrics), tokio's streams and `Sleep`
-- (IoX, IoX/Timeout), ipnetwork (Config), the file system (RawServe/Files), base64, the regular
-- expressions, the random numbers and the client for upstreams (arguments). Http/Sample and
-- Metrics/Sample are instances that meet the laws; Tests applies the theorems to them. The functions
-- of the standard library that the program calls on texts, numbers and addresses are in Common and Ip.
--
-- The cache of the lru_time_cache crate, TCP and hyper's connections are interfaces too (ForwardClient),
-- with ForwardClient/Sample as a cache that meets the laws; what `ss` prints, the text of /proc/net/dev,
-- the interfaces of pnet, the encoded registry of the counters and the servers of axum_bootstrap are
-- arguments. Paths and flexi_logger are an interface (Log), and so is what `{:?}` prints (Config/Load).
--
-- Not modelled: the loading of kernel programs in ebpf.rs; what the layers of the router do, and the
-- rendering of templates, in axum_handler.rs; how axum_bootstrap runs a server; parsing of the command
-- line and of TOML; the lines that are logged, but for those of load_config, of the tunnels and of the
-- pooled connections. tokio's `copy_bidirectional` is an argument of the tunnel's task, of which the
-- theorems assume that it touches the stream to the target by polls only. In Server the pool is used by
-- one request after the other; Server/Concurrent and ForwardClient/Pool/Exclusive have the steps of
-- concurrent requests in any order. A lookup in the pool is taken to run within one instant.
pub mod Common
pub mod Http
pub mod Ip
pub mod Address
pub mod Labels
pub mod Metrics
pub mod Reverse
pub mod IoX
pub mod Auth
pub mod Config
pub mod RawServe
pub mod Ebpf
pub mod ForwardClient
pub mod LinuxPages
pub mod Proxy
pub mod NetMonitor
pub mod Server
pub mod Log
pub mod Main
pub mod Tests
