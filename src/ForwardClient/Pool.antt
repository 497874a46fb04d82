-- ===== src/ForwardClient/Pool.antt =====
-- Whose connections the pool of rust_http_proxy/src/forward_proxy_client.rs gives to whom, with the
-- streams that count the traffic as `simple_proxy` of rust_http_proxy/src/proxy.rs makes them.
pub mod Steps
pub mod Owners
pub mod Fresh
pub mod Apart
pub mod Places
pub mod Kept
pub mod Exclusive
use rust_http_proxy.Http.{Http, Request}
use rust_http_proxy.Labels.{AccessLabel}
use rust_http_proxy.Metrics.{Family}
use rust_http_proxy.Common.{ℕ, Option, none, some, List, [], ◌∷◌}
use rust_http_proxy.IoX.Counter as Counter
use rust_http_proxy.IoX.Timeout.{Timer}
use rust_http_proxy.ForwardClient.{
  Transport, Clock, Pool, Counted, HttpConnection, inner, send_request,
}

module _ (http : Http) (traffic : Family AccessLabel) (timer : Timer)
    (net : Transport http traffic timer) where
  -- The closure that `simple_proxy` gives to the client.
  unfoldable pub count_traffic :
      traffic.State → net.tcp.State → AccessLabel → Counted http traffic timer net
  unfolding Counter.new
  count_traffic proxy_traffic stream access_label =
      Counter.new net.tcp traffic stream proxy_traffic access_label

  -- The label that the traffic of a connection is counted under.
  abbrev pub counted_for : HttpConnection http traffic timer net → AccessLabel
  counted_for c = (net.goes_over (inner http traffic timer net c)).inner.label
