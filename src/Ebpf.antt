-- ===== src/Ebpf.antt =====
-- rust_http_proxy/src/ebpf.rs: the counters of the kernel programs, as far as they could be loaded, and
-- the gauges of the metrics page that they are copied to. The programs are other crates: an interface.
use rust_http_proxy.Common.{ℕ, ◌⊎◌, inl, inr, ◌++◌, Option, none, some}
use rust_http_proxy.Common.Bytes.{Bytes, codes}
use rust_http_proxy.Metrics.{Family}

-- `TransmitCounter` and `CgroupTransmitCounter`, at the instant they are asked.
pub record TransmitCounter : Type 0 where
  pub egress : ℕ
  pub ingress : ℕ

-- What loading the two programs gave.
pub record Programs : Type 0 where
  pub socket_filter : Option TransmitCounter
  pub cgroup_transmit_counter : Option TransmitCounter

-- What loading a program gave: its counter, or the text of an error, which is only warned of.
unfoldable pub counter_or_warning :
    Bytes → Bytes ⊎ TransmitCounter → Option TransmitCounter × Option Bytes
counter_or_warning what (inl e) = (none, some (what ++ codes " error: " ++ e))
counter_or_warning what (inr counter) = (some counter, none)

-- `init_once`: the initialisers of `CGROUP_TRANSMIT_COUNTER` and `SOCKET_FILTER`, with their warnings.
unfoldable pub init_once :
    (cgroup filter : Bytes ⊎ TransmitCounter) → Programs × Option Bytes × Option Bytes
unfolding counter_or_warning
init_once cgroup filter =
    let (cgroup_counter, cgroup_warning) =
      counter_or_warning (codes "cgroup_traffic::init_cgroup_skb_monitor") cgroup in
    let (filter_counter, filter_warning) =
      counter_or_warning (codes "socket_filter::TransmitCounter::init") filter in
    (
      record { socket_filter = filter_counter; cgroup_transmit_counter = cgroup_counter },
      cgroup_warning,
      filter_warning,
    )

-- `NetDirectionLabel`, in rust_http_proxy/src/proxy.rs
pub record NetDirectionLabel : Type 0 where
  pub direction : Bytes

unfoldable pub egress_or_zero : Option TransmitCounter → ℕ
egress_or_zero (some counter) = counter.egress
egress_or_zero none = 0

unfoldable pub ingress_or_zero : Option TransmitCounter → ℕ
ingress_or_zero (some counter) = counter.ingress
ingress_or_zero none = 0

module _ (programs : Programs) where
  unfoldable pub get_cgroup_egress : ℕ
  unfolding egress_or_zero
  get_cgroup_egress = egress_or_zero programs.cgroup_transmit_counter

  unfoldable pub get_cgroup_ingress : ℕ
  unfolding ingress_or_zero
  get_cgroup_ingress = ingress_or_zero programs.cgroup_transmit_counter

  unfoldable pub get_egress : ℕ
  unfolding egress_or_zero
  get_egress = egress_or_zero programs.socket_filter

  unfoldable pub get_ingress : ℕ
  unfolding ingress_or_zero
  get_ingress = ingress_or_zero programs.socket_filter

  -- `store` is `get_or_create(label).inner().store(n)` of a family.
  module _ (family : Family NetDirectionLabel)
      (store : NetDirectionLabel → ℕ → family.State → family.State) where
    -- `snapshot_metrics`, on the families `net_bytes` and `cgroup_bytes`
    unfoldable pub snapshot_metrics : family.State × family.State → family.State × family.State
    unfolding get_egress get_ingress get_cgroup_egress get_cgroup_ingress
    snapshot_metrics (net_bytes, cgroup_bytes) =
        let egress : NetDirectionLabel = record { direction = codes "egress" } in
        let ingress : NetDirectionLabel = record { direction = codes "ingress" } in
        (
          store ingress get_ingress (store egress get_egress net_bytes),
          store ingress get_cgroup_ingress (store egress get_cgroup_egress cgroup_bytes),
        )
