-- ===== src/NetMonitor.antt =====
-- rust_http_proxy/src/linux_monitor.rs: the samples of the network's speed. The task that samples is
-- given by its rounds; a round gets the time as it is printed and the interfaces' counters.
pub mod Window
pub mod Device
pub mod Page
use rust_http_proxy.Common.{
  ℕ, ◌+◌, ◌-◌, ◌*◌, ◌/◌, ◌%◌, Bool, not, ◌||◌, ◌==◌, ltb, if◌then◌else◌, List, [], ◌∷◌, ◌++◌,
  length, drop,
}
use rust_http_proxy.Common.Bytes.{Bytes}
use rust_http_proxy.Common.Numbers.{u64_mod}

pub record TimeValue : Type 0 where
  pub time : Bytes
  pub egress : ℕ
  pub ingress : ℕ

abbrev pub total_seconds : ℕ
total_seconds = 900

abbrev pub interval_seconds : ℕ
interval_seconds = 5

abbrev pub size : ℕ
size = total_seconds / interval_seconds

-- `(new - last) * 8 / INTERVAL_SECONDS` on `u64`, which wraps in a release build.
abbrev pub speed : ℕ → ℕ → ℕ
speed new last = (((new + u64_mod - last) % u64_mod) * 8) % u64_mod / interval_seconds

-- The buffer, and what the task holds between its rounds.
pub record NetMonitor : Type 0 where
  pub buffer : List TimeValue
  pub last_egress : ℕ
  pub last_ingress : ℕ

abbrev pub new : NetMonitor
new = record { buffer = []; last_egress = 0; last_ingress = 0 }

-- `push_back`, and `pop_front` if there are then too many.
unfoldable pub push : TimeValue → List TimeValue → List TimeValue
push value buffer =
    let pushed = buffer ++ value ∷ [] in if ltb size (length pushed) then drop 1 pushed else pushed

pub record Reading : Type 0 where
  pub time : Bytes
  pub egress : ℕ
  pub ingress : ℕ

-- One round of the loop in `start`.
unfoldable pub round : Reading → NetMonitor → NetMonitor
unfolding push
round r m =
    let value : TimeValue = record {
      time = r.time;
      egress = speed r.egress m.last_egress;
      ingress = speed r.ingress m.last_ingress;
    } in
    record {
      buffer =
          if not (m.last_egress == 0) || not (m.last_ingress == 0)
          then push value m.buffer
          else m.buffer;
      last_egress = r.egress;
      last_ingress = r.ingress;
    }

unfoldable pub rounds : List Reading → NetMonitor → NetMonitor
unfolding round
rounds [] m = m
rounds (r ∷ rs) m = rounds rs (round r m)
