-- ===== src/Metrics/Cleaner.antt =====
-- rust_http_proxy/src/metrics.rs: which counters are registered for the metrics page, and the task
-- that clears one of them from time to time. The registry belongs to the `prometheus_client` crate.
-- Instants and durations are numbers of seconds.
pub mod Recent
pub mod Shared
use rust_http_proxy.Common.{ℕ, ◌*◌, Bool, if◌then◌else◌, List, [], ◌∷◌, ◌++◌}
use rust_http_proxy.Common.Bytes.{Bytes, codes}
use rust_http_proxy.Metrics.{Family}
use rust_http_proxy.IoX.Timeout.{Timer}

-- The families of counters, by the names of `Metrics`' fields.
pub data Counted : Type 0 where
  http_req_counter reverse_proxy_req proxy_traffic net_bytes cgroup_bytes : Counted

-- `registry.register(name, help, family)`
pub record Registered : Type 0 where
  pub name : Bytes
  pub help : Bytes
  pub family : Counted

-- The registrations of `METRICS` in their order; `bpf` is whether the program is built for Linux with
-- that feature.
unfoldable pub registrations : Bool → List Registered
registrations bpf =
    record {
      name = codes "req_from_out";
      help = codes "Number of HTTP requests received";
      family = http_req_counter;
    }
    ∷ record {
      name = codes "reverse_proxy_req";
      help = codes "Number of reverse proxy requests";
      family = reverse_proxy_req;
    }
    ∷ record {
      name = codes "proxy_traffic";
      help = codes "num proxy_traffic";
      family = proxy_traffic;
    }
    ∷ (if bpf
        then record {
          name = codes "net_bytes";
          help = codes "num hosts net traffic in bytes";
          family = net_bytes;
        }
          ∷ record {
            name = codes "cgroup_bytes";
            help = codes "num this cgroup's net traffic in bytes";
            family = cgroup_bytes;
          }
          ∷ []
        else [])

-- `register_metric_cleaner(proxy_traffic, "proxy_traffic", 24)`
abbrev pub interval_in_hour : ℕ
interval_in_hour = 24

abbrev pub interval : ℕ → ℕ
interval hours = hours * 60 * 60

-- What happens to a family while the program runs: a counter is increased, or the runtime polls the
-- cleaner at an instant.
pub data Event (L : Type 0) : Type 0 where
  increased : L → ℕ → Event L
  polled : ℕ → Event L

module _ {L : Type 0} (family : Family L) (timer : Timer) where
  -- The family, and the `sleep` that the cleaner waits for.
  pub record Cleaned : Type 0 where
    pub counter : family.State
    pub waiting : timer.Sleep

  module _ (hours : ℕ) where
    -- The task starts with a sleep.
    unfoldable pub register_metric_cleaner : ℕ → family.State → Cleaned
    register_metric_cleaner now counter = record {
      counter = counter;
      waiting = timer.sleep (interval hours) now;
    }

    -- A round of the loop ends when its sleep is over; the next one starts with a sleep of its own.
    unfoldable pub poll_cleaner : ℕ → Cleaned → Cleaned
    poll_cleaner now c =
        if timer.is_over now c.waiting
        then record { counter = family.clear c.counter; waiting = timer.sleep (interval hours) now }
        else c

    unfoldable pub happens : Event L → Cleaned → Cleaned
    unfolding poll_cleaner
    happens (increased l n) c = record c { counter = family.inc_by l n c.counter }
    happens (polled now) c = poll_cleaner now c

    unfoldable pub run : List (Event L) → Cleaned → Cleaned
    unfolding happens
    run [] c = c
    run (e ∷ es) c = run es (happens e c)
