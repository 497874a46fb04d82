-- ===== src/Proxy/Tunnel/Task.antt =====
-- The task that `tunnel_proxy` of rust_http_proxy/src/proxy.rs spawns for a tunnel, and `tunnel`, which
-- copies the bytes. Upgrading the client's connection, TCP and tokio's `copy_bidirectional` are
-- arguments; instants and durations are numbers of seconds.
use rust_http_proxy.Common.{ℕ, ◌⊎◌, inl, inr, Option, none, some, ◌++◌, IoError}
use rust_http_proxy.Common.Bytes.{Bytes, codes}
use rust_http_proxy.Labels.{AccessLabel, access_label_text}
use rust_http_proxy.Metrics.{Family}
use rust_http_proxy.IoX.{Stream}
use rust_http_proxy.IoX.Counter as Counter
use rust_http_proxy.IoX.Counter.{CounterIo, counter_stream}
use rust_http_proxy.IoX.Timeout as Timeout
use rust_http_proxy.IoX.Timeout.{Timer}
use rust_http_proxy.IoX.Traffic.{Timed}

-- `IDLE_TIMEOUT` of rust_http_proxy/src/main.rs, in a release build.
abbrev pub idle_timeout : ℕ
idle_timeout = 600

-- How an error and its kind print.
pub record ErrorTexts : Type 0 where
  pub kind_text : IoError → Bytes
  pub error_text : IoError → Bytes

module _ (family : Family AccessLabel) (timer : Timer) (tcp : Stream) {Upgraded : Type 0}
    (copy_bidirectional : Upgraded
      → Timed tcp family timer
      → Timed tcp family timer × (IoError ⊎ (ℕ × ℕ))) where
  -- `tunnel`, started at an instant: the stream to the target as it leaves it, and its result.
  unfoldable pub tunnel :
      ℕ → Upgraded → CounterIo tcp family → Timed tcp family timer × (IoError ⊎ Unit {0})
  unfolding Timeout.new
  tunnel now upgraded target_io =
      let timed_target_io =
        Timeout.new (counter_stream tcp family) timer now target_io idle_timeout in
      let (t, copied) = copy_bidirectional upgraded timed_target_io in
      (t, elim copied [ inl e ↦ inl e | inr _ ↦ inr tt ])

  -- What the task leaves: the counters, and the line that it warns with, if any.
  pub record Ended : Type 0 where
    pub proxy_traffic : family.State
    pub warned : Option Bytes

  module _ (texts : ErrorTexts) where
    open texts use {kind_text, error_text}

    -- `[{what}] [{label}]: [{kind}] {error}`, with the space that one of the two lines ends in.
    abbrev warning : Bytes → AccessLabel → IoError → Bytes → Bytes
    warning what l e end =
        codes "["
        ++ what
        ++ codes "] ["
        ++ access_label_text l
        ++ codes "]: ["
        ++ kind_text e
        ++ codes "] "
        ++ error_text e
        ++ end

    -- The spawned task, whose label has the address that it connects to: `upgraded` is what waiting
    -- for the upgrade gave, or the text of its error, and `connect` what connecting gives at `now`.
    unfoldable pub tunnel_task :
        Bytes ⊎ Upgraded
        → (connect : Bytes → IoError ⊎ tcp.State) → ℕ
        → AccessLabel
        → family.State
        → Ended
    unfolding tunnel Counter.new access_label_text
    tunnel_task (inl e) connect now access_label proxy_traffic = record {
      proxy_traffic = proxy_traffic;
      warned = some (codes "upgrade error: " ++ e);
    }
    tunnel_task (inr src_upgraded) connect now access_label proxy_traffic =
        elim (connect access_label.target) [
          | inl e ↦ record {
            proxy_traffic = proxy_traffic;
            warned = some (warning (codes "tunnel establish error") access_label e (codes ""));
          }
          | inr target_stream ↦
              let dst_stream = Counter.new tcp family target_stream proxy_traffic access_label in
              let (t, ended) = tunnel now src_upgraded dst_stream in
              record {
                proxy_traffic = t.inner.traffic_counter;
                warned = elim ended [
                  | inl e ↦ some (warning (codes "tunnel io error") access_label e (codes " "))
                  | inr _ ↦ none
                ];
              }
        ]
