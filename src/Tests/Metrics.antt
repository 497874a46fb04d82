-- ===== src/Tests/Metrics.antt =====
-- The theorems on the counters and their cleaner, applied to concrete data.
use mathlib.Core.Bool.{Bool-discrete}
use rust_http_proxy.Common.{◌%◌, ◌≡◌, refl, Bool, true, false, List, [], ◌∷◌}
use rust_http_proxy.Common.Bytes.{codes}
use rust_http_proxy.Common.Numbers.{u64_mod}
use rust_http_proxy.Metrics.{Family}
use rust_http_proxy.Metrics.Sample.{sample_family}
use rust_http_proxy.Metrics.Sums.{sum}
use rust_http_proxy.Metrics.Cleaner.{
  Event, increased, polled, run, register_metric_cleaner, interval, interval_in_hour,
}
use rust_http_proxy.Metrics.Cleaner.Recent.{recent, run-recent}
use rust_http_proxy.Metrics.Cleaner.Shared.{
  Shared, Step, opens, polls, cleans, run_all, trace, run_all-recent,
}
use rust_http_proxy.IoX.{ReadBuf}
use rust_http_proxy.IoX.Traffic.{read, write, Timed}
use rust_http_proxy.Tests.IoX.{short_stream, timer}

-- A counter is increased on the first day, once before and once after the cleaner has cleared it.
abbrev events : List (Event Bool)
events =
    increased true 5
    ∷ polled 40000
    ∷ increased true 7
    ∷ polled 86401
    ∷ increased true 2
    ∷ increased false 9
    ∷ []

counter_of_last_day :
    (run (sample_family Bool-discrete) timer interval_in_hour events (
        register_metric_cleaner
          (sample_family Bool-discrete)
          timer
          interval_in_hour
          1
          (λ l. 0))).counter
      true
    ≡ sum (recent Bool-discrete true (interval interval_in_hour) 1 [] events) % u64_mod
counter_of_last_day =
    run-recent Bool-discrete (sample_family Bool-discrete) true timer interval_in_hour events 1
      (λ l. 0) refl

last_day : recent Bool-discrete true (interval interval_in_hour) 1 [] events ≡ 2 ∷ []
unfolding recent
last_day = refl

abbrev counters : Family Bool
counters = sample_family Bool-discrete

-- Two connections for one label and one for another; the first one writes again on the next day.
abbrev steps : List (Step short_stream counters timer)
steps =
    opens 0 1 600 0 true
    ∷ opens 1 1 600 0 false
    ∷ polls 0 2 (write (codes "abcd"))
    ∷ polls 1 3 (write (codes "abcd"))
    ∷ cleans 50000
    ∷ cleans 86401
    ∷ opens 2 86402 600 0 true
    ∷ polls 2 86403 (read (record { filled = [] }))
    ∷ polls 0 86404 (write (codes "abcd"))
    ∷ []

abbrev unopened : Timed short_stream counters timer
unopened = record {
  inner = record { inner = 0; traffic_counter = λ l. 0; label = false };
  timeout = 600;
  idle_future = 601;
}

abbrev at_first : Shared short_stream counters timer
at_first = record {
  conns = λ i. unopened;
  cleaned = register_metric_cleaner counters timer interval_in_hour 1 (λ l. 0);
}

run_all-recent_example :
    counters.value true
      (run_all short_stream counters timer interval_in_hour steps at_first).cleaned.counter
    ≡ sum (
        recent Bool-discrete true
          (interval interval_in_hour)
          1
          []
          (trace short_stream counters timer interval_in_hour steps at_first))
      % u64_mod
run_all-recent_example =
    run_all-recent short_stream counters timer interval_in_hour Bool-discrete steps 1 (λ l. 0)
      (λ i. unopened) true refl

shared_trace :
    trace short_stream counters timer interval_in_hour steps at_first
    ≡ increased true 3
      ∷ increased false 3
      ∷ polled 50000
      ∷ polled 86401
      ∷ increased true 2
      ∷ increased true 3
      ∷ []
unfolding trace rust_http_proxy.Metrics.Cleaner.Shared.step rust_http_proxy.IoX.Counter.poll_write
shared_trace = refl
