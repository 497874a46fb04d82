-- ===== src/Metrics/Cleaner/Shared.antt =====
-- The traffic counters of rust_http_proxy/src/metrics.rs, shared by all connections to targets and by the
-- task that clears them: each connection is a `TimeoutIO` around a `CounterIO` of io_x/src/lib.rs, and the
-- polls of all of them stand in one order with those of the cleaner.
use rust_http_proxy.Common.{
  ℕ, ◌%◌, ◌≡◌, refl, ap, sym, ◌∙◌, ◌==◌, if◌then◌else◌, List, [], ◌∷◌, ◌++◌, map,
}
use rust_http_proxy.Common.Numbers.{u64_mod}
use rust_http_proxy.Metrics.{Family}
use rust_http_proxy.Metrics.Sums.{sum, inc_all}
use rust_http_proxy.Metrics.Cleaner.{
  Event, increased, polled, Cleaned, interval, register_metric_cleaner, poll_cleaner, happens, run,
}
use rust_http_proxy.Metrics.Cleaner.Recent.{recent, run-recent}
use rust_http_proxy.IoX.{Stream}
use rust_http_proxy.IoX.Counter as Counter
use rust_http_proxy.IoX.Counter.{CounterIo, counter_stream}
use rust_http_proxy.IoX.Timeout as Timeout
use rust_http_proxy.IoX.Timeout.{Timer}
use rust_http_proxy.IoX.Traffic.{Call, Timed, counted, poll, poll-counted}

module _ {L : Type 0} (stream : Stream) (family : Family L) (timer : Timer) where
  -- All connections, by a number of their own, and the counters with their cleaner.
  pub record Shared : Type 0 where
    pub conns : ℕ → Timed stream family timer
    pub cleaned : Cleaned family timer

  -- A connection is made, with its time-out, at an instant; one of them is polled at an instant; or the
  -- runtime polls the cleaner.
  pub data Step : Type 0 where
    opens : ℕ → ℕ → ℕ → stream.State → L → Step
    polls : ℕ → ℕ → Call → Step
    cleans : ℕ → Step

  abbrev update :
      ℕ
      → Timed stream family timer
      → (ℕ → Timed stream family timer)
      → ℕ
      → Timed stream family timer
  update i t conns j = if j == i then t else conns j

  -- A connection sees the counters as they are.
  abbrev lend : family.State → Timed stream family timer → Timed stream family timer
  lend counter t = record t { inner = record (t.inner) { traffic_counter = counter } }

  module _ (hours : ℕ) where
    unfoldable pub step : Step → Shared → Shared
    unfolding poll poll_cleaner Counter.new Timeout.new
    step (opens i now timeout inner label) s = record s {
      conns =
          update i
            (Timeout.new (counter_stream stream family) timer now
              (Counter.new stream family inner s.cleaned.counter label) timeout)
            s.conns;
    }
    step (polls i now c) s =
        let t = poll stream family timer now c (lend s.cleaned.counter (s.conns i)) in
        record {
          conns = update i t s.conns;
          cleaned = record (s.cleaned) { counter = t.inner.traffic_counter };
        }
    step (cleans now) s = record s { cleaned = poll_cleaner family timer hours now s.cleaned }

    unfoldable pub run_all : List Step → Shared → Shared
    unfolding step
    run_all [] s = s
    run_all (e ∷ es) s = run_all es (step e s)

    -- What a step does to the counters: a poll adds what the stream's answer counts, under the label of
    -- the connection that is polled.
    unfoldable pub events_of : Step → Shared → List (Event L)
    unfolding counted
    events_of (opens _ _ _ _ _) s = []
    events_of (polls i now c) s =
        let io = (s.conns i).inner in map (increased io.label) (counted stream family c io.inner).0
    events_of (cleans now) s = polled now ∷ []

    unfoldable pub trace : List Step → Shared → List (Event L)
    unfolding events_of
    trace [] s = []
    trace (e ∷ es) s = events_of e s ++ trace es (step e s)

    run-append :
        (es more : List (Event L)) (c : Cleaned family timer)
        → run family timer hours (es ++ more) c
          ≡ run family timer hours more (run family timer hours es c)
    unfolding run
    run-append [] more c = refl
    run-append (e ∷ es) more c = run-append es more (happens family timer hours e c)

    run-increased :
        (l : L) (ns : List ℕ) (c : Cleaned family timer)
        → run family timer hours (map (increased l) ns) c
          ≡ record c { counter = inc_all family l ns c.counter }
    unfolding run happens inc_all
    run-increased l [] c = refl
    run-increased l (n ∷ ns) c =
        run-increased l ns (record c { counter = family.inc_by l n c.counter })

    step-events_of :
        (e : Step) (s : Shared)
        → (step e s).cleaned ≡ run family timer hours (events_of e s) s.cleaned
    unfolding step events_of run happens
    step-events_of (opens _ _ _ _ _) s = refl
    step-events_of (cleans now) s = refl
    step-events_of (polls i now c) s =
        let io = (s.conns i).inner in
        ap (λ counter. record (s.cleaned) { counter = counter })
          (poll-counted stream family timer now c (lend s.cleaned.counter (s.conns i)))
        ∙ sym (run-increased io.label (counted stream family c io.inner).0 s.cleaned)

    run_all-trace :
        (es : List Step) (s : Shared)
        → (run_all es s).cleaned ≡ run family timer hours (trace es s) s.cleaned
    unfolding run_all trace run
    run_all-trace [] s = refl
    run_all-trace (e ∷ es) s =
        run_all-trace es (step e s)
        ∙ ap (run family timer hours (trace es (step e s))) (step-events_of e s)
        ∙ sym (run-append (events_of e s) (trace es (step e s)) s.cleaned)

    -- However the polls of any number of connections alternate with one another and with those of the
    -- cleaner, from empty counters on, the counter of a label is the sum, as a 64-bit number, of what the
    -- polls of its connections counted since the cleaner last cleared the family; it clears it at each of
    -- its polls that is the interval or more after the clearing before, or after its start.
    pub run_all-recent :
        (same : Discrete L) (es : List Step) (start : ℕ) (counter : family.State)
        (conns : ℕ → Timed stream family timer) (l : L)
        → family.value l counter ≡ 0
        → let first : Shared = record {
          conns = conns;
          cleaned = register_metric_cleaner family timer hours start counter;
        } in
          family.value l (run_all es first).cleaned.counter
          ≡ sum (recent same l (interval hours) start [] (trace es first)) % u64_mod
    run_all-recent same es start counter conns l zero_at_first =
        let first : Shared = record {
          conns = conns;
          cleaned = register_metric_cleaner family timer hours start counter;
        } in
        ap (λ c. family.value l c.counter) (run_all-trace es first)
        ∙ run-recent same family l timer hours (trace es first) start counter zero_at_first
