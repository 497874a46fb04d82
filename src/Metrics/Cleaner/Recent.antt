-- ===== src/Metrics/Cleaner/Recent.antt =====
-- What a counter that is cleared from time to time shows.
use rust_http_proxy.Common.{
  ℕ, ◌+◌, ◌%◌, ◌≡◌, ◌∙◌, leb, if◌then◌else◌, subst, sym, List, [], ◌∷◌, Bool-cases, inl, inr, arith,
}
use rust_http_proxy.Common.Numbers.{u64_mod}
use rust_http_proxy.Metrics.{Family}
use rust_http_proxy.Metrics.Sums.{sum}
use rust_http_proxy.IoX.Timeout.{Timer}
use rust_http_proxy.Metrics.Cleaner.{
  Event, increased, polled, Cleaned, interval, register_metric_cleaner, happens, run, poll_cleaner,
}

module _ {L : Type 0} (same : Discrete L) where
  -- The increments of a label, the newest first, with one more if it is the label's.
  unfoldable pub noted : {m l : L} → Dec (m ≡ l) → ℕ → List ℕ → List ℕ
  noted (yes _) n ns = n ∷ ns
  noted (no _) n ns = ns

  -- The increments of a label since the counters were last cleared, by a clock of its own: they are
  -- cleared at each poll that is `period` or more after the time before.
  unfoldable pub recent : L → ℕ → ℕ → List ℕ → List (Event L) → List ℕ
  unfolding noted
  recent l period last ns [] = ns
  recent l period last ns (increased m n ∷ es) = recent l period last (noted (same m l) n ns) es
  recent l period last ns (polled now ∷ es) =
      if leb (last + period) now then recent l period now [] es else recent l period last ns es

  module _ (family : Family L) (l : L) where
    value-noted :
        (m : L) (n : ℕ) (s : family.State) (ns : List ℕ) (d : Dec (m ≡ l))
        → family.value l s ≡ sum ns % u64_mod
        → family.value l (family.inc_by m n s) ≡ sum (noted d n ns) % u64_mod
    unfolding noted sum
    value-noted m n s ns (yes e) shows =
        subst (λ k. family.value k (family.inc_by m n s) ≡ (n + sum ns) % u64_mod) e
          (omega (
            arith,
            family.value-inc_by_self m n s,
            subst (λ k. family.value k s ≡ sum ns % u64_mod) (sym e) shows,
          ))
    value-noted m n s ns (no apart) shows = family.value-inc_by_ne m l n s apart ∙ shows

    module _ (timer : Timer) (hours : ℕ) where
      -- The counter of the label shows those increments, and the cleaner waits since `last`.
      abbrev Shows : Cleaned family timer → ℕ → List ℕ → Type 0
      Shows c last ns =
          (family.value l c.counter ≡ sum ns % u64_mod)
          × ((now : ℕ) → timer.is_over now c.waiting ≡ leb (last + interval hours) now)

      run-Shows :
          (es : List (Event L)) (c : Cleaned family timer) (last : ℕ) (ns : List ℕ)
          → Shows c last ns
          → family.value l (run family timer hours es c).counter
            ≡ sum (recent l (interval hours) last ns es) % u64_mod
      unfolding run recent happens poll_cleaner sum
      run-Shows [] c last ns shows = shows.0
      run-Shows (increased m n ∷ es) c last ns shows =
          run-Shows es _ last (noted (same m l) n ns)
            (value-noted m n c.counter ns (same m l) shows.0, shows.1)
      run-Shows (polled now ∷ es) c last ns shows =
          elim (Bool-cases (leb (last + interval hours) now)) [
            | inl over ↦
                rw (run, happens, poll_cleaner, shows.1 now, recent, over)
                  (run-Shows es _ now []
                    (family.value-clear l c.counter, timer.is_over-sleep (interval hours) now))
            | inr early ↦
                rw (run, happens, poll_cleaner, shows.1 now, recent, early)
                  (run-Shows es c last ns shows)
          ]

      -- From empty counters on, whatever is counted and whenever the runtime polls the cleaner, the
      -- counter of a label is the sum of its increments since the cleaner last cleared the family, as
      -- a 64-bit number; the cleaner clears it at each poll that is the interval or more after the
      -- clearing before, or after its start.
      pub run-recent :
          (es : List (Event L)) (start : ℕ) (counter : family.State)
          → family.value l counter ≡ 0
          → family.value l
              (run family timer hours es
                (register_metric_cleaner family timer hours start counter)).counter
            ≡ sum (recent l (interval hours) start [] es) % u64_mod
      unfolding register_metric_cleaner sum
      run-recent es start counter zero_at_first =
          run-Shows es _ start [] (zero_at_first, timer.is_over-sleep (interval hours) start)
