-- ===== src/IoX/Timeout/Laws.antt =====
-- When a `TimeoutIO` times out.
use rust_http_proxy.Common.{
  ℕ, ◌+◌, ◌≡◌, refl, ap, leb, if◌then◌else◌, List, [], ◌∷◌, Result, err, io, timed_out, String,
  Bool-cases, inl, inr,
}
use rust_http_proxy.IoX.{Poll, pending, ready, Stream}
use rust_http_proxy.IoX.Timeout.{Timer, TimeoutIo, watch, new}

-- The timer stands for the last activity.
abbrev SilentSince : (stream : Stream) (timer : Timer) → ℕ → TimeoutIo stream timer → Type 0
SilentSince stream timer since t =
    (now : ℕ) → timer.is_over now t.idle_future ≡ leb (since + t.timeout) now

module _ (stream : Stream) (timer : Timer) {A : Type 0} where
  -- A run of polls: the instant of each, and what the inner stream answers.
  unfoldable pub watch_all :
      String → TimeoutIo stream timer → List (ℕ × Poll (Result A)) → List (Poll (Result A))
  unfolding watch
  watch_all message t [] = []
  watch_all message t ((now, answer) ∷ more) =
      let (t', out) = watch stream timer message now t answer in out ∷ watch_all message t' more

  -- What a stream answers that has been silent since `since`, by a clock of its own: the inner
  -- stream's answers as they are, and an error for each poll without one from `since + timeout` on.
  unfoldable pub expected : String → ℕ → ℕ → List (ℕ × Poll (Result A)) → List (Poll (Result A))
  expected message timeout since [] = []
  expected message timeout since ((now, ready a) ∷ more) =
      ready a ∷ expected message timeout now more
  expected message timeout since ((now, pending) ∷ more) =
      (if leb (since + timeout) now then ready (err (io timed_out message)) else pending)
      ∷ expected message timeout since more

  watch_all-expected :
      (message : String) (since : ℕ) (t : TimeoutIo stream timer) (ps : List (ℕ × Poll (Result A)))
      → SilentSince stream timer since t
      → watch_all message t ps ≡ expected message t.timeout since ps
  unfolding watch_all expected
  watch_all-expected message since t [] h = refl
  watch_all-expected message since t ((now, ready a) ∷ more) h = ap (◌∷◌ (ready a)) (
      watch_all-expected message now
        (record t { idle_future = timer.reset (now + t.timeout) t.idle_future }) more
        (λ later. timer.is_over-reset (now + t.timeout) later t.idle_future))
  watch_all-expected message since t ((now, pending) ∷ more) h =
      elim (Bool-cases (leb (since + t.timeout) now)) [
        | inl over ↦
            rw (h now, over)
              (ap (◌∷◌ (ready (err (io timed_out message))))
                (watch_all-expected message since t more h))
        | inr early ↦
            rw (h now, early) (ap (◌∷◌ pending) (watch_all-expected message since t more h))
      ]

  -- A new stream passes on every answer of the inner stream, and turns a poll without one into a
  -- time-out exactly from `timeout` after the last answer (or the creation) on; an answer restarts
  -- the clock, also after a time-out.
  pub watch_all-new :
      (message : String) (start timeout : ℕ) (inner : stream.State)
      (ps : List (ℕ × Poll (Result A)))
      → watch_all message (new stream timer start inner timeout) ps
        ≡ expected message timeout start ps
  unfolding new
  watch_all-new message start timeout inner ps =
      watch_all-expected message start _ ps (λ now. timer.is_over-sleep timeout start now)
