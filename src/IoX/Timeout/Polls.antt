-- ===== src/IoX/Timeout/Polls.antt =====
-- When a `TimeoutIO` of io_x/src/lib.rs times out, over any polls of it.
use rust_http_proxy.Common.{
  ℕ, ◌+◌, ◌≡◌, refl, ap, ◌∙◌, leb, if◌then◌else◌, List, [], ◌∷◌, Result, err, io, timed_out, Bool,
  true, false, Bool-cases, inl, inr, arith,
}
use rust_http_proxy.IoX.{Poll, pending, ready, ReadBuf, Stream}
use rust_http_proxy.IoX.Timeout as Timeout
use rust_http_proxy.IoX.Timeout.{Timer, TimeoutIo, watch, new}
use rust_http_proxy.IoX.Traffic.{Call, read, write, flush, shutdown, write_vectored}

-- What a poll answers: a read with what its buffer then holds, a write, or another operation.
pub data Answer : Type 0 where
  was_read : ReadBuf → Poll (Result (Unit {0})) → Answer
  was_written : Poll (Result ℕ) → Answer
  was_done : Poll (Result (Unit {0})) → Answer

abbrev is_pending_poll {ℓ} : {A : Type ℓ} → Poll A → Bool
is_pending_poll pending = true
is_pending_poll (ready _) = false

abbrev pub is_pending : Answer → Bool
is_pending (was_read _ p) = is_pending_poll p
is_pending (was_written p) = is_pending_poll p
is_pending (was_done p) = is_pending_poll p

-- The answer with an error in place of its poll.
abbrev pub idle : Answer → Answer
idle (was_read buf _) = was_read buf (ready (err (io timed_out "read idle")))
idle (was_written _) = was_written (ready (err (io timed_out "write idle")))
idle (was_done _) = was_done (ready (err (io timed_out "write idle")))

module _ (stream : Stream) where
  -- What the inner stream answers to a poll.
  unfoldable pub asked : Call → stream.State → stream.State × Answer
  asked (read buf) s = let (s', buf', p) = stream.poll_read s buf in (s', was_read buf' p)
  asked (write bytes) s = let (s', p) = stream.poll_write s bytes in (s', was_written p)
  asked flush s = let (s', p) = stream.poll_flush s in (s', was_done p)
  asked shutdown s = let (s', p) = stream.poll_shutdown s in (s', was_done p)
  asked (write_vectored bufs) s =
      let (s', p) = stream.poll_write_vectored s bufs in (s', was_written p)

  -- The answers of a stream that has been silent since `since`, by a clock of its own: those of the inner
  -- stream, but an error for each poll without one from `since + timeout` on.
  unfoldable pub expected : ℕ → ℕ → List (ℕ × Call) → stream.State → List Answer
  unfolding asked
  expected timeout since [] s = []
  expected timeout since ((now, c) ∷ cs) s =
      let (s', a) = asked c s in
      let late = expected timeout since cs s' in
      let active = expected timeout now cs s' in
      if is_pending a then (if leb (since + timeout) now then idle a else a) ∷ late else a ∷ active

  module _ (timer : Timer) where
    unfoldable pub poll : ℕ → Call → TimeoutIo stream timer → TimeoutIo stream timer × Answer
    unfolding Timeout.poll_read Timeout.poll_write Timeout.poll_flush Timeout.poll_shutdown
        Timeout.poll_write_vectored
    poll now (read buf) t =
        let (t', buf', p) = Timeout.poll_read stream timer now t buf in (t', was_read buf' p)
    poll now (write bytes) t =
        let (t', p) = Timeout.poll_write stream timer now t bytes in (t', was_written p)
    poll now flush t = let (t', p) = Timeout.poll_flush stream timer now t in (t', was_done p)
    poll now shutdown t = let (t', p) = Timeout.poll_shutdown stream timer now t in (t', was_done p)
    poll now (write_vectored bufs) t =
        let (t', p) = Timeout.poll_write_vectored stream timer now t bufs in (t', was_written p)

    unfoldable pub poll_all : List (ℕ × Call) → TimeoutIo stream timer → List Answer
    unfolding poll
    poll_all [] t = []
    poll_all ((now, c) ∷ cs) t = let (t', a) = poll now c t in a ∷ poll_all cs t'

    -- What a poll leaves and answers, if the inner stream answers, or else if the time is over or not.
    abbrev rested : ℕ → TimeoutIo stream timer → stream.State → TimeoutIo stream timer
    rested now t s = record t {
      inner = s;
      idle_future = timer.reset (now + t.timeout) t.idle_future;
    }

    abbrev outcome :
        ℕ → TimeoutIo stream timer → stream.State × Answer → TimeoutIo stream timer × Answer
    outcome now t (s, a) =
        if is_pending a
        then (record t { inner = s }, if timer.is_over now t.idle_future then idle a else a)
        else (rested now t s, a)

    poll-outcome :
        (now : ℕ) (c : Call) (t : TimeoutIo stream timer)
        → poll now c t ≡ outcome now t (asked c t.inner)
    unfolding poll asked watch Timeout.poll_read Timeout.poll_write
    poll-outcome now (read buf) t = ground arith
    poll-outcome now (write bytes) t = ground arith
    poll-outcome now flush t = ground arith
    poll-outcome now shutdown t = ground arith
    poll-outcome now (write_vectored bufs) t = ground arith

    -- The timer stands for the last activity.
    abbrev SilentSince : ℕ → TimeoutIo stream timer → Type 0
    SilentSince since t = (now : ℕ) → timer.is_over now t.idle_future ≡ leb (since + t.timeout) now

    poll_all-later :
        (now : ℕ) (c : Call) (cs : List (ℕ × Call)) (t : TimeoutIo stream timer)
        → poll_all ((now, c) ∷ cs) t
          ≡ (outcome now t (asked c t.inner)).1 ∷ poll_all cs (outcome now t (asked c t.inner)).0
    unfolding poll_all
    poll_all-later now c cs t = ap (λ o. o.1 ∷ poll_all cs o.0) (poll-outcome now c t)

    poll_all-expected :
        (cs : List (ℕ × Call)) (since : ℕ) (t : TimeoutIo stream timer)
        → SilentSince since t
        → poll_all cs t ≡ expected t.timeout since cs t.inner
    unfolding poll_all expected
    poll_all-expected [] since t silent = refl
    poll_all-expected ((now, c) ∷ cs) since t silent =
        let (s', a) = asked c t.inner in
        let late = poll_all-expected cs since (record t { inner = s' }) silent in
        let active =
          poll_all-expected cs now (rested now t s')
            (λ later. timer.is_over-reset (now + t.timeout) later t.idle_future) in
        poll_all-later now c cs t ∙ elim (Bool-cases (is_pending a)) [
          | inl waits ↦ rw (waits, silent now, late) refl
          | inr answered ↦ rw (answered, active) refl
        ]

    -- A new stream passes on what the inner stream answers to each poll, whatever is polled, and turns a
    -- poll without an answer into a time-out exactly from `timeout` after the last answer (or the
    -- creation) on; an answer restarts the clock, also after a time-out.
    pub poll_all-new :
        (cs : List (ℕ × Call)) (start timeout : ℕ) (inner : stream.State)
        → poll_all cs (new stream timer start inner timeout) ≡ expected timeout start cs inner
    unfolding new
    poll_all-new cs start timeout inner =
        poll_all-expected cs start _ (λ now. timer.is_over-sleep timeout start now)
