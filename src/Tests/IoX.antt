-- ===== src/Tests/IoX.antt =====
-- The theorems on the streams, applied to concrete data.
use mathlib.Core.Bool.{Bool-discrete}
use rust_http_proxy.Common.{
  ℕ, ◌+◌, ◌%◌, ◌<◌, ◌≡◌, refl, Bool, true, false, leb, List, [], ◌∷◌, ◌++◌, length, Result, ok, err,
  io, timed_out, arith,
}
use rust_http_proxy.Common.Bytes.{codes}
use rust_http_proxy.Common.Numbers.{u64_mod}
use rust_http_proxy.Metrics.{Family}
use rust_http_proxy.Metrics.Sample.{sample_family}
use rust_http_proxy.IoX.{Poll, pending, ready, ReadBuf, Stream}
use rust_http_proxy.IoX.Counter.{CounterIo, poll_read, poll_write_vectored, total}
use rust_http_proxy.IoX.Counter.Laws.{
  read, write, flush, run, moved_all, value, run-value, poll_write_vectored-total, poll_read-filled,
}
use rust_http_proxy.IoX.Timeout.{Timer, new}
use rust_http_proxy.IoX.Traffic.{Call}
use rust_http_proxy.IoX.Traffic as Traffic
use rust_http_proxy.IoX.Timeout.Polls as Polls
use rust_http_proxy.IoX.Timeout.Polls.{was_read, was_written, was_done, poll_all, poll_all-new}
use rust_http_proxy.IoX.Timeout.Laws.{watch_all, expected, watch_all-new}

-- A stream that reads `hi`, takes three bytes of what is written, and is never ready for more than
-- one buffer.
abbrev pub short_stream : Stream
short_stream = record {
  State = ℕ;
  poll_read = λ s buf. (s + 1, record { filled = buf.filled ++ codes "hi" }, ready (ok tt));
  poll_write = λ s bytes. (s + 1, ready (ok 3));
  poll_flush = λ s. (s, ready (ok tt));
  poll_shutdown = λ s. (s, pending);
  is_write_vectored = λ s. false;
  poll_write_vectored = λ s bufs. (s, pending);
}

abbrev counters : Family Bool
counters = sample_family Bool-discrete

abbrev counting : CounterIo short_stream counters
counting = record { inner = 0; traffic_counter = λ l. 5; label = true }

five_fits : value short_stream counters counting < u64_mod
five_fits = omega arith

counted_run :
    value short_stream counters
      (run short_stream counters (read ∷ write (codes "abcd") ∷ flush ∷ []) counting)
    ≡ (5 + moved_all short_stream counters (read ∷ write (codes "abcd") ∷ flush ∷ []) 0) % u64_mod
counted_run =
    run-value short_stream counters (read ∷ write (codes "abcd") ∷ flush ∷ []) counting five_fits

poll_write_vectored-total_example :
    value short_stream counters
      (poll_write_vectored short_stream counters counting (codes "ab" ∷ codes "cde" ∷ [])).0
    ≡ (5 + total (codes "ab" ∷ codes "cde" ∷ [])) % u64_mod
poll_write_vectored-total_example =
    poll_write_vectored-total short_stream counters counting (codes "ab" ∷ codes "cde" ∷ [])

abbrev held : ReadBuf
held = record { filled = codes "old" }

filled_buffer :
    value short_stream counters (poll_read short_stream counters counting held).0
    ≡ (5 + (length (codes "old") + length (codes "hi"))) % u64_mod
filled_buffer = poll_read-filled short_stream counters counting held 1 (codes "hi") refl

abbrev pub timer : Timer
timer = record {
  Sleep = ℕ;
  sleep = λ duration start. start + duration;
  reset = λ deadline s. deadline;
  is_over = λ now s. leb s now;
  is_over-sleep = λ duration start now. refl;
  is_over-reset = λ deadline now s. refl;
}

abbrev polls : List (ℕ × Poll (Result ℕ))
polls = (4, pending) ∷ (6, ready (ok 1)) ∷ (15, pending) ∷ (16, pending) ∷ []

watched :
    watch_all short_stream timer "read idle" (new short_stream timer 0 0 10) polls
    ≡ expected short_stream timer "read idle" 10 0 polls
watched = watch_all-new short_stream timer "read idle" 0 10 0 polls

abbrev calls : List (ℕ × Call)
calls =
    (4, Traffic.shutdown)
    ∷ (6, Traffic.read (record { filled = codes "x" }))
    ∷ (15, Traffic.write_vectored (codes "ab" ∷ []))
    ∷ (16, Traffic.shutdown)
    ∷ (20, Traffic.write (codes "abcd"))
    ∷ (29, Traffic.shutdown)
    ∷ []

poll_all-new_example :
    poll_all short_stream timer calls (new short_stream timer 0 0 10)
    ≡ Polls.expected short_stream 10 0 calls 0
poll_all-new_example = poll_all-new short_stream timer calls 0 10 0

polls_answered :
    Polls.expected short_stream 10 0 calls 0
    ≡ was_done pending
      ∷ was_read (record { filled = codes "xhi" }) (ready (ok tt))
      ∷ was_written pending
      ∷ was_done (ready (err (io timed_out "write idle")))
      ∷ was_written (ready (ok 3))
      ∷ was_done pending
      ∷ []
unfolding Polls.expected
polls_answered = refl
