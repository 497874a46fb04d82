-- ===== src/IoX/Traffic.antt =====
-- A `TimeoutIO` around a `CounterIO`, as the tunnels of rust_http_proxy/src/proxy.rs make one: what
-- the polls of whoever copies the bytes add to the counter.
use rust_http_proxy.Common.{
  ℕ, ◌≡◌, refl, List, [], ◌∷◌, ◌++◌, length, Result, ok, ap, subst, sym, ◌∙◌, arith,
}
use rust_http_proxy.Common.Bytes.{Bytes}
use rust_http_proxy.Metrics.{Family}
use rust_http_proxy.Metrics.Sums.{inc_all, inc_all-append}
use rust_http_proxy.IoX.{Poll, pending, ready, ReadBuf, Stream}
use rust_http_proxy.IoX.Counter as Counter
use rust_http_proxy.IoX.Counter.{CounterIo, total, counter_stream}
use rust_http_proxy.IoX.Timeout as Timeout
use rust_http_proxy.IoX.Timeout.{Timer, TimeoutIo}

-- The polls of a stream, with the buffers that they are given.
pub data Call : Type 0 where
  read : ReadBuf → Call
  write : Bytes → Call
  flush shutdown : Call
  write_vectored : List Bytes → Call

-- What a finished read or write counts: all that the buffer then holds, or what was taken.
abbrev pub counted_read : ReadBuf → Poll (Result (Unit {0})) → List ℕ
counted_read buf (ready (ok _)) = length buf.filled ∷ []
counted_read buf _ = []

abbrev pub counted_write : Poll (Result ℕ) → List ℕ
counted_write (ready (ok size)) = size ∷ []
counted_write _ = []

module _ {L : Type 0} (stream : Stream) (family : Family L) where
  -- The numbers that a poll adds, by what the innermost stream answers, and that stream after it.
  unfoldable pub counted : Call → stream.State → List ℕ × stream.State
  unfolding total
  counted (read buf) s =
      let (s', buf', poll) = stream.poll_read s buf in (counted_read buf' poll, s')
  counted (write bytes) s = let (s', poll) = stream.poll_write s bytes in (counted_write poll, s')
  counted flush s = let (s', _) = stream.poll_flush s in ([], s')
  counted shutdown s = let (s', _) = stream.poll_shutdown s in ([], s')
  counted (write_vectored bufs) s =
      let (s', _) = stream.poll_write_vectored s bufs in (total bufs ∷ [], s')

  unfoldable pub counted_all : List (ℕ × Call) → stream.State → List ℕ
  unfolding counted
  counted_all [] s = []
  counted_all ((_, c) ∷ cs) s = let (ns, s') = counted c s in ns ++ counted_all cs s'

  module _ (timer : Timer) where
    abbrev pub Timed : Type 0
    Timed = TimeoutIo (counter_stream stream family) timer

    unfoldable pub poll : ℕ → Call → Timed → Timed
    unfolding Timeout.poll_read Timeout.poll_write Timeout.poll_flush Timeout.poll_shutdown
        Timeout.poll_write_vectored
    poll now (read buf) t = (Timeout.poll_read (counter_stream stream family) timer now t buf).0
    poll now (write bytes) t =
        (Timeout.poll_write (counter_stream stream family) timer now t bytes).0
    poll now flush t = (Timeout.poll_flush (counter_stream stream family) timer now t).0
    poll now shutdown t = (Timeout.poll_shutdown (counter_stream stream family) timer now t).0
    poll now (write_vectored bufs) t =
        (Timeout.poll_write_vectored (counter_stream stream family) timer now t bufs).0

    -- Polls one after the other, each at its instant.
    unfoldable pub poll_all : List (ℕ × Call) → Timed → Timed
    unfolding poll
    poll_all [] t = t
    poll_all ((now, c) ∷ cs) t = poll_all cs (poll now c t)

    watch-inner {ℓ} :
        {A : Type ℓ} (message : _) (now : ℕ) (t : Timed) (answer : Poll (Result A))
        → (Timeout.watch (counter_stream stream family) timer message now t answer).0.inner
          ≡ t.inner
    unfolding Timeout.watch
    watch-inner message now t pending = ground arith
    watch-inner message now t (ready a) = refl

    -- The counter after a poll, and what is inside.
    abbrev after : Call → CounterIo stream family → CounterIo stream family
    after c io = record {
      inner = (counted c io.inner).1;
      traffic_counter = inc_all family io.label (counted c io.inner).0 io.traffic_counter;
      label = io.label;
    }

    read-after :
        (buf : ReadBuf) (io : CounterIo stream family)
        → (Counter.poll_read stream family io buf).0 ≡ after (read buf) io
    unfolding counted inc_all Counter.poll_read Counter.count
    read-after buf io = ground arith

    write-after :
        (bytes : Bytes) (io : CounterIo stream family)
        → (Counter.poll_write stream family io bytes).0 ≡ after (write bytes) io
    unfolding counted inc_all Counter.poll_write Counter.count
    write-after bytes io = ground arith

    poll-after : (now : ℕ) (c : Call) (t : Timed) → (poll now c t).inner ≡ after c t.inner
    unfolding poll counted inc_all Timeout.poll_read Counter.poll_flush Counter.poll_shutdown
        Counter.poll_write_vectored Counter.count
    poll-after now (read buf) t = watch-inner _ now _ _ ∙ read-after buf t.inner
    poll-after now (write bytes) t = watch-inner _ now _ _ ∙ write-after bytes t.inner
    poll-after now flush t = watch-inner _ now _ _
    poll-after now shutdown t = watch-inner _ now _ _
    poll-after now (write_vectored bufs) t = watch-inner _ now _ _

    -- A poll adds the numbers that it counts, under the stream's own label.
    pub poll-counted :
        (now : ℕ) (c : Call) (t : Timed)
        → (poll now c t).inner.traffic_counter
          ≡ inc_all family t.inner.label (counted c t.inner.inner).0 t.inner.traffic_counter
    poll-counted now c t = ap (λ io. io.traffic_counter) (poll-after now c t)

    -- Whatever is polled, and whether the stream times out or not, the counter grows under the
    -- stream's own label, by the numbers that the innermost stream's answers count.
    pub poll_all-counted :
        (cs : List (ℕ × Call)) (t : Timed)
        → (poll_all cs t).inner.traffic_counter
          ≡ inc_all family t.inner.label (counted_all cs t.inner.inner) t.inner.traffic_counter
    unfolding poll_all counted_all inc_all
    poll_all-counted [] t = refl
    poll_all-counted ((now, c) ∷ cs) t =
        let (ns, s') = counted c t.inner.inner in
        subst
          (λ io.
            (poll_all cs (poll now c t)).inner.traffic_counter
            ≡ inc_all family io.label (counted_all cs io.inner) io.traffic_counter)
          (poll-after now c t) (poll_all-counted cs (poll now c t))
        ∙ sym (inc_all-append family t.inner.label ns (counted_all cs s') t.inner.traffic_counter)
