-- ===== src/IoX/Counter/Laws.antt =====
-- What the counter of a `CounterIO` adds up to.
use rust_http_proxy.Common.{
  ℕ, ◌+◌, ◌%◌, ◌<◌, ◌≡◌, refl, ap, List, [], ◌∷◌, ◌++◌, length, length-append, Result, ok, err,
  panic, arith,
}
use rust_http_proxy.Common.Bytes.{Bytes}
use rust_http_proxy.Common.Numbers.{u64_mod}
use rust_http_proxy.Metrics.{Family}
use rust_http_proxy.IoX.{Poll, pending, ready, ReadBuf, Stream}
use rust_http_proxy.IoX.Counter.{
  CounterIo, poll_read, poll_write, poll_flush, poll_shutdown, poll_write_vectored, total,
}

-- The calls that a connection makes on its stream, other than vectored writes.
pub data Call : Type 0 where
  read : Call
  write : Bytes → Call
  flush shutdown : Call

-- The bytes that an answer says were moved.
abbrev pub written : Poll (Result ℕ) → ℕ
written (ready (ok n)) = n
written _ = 0

abbrev pub was_read : ReadBuf → Poll (Result (Unit {0})) → ℕ
was_read buf (ready (ok _)) = length buf.filled
was_read buf _ = 0

abbrev empty : ReadBuf
empty = record { filled = [] }

module _ {L : Type 0} (stream : Stream) (family : Family L) where
  -- The state after a call, with each read into an empty buffer.
  unfoldable pub step : Call → CounterIo stream family → CounterIo stream family
  unfolding poll_read poll_write poll_flush poll_shutdown
  step read io = (poll_read stream family io empty).0
  step (write bytes) io = (poll_write stream family io bytes).0
  step flush io = (poll_flush stream family io).0
  step shutdown io = (poll_shutdown stream family io).0

  -- The bytes that the inner stream says a call moved, and the inner stream after it.
  unfoldable pub moved : Call → stream.State → ℕ × stream.State
  moved read s = let (s', buf, poll) = stream.poll_read s empty in (was_read buf poll, s')
  moved (write bytes) s = let (s', poll) = stream.poll_write s bytes in (written poll, s')
  moved flush s = let (s', _) = stream.poll_flush s in (0, s')
  moved shutdown s = let (s', _) = stream.poll_shutdown s in (0, s')

  unfoldable pub run : List Call → CounterIo stream family → CounterIo stream family
  unfolding step
  run [] io = io
  run (c ∷ cs) io = run cs (step c io)

  unfoldable pub moved_all : List Call → stream.State → ℕ
  unfolding moved
  moved_all [] s = 0
  moved_all (c ∷ cs) s = let (n, s') = moved c s in n + moved_all cs s'

  abbrev pub value : CounterIo stream family → ℕ
  value io = family.value io.label io.traffic_counter

  abbrev Stepped : CounterIo stream family → Call → Type 0
  Stepped io c =
      (value (step c io) ≡ (value io + (moved c io.inner).0) % u64_mod)
      × ((step c io).inner ≡ (moved c io.inner).1)

  idle : (io : CounterIo stream family) → value io < u64_mod → value io ≡ (value io + 0) % u64_mod
  idle io h = omega arith

  step-moved : (c : Call) (io : CounterIo stream family) → value io < u64_mod → Stepped io c
  unfolding step moved
  step-moved read io h = answered (stream.poll_read io.inner empty).2 refl
    where
      answered :
          (p : Poll (Result (Unit {0}))) → (stream.poll_read io.inner empty).2 ≡ p → Stepped io read
      answered pending e = rw (e, step, poll_read, moved) (idle io h, refl)
      answered (ready (ok _)) e =
          rw (e, step, poll_read, moved)
            (family.value-inc_by_self io.label _ io.traffic_counter, refl)
      answered (ready (err _)) e = rw (e, step, poll_read, moved) (idle io h, refl)
      answered (ready panic) e = rw (e, step, poll_read, moved) (idle io h, refl)
  step-moved (write bytes) io h = answered (stream.poll_write io.inner bytes).1 refl
    where
      answered :
          (p : Poll (Result ℕ))
          → (stream.poll_write io.inner bytes).1 ≡ p
          → Stepped io (write bytes)
      answered pending e = rw (e, step, poll_write, moved) (idle io h, refl)
      answered (ready (ok n)) e =
          rw (e, step, poll_write, moved)
            (family.value-inc_by_self io.label n io.traffic_counter, refl)
      answered (ready (err _)) e = rw (e, step, poll_write, moved) (idle io h, refl)
      answered (ready panic) e = rw (e, step, poll_write, moved) (idle io h, refl)
  step-moved flush io h = (idle io h, refl)
  step-moved shutdown io h = (idle io h, refl)

  step-label : (c : Call) (io : CounterIo stream family) → (step c io).label ≡ io.label
  unfolding step
  step-label read io = ground arith
  step-label (write bytes) io = ground arith
  step-label flush io = refl
  step-label shutdown io = refl

  -- From a 64-bit value on, over any calls other than vectored writes, with reads into empty
  -- buffers, the counter of the connection grows by exactly the bytes that the inner stream reports
  -- as read and written, as a 64-bit number.
  pub run-value :
      (cs : List Call) (io : CounterIo stream family)
      → value io < u64_mod
      → value (run cs io) ≡ (value io + moved_all cs io.inner) % u64_mod
  unfolding run moved_all
  run-value [] io h = idle io h
  run-value (c ∷ cs) io h =
      let (grown, inner) = step-moved c io h in
      ground (arith, grown, ap (moved_all cs) inner, run-value cs (step c io))

  -- A vectored write adds the lengths of all its buffers, as a 64-bit number, whatever the stream
  -- answers: also when it is not ready, fails or takes only a part of them.
  pub poll_write_vectored-total :
      (io : CounterIo stream family) (bufs : List Bytes)
      → value (poll_write_vectored stream family io bufs).0 ≡ (value io + total bufs) % u64_mod
  unfolding poll_write_vectored
  poll_write_vectored-total io bufs =
      family.value-inc_by_self io.label (total bufs) io.traffic_counter

  -- A successful read of some bytes into a buffer that held others adds the number of both to the
  -- counter, as a 64-bit number.
  pub poll_read-filled :
      (io : CounterIo stream family) (buf : ReadBuf) (inner : stream.State) (more : Bytes)
      → stream.poll_read io.inner buf
        ≡ (inner, record { filled = buf.filled ++ more }, ready (ok tt))
      → value (poll_read stream family io buf).0
        ≡ (value io + (length buf.filled + length more)) % u64_mod
  unfolding poll_read
  poll_read-filled io buf inner more e = ground (
    arith,
    length-append buf.filled more,
    family.value-inc_by_self io.label (length (buf.filled ++ more)) io.traffic_counter,
  )
