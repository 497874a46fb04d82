-- ===== src/IoX/Counter.antt =====
-- `CounterIO` of io_x/src/lib.rs: every byte read or written is added to the counter of a label.
pub mod Laws
use rust_http_proxy.Common.{ℕ, suc, ◌+◌, Bool, List, [], ◌∷◌, length, Result, ok, err, panic}
use rust_http_proxy.Common.Bytes.{Bytes}
use rust_http_proxy.Metrics.{Family}
use rust_http_proxy.IoX.{Poll, pending, ready, ReadBuf, Stream}

-- `bufs.iter().map(|buf| buf.len()).sum()`
unfoldable pub total : List Bytes → ℕ
total [] = 0
total (b ∷ bs) = length b + total bs

module _ {L : Type 0} (stream : Stream) (family : Family L) where
  pub record CounterIo : Type 0 where
    pub inner : stream.State
    pub traffic_counter : family.State
    pub label : L

  unfoldable pub new : stream.State → family.State → L → CounterIo
  new inner traffic_counter label = record {
    inner = inner;
    traffic_counter = traffic_counter;
    label = label;
  }

  unfoldable pub count : ℕ → CounterIo → CounterIo
  count n io = record io { traffic_counter = family.inc_by io.label n io.traffic_counter }

  -- A finished read adds the length of all that the buffer then holds.
  unfoldable pub poll_read : CounterIo → ReadBuf → CounterIo × ReadBuf × Poll (Result (Unit {0}))
  unfolding count
  poll_read io buf =
      let (inner, buf', poll) = stream.poll_read io.inner buf in
      let io' : CounterIo = record io { inner = inner } in
      elim poll [
        | ready (ok _) ↦ (count (length buf'.filled) io', buf', ready (ok tt))
        | ready (err e) ↦ (io', buf', ready (err e))
        | ready panic ↦ (io', buf', ready panic)
        | pending ↦ (io', buf', pending)
      ]

  unfoldable pub poll_write : CounterIo → Bytes → CounterIo × Poll (Result ℕ)
  unfolding count
  poll_write io buf =
      let (inner, poll) = stream.poll_write io.inner buf in
      let io' : CounterIo = record io { inner = inner } in
      elim poll [
        | ready (ok size) ↦ (count size io', ready (ok size))
        | ready (err e) ↦ (io', ready (err e))
        | ready panic ↦ (io', ready panic)
        | pending ↦ (io', pending)
      ]

  unfoldable pub poll_flush : CounterIo → CounterIo × Poll (Result (Unit {0}))
  poll_flush io =
      let (inner, poll) = stream.poll_flush io.inner in (record io { inner = inner }, poll)

  unfoldable pub poll_shutdown : CounterIo → CounterIo × Poll (Result (Unit {0}))
  poll_shutdown io =
      let (inner, poll) = stream.poll_shutdown io.inner in (record io { inner = inner }, poll)

  unfoldable pub is_write_vectored : CounterIo → Bool
  is_write_vectored io = stream.is_write_vectored io.inner

  -- The lengths of all buffers are added before the stream is asked to write.
  unfoldable pub poll_write_vectored : CounterIo → List Bytes → CounterIo × Poll (Result ℕ)
  unfolding count total
  poll_write_vectored io bufs =
      let io' = count (total bufs) io in
      let (inner, poll) = stream.poll_write_vectored io'.inner bufs in
      (record io' { inner = inner }, poll)

  -- `AsyncRead` and `AsyncWrite` for `CounterIO`
  abbrev pub counter_stream : Stream
  counter_stream = record {
    State = CounterIo;
    poll_read = poll_read;
    poll_write = poll_write;
    poll_flush = poll_flush;
    poll_shutdown = poll_shutdown;
    is_write_vectored = is_write_vectored;
    poll_write_vectored = poll_write_vectored;
  }
