-- ===== src/IoX/Timeout.antt =====
-- `TimeoutIO` of io_x/src/lib.rs: a stream that reports an error once it has been idle for a time.
-- Instants and durations are numbers of one unit; tokio's `Sleep` is an interface.
pub mod Laws
pub mod Polls
use rust_http_proxy.Common.{
  ℕ, ◌+◌, ◌≡◌, Bool, leb, if◌then◌else◌, List, String, Result, ok, err, panic, io, ErrorKind,
  timed_out,
}
use rust_http_proxy.Common.Bytes.{Bytes}
use rust_http_proxy.IoX.{Poll, pending, ready, ReadBuf, Stream}

-- A `Sleep` is over from its deadline on.
pub record Timer : Type 1 where
  pub Sleep : Type 0
  -- `sleep(duration)` at an instant, `reset(deadline)`, and whether a poll at an instant is ready
  pub sleep : ℕ → ℕ → Sleep
  pub reset : ℕ → Sleep → Sleep
  pub is_over : ℕ → Sleep → Bool
  pub is_over-sleep :
      (duration start now : ℕ) → is_over now (sleep duration start) ≡ leb (start + duration) now
  pub is_over-reset :
      (deadline now : ℕ) (s : Sleep) → is_over now (reset deadline s) ≡ leb deadline now

module _ (stream : Stream) (timer : Timer) where
  pub record TimeoutIo : Type 0 where
    pub inner : stream.State
    pub timeout : ℕ
    pub idle_future : timer.Sleep

  unfoldable pub new : ℕ → stream.State → ℕ → TimeoutIo
  new now inner timeout = record {
    inner = inner;
    timeout = timeout;
    idle_future = timer.sleep timeout now;
  }

  unfoldable pub _set_timeout_pinned : ℕ → TimeoutIo → ℕ → TimeoutIo
  _set_timeout_pinned now t timeout = record t {
    timeout = timeout;
    idle_future = timer.reset (now + timeout) t.idle_future;
  }

  -- What every poll does with the inner stream's answer: an answer restarts the clock, and no answer
  -- is an error once the clock has run out.
  unfoldable pub watch {ℓ} :
      {A : Type ℓ} → String → ℕ → TimeoutIo → Poll (Result A) → TimeoutIo × Poll (Result A)
  watch message now t (ready a) =
      (record t { idle_future = timer.reset (now + t.timeout) t.idle_future }, ready a)
  watch message now t pending =
      if timer.is_over now t.idle_future
      then (t, ready (err (io timed_out message)))
      else (t, pending)

  unfoldable pub poll_read :
      ℕ → TimeoutIo → ReadBuf → TimeoutIo × ReadBuf × Poll (Result (Unit {0}))
  unfolding watch
  poll_read now t buf =
      let (inner, buf', read_poll) = stream.poll_read t.inner buf in
      let (t', poll) = watch "read idle" now (record t { inner = inner }) read_poll in
      (t', buf', poll)

  unfoldable pub poll_write : ℕ → TimeoutIo → Bytes → TimeoutIo × Poll (Result ℕ)
  unfolding watch
  poll_write now t buf =
      let (inner, write_poll) = stream.poll_write t.inner buf in
      watch "write idle" now (record t { inner = inner }) write_poll

  unfoldable pub poll_flush : ℕ → TimeoutIo → TimeoutIo × Poll (Result (Unit {0}))
  unfolding watch
  poll_flush now t =
      let (inner, write_poll) = stream.poll_flush t.inner in
      watch "write idle" now (record t { inner = inner }) write_poll

  unfoldable pub poll_shutdown : ℕ → TimeoutIo → TimeoutIo × Poll (Result (Unit {0}))
  unfolding watch
  poll_shutdown now t =
      let (inner, write_poll) = stream.poll_shutdown t.inner in
      watch "write idle" now (record t { inner = inner }) write_poll

  unfoldable pub is_write_vectored : TimeoutIo → Bool
  is_write_vectored t = stream.is_write_vectored t.inner

  unfoldable pub poll_write_vectored : ℕ → TimeoutIo → List Bytes → TimeoutIo × Poll (Result ℕ)
  unfolding watch
  poll_write_vectored now t bufs =
      let (inner, write_poll) = stream.poll_write_vectored t.inner bufs in
      watch "write idle" now (record t { inner = inner }) write_poll
