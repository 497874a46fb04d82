-- ===== src/IoX.antt =====
-- io_x/src/lib.rs: streams that count their traffic and streams that time out. What they wrap is a
-- stream of tokio, an interface here.
pub mod Counter
pub mod Timeout
pub mod Traffic
use rust_http_proxy.Common.{ℕ, Bool, List, Result}
use rust_http_proxy.Common.Bytes.{Bytes}

pub data Poll {ℓ} (A : Type ℓ) : Type ℓ where
  pending : Poll A
  ready : A → Poll A

-- `ReadBuf`: the bytes filled so far.
pub record ReadBuf : Type 0 where
  pub filled : Bytes

-- `AsyncRead` and `AsyncWrite` of a stream: each poll answers and leaves the stream in a new state.
pub record Stream : Type 1 where
  pub State : Type 0
  pub poll_read : State → ReadBuf → State × ReadBuf × Poll (Result (Unit {0}))
  pub poll_write : State → Bytes → State × Poll (Result ℕ)
  pub poll_flush : State → State × Poll (Result (Unit {0}))
  pub poll_shutdown : State → State × Poll (Result (Unit {0}))
  pub is_write_vectored : State → Bool
  pub poll_write_vectored : State → List Bytes → State × Poll (Result ℕ)
