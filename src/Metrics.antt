-- ===== src/Metrics.antt =====
-- Counters with labels. `Family` and `Counter` belong to the `prometheus_client` crate, which is not
-- part of the repository: an interface with the documented laws of a family of 64-bit counters.
pub mod Sample
pub mod Sums
pub mod Cleaner
use rust_http_proxy.Common.{ℕ, ◌+◌, ◌%◌, ◌≡◌, ◌≢◌}
use rust_http_proxy.Common.Numbers.{u64_mod}

pub record Family (L : Type 0) : Type 1 where
  pub State : Type 0
  -- the value of the counter under a label, 0 where there is none
  pub value : L → State → ℕ
  -- `get_or_create(label).inc_by(n)`
  pub inc_by : L → ℕ → State → State
  -- `clear`
  pub clear : State → State
  pub value-inc_by_self :
      (l : L) (n : ℕ) (s : State) → value l (inc_by l n s) ≡ (value l s + n) % u64_mod
  pub value-inc_by_ne : (l m : L) (n : ℕ) (s : State) → l ≢ m → value m (inc_by l n s) ≡ value m s
  pub value-clear : (l : L) (s : State) → value l (clear s) ≡ 0
