-- ===== src/Metrics/Sums.antt =====
-- What a family of counters holds after several increments of one label.
use rust_http_proxy.Common.{ℕ, ◌+◌, ◌%◌, ◌<◌, ◌≡◌, ◌≢◌, refl, ◌∙◌, List, [], ◌∷◌, ◌++◌, arith}
use rust_http_proxy.Common.Numbers.{u64_mod}
use rust_http_proxy.Metrics.{Family}

unfoldable pub sum : List ℕ → ℕ
sum [] = 0
sum (n ∷ ns) = n + sum ns

module _ {L : Type 0} (family : Family L) where
  unfoldable pub inc_all : L → List ℕ → family.State → family.State
  inc_all l [] s = s
  inc_all l (n ∷ ns) s = inc_all l ns (family.inc_by l n s)

  pub inc_all-append :
      (l : L) (ns more : List ℕ) (s : family.State)
      → inc_all l (ns ++ more) s ≡ inc_all l more (inc_all l ns s)
  unfolding inc_all
  inc_all-append l [] more s = refl
  inc_all-append l (n ∷ ns) more s = inc_all-append l ns more (family.inc_by l n s)

  pub value-inc_all_self :
      (l : L) (ns : List ℕ) (s : family.State)
      → family.value l s < u64_mod
      → family.value l (inc_all l ns s) ≡ (family.value l s + sum ns) % u64_mod
  unfolding inc_all sum
  value-inc_all_self l [] s h = omega arith
  value-inc_all_self l (n ∷ ns) s h =
      ground (arith, family.value-inc_by_self l n s, value-inc_all_self l ns (family.inc_by l n s))

  pub value-inc_all_ne :
      (l m : L) (ns : List ℕ) (s : family.State)
      → l ≢ m
      → family.value m (inc_all l ns s) ≡ family.value m s
  unfolding inc_all
  value-inc_all_ne l m [] s apart = refl
  value-inc_all_ne l m (n ∷ ns) s apart =
      value-inc_all_ne l m ns (family.inc_by l n s) apart ∙ family.value-inc_by_ne l m n s apart
