-- ===== src/Common/Bytes/Laws.antt =====
-- Laws of the functions on texts: equality, the lexicographic order, and prefixes.
use rust_http_proxy.Common.Lists.{length, drop}
use rust_http_proxy.Common.Bytes.{Bytes, beq, cmp, starts_with}
use Prim.Native.Nat.{Ordering, ◌≤◌}
use mathlib.Core.Path.{◌≡◌, refl}
use mathlib.Core.Logic.{◌≢◌, ◌↔◌}
use mathlib.Core.Bool.{true}
use mathlib.Core.List.{[], ◌∷◌, ◌++◌}
use native.Mathlib.Omega.{arith}

pub beq_refl : (s : Bytes) → beq s s ≡ true
unfolding beq
beq_refl [] = refl
beq_refl (a ∷ s) = ground (arith, beq_refl s)

pub beq_sound : (s t : Bytes) → beq s t ≡ true → s ≡ t
unfolding beq
beq_sound [] [] h = refl
beq_sound [] (b ∷ t) h = cc
beq_sound (a ∷ s) [] h = cc
beq_sound (a ∷ s) (b ∷ t) h = ground (arith, beq_sound s t)

pub beq_iff : (s t : Bytes) → (beq s t ≡ true) ↔ (s ≡ t)
beq_iff s t = (beq_sound s t, λ e. rw e (beq_refl t))

pub cmp_refl : (s : Bytes) → cmp s s ≡ Ordering.eq
unfolding cmp
cmp_refl [] = refl
cmp_refl (a ∷ s) = ground (arith, cmp_refl s)

pub cmp_flip : (s t : Bytes) → cmp s t ≡ Ordering.lt → cmp t s ≡ Ordering.gt
unfolding cmp
cmp_flip [] [] h = cc
cmp_flip [] (b ∷ t) h = refl
cmp_flip (a ∷ s) [] h = cc
cmp_flip (a ∷ s) (b ∷ t) h = ground (arith, cmp_flip s t)

pub cmp_flip_gt : (s t : Bytes) → cmp s t ≡ Ordering.gt → cmp t s ≡ Ordering.lt
unfolding cmp
cmp_flip_gt [] [] h = cc
cmp_flip_gt [] (b ∷ t) h = cc
cmp_flip_gt (a ∷ s) [] h = refl
cmp_flip_gt (a ∷ s) (b ∷ t) h = ground (arith, cmp_flip_gt s t)

pub cmp_sound : (s t : Bytes) → cmp s t ≡ Ordering.eq → s ≡ t
unfolding cmp
cmp_sound [] [] h = refl
cmp_sound [] (b ∷ t) h = cc
cmp_sound (a ∷ s) [] h = cc
cmp_sound (a ∷ s) (b ∷ t) h = ground (arith, cmp_sound s t)

-- A text that is not below another is not below anything that the other is not below.
pub cmp_trans :
    (s t u : Bytes) → cmp s t ≢ Ordering.lt → cmp t u ≢ Ordering.lt → cmp s u ≢ Ordering.lt
unfolding cmp
cmp_trans [] [] u h k = k
cmp_trans [] (b ∷ t) u h k = absurd (h refl)
cmp_trans (a ∷ s) t [] h k = ground arith
cmp_trans (a ∷ s) [] (c ∷ u) h k = absurd (k refl)
cmp_trans (a ∷ s) (b ∷ t) (c ∷ u) h k = ground (arith, cmp_trans s t u)

pub starts_with-append : (p s : Bytes) → starts_with (p ++ s) p ≡ true
unfolding starts_with
starts_with-append [] s = refl
starts_with-append (a ∷ p) s = ground (arith, starts_with-append p s)

-- A text that starts with another is that other text and what is left behind its length.
pub starts_with-split : (s p : Bytes) → starts_with s p ≡ true → s ≡ p ++ drop (length p) s
unfolding starts_with
starts_with-split s [] h = refl
starts_with-split [] (b ∷ p) h = cc
starts_with-split (a ∷ s) (b ∷ p) h = ground (arith, starts_with-split s p)

pub starts_with-length : (s p : Bytes) → starts_with s p ≡ true → length p ≤ length s
unfolding starts_with
starts_with-length s [] h = omega arith
starts_with-length [] (b ∷ p) h = cc
starts_with-length (a ∷ s) (b ∷ p) h = ground (arith, starts_with-length s p)

-- A prefix of a prefix is a prefix.
pub starts_with_trans :
    (s p q : Bytes) → starts_with s p ≡ true → starts_with p q ≡ true → starts_with s q ≡ true
unfolding starts_with
starts_with_trans s p [] hp hq = refl
starts_with_trans s [] (c ∷ q) hp hq = cc
starts_with_trans [] (b ∷ p) (c ∷ q) hp hq = cc
starts_with_trans (a ∷ s) (b ∷ p) (c ∷ q) hp hq = ground (arith, starts_with_trans s p q)

-- Of two prefixes of one text, the one that is not below the other is at least as long.
pub prefix_order :
    (s p q : Bytes)
    → starts_with s p ≡ true
    → starts_with s q ≡ true
    → cmp p q ≢ Ordering.lt
    → length q ≤ length p
unfolding starts_with cmp
prefix_order s p [] hp hq h = omega arith
prefix_order s [] (c ∷ q) hp hq h = absurd (h refl)
prefix_order [] (b ∷ p) (c ∷ q) hp hq h = cc
prefix_order (a ∷ s) (b ∷ p) (c ∷ q) hp hq h = ground (arith, prefix_order s p q)
