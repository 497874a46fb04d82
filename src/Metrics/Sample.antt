-- ===== src/Metrics/Sample.antt =====
-- A family of counters as a function, for evaluating the model.
use mathlib.Core.Logic.{ite, if_pos, if_neg}
use rust_http_proxy.Common.{
  ℕ, ◌+◌, ◌%◌, ◌≡◌, refl, ◌≢◌, Bool, true, ◌&&◌, Bool-cases, inl, inr, arith,
}
use rust_http_proxy.Common.Bytes.{beq}
use rust_http_proxy.Common.Bytes.Laws.{beq_iff, beq_refl}
use rust_http_proxy.Labels.{AccessLabel, ReqLabels, ReverseProxyReqLabel}
use rust_http_proxy.Common.Numbers.{u64_mod}
use rust_http_proxy.Metrics.{Family}

module _ {L : Type 0} (same : Discrete L) where
  pub inc : L → ℕ → (L → ℕ) → L → ℕ
  inc l n s m = ite (same l m) ((s m + n) % u64_mod) (s m)

  pub inc_self : (l : L) (n : ℕ) (s : L → ℕ) → inc l n s l ≡ (s l + n) % u64_mod
  unfolding inc
  inc_self l n s = rw (if_pos _ refl)

  pub inc_ne : (l m : L) (n : ℕ) (s : L → ℕ) → l ≢ m → inc l n s m ≡ s m
  unfolding inc
  inc_ne l m n s h = rw (if_neg _ h)

  abbrev pub sample_family : Family L
  sample_family = record {
    State = L → ℕ;
    value = λ l s. s l;
    inc_by = inc;
    clear = λ s l. 0;
    value-inc_by_self = inc_self;
    value-inc_by_ne = inc_ne;
    value-clear = λ l s. refl;
  }

-- Labels are compared by their texts.
same_label : ReverseProxyReqLabel → ReverseProxyReqLabel → Bool
same_label x y = beq x.client y.client && (beq x.origin y.origin && beq x.upstream y.upstream)

same_label_sound : (x y : ReverseProxyReqLabel) → same_label x y ≡ true → x ≡ y
unfolding same_label
same_label_sound x y e =
    ground
      (arith, beq_iff x.client y.client, beq_iff x.origin y.origin, beq_iff x.upstream y.upstream)

same_label_refl : (x : ReverseProxyReqLabel) → same_label x x ≡ true
unfolding same_label
same_label_refl x = ground (arith, beq_refl x.client, beq_refl x.origin, beq_refl x.upstream)

pub label_discrete : Discrete ReverseProxyReqLabel
label_discrete x y = elim (Bool-cases (same_label x y)) [
  | inl e ↦ yes (same_label_sound x y e)
  | inr e ↦ no (λ p. cc (same_label_refl x, e, p))
]

same_req : ReqLabels → ReqLabels → Bool
same_req x y = beq x.referer y.referer && beq x.path y.path

same_req_sound : (x y : ReqLabels) → same_req x y ≡ true → x ≡ y
unfolding same_req
same_req_sound x y e = ground (arith, beq_iff x.referer y.referer, beq_iff x.path y.path)

same_req_refl : (x : ReqLabels) → same_req x x ≡ true
unfolding same_req
same_req_refl x = ground (arith, beq_refl x.referer, beq_refl x.path)

pub req_discrete : Discrete ReqLabels
req_discrete x y = elim (Bool-cases (same_req x y)) [
  | inl e ↦ yes (same_req_sound x y e)
  | inr e ↦ no (λ p. cc (same_req_refl x, e, p))
]

same_access : AccessLabel → AccessLabel → Bool
same_access x y = beq x.client y.client && (beq x.target y.target && beq x.username y.username)

same_access_sound : (x y : AccessLabel) → same_access x y ≡ true → x ≡ y
unfolding same_access
same_access_sound x y e =
    ground
      (arith, beq_iff x.client y.client, beq_iff x.target y.target, beq_iff x.username y.username)

same_access_refl : (x : AccessLabel) → same_access x x ≡ true
unfolding same_access
same_access_refl x = ground (arith, beq_refl x.client, beq_refl x.target, beq_refl x.username)

pub access_discrete : Discrete AccessLabel
access_discrete x y = elim (Bool-cases (same_access x y)) [
  | inl e ↦ yes (same_access_sound x y e)
  | inr e ↦ no (λ p. cc (same_access_refl x, e, p))
]
