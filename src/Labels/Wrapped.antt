-- ===== src/Labels/Wrapped.antt =====
-- prom_label/src/lib.rs: the wrapper around a label that the counters are keyed by. Encoding a label for
-- the metrics page belongs to the `prometheus_client` crate.
use rust_http_proxy.Common.{◌≡◌, refl}

-- `LabelImpl`, whose `Eq` and `Hash` are those of what it wraps.
pub record LabelImpl (R : Type 0) : Type 0 where
  pub inner : R

unfoldable pub new : {R : Type 0} → R → LabelImpl R
new s = record { inner = s }

unfoldable pub deref : {R : Type 0} → LabelImpl R → R
deref l = l.inner

unfoldable pub encode : {R E : Type 0} → (R → E) → LabelImpl R → E
unfolding deref
encode encode_inner l = encode_inner (deref l)

-- A wrapped label is encoded as the label itself.
pub encode-new :
    {R E : Type 0} (encode_inner : R → E) (s : R) → encode encode_inner (new s) ≡ encode_inner s
unfolding encode new deref
encode-new encode_inner s = refl
