-- ===== src/NetMonitor/Window.antt =====
-- What the buffer of the monitor holds: `NetMonitor::start` of rust_http_proxy/src/linux_monitor.rs.
use rust_http_proxy.Common.{
  ℕ, suc, ◌-◌, ◌≤◌, ◌≡◌, refl, sym, ap, ◌∙◌, true, false, Bool-cases, inl, inr, ◌==◌, ltb,
  if◌then◌else◌, List, [], ◌∷◌, ◌++◌, append_assoc, append-nil, length, length-append, length-drop,
  drop, arith,
}
use rust_http_proxy.NetMonitor.{
  TimeValue, NetMonitor, Reading, new, size, speed, push, round, rounds,
}

abbrev pub last_n {ℓ} : {A : Type ℓ} → ℕ → List A → List A
last_n n xs = drop (length xs - n) xs

-- The speeds between each reading and the one before; none where both counters before were 0.
unfoldable pub speeds : ℕ → ℕ → List Reading → List TimeValue
speeds egress ingress [] = []
speeds egress ingress (r ∷ rs) =
    if egress == 0
    then if ingress == 0
      then speeds r.egress r.ingress rs
      else record {
        time = r.time;
        egress = speed r.egress egress;
        ingress = speed r.ingress ingress;
      }
        ∷ speeds r.egress r.ingress rs
    else record { time = r.time; egress = speed r.egress egress; ingress = speed r.ingress ingress }
      ∷ speeds r.egress r.ingress rs

-- What a round adds.
abbrev measured : Reading → NetMonitor → TimeValue
measured r m = record {
  time = r.time;
  egress = speed r.egress m.last_egress;
  ingress = speed r.ingress m.last_ingress;
}

last_n-all : {A : Type 0} (n : ℕ) (xs : List A) → length xs ≤ n → last_n n xs ≡ xs
last_n-all n xs h = let none_left : length xs - n ≡ 0 = omega arith in rw none_left

last_n-cons :
    {A : Type 0} (n : ℕ) (x : A) (xs : List A) → n ≤ length xs → last_n n (x ∷ xs) ≡ last_n n xs
last_n-cons n x xs h =
    let one_more : suc (length xs) - n ≡ suc (length xs - n) = omega arith in rw one_more

push-full :
    (value x : TimeValue) (b : List TimeValue)
    → ltb size (length (x ∷ b ++ value ∷ [])) ≡ true
    → push value (x ∷ b) ≡ b ++ value ∷ []
push-full value x b e = unfold push in ground arith

push-free :
    (value : TimeValue) (b : List TimeValue)
    → ltb size (length (b ++ value ∷ [])) ≡ false
    → push value b ≡ b ++ value ∷ []
push-free value b e = unfold push in ground arith

push-last_n :
    (value : TimeValue) (buffer rest : List TimeValue)
    → length buffer ≤ size
    → last_n size (push value buffer ++ rest) ≡ last_n size (buffer ++ value ∷ rest)
push-last_n value [] rest h = unfold push in refl
push-last_n value (x ∷ b) rest h = elim (Bool-cases (ltb size (length (x ∷ b ++ value ∷ [])))) [
  | inl full ↦
      ap (λ l. last_n size (l ++ rest)) (push-full value x b full)
      ∙ ap (last_n size) (append_assoc b (value ∷ []) rest)
      ∙ sym (
          last_n-cons size x (b ++ value ∷ rest)
            (ground (arith, length-append b (value ∷ []), length-append b (value ∷ rest))))
  | inr free ↦
      ap (λ l. last_n size (l ++ rest)) (push-free value (x ∷ b) free)
      ∙ ap (last_n size) (append_assoc (x ∷ b) (value ∷ []) rest)
]

push-length :
    (value : TimeValue) (buffer : List TimeValue)
    → length buffer ≤ size
    → length (push value buffer) ≤ size
push-length value buffer h =
    unfold push in
    ground (arith, length-append buffer (value ∷ []), length-drop 1 (buffer ++ value ∷ []))

rounds-last_n :
    (rs : List Reading) (m : NetMonitor)
    → length m.buffer ≤ size
    → (rounds rs m).buffer ≡ last_n size (m.buffer ++ speeds m.last_egress m.last_ingress rs)
unfolding rounds speeds
rounds-last_n [] m h = rw (append-nil m.buffer) (sym (last_n-all size m.buffer h))
rounds-last_n (r ∷ rs) m h =
    rounds-last_n rs (round r m) (ground (arith, push-length (measured r m) m.buffer h))
    ∙ ground (arith, push-last_n (measured r m) m.buffer (speeds r.egress r.ingress rs) h)

last_n-length : {A : Type 0} (n : ℕ) (xs : List A) → length (last_n n xs) ≤ n
last_n-length n xs = omega (arith, length-drop (length xs - n) xs)

-- After any rounds from the start, the buffer holds the last 180 of the speeds between a reading and
-- the one before, in their order, where readings after two zeros give none; so never more than 180.
pub rounds-new :
    (rs : List Reading)
    → ((rounds rs new).buffer ≡ last_n size (speeds 0 0 rs)) × (length (rounds rs new).buffer ≤ 180)
rounds-new rs =
    let held = rounds-last_n rs new (omega arith) in
    (held, rw held (last_n-length size (speeds 0 0 rs)))
