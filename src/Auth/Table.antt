-- ===== src/Auth/Table.antt =====
-- The table of users that rust_http_proxy/src/config.rs makes from the command line.
use mathlib.Core.List.{Memᴰ}
use mathlib.Core.List.Memᴰ
use rust_http_proxy.Common.{
  ◌≡◌, refl, sym, subst, true, false, not, if◌then◌else◌, Bool-cases, inl, inr, Option, some, List,
  [], ◌∷◌, All, All-map, ok, ok-injective, any, is_empty, arith,
}
use rust_http_proxy.Common.Bytes.{Bytes, codes, beq}
use rust_http_proxy.Common.Bytes.Laws.{beq_iff, beq_refl, beq_sound}
use rust_http_proxy.Auth.{
  BasicAuth, insert, username, is_user, basic_key, add_user, add_users, match_auth,
}
use mathlib.Core.List.{append_cancel_left}

module _ (encode : Bytes → Bytes) where
  -- A table entry that stands for a listed user.
  pub record Stands (users : List Bytes) (header name : Bytes) : Type 0 where
    pub raw : Bytes
    pub listed : Memᴰ raw users
    pub valid : is_user raw ≡ true
    pub same_key : header ≡ basic_key encode raw
    pub same_name : name ≡ username raw

  abbrev AllStand : List Bytes → BasicAuth → Type 0
  AllStand users = All (λ e. Stands users e.0 e.1)

  insert-AllStand :
      (users : List Bytes) (key name : Bytes) (m : BasicAuth)
      → Stands users key name
      → AllStand users m
      → AllStand users (insert key name m)
  unfolding insert
  insert-AllStand users key name [] s h = (s, tt)
  insert-AllStand users key name ((k, v) ∷ m) s (p, h) = elim (Bool-cases (beq k key)) [
    | inl e ↦ rw e (rw (beq_sound k key e) s, h)
    | inr e ↦ rw e (p, insert-AllStand users key name m s h)
  ]

  -- `add_user` by its condition, with `insert` left shut.
  add_user_lem :
      (raw : Bytes) (m : BasicAuth)
      → add_user encode raw m
        ≡ (if is_user raw then insert (basic_key encode raw) (username raw) m else m)
  add_user_lem raw m = unfold add_user in refl

  add_user-AllStand :
      (users : List Bytes) (raw : Bytes) (m : BasicAuth)
      → Memᴰ raw users
      → AllStand users m
      → AllStand users (add_user encode raw m)
  add_user-AllStand users raw m listed h = elim (Bool-cases (is_user raw)) [
    | inl e ↦
        rw (add_user_lem raw m, e)
          (insert-AllStand users (basic_key encode raw) (username raw) m
            (record { raw = raw; listed = listed; valid = e; same_key = refl; same_name = refl }) h)
    | inr e ↦ rw (add_user_lem raw m, e) h
  ]

  pub add_users-AllStand :
      (users us : List Bytes) (m : BasicAuth)
      → All (λ u. Memᴰ u users) us
      → AllStand users m
      → AllStand users (add_users encode us m)
  unfolding add_users
  add_users-AllStand users [] m hs h = h
  add_users-AllStand users (u ∷ us) m (hu, hs) h =
      add_users-AllStand users us (add_user encode u m) hs (add_user-AllStand users u m hu h)

pub All-listed {ℓ} : {A : Type ℓ} (xs : List A) → All (λ x. Memᴰ x xs) xs
All-listed [] = tt
All-listed (x ∷ xs) = (Memᴰ.head refl, All-map (λ y m. Memᴰ.tail m) xs (All-listed xs))

pub match_auth-All :
    (P : Bytes → Bytes → Type 0) (header : Bytes) (m : BasicAuth) {r : Option Bytes}
    → All (λ e. P e.0 e.1) m
    → match_auth header m ≡ ok r
    → (name : Bytes) × (r ≡ some name) × P header name
unfolding match_auth
match_auth-All P header [] h e = cc
match_auth-All P header ((k, v) ∷ m) {r} (p, h) e = elim (Bool-cases (beq header k)) [
  | inl hit ↦
      (v, sym (ok-injective (rw hit at e)), subst (λ s. P s v) (sym (beq_sound header k hit)) p)
  | inr miss ↦ match_auth-All P header m h (rw miss at e)
]

pub trivial : (m : BasicAuth) → All (λ e. Unit {0}) m
trivial [] = tt
trivial (e ∷ m) = (tt, trivial m)

pub match_auth-insert :
    (header key name : Bytes) (m : BasicAuth)
    → match_auth header (insert key name m)
      ≡ (if beq header key then ok (some name) else match_auth header m)
unfolding match_auth insert
match_auth-insert header key name [] = refl
match_auth-insert header key name ((k, v) ∷ m) = ground (
  arith,
  beq_iff k key,
  beq_iff header k,
  beq_iff header key,
  match_auth-insert header key name m,
)

module _ (encode : Bytes → Bytes)
    (encode_injective : (s t : Bytes) → encode s ≡ encode t → s ≡ t) where
  basic_key-injective : (s t : Bytes) → basic_key encode s ≡ basic_key encode t → s ≡ t
  unfolding basic_key
  basic_key-injective s t e = encode_injective s t (append_cancel_left (codes "Basic ") _ _ e)

  -- The table's answer for a user's own key.
  abbrev Known : Bytes → BasicAuth → Type 0
  Known raw m = match_auth (basic_key encode raw) m ≡ ok (some (username raw))

  add_user-Known : (raw u : Bytes) (m : BasicAuth) → Known raw m → Known raw (add_user encode u m)
  add_user-Known raw u m k = elim (Bool-cases (is_user u)) [
    | inr e ↦ rw (add_user_lem encode u m, e) k
    | inl e ↦
        rw (add_user_lem encode u m, e, match_auth-insert)
          (elim (Bool-cases (beq (basic_key encode raw) (basic_key encode u))) [
            | inl same ↦ rw same (rw (basic_key-injective raw u (beq_sound _ _ same)))
            | inr other ↦ rw other k
          ])
  ]

  add_users-Known :
      (raw : Bytes) (us : List Bytes) (m : BasicAuth)
      → Known raw m
      → Known raw (add_users encode us m)
  unfolding add_users
  add_users-Known raw [] m k = k
  add_users-Known raw (u ∷ us) m k =
      add_users-Known raw us (add_user encode u m) (add_user-Known raw u m k)

  add_user-new :
      (raw : Bytes) (m : BasicAuth) → is_user raw ≡ true → Known raw (add_user encode raw m)
  add_user-new raw m v =
      rw (add_user_lem encode raw m, v, match_auth-insert, beq_refl (basic_key encode raw))

  pub add_users-listed :
      (raw : Bytes) (us : List Bytes) (m : BasicAuth)
      → Memᴰ raw us
      → is_user raw ≡ true
      → Known raw (add_users encode us m)
  unfolding add_users
  add_users-listed raw [] m l v = absurd (Memᴰ.not-nil l)
  add_users-listed raw (u ∷ us) m (Memᴰ.head e) v =
      add_users-Known raw us (add_user encode u m) (rw (← e) (add_user-new raw m v))
  add_users-listed raw (u ∷ us) m (Memᴰ.tail l) v =
      add_users-listed raw us (add_user encode u m) l v

insert-ne-nil : (key name : Bytes) (m : BasicAuth) → is_empty (insert key name m) ≡ false
unfolding insert
insert-ne-nil key name [] = refl
insert-ne-nil key name ((k, v) ∷ m) = ground arith

add_users-ne-nil :
    (encode : Bytes → Bytes) (us : List Bytes) (m : BasicAuth)
    → is_empty m ≡ false
    → is_empty (add_users encode us m) ≡ false
unfolding add_users add_user insert
add_users-ne-nil encode [] m h = h
add_users-ne-nil encode (u ∷ us) [] h = cc
add_users-ne-nil encode (u ∷ us) (x ∷ m) h = add_users-ne-nil encode us _ (ground arith)

pub add_users-is_empty :
    (encode : Bytes → Bytes) (us : List Bytes)
    → is_empty (add_users encode us []) ≡ not (any is_user us)
unfolding add_users
add_users-is_empty encode [] = refl
add_users-is_empty encode (u ∷ us) = elim (Bool-cases (is_user u)) [
  | inl e ↦
      rw (add_user_lem encode u [], e)
        (add_users-ne-nil encode us _ (insert-ne-nil (basic_key encode u) (username u) []))
  | inr e ↦ rw (add_user_lem encode u [], e) (add_users-is_empty encode us)
]
