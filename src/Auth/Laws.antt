-- ===== src/Auth/Laws.antt =====
-- Who passes `check_auth` with the users of the command line.
use mathlib.Core.List.{Memᴰ}
use rust_http_proxy.Common.{
  ◌≡◌, refl, sym, subst, true, false, not, Option, none, some, List, [], ◌∷◌, All, ok, ok_or,
  >>=-eq-ok, ok_or-eq-ok, any, is_empty, ◌↔◌, arith,
}
use rust_http_proxy.Common.Bytes.{Bytes}
use rust_http_proxy.Http.{Http, HeaderName, get}
use rust_http_proxy.Auth.Table.{
  Stands, add_users-AllStand, match_auth-All, add_users-listed, add_users-is_empty, trivial,
  All-listed,
}
use rust_http_proxy.Auth.{
  BasicAuth, username, is_user, basic_key, add_users, match_auth, check_auth,
}
use mathlib.Core.Option.{some-injective}

module _ (http : Http) where
  open http use {HeaderMap, to_str}

  -- With a match in the table, a request with that header passes.
  check_auth-match :
      (headers : HeaderMap) (header_name : HeaderName) (m : BasicAuth) {value : http.HeaderValue}
      {header name : Bytes}
      → get http header_name headers ≡ some value
      → to_str value ≡ some header
      → match_auth header m ≡ ok (some name)
      → check_auth http headers header_name m ≡ ok (some name)
  check_auth-match headers header_name [] g t e = unfold match_auth in cc
  check_auth-match headers header_name (x ∷ m) g t e = unfold check_auth in rw (g, t) e

  check_auth-cons :
      (headers : HeaderMap) (header_name : HeaderName) (x : Bytes × Bytes) (m : BasicAuth)
      (r : Option Bytes)
      → check_auth http headers header_name (x ∷ m) ≡ ok r
      → (value : http.HeaderValue) × (header : Bytes) × (get http header_name headers ≡ some value)
        × (to_str value ≡ some header)
        × (match_auth header (x ∷ m) ≡ ok r)
  unfolding check_auth
  check_auth-cons headers header_name x m r e =
      let (value, g, e1) = >>=-eq-ok (ok_or _ (get http header_name headers)) _ e in
      let (header, t, e2) = >>=-eq-ok (ok_or _ (to_str value)) _ e1 in
      (value, header, ok_or-eq-ok _ _ g, ok_or-eq-ok _ _ t, e2)

  -- A request that passes with a name carries the header of a listed user whose name it is: the
  -- `Basic` scheme and the encoding of that user's text, which has a name and a password.
  pub check_auth-Stands :
      (encode : Bytes → Bytes) (users : List Bytes) (headers : HeaderMap) (header_name : HeaderName)
      (name : Bytes)
      → check_auth http headers header_name (add_users encode users []) ≡ ok (some name)
      → (value : http.HeaderValue) × (header : Bytes) × (get http header_name headers ≡ some value)
        × (to_str value ≡ some header)
        × Stands encode users header name
  check_auth-Stands encode users headers header_name name e =
      from (add_users encode users [])
        (add_users-AllStand encode users users [] (All-listed users) tt) e
    where
      from :
          (m : BasicAuth)
          → All (λ e. Stands encode users e.0 e.1) m
          → check_auth http headers header_name m ≡ ok (some name)
          → (value : http.HeaderValue) × (header : Bytes) × (get http header_name headers
              ≡ some value)
            × (to_str value ≡ some header)
            × Stands encode users header name
      from [] h e = absurd (unfold check_auth in cc)
      from (x ∷ m) h e =
          let (value, header, g, t, e') = check_auth-cons headers header_name x m (some name) e in
          let (n, same, stands) = match_auth-All (Stands encode users) header (x ∷ m) h e' in
          (
            value,
            header,
            g,
            t,
            subst (Stands encode users header) (sym (some-injective name n same)) stands,
          )

module _ (encode : Bytes → Bytes)
    (encode_injective : (s t : Bytes) → encode s ≡ encode t → s ≡ t) where
  -- Every listed user whose text has a name and a password passes, under that name, with the `Basic`
  -- header of the text, if the encoding maps no two texts to one.
  pub check_auth-listed :
      (http : Http) (users : List Bytes) (raw : Bytes) (headers : http.HeaderMap)
      (header_name : HeaderName) (value : http.HeaderValue)
      → Memᴰ raw users
      → is_user raw ≡ true
      → get http header_name headers ≡ some value
      → http.to_str value ≡ some (basic_key encode raw)
      → check_auth http headers header_name (add_users encode users []) ≡ ok (some (username raw))
  check_auth-listed http users raw headers header_name value l v g t =
      check_auth-match http headers header_name _ g t
        (add_users-listed encode encode_injective raw users [] l v)

-- A request passes without a name, whatever headers it has, exactly if no `--users` value has both a
-- name and a password; this includes a command line whose values are all malformed.
pub check_auth-open :
    (http : Http) (encode : Bytes → Bytes) (users : List Bytes) (headers : http.HeaderMap)
    (header_name : HeaderName)
    → (check_auth http headers header_name (add_users encode users []) ≡ ok none)
      ↔ (any is_user users ≡ false)
check_auth-open http encode users headers header_name =
    from (add_users encode users []) (add_users-is_empty encode users)
  where
    never : (h : Bytes) (m : BasicAuth) → match_auth h m ≡ ok none → ⊥
    never h m e = let (n, same, _) = match_auth-All (λ _ _. Unit {0}) h m (trivial m) e in cc

    from :
        (m : BasicAuth)
        → is_empty m ≡ not (any is_user users)
        → (check_auth http headers header_name m ≡ ok none) ↔ (any is_user users ≡ false)
    from [] e = (λ _. ground arith, λ _. unfold check_auth in refl)
    from (x ∷ m) e = (
      λ h.
          let (_, header, _, _, e') = check_auth-cons http headers header_name x m none h in
          absurd (never header (x ∷ m) e'),
      λ h. absurd (ground arith),
    )
