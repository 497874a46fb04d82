-- ===== src/Auth.antt =====
-- Basic authentication: the table of users built in rust_http_proxy/src/config.rs, `check_auth` of
-- rust_http_proxy/src/axum_handler.rs and `build_authenticate_resp` of rust_http_proxy/src/proxy.rs.
-- A hash map is the list of its entries in the order in which it is iterated.
pub mod Table
pub mod Laws
use rust_http_proxy.Common.{
  ℕ, Bool, not, ◌&&◌, true, false, if◌then◌else◌, Option, none, some, List, [], ◌∷◌, ◌++◌, is_empty,
  Result, ok, err, panic, ◌>>=◌, ok_or, io, wrapped, ErrorKind, not_found, permission_denied,
}
use rust_http_proxy.Common.Bytes.{Bytes, codes, beq, split}
use rust_http_proxy.Http.{Http, HeaderName, Response, get, full_body}

-- From the key `Basic …` to the user's name.
abbrev pub BasicAuth : Type 0
BasicAuth = List (Bytes × Bytes)

-- `HashMap::insert`
unfoldable pub insert : Bytes → Bytes → BasicAuth → BasicAuth
insert key value [] = (key, value) ∷ []
insert key value ((k, v) ∷ m) = if beq k key then (k, value) ∷ m else (k, v) ∷ insert key value m

-- `next().unwrap_or("")`
abbrev pub next_or_empty : List Bytes → Bytes
next_or_empty [] = codes ""
next_or_empty (s ∷ ss) = s

abbrev pub after_next {ℓ} : {A : Type ℓ} → List A → List A
after_next [] = []
after_next (s ∷ ss) = ss

unfoldable pub username : Bytes → Bytes
unfolding split
username raw_user = next_or_empty (split b':' raw_user)

unfoldable pub password : Bytes → Bytes
unfolding split
password raw_user = next_or_empty (after_next (split b':' raw_user))

-- The condition under which a `--users` value is taken.
unfoldable pub is_user : Bytes → Bool
unfolding username password
is_user raw_user = not (is_empty (username raw_user)) && not (is_empty (password raw_user))

-- `encode` is the standard base64 of the `base64` crate.
module _ (encode : Bytes → Bytes) where
  unfoldable pub basic_key : Bytes → Bytes
  basic_key raw_user = codes "Basic " ++ encode raw_user

  -- One round of the loop over the `--users`.
  unfoldable pub add_user : Bytes → BasicAuth → BasicAuth
  unfolding insert is_user basic_key
  add_user raw_user basic_auth =
      if is_user raw_user
      then insert (basic_key raw_user) (username raw_user) basic_auth
      else basic_auth

  unfoldable pub add_users : List Bytes → BasicAuth → BasicAuth
  unfolding add_user
  add_users [] basic_auth = basic_auth
  add_users (u ∷ us) basic_auth = add_users us (add_user u basic_auth)

-- The loop over the configured keys.
unfoldable pub match_auth : Bytes → BasicAuth → Result (Option Bytes)
match_auth auth_header [] = err (io permission_denied "wrong Authorization header value")
match_auth auth_header ((key, value) ∷ m) =
    if beq auth_header key then ok (some value) else match_auth auth_header m

module _ (http : Http) where
  unfoldable pub check_auth : http.HeaderMap → HeaderName → BasicAuth → Result (Option Bytes)
  unfolding match_auth
  check_auth headers header_name [] = ok none
  check_auth headers header_name (entry ∷ m) = do
    value ← ok_or (io not_found "no Authorization header found") (get http header_name headers)
    auth_header ← ok_or (wrapped permission_denied) (http.to_str value)
    match_auth auth_header (entry ∷ m)

  -- `static_header` is `HeaderValue::from_static` of the challenge.
  unfoldable pub build_authenticate_resp : http.HeaderValue → Bool → Response http
  build_authenticate_resp static_header for_proxy = record {
    status = if for_proxy then 407 else 401;
    headers =
        http.append (if for_proxy then "proxy-authenticate" else "www-authenticate") static_header
          http.no_headers;
    body = full_body (codes "auth need");
  }
