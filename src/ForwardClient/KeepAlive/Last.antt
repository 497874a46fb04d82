-- ===== src/ForwardClient/KeepAlive/Last.antt =====
-- `check_keep_alive` of rust_http_proxy/src/forward_proxy_client.rs against a description that reads
-- the header fields from the end.
use rust_http_proxy.Common.{
  ◌≡◌, refl, sym, ◌∙◌, Bool, true, false, Option, none, some, List, [], ◌∷◌, ◌++◌,
}
use rust_http_proxy.Http.{Http, Version}
use rust_http_proxy.ForwardClient.KeepAlive.{
  said, replaced, scan_values, get_keep_alive_val, or_keep, keeps_by_default, check_keep_alive,
}

module _ (http : Http) where
  -- What the last value says that says anything.
  abbrev pub last_said : List http.HeaderValue → Option Bool
  last_said [] = none
  last_said (value ∷ values) = replaced (last_said values) (said http value)

  -- The values that count, the ones that outrank others behind them.
  abbrev pub counting : http.HeaderMap → Bool → List http.HeaderValue
  counting headers true =
      http.get_all "proxy-connection" headers ++ http.get_all "connection" headers
  counting headers false = http.get_all "connection" headers

  replaced_assoc : (a b c : Option Bool) → replaced a (replaced b c) ≡ replaced (replaced a b) c
  replaced_assoc (some a) b c = refl
  replaced_assoc none b c = refl

  replaced-none : (a : Option Bool) → replaced a none ≡ a
  replaced-none (some a) = refl
  replaced-none none = refl

  or_keep-replaced :
      (a b : Option Bool) (before : Bool)
      → or_keep a (or_keep b before) ≡ or_keep (replaced a b) before
  or_keep-replaced (some a) b before = refl
  or_keep-replaced none b before = refl

  scan_values-last_said :
      (before : Option Bool) (values : List http.HeaderValue)
      → scan_values http before values ≡ replaced (last_said values) before
  unfolding scan_values
  scan_values-last_said before [] = refl
  scan_values-last_said before (value ∷ values) =
      scan_values-last_said (replaced (said http value) before) values
      ∙ replaced_assoc (last_said values) (said http value) before

  last_said-append :
      (xs ys : List http.HeaderValue)
      → last_said (xs ++ ys) ≡ replaced (last_said ys) (last_said xs)
  last_said-append [] ys = sym (replaced-none (last_said ys))
  last_said-append (x ∷ xs) ys =
      rw (last_said-append xs ys) (sym (replaced_assoc (last_said ys) _ _))

  -- The values of a header field, if any says so, decide; else what was decided before.
  get_keep_alive_val-last_said :
      (values : List http.HeaderValue) → get_keep_alive_val http values ≡ last_said values
  unfolding get_keep_alive_val
  get_keep_alive_val-last_said values =
      scan_values-last_said none values ∙ replaced-none (last_said values)

  or_keep-append :
      (xs ys : List http.HeaderValue) (before : Bool)
      → or_keep (last_said ys) (or_keep (last_said xs) before)
        ≡ or_keep (last_said (xs ++ ys)) before
  or_keep-append xs ys before =
      rw (last_said-append xs ys) (or_keep-replaced (last_said ys) (last_said xs) before)

-- A connection is kept as the last value says that says anything, with the `Proxy-Connection` values,
-- where they are looked at, before the `Connection` values; if none says anything, it is kept on
-- HTTP/1.1 and later and closed on HTTP/0.9 and HTTP/1.0.
pub check_keep_alive-last_said :
    (http : Http) (version : Version) (headers : http.HeaderMap) (check_proxy : Bool)
    → check_keep_alive http version headers check_proxy
      ≡ or_keep (last_said http (counting http headers check_proxy)) (keeps_by_default version)
unfolding check_keep_alive
check_keep_alive-last_said http version headers true =
    rw
      (
        get_keep_alive_val-last_said http (http.get_all "proxy-connection" headers),
        get_keep_alive_val-last_said http (http.get_all "connection" headers),
      )
      (or_keep-append http (http.get_all "proxy-connection" headers)
        (http.get_all "connection" headers) (keeps_by_default version))
check_keep_alive-last_said http version headers false =
    rw (get_keep_alive_val-last_said http (http.get_all "connection" headers)) refl
