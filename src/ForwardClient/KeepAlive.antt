-- ===== src/ForwardClient/KeepAlive.antt =====
-- `check_keep_alive` of rust_http_proxy/src/forward_proxy_client.rs: whether a connection is kept.
pub mod Last
use rust_http_proxy.Common.{
  ℕ, Bool, true, false, not, if◌then◌else◌, any, Option, none, some, List, [], ◌∷◌, ◌++◌,
}
use rust_http_proxy.Common.Bytes.{Bytes, codes, eq_ignore_ascii_case, split, trim}
use rust_http_proxy.Http.{Http, Version, http_09, http_10, http_11, http_2, http_3}

-- A part of the list that says `keep-alive`.
abbrev pub says_keep_alive : Bytes → Bool
says_keep_alive part = eq_ignore_ascii_case (trim part) (codes "keep-alive")

-- HTTP/1.1 and later keep a connection by default.
abbrev pub keeps_by_default : Version → Bool
keeps_by_default http_09 = false
keeps_by_default http_10 = false
keeps_by_default _ = true

abbrev pub replaced : Option Bool → Option Bool → Option Bool
replaced (some b) before = some b
replaced none before = before

abbrev pub or_keep : Option Bool → Bool → Bool
or_keep (some b) before = b
or_keep none before = before

module _ (http : Http) where
  -- What one value says, if it says anything.
  unfoldable pub said : http.HeaderValue → Option Bool
  unfolding eq_ignore_ascii_case split trim
  said value = elim (http.to_str value) [
    | none ↦ none
    | some text ↦
        if eq_ignore_ascii_case text (codes "close")
        then some false
        else if any says_keep_alive (split b',' text)
        then some true
        else none
  ]

  -- The loop over the values.
  unfoldable pub scan_values : Option Bool → List http.HeaderValue → Option Bool
  unfolding said
  scan_values conn_keep_alive [] = conn_keep_alive
  scan_values conn_keep_alive (value ∷ values) =
      scan_values (replaced (said value) conn_keep_alive) values

  unfoldable pub get_keep_alive_val : List http.HeaderValue → Option Bool
  unfolding scan_values
  get_keep_alive_val values = scan_values none values

  unfoldable pub check_keep_alive : Version → http.HeaderMap → Bool → Bool
  unfolding get_keep_alive_val
  check_keep_alive version headers check_proxy =
      let by_default = keeps_by_default version in
      let by_proxy : Bool =
        if check_proxy
        then or_keep (get_keep_alive_val (http.get_all "proxy-connection" headers)) by_default
        else by_default in
      or_keep (get_keep_alive_val (http.get_all "connection" headers)) by_proxy
