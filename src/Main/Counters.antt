-- ===== src/Main/Counters.antt =====
-- Who sees the counters of a program that serves: the pages of rust_http_proxy/src/axum_handler.rs on
-- the servers that rust_http_proxy/src/main.rs starts.
use mathlib.Core.List.{Memᴰ}
use rust_http_proxy.Common.{
  ◌≡◌, refl, ◌∙◌, subst, false, any, Option, none, some, List, [], All-mem, Result, ok,
  Result-cases, inl, inr, arith,
}
use rust_http_proxy.Common.Bytes.{Bytes}
use rust_http_proxy.Http.{Http, get}
use rust_http_proxy.Ip.{SocketAddr}
use rust_http_proxy.Auth.{add_users, is_user, check_auth}
use rust_http_proxy.Auth.Table.{Stands}
use rust_http_proxy.Auth.Laws.{check_auth-Stands, check_auth-open}
use rust_http_proxy.Reverse.Setup.{Locations}
use rust_http_proxy.Log.{Logging}
use rust_http_proxy.Config.{Networks, Param}
use rust_http_proxy.Config.Load.{DebugTexts}
use rust_http_proxy.Config.Load.Laws.{load_from}
use rust_http_proxy.Server.Router.{
  Handler, ip, serve_metrics_page, count_stream_page, net_html, netx_html, net_json, find_route,
  routes, serve_metrics,
}
use rust_http_proxy.Server.Pages.{PageEnv, answer_of, answer_to, answer_at}
use rust_http_proxy.Main.{NewServer, start, serving}
use rust_http_proxy.Main.Servers.{ServesFor, start-ServesFor}

module _ (http : Http) (encode : Bytes → Bytes) (param : Param) (headers : http.HeaderMap) where
  -- Who may see the counters: everybody, if no `--users` value has both a name and a password, or else
  -- whoever sends the `Basic` header of such a value.
  pub data MaySee : Type 0 where
    open_to_all : any is_user param.users ≡ false → MaySee
    user :
        (value : http.HeaderValue) (header name : Bytes)
        → get http "authorization" headers ≡ some value
        → http.to_str value ≡ some header
        → Stands encode param.users header name
        → MaySee

  check_auth-MaySee :
      (found : Option Bytes)
      → check_auth http headers "authorization" (add_users encode param.users []) ≡ ok found
      → MaySee
  check_auth-MaySee none c =
      open_to_all ((check_auth-open http encode param.users headers "authorization").0 c)
  check_auth-MaySee (some name) c =
      let (value, header, given, read, stands) =
        check_auth-Stands http encode param.users headers "authorization" name c in
      user value header name given read stands

-- The same handlers with other counters.
abbrev pub with_counters : (http : Http) → PageEnv http → Option Bytes → PageEnv http
with_counters http env encoded = record env { encoded = encoded }

module _ (http : Http) (env : PageEnv http) (headers : http.HeaderMap) where
  abbrev Refused : Type 0
  Refused =
      (found : Option Bytes) → check_auth http headers "authorization" env.basic_auth ≡ ok found → ⊥

  serve_metrics-hidden :
      (x y : Option Bytes)
      → Refused
      → serve_metrics http env.from_static env.body404 env.error_text x env.basic_auth headers
        ≡ serve_metrics http env.from_static env.body404 env.error_text y env.basic_auth headers
  unfolding serve_metrics
  serve_metrics-hidden x y never =
      elim (Result-cases (check_auth http headers "authorization" env.basic_auth)) [
        | inl (found, passed) ↦ absurd (never found passed)
        | inr (inl (why, c)) ↦ ground arith
        | inr (inr c) ↦ ground arith
      ]

  answer_of-hidden :
      (x y : Option Bytes) (handler : Handler) (addr : SocketAddr) (hostname : Bytes)
      → Refused
      → answer_of http (with_counters http env x) handler headers addr hostname
        ≡ answer_of http (with_counters http env y) handler headers addr hostname
  unfolding answer_of
  answer_of-hidden x y ip addr hostname never = refl
  answer_of-hidden x y serve_metrics_page addr hostname never =
      rw (serve_metrics-hidden x y never) refl
  answer_of-hidden x y count_stream_page addr hostname never = refl
  answer_of-hidden x y net_html addr hostname never = refl
  answer_of-hidden x y netx_html addr hostname never = refl
  answer_of-hidden x y net_json addr hostname never = refl

  answer_to-hidden :
      (x y : Option Bytes) (found : Option Handler) (addr : SocketAddr) (hostname : Bytes)
      → Refused
      → answer_to http (with_counters http env x) found headers addr hostname
        ≡ answer_to http (with_counters http env y) found headers addr hostname
  unfolding answer_to
  answer_to-hidden x y none addr hostname never = refl
  answer_to-hidden x y (some handler) addr hostname never =
      answer_of-hidden x y handler addr hostname never

-- On each server of a program that serves, nothing that a `GET` is answered, at any path, depends on the
-- counters, unless its `authorization` header is the `Basic` one of a `--users` value with a name and a
-- password, or no value has both.
pub answer_at-hidden :
    (net : Networks) (debug : DebugTexts net) (http : Http) (encode : Bytes → Bytes)
    (load : Bytes → Result Locations) (l : Logging) (build_time : Bytes) (provider : Option Bytes)
    {Cache : Type 0} (empty_cache : Cache) (param : Param)
    (servers : List (NewServer net empty_cache)) (server : NewServer net empty_cache)
    (env : PageEnv http) (x y : Option Bytes) (path : Bytes) (headers : http.HeaderMap)
    (addr : SocketAddr) (hostname : Bytes)
    → start net empty_cache (load_from net debug http encode load l build_time provider param)
      ≡ serving servers
    → Memᴰ server servers
    → env.basic_auth ≡ server.basic_auth
    → ¬ MaySee http encode param headers
    → answer_at http (with_counters http env x) path headers addr hostname
      ≡ answer_at http (with_counters http env y) path headers addr hostname
unfolding answer_at
answer_at-hidden net debug http encode load l build_time provider empty_cache param servers server
      env x y path headers addr hostname e here state stranger =
    let serves =
      All-mem (ServesFor net debug http encode load l build_time provider empty_cache param) servers
        (start-ServesFor net debug http encode load l build_time provider empty_cache param servers
          e).all_serve
        here in
    answer_to-hidden http env headers x y (find_route path routes) addr hostname (λ found passed.
      stranger (
        check_auth-MaySee http encode param headers found (
          subst (λ table. check_auth http headers "authorization" table ≡ ok found)
            (state ∙ serves.same_users) passed)))
