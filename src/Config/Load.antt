-- ===== src/Config/Load.antt =====
-- `load_config` and `log_config` of rust_http_proxy/src/config.rs: the log is set up first, then the
-- configuration is made from the command line and written to the log. The lines that making it writes
-- are left out; what `{:?}` prints is an argument.
pub mod Laws
use rust_http_proxy.Common.{
  ℕ, ◌+◌, ◌-◌, ◌/◌, ◌==◌, inl, inr, if◌then◌else◌, is_empty, replicate, Option, none, some, List,
  [], ◌∷◌, ◌++◌, Result, ok, err, panic, IoError,
}
use rust_http_proxy.Common.Bytes.{Bytes, codes}
use rust_http_proxy.Log.{Logging, LogInit, init_log}
use rust_http_proxy.Http.{Http}
use rust_http_proxy.Auth.{BasicAuth}
use rust_http_proxy.Reverse.{LocationConfig}
use rust_http_proxy.Reverse.Setup.{Locations}
use rust_http_proxy.Config.{Networks, Param, Config, try_from}

pub data Line : Type 0 where
  info warn : Bytes → Line

-- The characters of a text: the bytes that do not continue one.
abbrev pub char_count : Bytes → ℕ
char_count [] = 0
char_count (b ∷ bs) = if b / 64 == 2 then char_count bs else 1 + char_count bs

-- `{:<width}`
abbrev pub pad_right : ℕ → Bytes → Bytes
pad_right width s = s ++ replicate (width - char_count s) b' '

-- What `{:?}` prints of the values that are logged.
pub record DebugTexts (net : Networks) : Type 0 where
  pub networks : List net.IpNetwork → Bytes
  pub referers : List Bytes → Bytes
  pub users : BasicAuth → Bytes

unfoldable pub location_line : Bytes → LocationConfig → Line
location_line host l = info (
    codes "    "
    ++ pad_right 70 (codes "http(s)://" ++ host ++ codes ":port" ++ l.location ++ codes "**")
    ++ codes " -> "
    ++ l.upstream.url_base
    ++ codes "**")

unfoldable pub host_lines : Bytes → List LocationConfig → List Line
unfolding location_line
host_lines host [] = []
host_lines host (l ∷ ls) = location_line host l ∷ host_lines host ls

unfoldable pub location_lines : Locations → List Line
unfolding host_lines
location_lines [] = []
location_lines ((host, ls) ∷ more) = host_lines host ls ++ location_lines more

-- `DynError`: a text, or an error of the configuration.
pub data DynError : Type 0 where
  text : Bytes → DynError
  config_error : IoError → DynError

-- What loading gave.
pub data Loaded (net : Networks) : Type 0 where
  refused : DynError → Loaded net
  panicked : Loaded net
  loaded : Config net → Loaded net

module _ (net : Networks) (debug : DebugTexts net) where
  -- What is said of the files that are served.
  unfoldable pub serving_lines : Config net → List Line
  serving_lines config =
      let networks = config.serving_control.allowed_networks in
      let referers = config.referer_keywords_to_self in
      info (codes "serve web content of \"" ++ config.web_content_path ++ codes "\"")
      ∷ (if is_empty networks
          then info (codes "Allowing static content access from all networks")
          else info (
              codes "Only allowing static content access from networks: "
              ++ debug.networks networks))
      ∷ (if is_empty referers
          then []
          else info (codes "Referer header to images must contain " ++ debug.referers referers)
            ∷ [])

  unfoldable pub log_config : Config net → List Line
  unfolding serving_lines location_lines
  log_config config =
      let locations = config.reverse_proxy_config.locations in
      (if config.serving_control.prohibit_serving
        then warn (codes "do not serve web content to avoid being detected!") ∷ []
        else serving_lines config)
      ++ info (codes "basic auth is " ++ debug.users config.basic_auth)
        ∷ (if is_empty locations then [] else info (codes "reverse proxy config: ") ∷ [])
      ++ location_lines locations

  pub record Load (l : Logging) : Type 0 where
    pub log : LogInit l
    pub lines : List Line
    pub result : Loaded net

  -- The provider of cryptography that the program is built to install, if it is built with just one.
  abbrev pub provider_line : Option Bytes → List Line
  provider_line none = []
  provider_line (some name) =
      info (codes "use " ++ name ++ codes " as default crypto provider") ∷ []

  module _ (http : Http) (encode : Bytes → Bytes) (load : Bytes → Result Locations) (l : Logging)
      (build_time : Bytes) (provider : Option Bytes) where
    abbrev first_lines : List Line
    first_lines = info (codes "build time: " ++ build_time) ∷ provider_line provider

    -- What follows once there is a log.
    unfoldable pub configured : LogInit l → Result (Config net) → Load l
    unfolding log_config
    configured log (err e) = record {
      log = log;
      lines = first_lines;
      result = refused (config_error e);
    }
    configured log panic = record { log = log; lines = first_lines; result = panicked }
    configured log (ok config) = record {
      log = log;
      lines =
          first_lines
          ++ log_config config
          ++ info (codes "auto close connection after idle for 600s") ∷ [];
      result = loaded config;
    }

    unfoldable pub load_config : Param → Load l
    unfolding init_log try_from configured
    load_config param =
        let log = init_log l param.log_dir param.log_file (codes "info") in
        elim log.result [
          | inl e ↦ record {
            log = log;
            lines = [];
            result = refused (text (codes "init log error:" ++ l.error_text e));
          }
          | inr handle ↦ configured log (try_from net http encode load param)
        ]
