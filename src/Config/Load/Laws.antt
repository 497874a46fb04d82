-- ===== src/Config/Load/Laws.antt =====
-- When a configuration is loaded.
use rust_http_proxy.Common.{◌≡◌, inl, inr, Option, Result, ok, Sum-cases, Result-cases, arith}
use rust_http_proxy.Common.Bytes.{Bytes, codes}
use rust_http_proxy.Http.{Http}
use rust_http_proxy.Reverse.Setup.{Locations}
use rust_http_proxy.Log.{Logging, init_log}
use rust_http_proxy.Log.Laws.{Ready, init_log-Ready}
use rust_http_proxy.Config.{Networks, Param, Config, try_from}
use rust_http_proxy.Config.Load.{DebugTexts, Loaded, loaded, configured, load_config}

module _ (net : Networks) (debug : DebugTexts net) (http : Http) (encode : Bytes → Bytes)
    (load : Bytes → Result Locations) (l : Logging) (build_time : Bytes)
    (provider : Option Bytes) where
  abbrev pub load_from : Param → Loaded net
  load_from param = (load_config net debug http encode load l build_time provider param).result

  -- A configuration is loaded only with a log, and is made from the command line.
  pub record LoadedFrom (param : Param) (config : Config net) : Type 0 where
    pub handle : l.LoggerHandle
    pub log_opened : (init_log l param.log_dir param.log_file (codes "info")).result ≡ inr handle
    pub log_ready : Ready l param.log_dir param.log_file (codes "info") handle
    pub is_read : try_from net http encode load param ≡ ok config

  pub load_config-LoadedFrom :
      (param : Param) (config : Config net)
      → load_from param ≡ loaded config
      → LoadedFrom param config
  load_config-LoadedFrom param config e =
      elim (Sum-cases (init_log l param.log_dir param.log_file (codes "info")).result) [
        | inl (bad, b) ↦ absurd (unfold load_config in ground arith)
        | inr (handle, h) ↦ elim (Result-cases (try_from net http encode load param)) [
          | inl (c, t) ↦ record {
            handle = handle;
            log_opened = h;
            log_ready = init_log-Ready l param.log_dir param.log_file (codes "info") handle h;
            is_read = unfold load_config configured in ground arith;
          }
          | inr (inl (x, t)) ↦ absurd (unfold load_config configured in ground arith)
          | inr (inr t) ↦ absurd (unfold load_config configured in ground arith)
        ]
      ]

  pub LoadedFrom-load_config :
      (param : Param) (config : Config net)
      → LoadedFrom param config
      → load_from param ≡ loaded config
  unfolding load_config configured
  LoadedFrom-load_config param config from = ground (arith, from.log_opened, from.is_read)
