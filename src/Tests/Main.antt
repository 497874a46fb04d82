-- ===== src/Tests/Main.antt =====
-- The theorems on the start of the program, applied to concrete data.
use mathlib.Core.List.Memᴰ
use rust_http_proxy.Common.{
  ℕ, ◌%◌, ◌≡◌, refl, ◌⊎◌, ◌↔◌, inl, inr, Bool, true, false, Option, none, some, List, [], ◌∷◌,
  Result, ok, err, wrapped, other, IoError,
}
use rust_http_proxy.Common.Bytes.{Bytes, codes}
use rust_http_proxy.Http.Sample.{sample}
use rust_http_proxy.Reverse.Setup.{Locations}
use rust_http_proxy.Log.{Logging, init_log}
use rust_http_proxy.Config.{Param, Config, try_from}
use rust_http_proxy.Config.Load.{DebugTexts}
use rust_http_proxy.Main.{NewServer, build_hyper_legacy_client, start, serving}
use rust_http_proxy.Auth.{is_user}
use rust_http_proxy.Config.Load.Laws.{load_from, LoadedFrom}
use rust_http_proxy.Server.Pages.{PageEnv, answer_at}
use rust_http_proxy.Main.Servers.{Started, start-Started}
use rust_http_proxy.Main.Counters.{MaySee, open_to_all, user, with_counters, answer_at-hidden}
use rust_http_proxy.NetMonitor.{new}
use rust_http_proxy.Tests.Data.{client}
use rust_http_proxy.Tests.Proxy.{net}

-- A directory that has to be made first.
abbrev logging : Logging
logging = record {
  PathBuf = Bytes;
  absolute = inr;
  exists = λ path. false;
  create_dir_all = λ path. none;
  to_str = some;
  join = λ path file. path;
  FlexiLoggerError = IoError;
  from_io = λ e. e;
  error_text = λ e. codes "no log";
  spec_error = λ spec. none;
  LoggerHandle = Unit {0};
  start = λ log. inr tt;
}

abbrev debug : DebugTexts net
debug = record {
  networks = λ ns. codes "[]";
  referers = λ rs. codes "[]";
  users = λ us. codes "{}";
}

abbrev command_line : Param
command_line = record {
  log_dir = codes "/tmp";
  log_file = codes "proxy.log";
  port = 3128 ∷ 443 ∷ [];
  cert = codes "cert.pem";
  key = codes "privkey.pem";
  users = codes "bert:1234" ∷ [];
  web_content_path = codes "/w";
  referer_keywords_to_self = [];
  never_ask_for_auth = false;
  prohibit_serving = true;
  allow_serving_network = [];
  over_tls = true;
  reverse_proxy_config_file = none;
  enable_github_proxy = false;
  append_upstream_url = [];
}

abbrev encode : Bytes → Bytes
encode raw = raw

abbrev no_file : Bytes → Result Locations
no_file path = err (wrapped other)

abbrev server_on : ℕ → NewServer net tt
server_on port = record {
  port = port;
  basic_auth = (codes "Basic bert:1234", codes "bert") ∷ [];
  timeout = 600;
  tls_param = some (record { tls = true; cert = codes "cert.pem"; key = codes "privkey.pem" });
  interceptor = record { cache_conn = tt; reverse_proxy_client = build_hyper_legacy_client };
}

abbrev config : Config net
config = record {
  cert = codes "cert.pem";
  key = codes "privkey.pem";
  basic_auth = (codes "Basic bert:1234", codes "bert") ∷ [];
  web_content_path = codes "/w";
  referer_keywords_to_self = [];
  never_ask_for_auth = false;
  serving_control = record { prohibit_serving = true; allowed_networks = [] };
  over_tls = true;
  port = 3128 ∷ 443 ∷ [];
  reverse_proxy_config = record { locations = []; redirect_bachpaths = [] };
}

config_read : try_from net sample encode no_file command_line ≡ ok config
unfolding try_from rust_http_proxy.Reverse.Setup.parse_reverse_proxy_config
    rust_http_proxy.Auth.add_users rust_http_proxy.Common.Sort.sort_by
config_read = refl

log_started : (init_log logging (codes "/tmp") (codes "proxy.log") (codes "info")).result ≡ inr tt
unfolding init_log
log_started = refl

serves :
    start net tt (
      load_from net debug sample encode no_file logging
        (codes "now")
        (some (codes "ring"))
        command_line)
    ≡ serving (server_on 3128 ∷ server_on 443 ∷ [])
unfolding start rust_http_proxy.Config.Load.load_config
    rust_http_proxy.Reverse.Setup.parse_reverse_proxy_config rust_http_proxy.Auth.add_users
serves = refl

start-Started_example :
    ((servers : List (NewServer net tt)) × (start net tt (
          load_from net debug sample encode no_file logging
            (codes "now")
            (some (codes "ring"))
            command_line)
        ≡ serving servers)
      × Started net debug sample encode no_file logging
          (codes "now")
          (some (codes "ring"))
          tt
          command_line
          servers)
    ↔ ((config : Config net) × LoadedFrom net debug sample encode no_file logging
          (codes "now")
          (some (codes "ring"))
          command_line
          config
        × (false ≡ false))
start-Started_example =
    start-Started net debug sample encode no_file logging (codes "now") (some (codes "ring")) tt
      command_line

abbrev no_headers : sample.HeaderMap
no_headers = []

abbrev page_env : PageEnv sample
page_env = record {
  basic_auth = (codes "Basic bert:1234", codes "bert") ∷ [];
  monitor = new;
  encoded = none;
  ss_output = err (wrapped other);
  from_utf8 = some;
  into_iter = λ counts. counts;
  from_static = λ s. s;
  error_text = λ e. codes "no Authorization header found";
  template_error = codes "";
  render_net = some;
  render_netx = some;
  body404 = codes "404";
}

bert_is_user : is_user (codes "bert:1234") ≡ true
unfolding is_user
bert_is_user = refl

stranger : ¬ MaySee sample encode command_line no_headers
stranger (open_to_all everybody) = cc (everybody, bert_is_user)
stranger (user value header name given read stands) = cc given

answer_at-hidden_example :
    answer_at sample
      (with_counters sample page_env (some (codes "traffic 1")))
      (codes "/metrics")
      no_headers
      client
      (codes "files.example")
    ≡ answer_at sample
        (with_counters sample page_env (some (codes "traffic 2")))
        (codes "/metrics")
        no_headers
        client
        (codes "files.example")
answer_at-hidden_example =
    answer_at-hidden net debug sample encode no_file logging (codes "now") (some (codes "ring")) tt
      command_line (server_on 3128 ∷ server_on 443 ∷ []) (server_on 443) page_env
      (some (codes "traffic 1")) (some (codes "traffic 2")) (codes "/metrics") no_headers client
      (codes "files.example") serves (Memᴰ.tail (Memᴰ.head refl)) refl stranger
