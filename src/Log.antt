-- ===== src/Log.antt =====
-- log_x/src/lib.rs: setting up the log file, and the format of its lines. Paths, the file system and
-- the `flexi_logger` crate are an interface.
pub mod Laws
use rust_http_proxy.Common.{
  ℕ, ◌⊎◌, inl, inr, Bool, true, false, if◌then◌else◌, not, Option, none, some, ◌∷◌, ◌++◌, IoError,
  io, ErrorKind, invalid_input, invalid_data,
}
use rust_http_proxy.Common.Bytes.{Bytes, codes}
use rust_http_proxy.Common.Numbers.{decimal}

-- What the builder of a logger is given.
pub record FileLog : Type 0 where
  pub spec : Bytes
  pub directory : Bytes
  pub basename : Bytes
  pub suffix : Bytes
  pub rotate_size : ℕ
  pub keep_log_files : ℕ
  pub symlink : Bytes

pub record Logging : Type 1 where
  pub PathBuf : Type 0
  -- `path::absolute`, `exists`, `fs::create_dir_all` with its error if any, `to_str`, `join`
  pub absolute : Bytes → IoError ⊎ PathBuf
  pub exists : PathBuf → Bool
  pub create_dir_all : PathBuf → Option IoError
  pub to_str : PathBuf → Option Bytes
  pub join : PathBuf → Bytes → PathBuf
  -- `FlexiLoggerError`, from an error of `io`, and its text
  pub FlexiLoggerError : Type 0
  pub from_io : IoError → FlexiLoggerError
  pub error_text : FlexiLoggerError → Bytes
  -- `Logger::try_with_env_or_str`, with its error if any, and `start`
  pub spec_error : Bytes → Option FlexiLoggerError
  pub LoggerHandle : Type 0
  pub start : FileLog → FlexiLoggerError ⊎ LoggerHandle

-- What setting up the log did, and gave.
pub record LogInit (l : Logging) : Type 0 where
  pub created : Option l.PathBuf
  pub started : Option FileLog
  pub result : l.FlexiLoggerError ⊎ l.LoggerHandle

module _ (l : Logging) where
  open l use {
    PathBuf, absolute, exists, create_dir_all, to_str, join, FlexiLoggerError, from_io, spec_error,
    LoggerHandle, start,
  }

  -- `Logger::…`, with the directory as text.
  unfoldable pub file_log : Bytes → Bytes → Bytes → FileLog
  file_log log_dir log_file level = record {
    spec = level ++ codes ",rustls=error";
    directory = log_dir;
    basename = log_file;
    suffix = codes "";
    rotate_size = 10000000;
    keep_log_files = 3;
    symlink = log_dir ++ (b'/' ∷ log_file);
  }

  -- The logger is started before the path of the link is looked at.
  unfoldable pub start_in : Option PathBuf → PathBuf → Bytes → Bytes → Bytes → LogInit l
  unfolding file_log
  start_in created path log_dir log_file level =
      let log = file_log log_dir log_file level in
      record {
        created = created;
        started = some log;
        result = elim (to_str (join path log_file)) [
          | none ↦ inl (from_io (io invalid_data "cannot parse"))
          | some symlink_path ↦ start log
        ];
      }

  -- From `to_str` on, with the directory that was created, if any.
  unfoldable pub start_at : Option PathBuf → PathBuf → Bytes → Bytes → LogInit l
  unfolding start_in
  start_at created path log_file level = elim (to_str path) [
    | none ↦ record {
      created = created;
      started = none;
      result = inl (from_io (io invalid_input "error parse absolute path of log dir"));
    }
    | some log_dir ↦ elim (spec_error (level ++ codes ",rustls=error")) [
      | some e ↦ record { created = created; started = none; result = inl e }
      | none ↦ start_in created path log_dir log_file level
    ]
  ]

  unfoldable pub init_log : Bytes → Bytes → Bytes → LogInit l
  unfolding start_at
  init_log log_dir log_file level = elim (absolute log_dir) [
    | inl e ↦ record { created = none; started = none; result = inl (from_io e) }
    | inr path ↦
        let there : LogInit l = start_at none path log_file level in
        let made : LogInit l = elim (create_dir_all path) [
          | some e ↦ record { created = none; started = none; result = inl (from_io e) }
          | none ↦ start_at (some path) path log_file level
        ] in
        if exists path then there else made
  ]

-- A record to be logged; `now` is printed with the format of the code.
pub record Record : Type 0 where
  pub level : Bytes
  pub file : Option Bytes
  pub line : Option ℕ
  pub args : Bytes

abbrev pub file_or_unnamed : Option Bytes → Bytes
file_or_unnamed none = codes "<unnamed>"
file_or_unnamed (some file) = file

abbrev pub line_or_zero : Option ℕ → ℕ
line_or_zero none = 0
line_or_zero (some line) = line

unfoldable pub my_format : Bytes → Record → Bytes
unfolding decimal
my_format now r =
    now
    ++ codes " ["
    ++ r.level
    ++ codes "] ["
    ++ file_or_unnamed r.file
    ++ (b':' ∷ decimal (line_or_zero r.line))
    ++ codes "] "
    ++ r.args
