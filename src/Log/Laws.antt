-- ===== src/Log/Laws.antt =====
-- When a log is written, and what setting it up leaves behind.
use rust_http_proxy.Common.{
  ◌≡◌, ◌⊎◌, inl, inr, true, false, Option, none, some, Option-cases, Bool-cases, Sum-cases, subst,
  sym, ◌++◌, arith,
}
use rust_http_proxy.Common.Bytes.{Bytes, codes}
use rust_http_proxy.Log.{Logging, LogInit, file_log, start_in, start_at, init_log}

module _ (l : Logging) (dir file level : Bytes) where
  -- The log is the one for that directory and file, its specification can be read, and starting it gives
  -- the handle.
  pub record StartedAt (path : l.PathBuf) (handle : l.LoggerHandle) (done : LogInit l)
      : Type 0 where
    pub text : Bytes
    pub text_of_path : l.to_str path ≡ some text
    pub spec_is_read : l.spec_error (file_log l text file level).spec ≡ none
    pub was_started : done.started ≡ some (file_log l text file level)
    pub gives : l.start (file_log l text file level) ≡ inr handle

  start_at-StartedAt :
      (created : Option l.PathBuf) (path : l.PathBuf) (handle : l.LoggerHandle)
      → (start_at l created path file level).result ≡ inr handle
      → StartedAt path handle (start_at l created path file level)
  unfolding start_at start_in file_log
  start_at-StartedAt created path handle e = elim (Option-cases (l.to_str path)) [
    | inl n ↦ absurd (ground arith)
    | inr (text, t) ↦ elim (Option-cases (l.spec_error (level ++ codes ",rustls=error"))) [
      | inr (bad, b) ↦ absurd (ground arith)
      | inl good ↦ record {
        text = text;
        text_of_path = t;
        spec_is_read = good;
        was_started = ground arith;
        gives = ground arith;
      }
    ]
  ]

  -- What a handle tells: the directory was there, or was created.
  pub record Ready (handle : l.LoggerHandle) : Type 0 where
    pub path : l.PathBuf
    pub absolute_path : l.absolute dir ≡ inr path
    pub is_there : (l.exists path ≡ true) ⊎ (l.create_dir_all path ≡ none)
    pub started_at : StartedAt path handle (init_log l dir file level)

  -- The cases of the directory, with what they leave to `start_at`.
  init_log-there :
      (path : l.PathBuf)
      → l.absolute dir ≡ inr path
      → l.exists path ≡ true
      → init_log l dir file level ≡ start_at l none path file level
  unfolding init_log
  init_log-there path a there = ground arith

  init_log-made :
      (path : l.PathBuf)
      → l.absolute dir ≡ inr path
      → l.exists path ≡ false
      → l.create_dir_all path ≡ none
      → init_log l dir file level ≡ start_at l (some path) path file level
  unfolding init_log
  init_log-made path a absent made = ground arith

  -- A handle is given only for a log that was started in the directory of that name, which was there or
  -- was created, under a specification that can be read.
  pub init_log-Ready :
      (handle : l.LoggerHandle) → (init_log l dir file level).result ≡ inr handle → Ready handle
  init_log-Ready handle e = elim (Sum-cases (l.absolute dir)) [
    | inl (bad, a) ↦ absurd (unfold init_log in ground arith)
    | inr (path, a) ↦ elim (Bool-cases (l.exists path)) [
      | inl there ↦ record {
        path = path;
        absolute_path = a;
        is_there = inl there;
        started_at =
            let same = init_log-there path a there in
            subst (StartedAt path handle) (sym same)
              (start_at-StartedAt none path handle (subst (λ i. i.result ≡ inr handle) same e));
      }
      | inr absent ↦ elim (Option-cases (l.create_dir_all path)) [
        | inr (bad, b) ↦ absurd (unfold init_log in ground arith)
        | inl made ↦ record {
          path = path;
          absolute_path = a;
          is_there = inr made;
          started_at =
              let same = init_log-made path a absent made in
              subst (StartedAt path handle) (sym same) (
                start_at-StartedAt (some path) path handle
                  (subst (λ i. i.result ≡ inr handle) same e));
        }
      ]
    ]
  ]
