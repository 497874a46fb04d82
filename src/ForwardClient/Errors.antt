-- ===== src/ForwardClient/Errors.antt =====
-- How rust_http_proxy/src/forward_proxy_client.rs logs the error that a pooled connection ends with:
-- `handle_http1_connection_error`. What the errors print is an argument.
use rust_http_proxy.Common.{ErrorKind, timed_out, ◌++◌}
use rust_http_proxy.Common.Bytes.{Bytes, codes}
use rust_http_proxy.Labels.{AccessLabel, access_label_text}
use rust_http_proxy.Config.Load.{Line, info, warn}

-- The source of hyper's error: none, an error of `io` with its kind and text, or another one's text.
pub data Source : Type 0 where
  no_source : Source
  io_source : ErrorKind → Bytes → Source
  other_source : Bytes → Source

module _ (kind_text : ErrorKind → Bytes) where
  -- `[{what}]: [{kind}] {error} to {label}`
  abbrev io_line : Bytes → ErrorKind → Bytes → AccessLabel → Bytes
  io_line what kind io_err access_label =
      codes "["
      ++ what
      ++ codes "]: ["
      ++ kind_text kind
      ++ codes "] "
      ++ io_err
      ++ codes " to "
      ++ access_label_text access_label

  -- Only a time-out is no warning: a `TimeoutIO` ends an idle connection by one.
  abbrev io_error_line : ErrorKind → Bytes → AccessLabel → Line
  io_error_line timed_out io_err access_label =
      info (io_line (codes "legacy proxy connection io closed") timed_out io_err access_label)
  io_error_line kind io_err access_label =
      warn (io_line (codes "legacy proxy io error") kind io_err access_label)

  unfoldable pub handle_http1_connection_error : Bytes → Source → AccessLabel → Line
  unfolding access_label_text
  handle_http1_connection_error err (io_source kind io_err) access_label =
      io_error_line kind io_err access_label
  handle_http1_connection_error err (other_source source) access_label = warn (
      codes "[legacy proxy io error]: ["
      ++ source
      ++ codes "] to "
      ++ access_label_text access_label)
  handle_http1_connection_error err no_source access_label =
      warn (
        codes "[legacy proxy io error] [" ++ err ++ codes "] to " ++ access_label_text access_label)
