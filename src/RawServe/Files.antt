-- ===== src/RawServe/Files.antt =====
-- `serve_path` and `serve_favico` of rust_http_proxy/src/raw_serve.rs. The file system, the clock,
-- the dates' format and the guess of a content type are an interface; what a file reads is what it
-- held when it was opened.
pub mod Laws
use rust_http_proxy.Common.{
  ℕ, ◌+◌, ◌-◌, Bool, not, ◌&&◌, ◌||◌, IoError, true, false, ◌==◌, if◌then◌else◌, any, take, drop,
  map, length, Option, none, some, List, [], ◌∷◌, ◌++◌, Result, ok, err, panic,
}
use rust_http_proxy.Common.Bytes.{Bytes, codes, beq, starts_with, ends_with, contains, to_lower}
use rust_http_proxy.Http.{Http, Response, empty_body, full_body, file_body, get}
use rust_http_proxy.RawServe.{
  Builder, builder, header, with_status, finish, not_found, build_500_resp, server_name,
  cal_file_etag, return_304_if_not_modified,
}
use rust_http_proxy.RawServe.Range.{parse_range, last_byte}

pub record Meta (Time : Type 0) : Type 0 where
  pub is_file : Bool
  pub modified : Option Time
  pub len : ℕ

pub record Files : Type 1 where
  pub SystemTime : Type 0
  -- `duration_since(UNIX_EPOCH).unwrap_or_default().as_millis()`
  pub millis : SystemTime → ℕ
  pub fmt_http_date : SystemTime → Bytes
  pub metadata : Bytes → Option (Meta SystemTime)
  pub open_file : Bytes → Option Bytes
  -- whether `seek` succeeds on the file
  pub seek : Bytes → ℕ → Bool
  -- `mime_guess::from_path(…).first_or_octet_stream()`
  pub mime_type : Bytes → Bytes
  pub fav_ico : Bytes
  pub bootup_time : SystemTime

-- The file with its metadata, or the two ways of having none.
pub data Located (Time : Type 0) : Type 0 where
  missing : Located Time
  favicon : Located Time
  found : Bytes → Meta Time → Located Time

abbrev pub forbidden : Bytes → Bool
forbidden url_path = contains url_path (codes "/..") || starts_with url_path (codes "/.git/")

abbrev pub file_path : Bytes → Bytes → Bytes
file_path web_content_path url_path =
    if ends_with url_path (codes "/")
    then web_content_path ++ (url_path ++ codes "index.html")
    else web_content_path ++ url_path

abbrev pub with_charset : Bytes → Bytes
with_charset content_type =
    if not (contains (map to_lower content_type) (codes "charset"))
      && not (contains content_type (codes "wasm"))
    then content_type ++ codes "; charset=utf-8"
    else content_type

-- The content types that are sent compressed.
abbrev pub compressible : List Bytes
compressible =
    codes "text/html"
    ∷ codes "text/css"
    ∷ codes "application/javascript"
    ∷ codes "application/json"
    ∷ codes "text/xml"
    ∷ codes "application/xml"
    ∷ codes "text/plain"
    ∷ codes "text/markdown"
    ∷ []

module _ (files : Files) where
  unfoldable pub locate : Bytes → Bytes → Located files.SystemTime
  unfolding ends_with beq
  locate web_content_path url_path =
      let path = file_path web_content_path url_path in
      let index : Bytes = web_content_path ++ (url_path ++ codes "/index.html") in
      elim (files.metadata path) [
        | some meta ↦
            if meta.is_file
            then found path meta
            else (elim (files.metadata index) [ none ↦ missing | some m ↦ found index m ])
        | none ↦ if beq url_path (codes "/favicon.ico") then favicon else missing
      ]

  -- `captures` gives the groups of a `Range` header.
  module _ (http : Http) (captures : Bytes → Option (Bytes × Bytes)) where
    unfoldable pub serve_favico : http.HeaderMap → Bool → Result (Response http)
    unfolding return_304_if_not_modified cal_file_etag
    serve_favico headers need_body =
        let date = files.fmt_http_date files.bootup_time in
        let file_etag = cal_file_etag (files.millis files.bootup_time) (length files.fav_ico) in
        elim (return_304_if_not_modified http headers file_etag date) [
          | some response ↦ response
          | none ↦
              finish http
                (header http "content-type" (codes "image/x-icon") (
                  header http "etag" file_etag (
                    header http "last-modified" date
                      (header http "server" server_name (with_status http 200 (builder http))))))
                (if need_body then full_body files.fav_ico else empty_body)
        ]

    abbrev file_builder : Bytes → Bytes → Bytes → Bool → Builder http
    file_builder content_type date file_etag need_gzip =
        let plain = header http "server" server_name (
          header http "accept-ranges" (codes "bytes") (
            header http "etag" file_etag (
              header http "last-modified" date
                (header http "content-type" content_type (builder http))))) in
        if need_gzip then header http "content-encoding" (codes "gzip") plain else plain

    -- The part of the file from `start` to `end`: all that is left, if that is the last byte.
    abbrev pub read_part : Bytes → ℕ → ℕ → ℕ → Bytes
    read_part content start end file_len =
        if end == last_byte file_len
        then drop start content
        else take (end - start + 1) (drop start content)

    abbrev pub range_not_satisfiable : Bytes → Result (Response http)
    range_not_satisfiable message =
        finish http (header http "server" server_name (with_status http 416 (builder http)))
          (full_body message)

    -- `final_build`, whose body `build_reader_stream` compresses or not.
    unfoldable pub final_build : Bool → Bytes → Builder http → Result (Response http)
    final_build need_gzip async_read response =
        finish http response (file_body need_gzip async_read)

    -- From the opened file on. `error_text` is the `Display` of `io::Error`.
    unfoldable pub send_file :
        (IoError → Bytes)
        → Bytes
        → Bytes
        → ℕ
        → http.HeaderMap
        → Bool
        → Builder http
        → Result (Response http)
    unfolding parse_range final_build
    send_file error_text path content file_len headers need_gzip response =
        elim (parse_range http captures (get http "range" headers) file_len response) [
          | err e ↦ range_not_satisfiable (error_text e)
          | panic ↦ panic
          | ok (start, end, response') ↦
              let body = final_build need_gzip (read_part content start end file_len) response' in
              if start == 0
              then body
              else if files.seek path start
              then body
              else ok (build_500_resp http)
        ]

    -- A file that was found, with the time of its last change.
    unfoldable pub send_found :
        (IoError → Bytes)
        → Bytes
        → ℕ
        → files.SystemTime
        → http.HeaderMap
        → Bool
        → Bool
        → Result (Response http)
    unfolding return_304_if_not_modified cal_file_etag send_file starts_with
    send_found error_text path file_len last_modified headers can_gzip need_body =
        let date = files.fmt_http_date last_modified in
        let file_etag = cal_file_etag (files.millis last_modified) file_len in
        let content_type = with_charset (files.mime_type path) in
        let need_gzip = can_gzip && any (starts_with content_type) compressible in
        let response = file_builder content_type date file_etag need_gzip in
        elim (return_304_if_not_modified http headers file_etag date) [
          | some not_modified ↦ not_modified
          | none ↦
              if not need_body
              then finish http response empty_body
              else (elim (files.open_file path) [
                | none ↦ not_found http
                | some content ↦
                    send_file error_text path content file_len headers need_gzip response
              ])
        ]

    unfoldable pub serve_path :
        (IoError → Bytes) → Bytes → Bytes → http.HeaderMap → Bool → Bool → Result (Response http)
    unfolding contains starts_with locate serve_favico send_found
    serve_path error_text web_content_path url_path headers can_gzip need_body =
        let answer : Result (Response http) = elim (locate web_content_path url_path) [
          | missing ↦ not_found http
          | favicon ↦ serve_favico headers need_body
          | found path meta ↦ elim meta.modified [
            | none ↦ not_found http
            | some last_modified ↦
                send_found error_text path meta.len last_modified headers can_gzip need_body
          ]
        ] in
        if forbidden url_path then not_found http else answer
