-- ===== src/Tests/RawServe.antt =====
-- The theorems on the files, applied to concrete data.
use rust_http_proxy.Common.{
  ℕ, ◌+◌, ◌-◌, ◌≤◌, ◌<◌, ◌≡◌, ◌↔◌, refl, Bool, true, false, Option, none, some, List, [], ◌∷◌, ◌++◌,
  length, take, drop, Result, ok, IoError, arith,
}
use rust_http_proxy.Common.Bytes.{Bytes, codes}
use rust_http_proxy.Common.Numbers.{u64_mod}
use rust_http_proxy.Http.{file_body}
use rust_http_proxy.Http.Sample.{sample}
use rust_http_proxy.RawServe.{Builder}
use rust_http_proxy.Http.{Request, get_method, http_11, empty_body}
use rust_http_proxy.Common.Bytes.{starts_with}
use rust_http_proxy.Labels.{ReqLabels}
use rust_http_proxy.Metrics.{Family}
use rust_http_proxy.Metrics.Sample.{sample_family, req_discrete}
use rust_http_proxy.RawServe.{cal_file_etag, not_modified, return_304_if_not_modified, not_found}
use rust_http_proxy.RawServe.Etag.{return_304_if_not_modified-etag}
use rust_http_proxy.RawServe.Hidden.{files_at, serve_http_request-forbidden}
use rust_http_proxy.RawServe.Files.{forbidden}
use rust_http_proxy.RawServe.Serve.{serve_http_request}
use rust_http_proxy.RawServe.Range.{parse_range, content_range}
use rust_http_proxy.RawServe.Range.Bounds.{
  Asks, Reads, partial, parse_range-Asks, parse_range-bounds,
}
use rust_http_proxy.RawServe.Files.{Files, range_not_satisfiable, send_file}
use rust_http_proxy.Common.{◌%◌}
use rust_http_proxy.Http.{Response}
use rust_http_proxy.RawServe.Serve.{all_http_req}
use rust_http_proxy.RawServe.Counts.{visits, serve_all, serve_all-visits}
use rust_http_proxy.RawServe.Files.Laws.{send_file-part, send_file-empty}

-- In place of the regular expression: a header of digits, a dash and digits.
abbrev pub captures : Bytes → Option (Bytes × Bytes)
captures text = some (take 1 (drop 6 text), drop 8 text)

abbrev range_value : Bytes
range_value = codes "bytes=1-3"

abbrev built : sample.HeaderMap
built = ("etag", codes "tag") ∷ []

abbrev granted : Builder sample
granted = some (206, built ++ (("content-range", codes "bytes 1-3/6") ∷ []))

five_fits : 6 < u64_mod
five_fits = omega arith

range_read : Reads sample captures range_value (codes "1") (codes "3")
range_read = (range_value, refl, refl)

parse_range-Asks_example :
    (parse_range sample captures (some range_value) 6 (some (200, built)) ≡ ok (1, 3, granted)) ↔ (
      Asks (codes "1") (codes "3") 6 1 3
      × (granted ≡ partial sample captures 1 3 6 (some (200, built))))
parse_range-Asks_example =
    parse_range-Asks sample captures range_value (codes "1") (codes "3") 6 1 3 (some (200, built))
      granted five_fits range_read

granted_range :
    parse_range sample captures (some range_value) 6 (some (200, built)) ≡ ok (1, 3, granted)
unfolding parse_range rust_http_proxy.Common.Numbers.decimal
granted_range = refl

parse_range-bounds_example : (1 ≤ 3) × (3 < 6)
parse_range-bounds_example =
    parse_range-bounds sample captures (some range_value) 6 1 3 (some (200, built)) granted
      granted_range

abbrev pub files : Files
files = record {
  SystemTime = ℕ;
  millis = λ t. t;
  fmt_http_date = λ t. codes "Thu, 01 Jan 1970 00:00:00 GMT";
  metadata = λ path. some (record { is_file = true; modified = some 0; len = 6 });
  open_file = λ path. some (codes "abcdef");
  seek = λ path position. true;
  mime_type = λ path. codes "text/plain";
  fav_ico = codes "icon";
  bootup_time = 0;
}

abbrev pub error_text : IoError → Bytes
error_text e = codes "wrong range"

range_asked : Asks (codes "1") (codes "3") 6 1 3
unfolding rust_http_proxy.Common.Numbers.parse_uint
range_asked = (refl, refl, omega arith, omega arith)

range_shown : sample.of_str (content_range 1 3 6) ≡ some (codes "bytes 1-3/6")
unfolding rust_http_proxy.Common.Numbers.decimal
range_shown = refl

send_file-part_example :
    (send_file files sample captures error_text
        (codes "/w/a.txt")
        (codes "abcdef")
        6
        (("range", range_value) ∷ [])
        false
        (some (200, built))
      ≡ ok (record {
        status = 206;
        headers = sample.append "content-range" (codes "bytes 1-3/6") built;
        body = file_body false (take (3 - 1 + 1) (drop 1 (codes "abcdef")));
      }))
    × (length (take (3 - 1 + 1) (drop 1 (codes "abcdef"))) ≡ 3 - 1 + 1)
send_file-part_example =
    send_file-part files sample captures error_text (codes "/w/a.txt") (codes "abcdef") (codes "1")
      (codes "3") 6 1 3 (("range", range_value) ∷ []) false 200 built range_value
      (codes "bytes 1-3/6") five_fits refl refl range_read range_asked range_shown refl

send_file-empty_example :
    (message : Bytes) × (send_file files sample captures error_text
        (codes "/w/empty.txt")
        []
        0
        []
        false
        (some (200, built))
      ≡ range_not_satisfiable files sample captures message)
send_file-empty_example =
    send_file-empty files sample captures error_text (codes "/w/empty.txt") [] [] false
      (some (200, built))

abbrev changed : ℕ
changed = 1700000000000

abbrev old_len : ℕ
old_len = 6

abbrev new_len : ℕ
new_len = 7

abbrev old_tag : sample.HeaderMap
old_tag = ("if-none-match", cal_file_etag changed old_len) ∷ []

return_304_if_not_modified-etag_example :
    (return_304_if_not_modified sample old_tag (cal_file_etag changed new_len) (codes "today")
      ≡ some (not_modified sample (codes "today") (cal_file_etag changed new_len)))
    ↔ ((changed ≡ changed) × (old_len ≡ new_len))
return_304_if_not_modified-etag_example =
    return_304_if_not_modified-etag sample old_tag (cal_file_etag changed old_len) changed new_len
      changed old_len (codes "today") refl refl

abbrev pub requests : Family ReqLabels
requests = sample_family req_discrete

abbrev git_request : Request sample
git_request = record {
  method = get_method;
  uri = record { scheme = none; authority = none; path = codes "/.git/config"; query = none };
  version = http_11;
  headers = [];
  body = empty_body;
}

git_hidden : forbidden (codes "/.git/config") ≡ true
unfolding starts_with rust_http_proxy.Common.Bytes.contains
git_hidden = refl

serve_http_request-forbidden_example :
    serve_http_request requests sample
      (λ referer. referer)
      []
      (files_at files sample captures error_text (codes "/w"))
      git_request
      (codes "/.git/config")
      (λ l. 0)
    ≡ (λ l. 0, not_found sample)
serve_http_request-forbidden_example =
    serve_http_request-forbidden files sample captures error_text (codes "/w") requests
      (λ referer. referer) [] git_request (codes "/.git/config") (λ l. 0) git_hidden

-- One visit from elsewhere, one from the site itself, and one for a file that is no page.
abbrev from_page : Bytes → Request sample
from_page referer = record (git_request) { headers = ("referer", referer) ∷ [] }

abbrev visitors : List (Request sample × Bytes)
visitors =
    (from_page (codes "https://else.example/"), codes "/a.html")
    ∷ (from_page (codes "https://self.example/b"), codes "/a.html")
    ∷ (from_page (codes "https://else.example/"), codes "/a.txt")
    ∷ []

abbrev always_found : Bytes → sample.HeaderMap → Bool → Bool → Result (Response sample)
always_found path headers can_gzip need_body =
    ok (record { status = 200; headers = []; body = empty_body })

one_visit :
    visits requests sample (λ referer. referer) (codes "self" ∷ []) always_found visitors ≡ 1
unfolding visits rust_http_proxy.Common.Bytes.ends_with rust_http_proxy.Common.Bytes.contains
one_visit = refl

serve_all-visits_example :
    requests.value all_http_req (
      serve_all requests sample
        (λ referer. referer)
        (codes "self" ∷ [])
        always_found
        visitors
        (λ l. 7))
    ≡ (7 + visits requests sample (λ referer. referer) (codes "self" ∷ []) always_found visitors)
      % u64_mod
serve_all-visits_example =
    serve_all-visits requests sample (λ referer. referer) (codes "self" ∷ []) always_found visitors
      (λ l. 7) (omega arith)
