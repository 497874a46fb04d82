-- ===== src/RawServe/Range.antt =====
-- `parse_range` of rust_http_proxy/src/raw_serve.rs: the part of a file that a request asks for.
pub mod Bounds
use rust_http_proxy.Common.{
  ℕ, ◌+◌, ◌-◌, ◌%◌, Bool, true, false, leb, ltb, is_empty, if◌then◌else◌, Option, none, some, List,
  [], ◌∷◌, ◌++◌, Result, ok, err, panic, ◌>>=◌, ok_or, io, wrapped, ErrorKind, invalid_input,
}
use rust_http_proxy.Common.Bytes.{Bytes, codes}
use rust_http_proxy.Common.Numbers.{parse_uint, decimal, u64_mod, u64_max}
use rust_http_proxy.Http.{Http}
use rust_http_proxy.RawServe.{Builder, header, with_status}

-- `file_size - 1` on `u64`, which wraps in a release build.
abbrev pub last_byte : ℕ → ℕ
last_byte file_size = (file_size + u64_mod - 1) % u64_mod

abbrev pub parse_u64 : Bytes → Result ℕ
parse_u64 s = ok_or (wrapped invalid_input) (parse_uint u64_max s)

-- The start and the end that the two groups of the header stand for.
unfoldable pub range_of : Bytes → Bytes → ℕ → Result (ℕ × ℕ)
unfolding parse_uint
range_of [] [] file_size = ok (0, last_byte file_size)
range_of [] (c ∷ right) file_size = parse_u64 (c ∷ right) >>= λ n.
    if ltb n file_size
    then ok (file_size - n, last_byte file_size)
    else err (io invalid_input "suffix-length bigger than file size")
range_of (c ∷ left) [] file_size = parse_u64 (c ∷ left) >>= λ start. ok (start, last_byte file_size)
range_of (c ∷ left) (d ∷ right) file_size =
    parse_u64 (c ∷ left) >>= λ start. parse_u64 (d ∷ right) >>= λ end. ok (start, end)

unfoldable pub check_range : ℕ → ℕ → ℕ → Result (Unit {0})
check_range start end file_size =
    if ltb end start
    then err (io invalid_input "end must be greater than or equal to start")
    else if leb file_size end
    then err (io invalid_input "end must be less than file length")
    else ok tt

abbrev pub content_range : ℕ → ℕ → ℕ → Bytes
content_range start end file_size =
    codes "bytes "
    ++ (decimal start ++ (codes "-" ++ (decimal end ++ (codes "/" ++ decimal file_size))))

-- `captures` gives the two groups of `^bytes=(\d*)-(\d*)$`.
module _ (http : Http) (captures : Bytes → Option (Bytes × Bytes)) where
  unfoldable pub parse_range :
      Option http.HeaderValue → ℕ → Builder http → Result (ℕ × ℕ × Builder http)
  unfolding range_of check_range
  parse_range none file_size builder = do
    _ ← check_range 0 (last_byte file_size) file_size
    ok (0, last_byte file_size, builder)
  parse_range (some range_value) file_size builder = do
    text ← ok_or (wrapped invalid_input) (http.to_str range_value)
    (left, right) ← ok_or (io invalid_input "invalid range") (captures text)
    (start, end) ← range_of left right file_size
    _ ← check_range start end file_size
    ok (
      start,
      end,
      with_status http 206
          (header http "content-range" (content_range start end file_size) builder),
    )
