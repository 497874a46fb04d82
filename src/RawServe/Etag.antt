-- ===== src/RawServe/Etag.antt =====
-- What a conditional request is told: `cal_file_etag` and `return_304_if_not_modified` of
-- rust_http_proxy/src/raw_serve.rs.
use rust_http_proxy.Common.{ℕ, ◌≡◌, sym, ◌∙◌, ◌↔◌, true, some, [], ◌∷◌, ◌++◌, arith}
use rust_http_proxy.Common.Bytes.{Bytes, beq}
use rust_http_proxy.Common.Bytes.Laws.{beq_refl, beq_sound}
use rust_http_proxy.Common.Numbers.{hex}
use rust_http_proxy.Common.Numbers.Hex.{hex-injective, hex-Without, cut}
use rust_http_proxy.Http.{Http, get}
use rust_http_proxy.RawServe.{
  cal_file_etag, is_not_modified, return_304_if_not_modified, not_modified,
}

-- Files of different length or with different times of their last change, in milliseconds, have
-- different tags.
pub cal_file_etag-injective :
    (time len time' len' : ℕ)
    → cal_file_etag time len ≡ cal_file_etag time' len'
    → (time ≡ time') × (len ≡ len')
unfolding cal_file_etag
cal_file_etag-injective time len time' len' e =
    let inner : (hex time ++ (b'-' ∷ (hex len ++ b'"' ∷ [])))
        ≡ hex time' ++ (b'-' ∷ (hex len' ++ b'"' ∷ [])) =
      cc in
    let (front, behind) =
      cut b'-' (hex time) (hex time') _ _ (hex-Without b'-' time (omega arith))
        (hex-Without b'-' time' (omega arith)) inner in
    let (lens, _) =
      cut b'"' (hex len) (hex len') [] [] (hex-Without b'"' len (omega arith))
        (hex-Without b'"' len' (omega arith)) behind in
    (hex-injective time time' front, hex-injective len len' lens)

module _ (http : Http) where
  is_not_modified-etag :
      (headers : http.HeaderMap) (value : http.HeaderValue) (text etag date : Bytes)
      → get http "if-none-match" headers ≡ some value
      → http.to_str value ≡ some text
      → is_not_modified http headers etag date ≡ beq text etag
  is_not_modified-etag headers value text etag date g t = unfold is_not_modified in ground arith

  return_304_lem :
      (headers : http.HeaderMap) (etag date : Bytes)
      → (return_304_if_not_modified http headers etag date ≡ some (not_modified http date etag))
        ↔ (is_not_modified http headers etag date ≡ true)
  return_304_lem headers etag date =
      unfold return_304_if_not_modified in (λ e. ground arith, λ e. ground arith)

  -- A client that sends the tag of some version of a file is told that the file is not modified
  -- exactly if the file has that version's length and time of its last change, in milliseconds,
  -- whatever date the request names.
  pub return_304_if_not_modified-etag :
      (headers : http.HeaderMap) (value : http.HeaderValue) (time len held_time held_len : ℕ)
      (date : Bytes)
      → get http "if-none-match" headers ≡ some value
      → http.to_str value ≡ some (cal_file_etag held_time held_len)
      → (return_304_if_not_modified http headers (cal_file_etag time len) date
          ≡ some (not_modified http date (cal_file_etag time len)))
        ↔ ((held_time ≡ time) × (held_len ≡ len))
  return_304_if_not_modified-etag headers value time len held_time held_len date g t =
      let same =
        is_not_modified-etag headers value (cal_file_etag held_time held_len)
          (cal_file_etag time len) date g t in
      let answer = return_304_lem headers (cal_file_etag time len) date in
      (
        λ e.
            cal_file_etag-injective held_time held_len time len
              (beq_sound _ _ (sym same ∙ answer.0 e)),
        λ (p, q). answer.1 (same ∙ rw (p, q) (beq_refl (cal_file_etag time len))),
      )
