-- ===== src/RawServe/Files/Laws.antt =====
-- What `serve_path` of rust_http_proxy/src/raw_serve.rs answers: the part of a file that was asked
-- for, and the way an empty file fails.
use rust_http_proxy.Common.{
  ℕ, zero, suc, ◌+◌, ◌-◌, ◌≤◌, ◌<◌, ◌≡◌, ◌≢◌, refl, ap, ◌∙◌, inl, inr, Bool, true, length, take,
  drop, length-drop, Option, none, some, List, [], ◌∷◌, Result-cases, >>=-ne-panic, ok_or-ne-panic,
  ok, panic, IoError, arith, ok_or,
}
use rust_http_proxy.Common.Bytes.{Bytes}
use rust_http_proxy.Common.Numbers.{u64_mod}
use rust_http_proxy.Http.{Http, file_body, get}
use rust_http_proxy.RawServe.{Builder}
use rust_http_proxy.RawServe.Range.{parse_range, content_range, range_of, check_range}
use rust_http_proxy.RawServe.Range.Bounds.{
  Asks, Reads, partial, parse_range-Asks, parse_range-bounds,
}
use rust_http_proxy.RawServe.Files.{Files, read_part, range_not_satisfiable, send_file}

length-take : {A : Type 0} (n : ℕ) (s : List A) → n ≤ length s → length (take n s) ≡ n
length-take zero s h = refl
length-take (suc n) [] h = absurd (omega arith)
length-take (suc n) (a ∷ s) h = omega (arith, length-take n s)

take-all : (n : ℕ) (s : Bytes) → length s ≤ n → take n s ≡ s
take-all zero [] h = refl
take-all (suc n) [] h = refl
take-all zero (a ∷ s) h = absurd (omega arith)
take-all (suc n) (a ∷ s) h = ap (λ t. a ∷ t) (take-all n s (omega arith))

module _ (files : Files) (http : Http) (captures : Bytes → Option (Bytes × Bytes)) where
  read_part-slice :
      (content : Bytes) (start end file_len : ℕ)
      → file_len < u64_mod
      → length content ≡ file_len
      → start ≤ end
      → end < file_len
      → read_part files http captures content start end file_len
        ≡ take (end - start + 1) (drop start content)
  read_part-slice content start end file_len q l h k =
      ground (arith, take-all (end - start + 1) (drop start content), length-drop start content)

  range_of-ne-panic : (left right : Bytes) (size : ℕ) → range_of left right size ≢ panic
  unfolding range_of
  range_of-ne-panic [] [] size e = cc
  range_of-ne-panic [] (c ∷ right) size e = ground arith
  range_of-ne-panic (c ∷ left) [] size e = ground arith
  range_of-ne-panic (c ∷ left) (d ∷ right) size e = ground arith

  parse_range-ne-panic :
      (range : Option http.HeaderValue) (size : ℕ) (b : Builder http)
      → parse_range http captures range size b ≢ panic
  unfolding parse_range check_range
  parse_range-ne-panic none size b = λ e. ground arith
  parse_range-ne-panic (some value) size b =
      >>=-ne-panic (ok_or _ (http.to_str value)) _ (ok_or-ne-panic _ _) (λ text.
        >>=-ne-panic (ok_or _ (captures text)) _ (ok_or-ne-panic _ _) (λ groups.
          >>=-ne-panic (range_of groups.0 groups.1 size) _
            (range_of-ne-panic groups.0 groups.1 size)
            (λ p. >>=-ne-panic (check_range p.0 p.1 size) _ (λ e. ground arith) (λ _ e. cc))))

  partial_lem :
      (start end len status : ℕ) (built : http.HeaderMap) (shown : http.HeaderValue)
      → http.of_str (content_range start end len) ≡ some shown
      → ◌≡◌ {A = Builder http}
          (some (206, http.append "content-range" shown built))
          (partial http captures start end len (some (status, built)))
  partial_lem start end len status built shown v = ground arith

  send_file_lem :
      (error_text : IoError → Bytes) (path content : Bytes) (headers : http.HeaderMap) (gzip : Bool)
      (response : Builder http) (len start end : ℕ) (built : http.HeaderMap)
      → parse_range http captures (get http "range" headers) len response
        ≡ ok (start, end, some (206, built))
      → files.seek path start ≡ true
      → send_file files http captures error_text path content len headers gzip response
        ≡ ok (record {
          status = 206;
          headers = built;
          body = file_body gzip (read_part files http captures content start end len);
        })
  send_file_lem error_text path content headers gzip response len start end built e k =
      unfold send_file in ground arith

  -- A readable range of a file of less than 2 ^ 64 bytes that still has its size is answered, if
  -- the file can be read from there and the range can be written into a header: status 206, the
  -- range in `Content-Range` behind the other headers, and as body the bytes from the start to the
  -- end, both included, as many as the range has.
  pub send_file-part :
      (error_text : IoError → Bytes) (path content left right : Bytes) (len start end : ℕ)
      (headers : http.HeaderMap) (gzip : Bool) (status : ℕ) (built : http.HeaderMap)
      (value shown : http.HeaderValue)
      → len < u64_mod
      → length content ≡ len
      → get http "range" headers ≡ some value
      → Reads http captures value left right
      → Asks left right len start end
      → http.of_str (content_range start end len) ≡ some shown
      → files.seek path start ≡ true
      → (send_file files http captures error_text path content len headers gzip
            (some (status, built))
          ≡ ok (record {
            status = 206;
            headers = http.append "content-range" shown built;
            body = file_body gzip (take (end - start + 1) (drop start content));
          }))
        × (length (take (end - start + 1) (drop start content)) ≡ end - start + 1)
  send_file-part error_text path content left right len start end headers gzip status built value
        shown q l g reads asks v k =
      let range =
        (parse_range-Asks http captures value left right len start end (some (status, built))
            (some (206, http.append "content-range" shown built)) q reads).1
          (asks, partial_lem start end len status built shown v) in
      let (h, b) =
        parse_range-bounds http captures _ len start end (some (status, built)) _ range in
      (
        send_file_lem error_text path content headers gzip (some (status, built)) len start end
              (http.append "content-range" shown built) (rw g range) k
            ∙ rw (read_part-slice content start end len q l h b),
        length-take (end - start + 1) (drop start content)
            (ground (arith, length-drop start content)),
      )

  -- An empty file is never sent: whatever range is asked for, or none, the answer is the one for a
  -- range that cannot be satisfied.
  pub send_file-empty :
      (error_text : IoError → Bytes) (path content : Bytes) (headers : http.HeaderMap) (gzip : Bool)
      (response : Builder http)
      → (message : Bytes) × (send_file files http captures error_text path content 0 headers gzip
            response
          ≡ range_not_satisfiable files http captures message)
  send_file-empty error_text path content headers gzip response =
      elim (Result-cases (parse_range http captures (get http "range" headers) 0 response)) [
        | inl ((start, end, b), e) ↦
            let (h, k) = parse_range-bounds http captures _ 0 start end response b e in
            absurd (omega arith)
        | inr (inr e) ↦ absurd (parse_range-ne-panic _ 0 response e)
        | inr (inl (x, e)) ↦ (error_text x, unfold send_file in ground arith)
      ]
