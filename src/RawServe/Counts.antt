-- ===== src/RawServe/Counts.antt =====
-- What the counter of the visits from elsewhere, `req_from_out` of rust_http_proxy/src/metrics.rs, adds up
-- to over the requests that rust_http_proxy/src/raw_serve.rs serves.
use rust_http_proxy.Common.{
  ℕ, ◌+◌, ◌%◌, ◌<◌, ◌≡◌, ◌≢◌, refl, ap, ◌∙◌, Bool, true, false, not, ◌&&◌, if◌then◌else◌,
  Bool-cases, inl, inr, List, [], ◌∷◌, Result, ok, err, panic, arith,
}
use rust_http_proxy.Common.Bytes.{Bytes, codes, contains, ends_with}
use rust_http_proxy.Common.Numbers.{u64_mod}
use rust_http_proxy.Http.{
  Http, Request, Response, Method, get_method, head_method, connect, other_method,
}
use rust_http_proxy.Labels.{ReqLabels}
use rust_http_proxy.Metrics.{Family}
use rust_http_proxy.RawServe.{text_or_empty}
use rust_http_proxy.RawServe.Serve.{
  all_http_req, is_counted, from_outside, is_image, is_page, incr_counter_if_need, serve_method,
  serve_http_request,
}

abbrev is_get : Method → Bool
is_get get_method = true
is_get _ = false

all_is_no_page : is_page (codes "all") ≡ false
unfolding ends_with
all_is_no_page = refl

-- No page is called `all`, so no visit is counted under the label of them all.
page-ne-all : (path : Bytes) → is_page path ≡ true → path ≢ codes "all"
page-ne-all path page same = cc (page, ap is_page same, all_is_no_page)

-- The three tests of the code are one.
one_test :
    {S : Type 0} (image outside page success : Bool) (s t : S)
    → (if image && outside then s else if (page && outside) && success then t else s)
      ≡ (if page && (outside && (not image && success)) then t else s)
one_test image outside page success s t = ground arith

either_way : {S : Type 0} (b : Bool) (s : S) → (if b then s else s) ≡ s
either_way true s = refl
either_way false s = refl

-- What is kept of a choice between pairs.
ap_if :
    {S T : Type 0} (b : Bool) (s : S) (t : T) (other : S × T)
    → (if b then (s, t) else other).0 ≡ (if b then s else other.0)
ap_if true s t other = refl
ap_if false s t other = refl

second : (a b c : Bool) → a && (b && c) ≡ true → b ≡ true
second true true c e = refl
second true false c e = e
second false b c e = cc

module _ (family : Family ReqLabels) (http : Http) (engine : Bytes → Bytes)
    (referer_keywords_to_self : List Bytes)
    (files_at : Bytes → http.HeaderMap → Bool → Bool → Result (Response http)) where
  abbrev has_success : Result (Response http) → Bool
  has_success (ok res) = is_counted res.status
  has_success _ = false

  abbrev referer_of : Request http → Bytes
  referer_of req = text_or_empty http "referer" req.headers

  abbrev answer_for : Request http → Bytes → Result (Response http)
  answer_for req path =
      files_at path req.headers
        (contains (text_or_empty http "accept-encoding" req.headers) (codes "gzip")) true

  -- A visit from elsewhere: a `GET` for a page that is no image, which `from_outside` accepts the
  -- referer of, and which is answered with success or a redirect.
  unfoldable pub is_visit : Request http → Bytes → Bool
  is_visit req path =
      is_get req.method
      && (is_page path
          && (from_outside referer_keywords_to_self (referer_of req)
              && (not (is_image path) && has_success (answer_for req path))))

  abbrev serve : Request http → Bytes → family.State → family.State
  serve req path s =
      (serve_http_request family http engine referer_keywords_to_self files_at req path s).0

  -- Requests one after the other, each with its decoded path.
  unfoldable pub serve_all : List (Request http × Bytes) → family.State → family.State
  unfolding serve_http_request
  serve_all [] s = s
  serve_all ((req, path) ∷ more) s = serve_all more (serve req path s)

  unfoldable pub visits : List (Request http × Bytes) → ℕ
  unfolding is_visit
  visits [] = 0
  visits ((req, path) ∷ more) = (if is_visit req path then 1 else 0) + visits more

  abbrev label_of : Request http → Bytes → ReqLabels
  label_of req path = record { referer = engine (referer_of req); path = path }

  counted_once :
      (req : Request http) (path : Bytes) (s : family.State)
      → is_page path ≡ true
      → family.value all_http_req
          (family.inc_by all_http_req 1 (family.inc_by (label_of req path) 1 s))
        ≡ (family.value all_http_req s + 1) % u64_mod
  counted_once req path s page =
      family.value-inc_by_self all_http_req 1 _
      ∙ ap (λ n. (n + 1) % u64_mod)
          (family.value-inc_by_ne (label_of req path) all_http_req 1 s
            (λ same. page-ne-all path page (ap (λ l. l.path) same)))

  -- The counters with one more visit.
  abbrev visited : Request http → Bytes → family.State → family.State
  visited req path s = family.inc_by all_http_req 1 (family.inc_by (label_of req path) 1 s)

  incr_counter_if_need-visited :
      (req : Request http) (path : Bytes) (r : Result (Response http)) (outer : Bool)
      (s : family.State)
      → incr_counter_if_need family http engine r outer (referer_of req) path s
        ≡ (if outer && has_success r then visited req path s else s)
  unfolding incr_counter_if_need
  incr_counter_if_need-visited req path (ok res) outer s = refl
  incr_counter_if_need-visited req path (err e) true s = refl
  incr_counter_if_need-visited req path (err e) false s = refl
  incr_counter_if_need-visited req path panic true s = refl
  incr_counter_if_need-visited req path panic false s = refl

  serve_method-visited :
      (m : Method) (req : Request http) (path : Bytes) (s : family.State)
      → (if is_image path && from_outside referer_keywords_to_self (referer_of req)
          then s
          else (serve_method family http engine referer_keywords_to_self files_at m path req.headers
              s).0)
        ≡ (if is_get m
              && (is_page path
                  && (from_outside referer_keywords_to_self (referer_of req)
                      && (not (is_image path) && has_success (answer_for req path))))
            then visited req path s
            else s)
  unfolding serve_method
  serve_method-visited get_method req path s =
      let outside = from_outside referer_keywords_to_self (referer_of req) in
      let r = answer_for req path in
      ap (λ t. if is_image path && outside then s else t)
        (incr_counter_if_need-visited req path r (is_page path && outside) s)
      ∙ one_test (is_image path) outside (is_page path) (has_success r) s (visited req path s)
  serve_method-visited head_method req path s = either_way _ s
  serve_method-visited connect req path s = either_way _ s
  serve_method-visited other_method req path s = either_way _ s

  serve-visited :
      (req : Request http) (path : Bytes) (s : family.State)
      → serve req path s ≡ (if is_visit req path then visited req path s else s)
  unfolding serve_http_request is_visit
  serve-visited req path s =
      ap_if (is_image path && from_outside referer_keywords_to_self (referer_of req)) s _ _
      ∙ serve_method-visited req.method req path s

  is_visit-page :
      (req : Request http) (path : Bytes) → is_visit req path ≡ true → is_page path ≡ true
  unfolding is_visit
  is_visit-page req path v = second (is_get req.method) (is_page path) _ v

  serve-value :
      (req : Request http) (path : Bytes) (s : family.State)
      → family.value all_http_req s < u64_mod
      → family.value all_http_req (serve req path s)
        ≡ (family.value all_http_req s + (if is_visit req path then 1 else 0)) % u64_mod
  serve-value req path s fits = elim (Bool-cases (is_visit req path)) [
    | inl v ↦ rw (serve-visited req path s, v) (counted_once req path s (is_visit-page req path v))
    | inr v ↦ rw (serve-visited req path s, v) (omega arith)
  ]

  -- Over any requests, from a 64-bit value on, the counter under `all` grows by exactly the number of
  -- visits from elsewhere, as a 64-bit number: the requests by `GET` for a path that ends with `/` or
  -- `.html`, with a referer that is not empty and has none of the configured keywords, that are
  -- answered with success or a redirect. There are none unless at least one keyword is configured.
  pub serve_all-visits :
      (requests : List (Request http × Bytes)) (s : family.State)
      → family.value all_http_req s < u64_mod
      → family.value all_http_req (serve_all requests s)
        ≡ (family.value all_http_req s + visits requests) % u64_mod
  unfolding serve_all visits
  serve_all-visits [] s fits = omega arith
  serve_all-visits ((req, path) ∷ more) s fits =
      ground (arith, serve-value req path s, serve_all-visits more (serve req path s))
