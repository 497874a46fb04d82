-- ===== src/Proxy/Extract.antt =====
-- The host and port of a request: `extract_scheme_host_port` of rust_http_proxy/src/proxy.rs.
use rust_http_proxy.Common.{
  ℕ, ◌≤◌, ◌≡◌, refl, ap, ◌∙◌, Bool, true, false, ◌==◌, not, Option, none, some, List, [], ◌∷◌, ◌++◌,
  Result, ok, err, panic, ◌/◌, ◌%◌, zero, suc, wrapped, invalid_data, any, arith, append-nil,
}
use rust_http_proxy.Common.Bytes.{Bytes, split, split_first}
use rust_http_proxy.Common.Numbers.{parse_uint, u16_max, decimal, digits, digit}
use rust_http_proxy.Common.Numbers.RoundTrip.{parse_uint-decimal}
use rust_http_proxy.Http.{Http, Request, get}
use rust_http_proxy.Labels.{SchemeHostPort, port_part}
use rust_http_proxy.Proxy.{
  is_http_2, extract_scheme_host_port, extract_http_1, header_port, unwrap_or,
}

-- No colon in the text.
abbrev pub plain : Bytes → Bool
plain s = not (any (λ a. a == b':') s)

split_first-plain : (s : Bytes) → plain s ≡ true → split_first b':' s ≡ (s, [])
unfolding split_first
split_first-plain [] h = refl
split_first-plain (a ∷ s) h = ground (arith, split_first-plain s)

split_first-colon :
    (s t : Bytes) → plain s ≡ true → split_first b':' (s ++ b':' ∷ t) ≡ (s, split b':' t)
unfolding split_first split
split_first-colon [] t h = refl
split_first-colon (a ∷ s) t h = ground (arith, split_first-colon s t)

split-plain : (s : Bytes) → plain s ≡ true → split b':' s ≡ s ∷ []
unfolding split
split-plain s h = ground (arith, split_first-plain s)

split-colon : (s t : Bytes) → plain s ≡ true → split b':' (s ++ b':' ∷ t) ≡ s ∷ split b':' t
split-colon s t h = unfold split in ground (arith, split_first-colon s t)

digits-plain : (fuel n : ℕ) (out : Bytes) → plain out ≡ true → plain (digits 10 fuel n out) ≡ true
unfolding digits
digits-plain zero n out h = h
digits-plain (suc fuel) n out h = ground (arith, digits-plain fuel (n / 10) (digit (n % 10) ∷ out))

decimal-plain : (n : ℕ) → plain (decimal n) ≡ true
decimal-plain n = unfold decimal in digits-plain (suc n) n [] refl

module _ (http : Http) where
  -- An HTTP/1.x request and the text of its `Host` header.
  pub record HasHost (req : Request http) (text : Bytes) : Type 0 where
    pub value : http.HeaderValue
    pub old : is_http_2 req.version ≡ false
    pub first : get http "host" req.headers ≡ some value
    pub visible : http.to_str value ≡ some text

  abbrev pub scheme_of : Request http → Bytes → Bytes
  scheme_of req default_scheme = unwrap_or http (http.scheme_str req.uri) default_scheme

  extract-pieces :
      (req : Request http) (default_scheme text name : Bytes) (more : List Bytes)
      → HasHost req text
      → split b':' text ≡ name ∷ more
      → extract_scheme_host_port http req default_scheme
        ≡ elim (header_port more) as (λ _. Result (SchemeHostPort × Bytes)) [
          | ok port ↦
              ok (record { scheme = scheme_of req default_scheme; host = name; port = port }, name)
          | err e ↦ err e
          | panic ↦ panic
        ]
  extract-pieces req default_scheme text name more h s =
      unfold extract_scheme_host_port extract_http_1 in ground (arith, h.old, h.first, h.visible)

  abbrev pub PortFits : Option ℕ → Type 0
  PortFits none = Unit {0}
  PortFits (some n) = n ≤ u16_max

  -- For a request that is not HTTP/2 and whose `Host` header is a host without a colon, alone or
  -- with a colon and a 16-bit port behind it, exactly that host and port are extracted, with the
  -- scheme of the URI or else of the listener; the host is also the domain that is looked up.
  pub extract-print :
      (req : Request http) (default_scheme host : Bytes) (port : Option ℕ)
      → HasHost req (host ++ port_part port)
      → plain host ≡ true
      → PortFits port
      → extract_scheme_host_port http req default_scheme
        ≡ ok (record { scheme = scheme_of req default_scheme; host = host; port = port }, host)
  extract-print req default_scheme host none h p fits =
      rw (extract-pieces req default_scheme _ host [] h (rw (append-nil host) (split-plain host p)))
        (unfold header_port in refl)
  extract-print req default_scheme host (some n) h p fits =
      rw
        (extract-pieces req default_scheme _ host (decimal n ∷ []) h (
          split-colon host (decimal n) p
          ∙ ap (λ ps. host ∷ ps) (split-plain (decimal n) (decimal-plain n))))
        (unfold header_port in rw (parse_uint-decimal u16_max n fits))

  -- For a request that is not HTTP/2, a `Host` header in which the first colon is followed by
  -- another one, as in the address `[::1]`, is refused as invalid.
  pub extract-double_colon :
      (req : Request http) (default_scheme name rest : Bytes)
      → HasHost req (name ++ b':' ∷ (b':' ∷ rest))
      → plain name ≡ true
      → extract_scheme_host_port http req default_scheme ≡ err (wrapped invalid_data)
  extract-double_colon req default_scheme name rest h p =
      rw
        (extract-pieces req default_scheme _ name (split b':' (b':' ∷ rest)) h
          (split-colon name (b':' ∷ rest) p))
        (unfold header_port split split_first parse_uint in refl)
