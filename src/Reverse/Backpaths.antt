-- ===== src/Reverse/Backpaths.antt =====
-- Every redirect back path of a successful set-up stands for one of its locations.
use mathlib.Core.List.{Memᴰ}
use rust_http_proxy.Common.{
  ◌≡◌, refl, Bool, Option, Option-cases, some, List, [], ◌∷◌, All, All-map, All-append, Result, ok,
  >>=-eq-ok, ok_or, ok-injective, ◌⊎◌, inl, inr,
}
use rust_http_proxy.Common.Bytes.{Bytes}
use rust_http_proxy.Common.Sort.{sort_by-All}
use rust_http_proxy.Http.{Http}
use rust_http_proxy.Reverse.{RedirectBackpaths, LocationConfig}
use rust_http_proxy.Reverse.Setup.{
  Locations, ReverseProxyConfig, override_backpath, backpaths_of, backpaths_all,
  parse_reverse_proxy_config, by_redirect_url,
}
use rust_http_proxy.Reverse.SetupLaws.{parse_reverse_proxy_config-Steps}

-- What a back path stands for: a location of a host, under the upstream's own URL or, where the
-- location overrides the authority, under the URL with that authority.
pub record FromLocation (ls : Locations) (b : RedirectBackpaths) : Type 0 where
  pub config : LocationConfig
  pub configs : List LocationConfig
  pub listed : Memᴰ (b.host, configs) ls
  pub member : Memᴰ config configs
  pub same_location : b.location ≡ config.location
  pub url :
      (b.redirect_url ≡ config.upstream.url_base)
      ⊎ ((a : Bytes) × (config.upstream.authority_override ≡ some a))

abbrev From : Bytes → List LocationConfig → RedirectBackpaths → Type 0
From host cs b =
    (b.host ≡ host)
    × ((c : LocationConfig) × Memᴰ c cs
        × (b.location ≡ c.location)
        × ((b.redirect_url ≡ c.upstream.url_base)
            ⊎ ((a : Bytes) × (c.upstream.authority_override ≡ some a))))

From-tail :
    (host : Bytes) (c : LocationConfig) (cs : List LocationConfig) (b : RedirectBackpaths)
    → From host cs b
    → From host (c ∷ cs) b
From-tail host c cs b (h, (d, m, l, u)) = (h, (d, Memᴰ.tail m, l, u))

module _ (http : Http) where
  override_backpath-From :
      (host : Bytes) (c : LocationConfig) (cs : List LocationConfig) (bs : List RedirectBackpaths)
      → override_backpath http host c ≡ ok bs
      → All (From host (c ∷ cs)) bs
  unfolding override_backpath
  override_backpath-From host c cs bs e = elim (Option-cases c.upstream.authority_override) [
    | inl o ↦ let same : [] ≡ bs = ok-injective (rw (o, override_backpath) at e) in rw (← same) tt
    | inr (a, o) ↦
        let (url, _, e1) =
          >>=-eq-ok (ok_or _ (http.parse_uri c.upstream.url_base)) _
            (rw (o, override_backpath) at e) in
        let (auth, _, e2) = >>=-eq-ok (ok_or _ (http.parse_authority a)) _ e1 in
        let (new, _, e3) = >>=-eq-ok (ok_or _ (http.with_authority auth url)) _ e2 in
        rw (← ok-injective e3) ((refl, (c, Memᴰ.head refl, refl, inr (a, o))), tt)
  ]

  backpaths_of-From :
      (host : Bytes) (cs : List LocationConfig) (bs : List RedirectBackpaths)
      → backpaths_of http host cs ≡ ok bs
      → All (From host cs) bs
  unfolding backpaths_of
  backpaths_of-From host [] bs e = let same : [] ≡ bs = ok-injective e in rw (← same) tt
  backpaths_of-From host (c ∷ cs) bs e =
      let (own, eo, e1) = >>=-eq-ok (override_backpath http host c) _ e in
      let (more, em, e2) = >>=-eq-ok (backpaths_of http host cs) _ e1 in
      rw (← ok-injective e2) (
        All-append (From host (c ∷ cs)) own _ (override_backpath-From host c cs own eo) (
          (refl, (c, Memᴰ.head refl, refl, inl refl)),
          All-map (From-tail host c cs) more (backpaths_of-From host cs more em),
        ))

  FromLocation-tail :
      (l : Bytes × List LocationConfig) (ls : Locations) (b : RedirectBackpaths)
      → FromLocation ls b
      → FromLocation (l ∷ ls) b
  FromLocation-tail l ls b f = record {
    config = f.config;
    configs = f.configs;
    listed = Memᴰ.tail f.listed;
    member = f.member;
    same_location = f.same_location;
    url = f.url;
  }

  From-FromLocation :
      (host : Bytes) (cs : List LocationConfig) (ls : Locations) (b : RedirectBackpaths)
      → From host cs b
      → FromLocation ((host, cs) ∷ ls) b
  From-FromLocation host cs ls b (h, (c, m, l, u)) = record {
    config = c;
    configs = cs;
    listed = Memᴰ.head (rw h);
    member = m;
    same_location = l;
    url = u;
  }

  backpaths_all-FromLocation :
      (ls : Locations) (bs : List RedirectBackpaths)
      → backpaths_all http ls ≡ ok bs
      → All (FromLocation ls) bs
  unfolding backpaths_all
  backpaths_all-FromLocation [] bs e = let same : [] ≡ bs = ok-injective e in rw (← same) tt
  backpaths_all-FromLocation ((host, cs) ∷ ls) bs e =
      let (own, eo, e1) = >>=-eq-ok (backpaths_of http host cs) _ e in
      let (more, em, e2) = >>=-eq-ok (backpaths_all http ls) _ e1 in
      rw (← ok-injective e2) (
        All-append (FromLocation ((host, cs) ∷ ls)) own more
          (All-map (From-FromLocation host cs ls) own (backpaths_of-From host cs own eo))
          (All-map (FromLocation-tail (host, cs) ls) more (backpaths_all-FromLocation ls more em)))

  -- In a configuration that was set up without an error, every redirect back path stands for a
  -- location of its host: its location is that one's, and its URL is the upstream's own, unless the
  -- location overrides the authority.
  pub redirect_bachpaths-FromLocation :
      (load : Option (Result Locations)) (urls : List Bytes) (github : Bool)
      (config : ReverseProxyConfig)
      → parse_reverse_proxy_config http load urls github ≡ ok config
      → All (FromLocation config.locations) config.redirect_bachpaths
  redirect_bachpaths-FromLocation load urls github config e =
      let steps = parse_reverse_proxy_config-Steps http load urls github config e in
      rw steps.ordered (
        sort_by-All by_redirect_url (FromLocation config.locations) steps.backpaths
          (backpaths_all-FromLocation config.locations steps.backpaths steps.collected))
