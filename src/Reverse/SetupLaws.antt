-- ===== src/Reverse/SetupLaws.antt =====
-- What a successful set-up of the reverse proxy gives: `parse_reverse_proxy_config` of
-- rust_http_proxy/src/reverse.rs keeps the order of the locations through validation.
use mathlib.Core.List.{Memᴰ}
use rust_http_proxy.Common.{
  ◌≤◌, ◌≡◌, refl, Bool, true, Option, none, some, List, [], ◌∷◌, All, All-mem, find-hit, length,
  Bool-cases, Option-cases, ◌∙◌, inl, inr, arith, subst, ok, err, panic, Result, >>=-eq-ok,
  ok-injective,
}
use rust_http_proxy.Common.Bytes.{Bytes, starts_with, beq}
use rust_http_proxy.Common.Sort.{sort_by, IsSorted}
use rust_http_proxy.Reverse.{LocationConfig, RedirectBackpaths, default_host}
use rust_http_proxy.Http.{Http}
use rust_http_proxy.Reverse.Setup.{
  Locations, by_redirect_url, validate, complete, validate_all, validate_locations, sort_locations,
  get_host, parse_reverse_proxy_config, ReverseProxyConfig, finish, collect, add_urls,
  backpaths_all,
}
use rust_http_proxy.Reverse.Handle.{find_location, locations_of}
use mathlib.Core.Option.{some-injective}
use rust_http_proxy.Reverse.Order.{above, find-longest, sort_by_location-IsSorted}

-- Validation keeps the locations as texts, in their order.
module _ (http : Http) where
  validate-location : (c d : LocationConfig) → validate http c ≡ ok d → d.location ≡ c.location
  unfolding validate complete
  validate-location c d e = ground arith

  pub validate_all-cons :
      (c : LocationConfig) (cs ds : List LocationConfig)
      → validate_all http (c ∷ cs) ≡ ok ds
      → (d : LocationConfig) × (ds' : List LocationConfig) × (validate http c ≡ ok d)
        × (validate_all http cs ≡ ok ds')
        × (d ∷ ds' ≡ ds)
  unfolding validate_all
  validate_all-cons c cs ds e =
      let (d, ed, e') = >>=-eq-ok _ _ e in
      let (ds', eds, e'') = >>=-eq-ok _ _ e' in (d, ds', ed, eds, ok-injective e'')

  validate_all-All :
      (P : Bytes → Type 0) (cs ds : List LocationConfig)
      → validate_all http cs ≡ ok ds
      → All (λ c. P c.location) cs
      → All (λ d. P d.location) ds
  validate_all-All P [] ds e h =
      let same : [] ≡ ds = unfold validate_all in ok-injective e in rw (← same) tt
  validate_all-All P (c ∷ cs) ds e (pc, h) =
      let (d, ds', ed, eds, same) = validate_all-cons c cs ds e in
      rw (← same) (rw (validate-location c d ed) pc, validate_all-All P cs ds' eds h)

  validate_all-IsSorted :
      (cs ds : List LocationConfig)
      → validate_all http cs ≡ ok ds
      → IsSorted (λ a b. above a.location b.location) cs
      → IsSorted (λ a b. above a.location b.location) ds
  validate_all-IsSorted [] ds e h =
      let same : [] ≡ ds = unfold validate_all in ok-injective e in rw (← same) tt
  validate_all-IsSorted (c ∷ cs) ds e (hc, h) =
      let (d, ds', ed, eds, same) = validate_all-cons c cs ds e in
      rw (← same) (
        rw (validate-location c d ed)
            (validate_all-All (λ s. above c.location s ≡ true) cs ds' eds hc),
        validate_all-IsSorted cs ds' eds h,
      )

  -- Every host's locations are in order.
  abbrev pub AreSorted : Locations → Type 0
  AreSorted = All (λ l. IsSorted (λ a b. above a.location b.location) l.1)

  pub validate_locations-cons :
      (k : Bytes) (v : List LocationConfig) (m ls : Locations)
      → validate_locations http ((k, v) ∷ m) ≡ ok ls
      → (v' : List LocationConfig) × (m' : Locations) × (validate_all http v ≡ ok v')
        × (validate_locations http m ≡ ok m')
        × ((k, v') ∷ m' ≡ ls)
  unfolding validate_locations
  validate_locations-cons k v m ls e =
      let (v', ev, e') = >>=-eq-ok _ _ e in
      let (m', em, e'') = >>=-eq-ok _ _ e' in (v', m', ev, em, ok-injective e'')

  validate_locations-AreSorted :
      (m ls : Locations) → validate_locations http m ≡ ok ls → AreSorted m → AreSorted ls
  validate_locations-AreSorted [] ls e h =
      let same : [] ≡ ls = unfold validate_locations in ok-injective e in rw (← same) tt
  validate_locations-AreSorted ((k, v) ∷ m) ls e (hv, h) =
      let (v', m', ev, em, same) = validate_locations-cons k v m ls e in
      rw (← same) (validate_all-IsSorted v v' ev hv, validate_locations-AreSorted m m' em h)

  sort_locations-AreSorted : (m : Locations) → AreSorted (sort_locations m)
  unfolding sort_locations
  sort_locations-AreSorted [] = tt
  sort_locations-AreSorted ((k, v) ∷ m) = (sort_by_location-IsSorted v, sort_locations-AreSorted m)

  -- What a successful set-up went through.
  pub record Steps (config : ReverseProxyConfig) : Type 0 where
    pub added : Locations
    pub backpaths : List RedirectBackpaths
    pub validated : validate_locations http (sort_locations added) ≡ ok config.locations
    pub collected : backpaths_all http config.locations ≡ ok backpaths
    pub ordered : config.redirect_bachpaths ≡ sort_by by_redirect_url backpaths

  collect-Steps :
      (added locations : Locations) (config : ReverseProxyConfig)
      → validate_locations http (sort_locations added) ≡ ok locations
      → collect http locations ≡ ok config
      → Steps config
  unfolding collect
  collect-Steps added locations config v e =
      let (backpaths, eb, e') = >>=-eq-ok (backpaths_all http locations) _ e in
      let same : record {
        locations = locations;
        redirect_bachpaths = sort_by by_redirect_url backpaths;
      }
          ≡ config =
        ok-injective e' in
      record {
        added = added;
        backpaths = backpaths;
        validated = rw (← same) v;
        collected = rw (← same) eb;
        ordered = rw (← same) refl;
      }

  finish-Steps :
      (added : Locations) (config : ReverseProxyConfig)
      → finish http added ≡ ok config
      → Steps config
  unfolding finish
  finish-Steps added config e =
      let (locations, v, e') =
        >>=-eq-ok (validate_locations http (sort_locations added)) (collect http) e in
      collect-Steps added locations config v e'

  pub parse_reverse_proxy_config-Steps :
      (load : Option (Result Locations)) (urls : List Bytes) (github : Bool)
      (config : ReverseProxyConfig)
      → parse_reverse_proxy_config http load urls github ≡ ok config
      → Steps config
  unfolding parse_reverse_proxy_config
  parse_reverse_proxy_config-Steps none urls github config e =
      finish-Steps (add_urls http urls github []) config e
  parse_reverse_proxy_config-Steps (some (ok loaded)) urls github config e =
      finish-Steps (add_urls http urls github loaded) config e
  parse_reverse_proxy_config-Steps (some (err x)) urls github config e = cc
  parse_reverse_proxy_config-Steps (some panic) urls github config e = cc

  get_host-All :
      (P : List LocationConfig → Type 0) (key : Bytes) (m : Locations) {ls : List LocationConfig}
      → All (λ l. P l.1) m
      → get_host key m ≡ some ls
      → P ls
  unfolding get_host
  get_host-All P key [] h e = cc
  get_host-All P key ((k, v) ∷ m) (pv, h) e = elim (Bool-cases (beq k key)) [
    | inl hit ↦ subst P (some-injective _ _ (rw hit at e)) pv
    | inr miss ↦ get_host-All P key m h (rw miss at e)
  ]

  locations_of-All :
      (P : List LocationConfig → Type 0) (config : ReverseProxyConfig) (domain : Bytes)
      {ls : List LocationConfig}
      → All (λ l. P l.1) config.locations
      → locations_of config domain ≡ some ls
      → P ls
  unfolding locations_of
  locations_of-All P config domain h e = elim (Option-cases (get_host domain config.locations)) [
    | inl missing ↦ get_host-All P default_host config.locations h (rw (missing, locations_of) at e)
    | inr (v, found) ↦
        get_host-All P domain config.locations h (found ∙ (rw (found, locations_of) at e))
  ]

  -- In a configuration that was set up without an error, the location chosen for a path is one
  -- that the path starts with, and at least as long as each of the host's locations that the path
  -- starts with, whatever order they were written in.
  pub find_location-longest :
      (load : Option (Result Locations)) (urls : List Bytes) (github : Bool)
      (config : ReverseProxyConfig) (domain path : Bytes) (ls : List LocationConfig)
      (c d : LocationConfig)
      → parse_reverse_proxy_config http load urls github ≡ ok config
      → locations_of config domain ≡ some ls
      → find_location path ls ≡ some c
      → Memᴰ d ls
      → starts_with path d.location ≡ true
      → (starts_with path c.location ≡ true) × (length d.location ≤ length c.location)
  unfolding find_location
  find_location-longest load urls github config domain path ls c d e l f m h =
      let steps = parse_reverse_proxy_config-Steps load urls github config e in
      let sorted =
        locations_of-All (IsSorted (λ a b. above a.location b.location)) config domain
          (validate_locations-AreSorted _ _ steps.validated (sort_locations-AreSorted steps.added))
          l in
      (find-hit _ ls f, All-mem _ ls (find-longest (λ d. d.location) path ls sorted f) m h)
