-- ===== src/Fetching/UrlGuard/Laws.antt =====
-- What the guard lets through, and how it refuses.
use huntloop.Base.{
  String, Bool, true, false, ◌↔◌, ◌≡◌, refl, Option, none, some, List, [], ◌∷◌, str_eq, contains,
  arith, Bool-cases, Option-cases, inl, inr, All, subst,
}
use huntloop.Fetching.UrlGuard.{
  Ip, Info, Net, allowed, allowed_schemes, is_blocked, address_of, given, ip_of, first_blocked,
  assert_fetch_url_allowed, judge_host, judge_public, judge, judge_resolved, judge_parsed, SplitUrl,
  Lookup, found, unanswered, undecodable,
}

module _ (net : Net) where
  -- An entry that stands for no blocked address.
  abbrev IsOpen : Info → Type 0
  IsOpen info = (ip : Ip) → ip_of net (address_of info) ≡ some ip → is_blocked ip ≡ false

  -- What the guard takes for harmless: a literal address that is not blocked; a name of which the resolver gives
  -- no blocked address; and a name for which the resolver fails, of which nothing is known.
  abbrev NoneBlocked : Option Ip → Lookup → Type 0
  NoneBlocked (some ip) l = is_blocked ip ≡ false
  NoneBlocked none (found infos) = All IsOpen infos
  NoneBlocked none unanswered = Unit
  NoneBlocked none undecodable = ⊥

  abbrev pub PassesGuard : String → Type 0
  PassesGuard host = NoneBlocked (net.ip_address host) (net.resolve host)

  first_blocked-IsOpen : (infos : List Info) → first_blocked net infos ≡ none → All IsOpen infos
  unfolding first_blocked
  first_blocked-IsOpen [] h = tt
  first_blocked-IsOpen (info ∷ rest) h =
      ((λ ip e. ground (arith, e, h)), first_blocked-IsOpen rest (ground (arith, h)))

  open-first_blocked : (infos : List Info) → All IsOpen infos → first_blocked net infos ≡ none
  unfolding first_blocked
  open-first_blocked [] h = refl
  open-first_blocked (info ∷ rest) h = elim (Option-cases (ip_of net (address_of info))) [
    | inl e ↦ rw (first_blocked, e) (open-first_blocked rest h.1)
    | inr (ip, e) ↦ rw (first_blocked, e, h.0 ip e) (open-first_blocked rest h.1)
  ]

  judge-none : (url host : String) (o : Option Ip) → judge url host o ≡ allowed url → o ≡ none
  judge-none url host none h = refl
  judge-none url host (some ip) h = absurd (cc)

  NoneBlocked-resolved :
      (url host : String) (l : Lookup)
      → (judge_resolved net url host l ≡ allowed url) ↔ NoneBlocked none l
  NoneBlocked-resolved url host (found infos) = (
    (λ h. first_blocked-IsOpen infos (judge-none url host _ h)),
    (λ h. rw (open-first_blocked infos h) refl),
  )
  NoneBlocked-resolved url host unanswered = ((λ h. tt), (λ h. refl))
  NoneBlocked-resolved url host undecodable = ((λ h. absurd (cc)), (λ h. absurd h))

  judge_host-PassesGuard :
      (url host : String)
      → (judge_host net url host (net.ip_address host) ≡ allowed url) ↔ PassesGuard host
  judge_host-PassesGuard url host = elim (Option-cases (net.ip_address host)) [
    | inl e ↦ rw e (NoneBlocked-resolved url host (net.resolve host))
    | inr (ip, e) ↦ rw e ((λ h. ground (arith, h)), (λ h. ground (arith, h)))
  ]

  -- The test of `hostname`, and what follows it.
  abbrev Answers : Bool → Option String → Type 0
  Answers allow_private hostname =
      (given hostname ≡ true)
      × (allow_private ≡ false → (host : String) → hostname ≡ some host → PassesGuard host)

  judge_public-Answers :
      (allow_private : Bool) (url : String) (hostname : Option String)
      → judge_public net allow_private url hostname ≡ allowed url
      → Answers allow_private hostname
  judge_public-Answers p url none h = absurd (cc)
  judge_public-Answers p url (some host) h = elim (Bool-cases (str_eq host "")) [
    | inl e ↦ let h' = rw e at h in absurd (cc)
    | inr e ↦ (
      ground arith,
      (λ no_private name same.
          let here : host ≡ name = cc in
          subst PassesGuard here ((judge_host-PassesGuard url host).0 (rw (e, no_private) at h))),
    )
  ]

  Answers-judge_public :
      (allow_private : Bool) (url : String) (hostname : Option String)
      → Answers allow_private hostname
      → judge_public net allow_private url hostname ≡ allowed url
  Answers-judge_public p url none h = absurd (cc)
  Answers-judge_public true url (some host) h = ground (arith, h.0)
  Answers-judge_public false url (some host) h = elim (Bool-cases (str_eq host "")) [
    | inl e ↦ absurd (ground (arith, e, h.0))
    | inr e ↦ rw e ((judge_host-PassesGuard url host).1 (h.1 refl host refl))
  ]

  -- What the parts of the URL have to be.
  abbrev pub Accepts : Bool → SplitUrl → Type 0
  Accepts allow_private u =
      (contains allowed_schemes u.scheme ≡ true)
      × (given u.username ≡ false)
      × (given u.password ≡ false)
      × (given u.hostname ≡ true)
      × (allow_private ≡ false → (host : String) → u.hostname ≡ some host → PassesGuard host)

  judge_parsed-Accepts :
      (p : Bool) (url : String) (u : SplitUrl)
      → (judge_parsed net p url (some u) ≡ allowed url) ↔ Accepts p u
  judge_parsed-Accepts p url u = (
    (λ h. elim (Bool-cases (contains allowed_schemes u.scheme)) [
      | inr e ↦ let h' = rw e at h in absurd (cc)
      | inl e ↦ elim (Bool-cases (given u.username)) [
        | inl name ↦ let h' = rw (e, name) at h in absurd (cc)
        | inr no_name ↦ elim (Bool-cases (given u.password)) [
          | inl word ↦ let h' = rw (e, no_name, word) at h in absurd (cc)
          | inr no_word ↦
              let h' = rw (e, no_name, no_word) at h in
              let answers = judge_public-Answers p url u.hostname h' in
              (e, no_name, no_word, answers.0, answers.1)
        ]
      ]
    ]),
    (λ h. rw (h.0, h.1, h.2) (Answers-judge_public p url u.hostname (h.3, h.4))),
  )

  abbrev pub Parsed : Bool → Option SplitUrl → Type 0
  Parsed allow_private none = ⊥
  Parsed allow_private (some u) = Accepts allow_private u

  -- Exactly the URLs are allowed that can be parsed and have a scheme of the web, no credentials and a host; unless
  -- private ones are allowed, that host must be no blocked address, and no name that the resolver gives one for.
  -- A name for which the resolver fails is allowed, one that it cannot encode is not.
  pub assert_fetch_url_allowed_iff :
      (allow_private : Bool) (url : String)
      → (assert_fetch_url_allowed net allow_private url ≡ allowed url)
        ↔ Parsed allow_private (net.urlsplit url)
  unfolding assert_fetch_url_allowed
  assert_fetch_url_allowed_iff p url = elim (Option-cases (net.urlsplit url)) [
    | inl e ↦ rw e ((λ h. absurd (cc)), (λ h. absurd h))
    | inr (u, e) ↦ rw e (judge_parsed-Accepts p url u)
  ]
