-- ===== src/Registry/Resolve/Laws.antt =====
-- What a resolution says of the probes that were made.
use huntloop.Base.{
  ℕ, ◌≤◌, ◌≡◌, refl, sym, ap, ◌∙◌, subst, String, Bool, true, false, not, ◌&&◌, Option, none, some,
  List, [], ◌∷◌, ◌++◌, if◌then◌else◌, str_eq, any, select, length, All, All-zip, All-select, arith,
  Bool-cases, inl, inr, ◌⊎◌, length-append,
}
use huntloop.Fetching.UrlGuard.{
  Guard, allowed, unsafe, value_error, UnsafeUrlError, assert_fetch_url_allowed,
}
use huntloop.Registry.{SlugCandidate, ProbeResult, probe_candidates}
use huntloop.Registry.Probing.{AllDiffer, probe_candidates_bounded}
use huntloop.Registry.Resolve.{
  resolved, ambiguous, unresolved, ResolutionResult, World, Rendering, page, unavailable, Trail,
  is_verified, of_board, verified_pairs, decide, tier_three, tier_two, first_tiers, resolve, result,
  resolve_employer, normalise_url, render, sweep_rendered, probe_rendered,
}

-- The verified boards of a list of results differ, and it is the result of at most 24 calls.
abbrev Probed : List ProbeResult → Type 0
Probed results = AllDiffer (select is_verified results) × (length results ≤ 24)

AllDiffer-select :
    (results : List ProbeResult) → AllDiffer results → AllDiffer (select is_verified results)
AllDiffer-select [] h = tt
AllDiffer-select (r ∷ rest) h = elim (Bool-cases r.verified) [
  | inl e ↦ rw e (All-select _ is_verified rest h.0, AllDiffer-select rest h.1)
  | inr e ↦ rw e (AllDiffer-select rest h.1)
]

unverified-append :
    (xs ys : List ProbeResult)
    → any is_verified xs ≡ false
    → select is_verified (xs ++ ys) ≡ select is_verified ys
unverified-append [] ys h = refl
unverified-append (x ∷ xs) ys h = ground (arith, h, unverified-append xs ys)

pick :
    (b : Bool) (r : ProbeResult) (l : List ProbeResult)
    → b ≡ true
    → (if b then r ∷ l else l) ≡ r ∷ l
pick b r l e = rw e refl

verified_pairs-fresh :
    (seen rest : List ProbeResult) (r : ProbeResult)
    → (r.verified && not (any (of_board r) seen)) ≡ true
    → verified_pairs seen (r ∷ rest) ≡ r ∷ verified_pairs (r ∷ seen) rest
unfolding verified_pairs
verified_pairs-fresh seen rest r e = rw (verified_pairs, e) refl

verified_pairs-select :
    (seen results : List ProbeResult)
    → AllDiffer (select is_verified results)
    → All (λ r. any (of_board r) seen ≡ false) (select is_verified results)
    → verified_pairs seen results ≡ select is_verified results
unfolding verified_pairs
verified_pairs-select seen [] d h = refl
verified_pairs-select seen (r ∷ rest) d h = elim (Bool-cases r.verified) [
  | inr e ↦ rw e (verified_pairs-select seen rest (rw e at d) (rw e at h))
  | inl e ↦
      let head : select is_verified (r ∷ rest) ≡ r ∷ select is_verified rest =
        pick r.verified r (select is_verified rest) e in
      let d' = subst AllDiffer head d in
      let h' = subst (All (λ s. any (of_board s) seen ≡ false)) head h in
      verified_pairs-fresh seen rest r (ground (arith, e, h'.0))
      ∙ ap (λ later. r ∷ later)
          (verified_pairs-select (r ∷ seen) rest d'.1
            (All-zip _ _ _ (select is_verified rest) (λ s k l. ground (arith, k, l)) d'.0 h'.1))
      ∙ sym head
]

none_seen : (results : List ProbeResult) → All (λ r. any (of_board r) [] ≡ false) results
none_seen [] = tt
none_seen (r ∷ rest) = (refl, none_seen rest)

-- The verdict that a list of verified results calls for.
abbrev pub Verdict : List ProbeResult → ResolutionResult → Type 0
Verdict [] r = (r.status ≡ unresolved) × (r.platform ≡ none) × (r.slug ≡ none)
Verdict (p ∷ []) r = (r.status ≡ resolved) × (r.platform ≡ some p.platform) × (r.slug ≡ some p.slug)
Verdict (p ∷ q ∷ rest) r = (r.status ≡ ambiguous) × (r.platform ≡ none) × (r.slug ≡ none)

decide-Verdict :
    (url final_url : Option String) (t : Trail) (pairs : List ProbeResult)
    → Verdict pairs (decide url final_url t pairs)
unfolding decide
decide-Verdict url final_url t [] = (refl, refl, refl)
decide-Verdict url final_url t (p ∷ []) = (refl, refl, refl)
decide-Verdict url final_url t (p ∷ q ∷ rest) = (refl, refl, refl)

decide-probed :
    (url final_url : Option String) (t : Trail) (pairs : List ProbeResult)
    → (decide url final_url t pairs).probed ≡ t.probed
unfolding decide
decide-probed url final_url t [] = refl
decide-probed url final_url t (p ∷ []) = refl
decide-probed url final_url t (p ∷ q ∷ rest) = refl

abbrev Judged : ResolutionResult → Type 0
Judged r = Verdict (select is_verified r.probed) r × (length r.probed ≤ 24)

Guard-cases :
    (g : Guard)
    → ((exc : UnsafeUrlError) × (g ≡ unsafe exc))
      ⊎ ((g ≡ value_error) ⊎ ((url : String) × (g ≡ allowed url)))
Guard-cases (allowed url) = inr (inr (url, refl))
Guard-cases (unsafe exc) = inl (exc, refl)
Guard-cases value_error = inr (inl refl)

module _ (w : World) where
  abbrev IsFirst : Trail → Type 0
  IsFirst t = AllDiffer (select is_verified t.probed) × (length t.probed ≤ 12)

  first_tiers-IsFirst :
      (name : String) (max_guesses : ℕ) (url : Option String)
      → IsFirst (first_tiers w name max_guesses url)
  unfolding first_tiers
  first_tiers-IsFirst name max_guesses url =
      let t = first_tiers w name max_guesses url in
      let bounded = probe_candidates_bounded w.fetch 0 t.candidates in
      (AllDiffer-select _ bounded.1, bounded.0)

  weaken : (t : Trail) → IsFirst t → Probed t.probed
  weaken t h = (h.0, ground (arith, h.1))

  probe_rendered-Probed :
      (t : Trail) (found : List SlugCandidate)
      → IsFirst t
      → any is_verified t.probed ≡ false
      → Probed (probe_rendered w t found).probed
  probe_rendered-Probed t [] h e = weaken t h
  probe_rendered-Probed t (c ∷ rest) h e =
      let extra = probe_candidates w.fetch (length t.probed) (c ∷ rest) in
      let bounded = probe_candidates_bounded w.fetch (length t.probed) (c ∷ rest) in
      (
        subst AllDiffer (sym (unverified-append t.probed extra e))
            (AllDiffer-select extra bounded.1),
        omega (arith, length-append t.probed extra, bounded.0, h.1),
      )

  sweep_rendered-Probed :
      (t : Trail) (answer : Rendering)
      → IsFirst t
      → any is_verified t.probed ≡ false
      → Probed (sweep_rendered w t answer).probed
  sweep_rendered-Probed t (unavailable exc) h e = weaken t h
  sweep_rendered-Probed t (page p) h e = elim (Bool-cases (p.ok && not (str_eq p.html ""))) [
    | inl shown ↦ rw shown (probe_rendered-Probed t _ h e)
    | inr blank ↦ rw blank (weaken t h)
  ]

  render-Probed :
      (t : Trail) (url : Option String) (renderer : Option (String → Rendering))
      → IsFirst t
      → any is_verified t.probed ≡ false
      → Probed (render w t url renderer).probed
  render-Probed t none renderer h e = weaken t h
  render-Probed t (some url) none h e = weaken t h
  render-Probed t (some url) (some fetch) h e = sweep_rendered-Probed _ (fetch url) h e

  tier_three-Probed :
      (url : Option String) (t : Trail) → IsFirst t → Probed (tier_three w url t).probed
  unfolding tier_three
  tier_three-Probed url t h = elim (Bool-cases (any is_verified t.probed)) [
    | inl e ↦ rw e (weaken t h)
    | inr e ↦ rw e (render-Probed t url w.rendered_fetch h e)
  ]

  resolve-Verdict :
      (name : String) (max_guesses : ℕ) (url : Option String)
      → Verdict
          (select is_verified (resolve w name max_guesses url).probed)
          (resolve w name max_guesses url)
        × (length (resolve w name max_guesses url).probed ≤ 24)
  unfolding resolve decide
  resolve-Verdict name max_guesses url =
      let t = tier_three w url (first_tiers w name max_guesses url) in
      let ended = (tier_two w url).1 in
      let pairs = verified_pairs [] t.probed in
      let fine = tier_three-Probed url _ (first_tiers-IsFirst name max_guesses url) in
      let same = decide-probed url ended t pairs in
      let all = verified_pairs-select [] t.probed fine.0 (none_seen _) in
      (
        subst (λ l. Verdict l (decide url ended t pairs)) (all ∙ ap (select is_verified) (sym same))
            (decide-Verdict url ended t pairs),
        subst (λ l. length l ≤ 24) (sym same) fine.1,
      )

  -- A resolution makes at most 24 probes, and its verdict is that of the probes that were verified: unresolved
  -- of none, the platform and slug of the only one, and ambiguous of several.
  pub resolve_employer-Verdict :
      (name : String) (careers_url : Option String) (max_guesses : ℕ) (r : ResolutionResult)
      → resolve_employer w name careers_url max_guesses ≡ result r
      → Verdict (select is_verified r.probed) r × (length r.probed ≤ 24)
  unfolding resolve_employer
  resolve_employer-Verdict name none max_guesses r h =
      let same : resolve w name max_guesses none ≡ r = cc in
      subst Judged same (resolve-Verdict name max_guesses none)
  resolve_employer-Verdict name (some careers_url) max_guesses r h =
      let url = normalise_url careers_url in
      elim (Guard-cases (assert_fetch_url_allowed w.net false url)) [
        | inl (exc, e) ↦ let h' = rw e at h in absurd (cc)
        | inr (inl e) ↦ let h' = rw e at h in absurd (cc)
        | inr (inr (target, e)) ↦
            let h' = rw e at h in
            let same : resolve w name max_guesses (some url) ≡ r = cc in
            subst Judged same (resolve-Verdict name max_guesses (some url))
      ]
