-- ===== src/Registry/Settling.antt =====
-- Which candidates are left when the probes end.
use huntloop.Base.{
  ℕ, suc, ◌+◌, ◌<◌, ◌≡◌, refl, sym, Bool, true, false, ◌&&◌, ◌||◌, List, [], ◌∷◌, if◌then◌else◌,
  str_eq, leb, any, length, All, All-map, arith, Bool-cases, inl, inr, eq_refl, subst,
}
use huntloop.Base.Sort.{All-sort}
use huntloop.Registry.{
  Platform, same_platform, SlugCandidate, ProbeResult, Fetch, Slugged, slugged, stronger, ordered,
  max_probes, same_pair, has_platform, noted, probe_slug, probe_loop, probe_candidates,
}
use huntloop.Registry.Probing.{same_platform-eq, same_platform_refl}

-- Whether the results settle a candidate: its board was probed, or one of its platform is verified.
abbrev pub settles : Slugged → ProbeResult → Bool
settles c r =
    (same_platform r.platform c.platform && str_eq r.slug c.slug)
    || (r.verified && same_platform c.platform r.platform)

abbrev pub is_settled : Slugged → List ProbeResult → Bool
is_settled c [] = false
is_settled c (r ∷ later) = let others = is_settled c later in if settles c r then true else others

-- The same inside the loop.
abbrev Settled : List Slugged → List Platform → List ProbeResult → Slugged → Type 0
Settled seen verified results c =
    (any (same_pair c.platform c.slug) seen
      || has_platform c.platform verified
      || is_settled c results)
    ≡ true

Settled-done :
    (seen : List Slugged) (verified : List Platform) (results : List ProbeResult) (c d : Slugged)
    → has_platform c.platform verified ≡ true
    → Settled (c ∷ seen) verified results d
    → Settled seen verified results d
Settled-done seen verified results c d here h =
    elim (Bool-cases (same_platform c.platform d.platform)) [
      | inl e ↦
          let same = same_platform-eq c.platform d.platform e in
          let there : has_platform d.platform verified ≡ true =
            subst (λ p. has_platform p verified ≡ true) same here in
          ground (arith, there)
      | inr e ↦ ground (arith, h, e)
    ]

Settled-free :
    (seen : List Slugged) (verified : List Platform) (later : List ProbeResult) (c d : Slugged)
    (r : ProbeResult)
    → r.platform ≡ c.platform
    → r.slug ≡ c.slug
    → Settled (c ∷ seen) (noted r verified) later d
    → Settled seen verified (r ∷ later) d
Settled-free seen verified later c d r p q h = ground (arith, h, p, q)

All-Settled :
    (seen : List Slugged) (verified : List Platform) (c : Slugged) (rest : List Slugged)
    (results results' : List ProbeResult)
    → results' ≡ results
    → Settled seen verified results c
    → All (Settled seen verified results) rest
    → All (Settled seen verified results') (c ∷ rest)
All-Settled seen verified c rest results results' e head tail =
    subst (λ out. All (Settled seen verified out) (c ∷ rest)) (sym e) (head, tail)

probe_loop-Settled :
    (fetch : Fetch) (n count : ℕ) (seen : List Slugged) (verified : List Platform)
    (rest : List Slugged)
    → length (probe_loop fetch n count seen verified rest) + count < 12
    → All (Settled seen verified (probe_loop fetch n count seen verified rest)) rest
unfolding probe_loop probe_slug
probe_loop-Settled fetch n count seen verified [] h = tt
probe_loop-Settled fetch n count seen verified (c ∷ rest) h =
    elim (Bool-cases (leb max_probes count)) [
      | inl full ↦ absurd (ground (arith, full, h))
      | inr room ↦ elim (Bool-cases (any (same_pair c.platform c.slug) seen)) [
        | inl known ↦
            All-Settled seen verified c rest _ _ (rw (probe_loop, room, known) refl)
              (ground (arith, known))
              (probe_loop-Settled fetch n count seen verified rest
                (rw (probe_loop, room, known) at h))
        | inr fresh ↦ elim (Bool-cases (has_platform c.platform verified)) [
          | inl done ↦
              All-Settled seen verified c rest _ _ (rw (probe_loop, room, fresh, done) refl)
                (ground (arith, done))
                (All-map _ _ rest (λ d. Settled-done seen verified _ c d done)
                  (probe_loop-Settled fetch n count (c ∷ seen) verified rest
                    (rw (probe_loop, room, fresh, done) at h)))
          | inr free ↦
              let r = probe_slug fetch (n + count) c.platform c.slug in
              let later = probe_loop fetch n (suc count) (c ∷ seen) (noted r verified) rest in
              let h' = rw (probe_loop, room, fresh, free) at h in
              All-Settled seen verified c rest (r ∷ later) _
                (rw (probe_loop, room, fresh, free) refl)
                (ground (arith, same_platform_refl c.platform, eq_refl c.slug))
                (All-map _ _ rest (λ d. Settled-free seen verified _ c d r refl refl)
                  (probe_loop-Settled fetch n (suc count) (c ∷ seen) (noted r verified) rest
                    (omega (arith, h'))))
        ]
      ]
    ]

-- When fewer than twelve probes were made, no candidate with a slug was passed over: its board was probed, or
-- a board of its platform was verified.
pub probe_candidates_complete :
    (fetch : Fetch) (n : ℕ) (candidates : List SlugCandidate)
    → length (probe_candidates fetch n candidates) < 12
    → All (λ c. is_settled c (probe_candidates fetch n candidates) ≡ true) (slugged candidates)
unfolding probe_candidates ordered
probe_candidates_complete fetch n candidates h =
    All-sort stronger _ (slugged candidates)
      (probe_loop-Settled fetch n 0 [] [] (ordered candidates) (ground (arith, h)))
