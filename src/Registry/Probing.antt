-- ===== src/Registry/Probing.antt =====
-- How many boards are probed, and that none is probed twice.
use huntloop.Base.{
  ℕ, suc, ◌+◌, ◌≤◌, ◌≡◌, refl, Bool, true, false, ◌&&◌, List, [], ◌∷◌, str_eq, leb, any, length,
  All, All-map, arith, Bool-cases, inl, inr,
}
use huntloop.Registry.{
  Platform, greenhouse, lever, ashby, same_platform, SlugCandidate, ProbeResult, Fetch, Slugged,
  ordered, max_probes, same_pair, has_platform, noted, probe_slug, probe_loop, probe_candidates,
}

pub same_platform-eq : (p q : Platform) → same_platform p q ≡ true → p ≡ q
same_platform-eq greenhouse greenhouse h = refl
same_platform-eq lever lever h = refl
same_platform-eq ashby ashby h = refl
same_platform-eq greenhouse lever h = cc
same_platform-eq greenhouse ashby h = cc
same_platform-eq lever greenhouse h = cc
same_platform-eq lever ashby h = cc
same_platform-eq ashby greenhouse h = cc
same_platform-eq ashby lever h = cc

pub same_platform_refl : (p : Platform) → same_platform p p ≡ true
same_platform_refl greenhouse = refl
same_platform_refl lever = refl
same_platform_refl ashby = refl

-- A result of the board that another one is of.
abbrev pub same_board : ProbeResult → ProbeResult → Bool
same_board r s = same_platform r.platform s.platform && str_eq r.slug s.slug

abbrev pub AllDiffer : List ProbeResult → Type 0
AllDiffer [] = Unit
AllDiffer (r ∷ later) = All (λ s. same_board r s ≡ false) later × AllDiffer later

-- Behind a verified result no other board of its platform was asked for.
abbrev pub StopsPlatform : List ProbeResult → Type 0
StopsPlatform [] = Unit
StopsPlatform (r ∷ later) =
    (r.verified ≡ true → All (λ s. same_platform s.platform r.platform ≡ false) later)
    × StopsPlatform later

-- What the loop promises of the results that it appends.
abbrev Ends : List Slugged → List Platform → ℕ → List ProbeResult → Type 0
Ends seen verified count results =
    (length results + count ≤ 12)
    × All (λ r. any (same_pair r.platform r.slug) seen ≡ false) results
    × All (λ r. has_platform r.platform verified ≡ false) results
    × AllDiffer results
    × StopsPlatform results

any_tail :
    (p : Slugged → Bool) (c : Slugged) (seen : List Slugged)
    → any p (c ∷ seen) ≡ false
    → any p seen ≡ false
any_tail p c seen h = ground (arith, h)

any_head :
    (p : Slugged → Bool) (c : Slugged) (seen : List Slugged)
    → any p (c ∷ seen) ≡ false
    → p c ≡ false
any_head p c seen h = ground (arith, h)

has_platform_head :
    (p q : Platform) (v : List Platform)
    → has_platform p (q ∷ v) ≡ false
    → same_platform p q ≡ false
has_platform_head p q v h = ground (arith, h)

has_platform_tail :
    (p q : Platform) (v : List Platform) → has_platform p (q ∷ v) ≡ false → has_platform p v ≡ false
has_platform_tail p q v h = ground (arith, h)

noted-has_platform :
    (p : Platform) (r : ProbeResult) (v : List Platform)
    → has_platform p (noted r v) ≡ false
    → has_platform p v ≡ false
noted-has_platform p r v h = elim (Bool-cases r.verified) [
  | inl e ↦ has_platform_tail p r.platform v (rw e at h)
  | inr e ↦ rw e at h
]

probe_loop-Ends :
    (fetch : Fetch) (n count : ℕ) (seen : List Slugged) (verified : List Platform)
    (rest : List Slugged)
    → count ≤ 12
    → Ends seen verified count (probe_loop fetch n count seen verified rest)
unfolding probe_loop probe_slug
probe_loop-Ends fetch n count seen verified [] h = (omega arith, tt, tt, tt, tt)
probe_loop-Ends fetch n count seen verified (c ∷ rest) h =
    elim (Bool-cases (leb max_probes count)) [
      | inl full ↦ rw (probe_loop, full) (omega arith, tt, tt, tt, tt)
      | inr room ↦ elim (Bool-cases (any (same_pair c.platform c.slug) seen)) [
        | inl known ↦
            rw (probe_loop, room, known) (probe_loop-Ends fetch n count seen verified rest h)
        | inr fresh ↦ elim (Bool-cases (has_platform c.platform verified)) [
          | inl done ↦
              let later = probe_loop-Ends fetch n count (c ∷ seen) verified rest h in
              rw (probe_loop, room, fresh, done)
                (
                  later.0,
                  All-map _ _ _ (λ r. any_tail (same_pair r.platform r.slug) c seen) later.1,
                  later.2,
                  later.3,
                  later.4,
                )
          | inr free ↦
              let r = probe_slug fetch (n + count) c.platform c.slug in
              let later =
                probe_loop-Ends fetch n (suc count) (c ∷ seen) (noted r verified) rest
                  (ground (arith, room)) in
              rw (probe_loop, room, fresh, free)
                (
                  ground (arith, later.0),
                  (
                    fresh,
                    All-map _ _ _ (λ s. any_tail (same_pair s.platform s.slug) c seen) later.1,
                  ),
                  (free, All-map _ _ _ (λ s. noted-has_platform s.platform r verified) later.2),
                  (
                    All-map _ _ _ (λ s. any_head (same_pair s.platform s.slug) c seen) later.1,
                    later.3,
                  ),
                  (
                    (λ v.
                        All-map _ _ _
                          (λ s k. has_platform_head s.platform r.platform verified (rw v at k))
                          later.2),
                    later.4,
                  ),
                )
        ]
      ]
    ]

-- One call of `_probe_candidates` makes at most twelve probes, none twice of the same board of a platform,
-- and none of a platform on which a board has been verified.
pub probe_candidates_bounded :
    (fetch : Fetch) (n : ℕ) (candidates : List SlugCandidate)
    → (length (probe_candidates fetch n candidates) ≤ 12)
      × AllDiffer (probe_candidates fetch n candidates)
      × StopsPlatform (probe_candidates fetch n candidates)
unfolding probe_candidates
probe_candidates_bounded fetch n candidates =
    let ends = probe_loop-Ends fetch n 0 [] [] (ordered candidates) (omega arith) in
    (ground (arith, ends.0), ends.3, ends.4)
