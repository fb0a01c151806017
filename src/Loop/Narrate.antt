-- ===== src/Loop/Narrate.antt =====
-- src/huntloop/loop/generate.py, the two calls of `generate_proposals` for a candidate that is not blocked: its
-- predicted effect, and the rationale. The texts of the effect, of the fallback and of the model are parameters.
pub mod Laws
use huntloop.Base.{String, Option, none, some, List}
use huntloop.Base.Clock.{Time}
use huntloop.Loop.{EditCandidate, Supported, supported, unsupported_field}
use huntloop.Loop.Detect.{BacklogJob}
use huntloop.Loop.Tiers.{Reading}
use huntloop.Loop.Effect.{Effect, invalid_value, predict_effect}
use huntloop.Loop.Rationale.{Narration, synthesize_rationale}
use huntloop.Loop.Generate.{Narrator, changes_for}

pub record Texts : Type 0 where
  pub effect_text : Effect → String
  pub strip : String → String
  pub fallback : EditCandidate → Effect → String
  pub ask : EditCandidate → Effect → Narration

abbrev pub narrated : Texts → EditCandidate → Supported Effect → Option (String × String)
narrated texts c (unsupported_field field) = none
narrated texts c (supported (invalid_value field)) = none
narrated texts c (supported effect) = some (
  texts.effect_text effect,
  synthesize_rationale texts.strip (texts.fallback c effect) (texts.ask c effect),
)

unfoldable pub narrator :
    Texts → Reading → Time → List (String × String) → List BacklogJob → Narrator
unfolding predict_effect synthesize_rationale
narrator texts io now names jobs c =
    narrated texts c (predict_effect io now names jobs (changes_for c))
