-- ===== src/Loop/Narrate/Laws.antt =====
-- No proposal without the predicted effect of its own change.
use huntloop.Base.{◌≡◌, String, List}
use huntloop.Base.Clock.{Time}
use huntloop.Loop.{supported}
use huntloop.Loop.Detect.{BacklogJob}
use huntloop.Loop.Tiers.{Reading}
use huntloop.Loop.Effect.{Effect, predict_effect}
use huntloop.Loop.Generate.{NewProposal}
use huntloop.Loop.Narrate.{Texts}

module _ (texts : Texts) (io : Reading) (now : Time) (names : List (String × String))
    (jobs : List BacklogJob) where
  -- The change of a proposal has an effect on the backlog, whose text it carries.
  abbrev pub IsPredicted : NewProposal → Type 0
  IsPredicted p =
      (effect : Effect) × (predict_effect io now names jobs p.changes ≡ supported effect)
      × (p.predicted_effect ≡ texts.effect_text effect)
