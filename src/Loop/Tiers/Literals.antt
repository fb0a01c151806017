-- ===== src/Loop/Tiers/Literals.antt =====
-- Tier C: the listings that mention what is excluded, which discovery does not read.
use huntloop.Loop.Tiers.{Reading, load_live_backlog}
use huntloop.Base.{
  ℕ, String, Bool, false, not, Option, none, some, List, [], ◌∷◌, if◌then◌else◌, str_eq, contains,
  select, length,
}
use huntloop.Loop.Detect.{BacklogJob}

-- `_added_term`
unfoldable pub added_term : Reading → List String → List String → Option String
added_term io current proposed = io.first_of (select (λ item. not (contains current item)) proposed)

abbrev pub count_live : (BacklogJob → Bool) → List BacklogJob → ℕ
count_live p live = length (select p live)

abbrev pub count_term : (String → BacklogJob → Bool) → Option String → List BacklogJob → ℕ
count_term p none live = 0
count_term p (some term) live = count_live (p term) live

-- `names.get(job.company_id, "")`
abbrev pub company_name : List (String × String) → String → String
company_name [] id = ""
company_name ((key, name) ∷ rest) id =
    let later = company_name rest id in if str_eq key id then name else later

pub record LiteralEffect : Type 0 where
  pub term : Option String
  pub matches : ℕ
  pub backlog_size : ℕ

abbrev pub mentions : Reading → String → BacklogJob → Bool
mentions io term j = io.occurs (io.casefold term) (io.casefold j.title)

abbrev pub works_at : Reading → List (String × String) → String → BacklogJob → Bool
works_at io names term j = str_eq (io.casefold (company_name names j.company_id)) (io.casefold term)

abbrev pub restricts : Reading → BacklogJob → Bool
restricts io j = elim j.work_auth_required [ none ↦ false | some text ↦ not (io.is_blank text) ]

abbrev pub literal : (String → BacklogJob → Bool) → Option String → List BacklogJob → LiteralEffect
literal p term jobs =
    let live = load_live_backlog jobs in
    record { term = term; matches = count_term p term live; backlog_size = length live }
