-- ===== src/Liveness/Keys.antt =====
-- The keys under which a run's marker rows stand in `settings`, and that they are all different.
use Prim.Native.String.{count}
use mathlib.Core.Bool.{false≢true}
use text.Mathlib.Text.{starts_with}
use text.Mathlib.TextLemmas.{append_assoc, append_cancel_left, append_inj}
use text.Mathlib.TextPositions.{starts_with-append}
use huntloop.Base.{String, ◌<>◌, ◌≡◌, ◌≢◌, ◌↔◌, ◌∙◌, sym, ap, refl, eq_iff, false, str_eq}

unfoldable pub lease_key : String → String
lease_key run_id = "run_lease:" <> run_id

abbrev pub stop_request_key : String
stop_request_key = "run_stop_request"

unfoldable pub stop_requested_at_key : String → String
stop_requested_at_key run_id = "run_stop_requested_at:" <> run_id

pub lease_key_iff : (a b : String) → (lease_key a ≡ lease_key b) ↔ (a ≡ b)
unfolding lease_key
lease_key_iff a b = (append_cancel_left "run_lease:" a b, λ e. ap (λ s. "run_lease:" <> s) e)

pub stop_requested_at_key_iff :
    (a b : String) → (stop_requested_at_key a ≡ stop_requested_at_key b) ↔ (a ≡ b)
unfolding stop_requested_at_key
stop_requested_at_key_iff a b = (
  append_cancel_left "run_stop_requested_at:" a b,
  λ e. ap (λ s. "run_stop_requested_at:" <> s) e,
)

-- Two texts whose first five characters differ are different.
heads_differ : (p q s t : String) → str_eq p q ≡ false → count p ≡ count q → p <> s ≢ q <> t
heads_differ p q s t differ same e = false≢true (sym differ ∙ (eq_iff p q).1 (append_inj e same).0)

pub lease-ne-stop_request : (a : String) → lease_key a ≢ stop_request_key
unfolding lease_key
lease-ne-stop_request a e =
    heads_differ "run_l" "run_s" ("ease:" <> a) "top_request" refl refl
      (sym (append_assoc "run_l" "ease:" a) ∙ e)

pub lease-ne-stop_requested_at : (a b : String) → lease_key a ≢ stop_requested_at_key b
unfolding lease_key stop_requested_at_key
lease-ne-stop_requested_at a b e =
    heads_differ "run_l" "run_s" ("ease:" <> a) ("top_requested_at:" <> b) refl refl
      (sym (append_assoc "run_l" "ease:" a) ∙ e ∙ append_assoc "run_s" "top_requested_at:" b)

pub stop_requested_at-ne-stop_request : (a : String) → stop_requested_at_key a ≢ stop_request_key
unfolding stop_requested_at_key
stop_requested_at-ne-stop_request a e = false≢true (
    sym (
      sym (starts_with-append "run_stop_requested_at:" a)
      ∙ ap (λ s. starts_with s "run_stop_requested_at:") e))
