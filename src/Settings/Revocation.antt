-- ===== src/Settings/Revocation.antt =====
-- The actions of the settings page that ask for a typed phrase.
use Prim.Native.String.{String}
use text.Mathlib.Text.{◌==◌ as str_eq}
use text.Mathlib.TextPositions.{eq_refl}
use homelabs_siem_soar.Prelude.{
  ℕ, ◌≡◌, refl, false, not, none, some, [], ◌∷◌, filter_by, get_elem?, trim,
}
use homelabs_siem_soar.Settings.{
  ApiKey, UserProfile, api_keys_section, Page, revoke_key_pressed, phrase_typed, proceed_pressed,
  without_key, is_match, on_confirm, open_danger, revoke_key_clicked, key_found, proceed_clicked,
  proceed_with, step, run,
}

-- A key is revoked with its name as the phrase, no modal being open. The keys of its id vanish from
-- the page and all else of the profile stays; but no request is sent, the server is not told.
pub key_revocation_is_local :
    (s : Page) (p : UserProfile) (i : ℕ) (key : ApiKey) (input : String)
    → s.profile ≡ some p
    → s.loading ≡ false
    → s.active_section ≡ api_keys_section
    → s.danger_modal ≡ none
    → get_elem? p.api_keys i ≡ some key
    → trim input ≡ key.name
    → run s (revoke_key_pressed i ∷ phrase_typed input ∷ proceed_pressed ∷ []) ≡ record s {
      profile = some (record p { api_keys = filter_by (λ k. not (str_eq k.id key.id)) p.api_keys });
      danger_input = input;
    }
unfolding run step revoke_key_clicked key_found open_danger proceed_clicked proceed_with is_match
    on_confirm without_key
key_revocation_is_local s p i key input q l a d g t =
    rw (q, l, a, g, t, eq_refl key.name) (rw d refl)
