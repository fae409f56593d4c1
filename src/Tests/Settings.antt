-- ===== src/Tests/Settings.antt =====
-- A concrete run of the settings page.
use homelabs_siem_soar.Prelude.{◌≡◌, refl, false, none, some, [], ◌∷◌, trim}
use homelabs_siem_soar.Settings.{
  ApiKey, Page, mock_profile, api_keys_section, revoke_key_pressed, phrase_typed, proceed_pressed,
  run,
}
use homelabs_siem_soar.Settings.Revocation.{key_revocation_is_local}

abbrev keys_shown : Page
keys_shown = record {
  profile = some mock_profile;
  loading = false;
  saving = false;
  saved = false;
  active_section = api_keys_section;
  danger_modal = none;
  danger_input = "";
  loads = 0;
  saves = 0;
  patches = [];
  timers = 0;
  revocations = 0;
  revoked = 0;
  notices = [];
}

abbrev pipeline_key : ApiKey
pipeline_key = record {
  id = "k1";
  name = "CI/CD Pipeline Key";
  masked_value = "sk-soc-****-****-****-abcd";
  created_at = "2026-06-01";
  last_used = some "2026-07-17T08:00:00Z";
}

abbrev other_key : ApiKey
other_key = record {
  id = "k2";
  name = "SIEM Integration Key";
  masked_value = "sk-soc-****-****-****-ef12";
  created_at = "2026-05-15";
  last_used = none;
}

key_revocation_is_local_example :
    run keys_shown (revoke_key_pressed 0 ∷ phrase_typed "CI/CD Pipeline Key" ∷ proceed_pressed ∷ [])
    ≡ record keys_shown {
      profile = some (record mock_profile { api_keys = other_key ∷ [] });
      danger_input = "CI/CD Pipeline Key";
    }
unfolding trim
key_revocation_is_local_example =
    key_revocation_is_local keys_shown mock_profile 0 pipeline_key "CI/CD Pipeline Key" refl refl
      refl refl refl refl
