-- ===== src/Settings.antt =====
-- soc-frontend/src/pages/settings/SettingsPage.tsx: the profile, its saving, and the actions that ask
-- for a typed phrase. The modal for tenants is left out.
pub mod Revocation
use Prim.Native.String.{String}
use text.Mathlib.Text.{◌==◌ as str_eq}
use homelabs_siem_soar.Prelude.{
  ℕ, zero, suc, Bool, true, false, not, ◌&&◌, Option, none, some, List, [], ◌∷◌, ◌++◌, filter_by,
  get_elem?, remove_at, trim, if◌then◌else◌,
}
use homelabs_siem_soar.Hooks.AsyncState.{Reply, ok, failed}

pub record ApiKey : Type 0 where
  pub id : String
  pub name : String
  pub masked_value : String
  pub created_at : String
  pub last_used : Option String

pub record Notifications : Type 0 where
  pub email : Bool
  pub in_app : Bool
  pub critical : Bool

pub record UserProfile : Type 0 where
  pub name : String
  pub email : String
  pub role : String
  pub tier : String
  pub timezone : String
  pub default_dashboard : String
  pub notifications : Notifications
  pub api_keys : List ApiKey

-- `MOCK_PROFILE`.
abbrev pub mock_profile : UserProfile
mock_profile = record {
  name = "Principal Analyst";
  email = "analyst@soc.internal";
  role = "SOC Analyst";
  tier = "Tier 3 / System Engineer";
  timezone = "Asia/Manila";
  default_dashboard = "overview";
  notifications = record { email = true; in_app = true; critical = true };
  api_keys =
      record {
        id = "k1";
        name = "CI/CD Pipeline Key";
        masked_value = "sk-soc-****-****-****-abcd";
        created_at = "2026-06-01";
        last_used = some "2026-07-17T08:00:00Z";
      }
      ∷ record {
        id = "k2";
        name = "SIEM Integration Key";
        masked_value = "sk-soc-****-****-****-ef12";
        created_at = "2026-05-15";
        last_used = none;
      }
      ∷ [];
}

pub data Section : Type 0 where
  profile_section notifications_section api_keys_section platform_section tenants_section : Section

-- `dangerModal`: its phrase and its `onConfirm` come from the action.
pub data Danger : Type 0 where
  revoke_sessions : Danger
  revoke_key : String → String → Danger  -- the id and the name of the key

abbrev phrase_of : Danger → String
phrase_of revoke_sessions = "REVOKE ALL SESSIONS"
phrase_of (revoke_key id name) = name

pub data Notice : Type 0 where
  save_failed revoke_failed : Notice

pub record Page : Type 0 where
  pub profile : Option UserProfile
  pub loading : Bool
  pub saving : Bool
  pub saved : Bool
  pub active_section : Section
  pub danger_modal : Option Danger
  pub danger_input : String  -- `input` of the modal
  pub loads : ℕ
  pub saves : ℕ  -- the requests of `save` in flight
  pub patches : List (Option UserProfile)  -- their bodies, latest first
  pub timers : ℕ  -- the timers that take `saved` back
  pub revocations : ℕ  -- the requests to revoke all sessions in flight
  pub revoked : ℕ  -- all that were sent
  pub notices : List Notice

-- The first rendering, with its load.
unfoldable pub start : Page
start = record {
  profile = none;
  loading = true;
  saving = false;
  saved = false;
  active_section = profile_section;
  danger_modal = none;
  danger_input = "";
  loads = 1;
  saves = 0;
  patches = [];
  timers = 0;
  revocations = 0;
  revoked = 0;
  notices = [];
}

-- `fetchData` after its request.
load_settled : ℕ → Reply UserProfile → Page → Page
load_settled zero reply s = s
load_settled (suc n) (ok p) s = record s { profile = some p; loading = false; loads = n }
load_settled (suc n) (failed message) s = record s {
  profile = some mock_profile;
  loading = false;
  loads = n;
}

abbrev pub is_some {ℓ} : {A : Type ℓ} → Option A → Bool
is_some none = false
is_some (some a) = true

-- The page shows its sections.
abbrev is_ready : Page → Bool
is_ready s = not s.loading && is_some s.profile

abbrev is_tab : Section → Section → Bool
is_tab profile_section profile_section = true
is_tab notifications_section notifications_section = true
is_tab api_keys_section api_keys_section = true
is_tab platform_section platform_section = true
is_tab tenants_section tenants_section = true
is_tab _ _ = false

-- A click on a save button, with `save` up to its `await`. Three of the sections have one.
unfoldable save_clicked : Page → Page
save_clicked s =
    if is_ready s && not s.saving
    then record s { saving = true; saves = suc s.saves; patches = s.profile ∷ s.patches }
    else s

save_settled : ℕ → Bool → Page → Page
save_settled zero succeeded s = s
save_settled (suc n) true s = record s {
  saved = true;
  saving = false;
  saves = n;
  timers = suc s.timers;
}
save_settled (suc n) false s = record s {
  saving = false;
  saves = n;
  notices = save_failed ∷ s.notices;
}

saved_elapsed : ℕ → Page → Page
saved_elapsed zero s = s
saved_elapsed (suc n) s = record s { saved = false; timers = n }

-- `setDangerModal`: a modal that is put in the place of none starts with an empty input.
unfoldable pub open_danger : Danger → Page → Page
open_danger d s = record s {
  danger_modal = some d;
  danger_input = if is_some s.danger_modal then s.danger_input else "";
}

-- The buttons that open the modal.
unfoldable revoke_all_sessions : Page → Page
unfolding open_danger
revoke_all_sessions s =
    if is_ready s && is_tab s.active_section platform_section
    then open_danger revoke_sessions s
    else s

key_found : Option ApiKey → Page → Page
unfolding open_danger
key_found none s = s
key_found (some key) s = open_danger (revoke_key key.id key.name) s

abbrev keys_of : Option UserProfile → List ApiKey
keys_of none = []
keys_of (some p) = p.api_keys

unfoldable pub revoke_key_clicked : ℕ → Page → Page
unfolding key_found
revoke_key_clicked i s =
    if is_ready s && is_tab s.active_section api_keys_section
    then key_found (get_elem? (keys_of s.profile) i) s
    else s

-- `isMatch`.
unfoldable pub is_match : String → Danger → Bool
unfolding trim
is_match input d = str_eq (trim input) (phrase_of d)

unfoldable pub without_key : String → Option UserProfile → Option UserProfile
without_key id none = none
without_key id (some p) =
    some (record p { api_keys = filter_by (λ k. not (str_eq k.id id)) p.api_keys })

-- `onConfirm` of the two actions.
unfoldable pub on_confirm : Danger → Page → Page
unfolding without_key
on_confirm revoke_sessions s = record s {
  danger_modal = none;
  revocations = suc s.revocations;
  revoked = suc s.revoked;
}
on_confirm (revoke_key id name) s = record s {
  danger_modal = none;
  profile = without_key id s.profile;
}

proceed_with : Option Danger → Page → Page
unfolding on_confirm is_match
proceed_with none s = s
proceed_with (some d) s = if is_match s.danger_input d then on_confirm d s else s

-- A click on Proceed, which is disabled without a match.
unfoldable pub proceed_clicked : Page → Page
unfolding proceed_with
proceed_clicked s = proceed_with s.danger_modal s

revoke_settled : ℕ → Bool → Page → Page
revoke_settled zero succeeded s = s
revoke_settled (suc n) succeeded s = record s {
  revocations = n;
  notices = if succeeded then s.notices else revoke_failed ∷ s.notices;
}

-- The fields that the sections edit.
pub data Edit : Type 0 where
  edit_name edit_email edit_timezone : String → Edit
  edit_notifications : Notifications → Edit

edited : Edit → UserProfile → UserProfile
edited (edit_name value) p = record p { name = value }
edited (edit_email value) p = record p { email = value }
edited (edit_timezone value) p = record p { timezone = value }
edited (edit_notifications value) p = record p { notifications = value }

unfoldable edit_profile : Edit → Option UserProfile → Option UserProfile
unfolding edited
edit_profile e none = none
edit_profile e (some p) = some (edited e p)

pub data Event : Type 0 where
  load_ended : Reply UserProfile → Event
  section_chosen : Section → Event
  field_edited : Edit → Event
  save_pressed : Event
  save_replied : Bool → Event
  saved_timer : Event
  revoke_all_pressed : Event
  revoke_key_pressed : ℕ → Event
  phrase_typed : String → Event
  proceed_pressed : Event
  danger_cancelled : Event
  revoke_replied : Bool → Event

unfoldable pub step : Event → Page → Page
unfolding load_settled edit_profile save_clicked save_settled saved_elapsed revoke_all_sessions
    revoke_key_clicked proceed_clicked revoke_settled
step (load_ended reply) s = load_settled s.loads reply s
step (section_chosen section) s = record s { active_section = section }
step (field_edited e) s = record s { profile = edit_profile e s.profile }
step save_pressed s = save_clicked s
step (save_replied succeeded) s = save_settled s.saves succeeded s
step saved_timer s = saved_elapsed s.timers s
step revoke_all_pressed s = revoke_all_sessions s
step (revoke_key_pressed i) s = revoke_key_clicked i s
step (phrase_typed value) s = record s { danger_input = value }
step proceed_pressed s = proceed_clicked s
step danger_cancelled s = record s { danger_modal = none }
step (revoke_replied succeeded) s = revoke_settled s.revocations succeeded s

unfoldable pub run : Page → List Event → Page
unfolding step
run s [] = s
run s (e ∷ es) = run (step e s) es
