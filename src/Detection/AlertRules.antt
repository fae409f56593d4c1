-- ===== src/Detection/AlertRules.antt =====
-- soc-frontend/src/pages/detection/AlertRulesPage.tsx: the table of detection rules. A toggle is shown
-- at once and taken back if its request fails; what `performToggle` closed over waits in a list.
pub mod Guard
pub mod Rollback
pub mod Confirmation
pub mod Bulk
use Prim.Native.String.{String, ◌++◌ as str_append}
use text.Mathlib.Text.{◌==◌ as str_eq}
use homelabs_siem_soar.Prelude.{
  ℕ, Bool, true, false, not, ◌&&◌, ◌||◌, Option, none, some, List, [], ◌∷◌, ◌++◌, map, any,
  filter_by, get_elem?, remove_at, length, ◌==◌, decimal, if◌then◌else◌,
}
use homelabs_siem_soar.Prelude.IdSet.{IdSet, has, size, toggle, of_list}
use homelabs_siem_soar.Hooks.AsyncState.{AsyncState, Reply, initial, begin, settle, set_value}
use homelabs_siem_soar.Investigations.Types.{ActionInfo, destructive}

pub data Severity : Type 0 where
  critical high medium low : Severity

-- `EnhancedDetectionRule`; the numbers of `performance` are random.
pub record Rule : Type 0 where
  pub id : String
  pub name : String
  pub severity : Severity
  pub enabled : Bool
  pub last_triggered : Option String
  pub is_auto_response : Bool
  pub description : String
  pub false_positive_rate : ℕ
  pub trigger_count_30d : ℕ
  pub dependencies : List String

-- What the fetch adds to a rule of the reply, with two random numbers.
unfoldable pub enhance : ℕ → ℕ → Rule → Rule
enhance rate count r = record r {
  false_positive_rate = rate;
  trigger_count_30d = count;
  dependencies = if r.is_auto_response then "Playbook: Auto-Containment" ∷ [] else [];
}

-- `type` and `payload` of a pending action.
pub data Kind : Type 0 where
  toggle_of : Rule → Kind
  bulk_disable : Kind

pub record Pending : Type 0 where
  pub action : ActionInfo
  pub kind : Kind

pub data Notice : Type 0 where
  toggle_failed bulk_enabled : Notice
  bulk_disabled : ℕ → Notice

pub record Page : Type 0 where
  pub table : AsyncState (List Rule)
  pub selected_ids : IdSet
  pub pending_action : Option Pending
  pub two_key_input : String
  pub toggles : List (List Rule)  -- `original` of each toggle in flight
  pub notices : List Notice  -- the texts of `alert`, latest first

unfoldable pub start : Page
unfolding initial
start = record {
  table = initial;
  selected_ids = [];
  pending_action = none;
  two_key_input = "";
  toggles = [];
  notices = [];
}

abbrev pub rules_of : Option (List Rule) → List Rule
rules_of none = []
rules_of (some rules) = rules

abbrev pub rules : Page → List Rule
rules s = rules_of s.table.value

-- `if (data) setData(data.map(f))`.
abbrev pub map_data : (Rule → Rule) → Page → Page
map_data f s = record s {
  table = record {
    value = elim s.table.value [ none ↦ none | some rs ↦ some (map f rs) ];
    loading = s.table.loading;
    error = s.table.error;
  };
}

unfoldable pub flip_if : String → Rule → Rule
flip_if id r = if str_eq r.id id then record r { enabled = not r.enabled } else r

-- `performToggle` up to its `await`.
unfoldable pub perform_toggle : Rule → Page → Page
unfolding flip_if
perform_toggle rule s = record (map_data (flip_if rule.id) s) {
  toggles = s.toggles ++ rules s ∷ [];
}

toggle_ended : Bool → List Rule → ℕ → Page → Page
toggle_ended true original i s = record s {
  toggles = remove_at s.toggles i;
  pending_action = none;
  two_key_input = "";
}
toggle_ended false original i s = record s {
  toggles = remove_at s.toggles i;
  table = record { value = some original; loading = s.table.loading; error = s.table.error };
  notices = toggle_failed ∷ s.notices;
}

toggle_found : Option (List Rule) → ℕ → Bool → Page → Page
unfolding toggle_ended
toggle_found none i success s = s
toggle_found (some original) i success s = toggle_ended success original i s

-- The end of the request at a place of the list.
unfoldable pub toggle_settled : ℕ → Bool → Page → Page
unfolding toggle_found
toggle_settled i success s = toggle_found (get_elem? s.toggles i) i success s

disable_warning : Rule → ActionInfo
disable_warning rule = record {
  action = "Disable High-Impact Rule";
  target = rule.name;
  justification = "Disabling auto-response detection rule affects dependent playbooks";
  risk = destructive;
}

unfoldable pub toggle_rule : Rule → Page → Page
unfolding disable_warning perform_toggle
toggle_rule rule s =
    if rule.enabled && rule.is_auto_response
    then record s {
      pending_action = some (record { action = disable_warning rule; kind = toggle_of rule });
    }
    else perform_toggle rule s

unfoldable pub set_enabled_if : IdSet → Bool → Rule → Rule
set_enabled_if ids value r = if has ids r.id then record r { enabled = value } else r

unfoldable pub perform_bulk_disable : Page → Page
unfolding set_enabled_if
perform_bulk_disable s = record (map_data (set_enabled_if s.selected_ids false) s) {
  pending_action = none;
  two_key_input = "";
  selected_ids = [];
  notices = bulk_disabled (size s.selected_ids) ∷ s.notices;
}

unfoldable pub bulk_warning : ℕ → ActionInfo
bulk_warning count = record {
  action = "Bulk Disable Rules";
  target = str_append (decimal count) " rules";
  justification = "Bulk disabling includes high-impact auto-response rules";
  risk = destructive;
}

abbrev pub is_high_impact : Rule → Bool
is_high_impact r = r.is_auto_response && r.enabled

unfoldable pub has_high_impact : IdSet → List Rule → Bool
has_high_impact ids rs = any is_high_impact (filter_by (λ r. has ids r.id) rs)

bulk_checked : Option (List Rule) → Page → Page
unfolding bulk_warning has_high_impact perform_bulk_disable
bulk_checked none s = s
bulk_checked (some rs) s =
    if has_high_impact s.selected_ids rs
    then record s {
      pending_action =
          some (record { action = bulk_warning (size s.selected_ids); kind = bulk_disable });
    }
    else perform_bulk_disable s

unfoldable pub handle_bulk_disable : Page → Page
unfolding bulk_checked
handle_bulk_disable s = bulk_checked s.table.value s

unfoldable pub handle_bulk_enable : Page → Page
unfolding set_enabled_if
handle_bulk_enable s = record (map_data (set_enabled_if s.selected_ids true) s) {
  selected_ids = [];
  notices = bulk_enabled ∷ s.notices;
}

unfoldable pub toggle_select : String → Page → Page
toggle_select id s = record s { selected_ids = toggle s.selected_ids id }

-- `selectedIds.size === data?.length`, false when there are no data.
abbrev pub all_selected : Page → Bool
all_selected s = elim s.table.value [ none ↦ false | some rs ↦ size s.selected_ids == length rs ]

unfoldable pub toggle_select_all : Page → Page
toggle_select_all s = record s {
  selected_ids = if all_selected s then [] else of_list (map (λ r. r.id) (rules s));
}

unfoldable pub cancel : Page → Page
cancel s = record s { pending_action = none; two_key_input = "" }

-- `onConfirm` of the modal, for the pending action that it closes over.
confirm_kind : Kind → Page → Page
unfolding perform_toggle perform_bulk_disable
confirm_kind (toggle_of rule) s = perform_toggle rule s
confirm_kind bulk_disable s = perform_bulk_disable s

unfoldable pub on_confirm : Page → Page
unfolding confirm_kind
on_confirm s = elim s.pending_action [ none ↦ s | some p ↦ confirm_kind p.kind s ]
