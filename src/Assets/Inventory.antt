-- ===== src/Assets/Inventory.antt =====
-- soc-frontend/src/pages/assets/AssetInventoryPage.tsx: owners and criticality of the assets.
pub mod Assign
use Prim.Native.Nat.{◌%◌}
use Prim.Native.String.{String, ◌++◌ as str_append}
use text.Mathlib.Text.{◌==◌ as str_eq}
use homelabs_siem_soar.Prelude.{
  ℕ, suc, ◌+◌, Bool, true, false, not, ◌&&◌, ◌||◌, ◌==◌, Option, none, some, List, [], ◌∷◌, map,
  map_from, length, ltb, filter_by, trim, is_empty, or_default, if◌then◌else◌,
}
use homelabs_siem_soar.Prelude.IdSet.{IdSet, has, size, of_list, toggle}
use homelabs_siem_soar.Hooks.AsyncState.{AsyncState, Reply, ok, failed, initial, settle, set_value}

pub data Lifecycle : Type 0 where
  active scheduled_decommission decommissioned : Lifecycle

-- An asset of the page. Its two entries of `changeHistory` are the same for every asset.
pub record Asset : Type 0 where
  pub id : String
  pub hostname : String
  pub ip_address : String
  pub owner : String
  pub criticality : String
  pub lifecycle_status : Lifecycle
  pub is_unmanaged : Bool

-- An asset of the reply; a text that is missing is the empty one, which is falsy as well.
pub record RawAsset : Type 0 where
  pub id : String
  pub hostname : String
  pub ip_address : String
  pub owner : String
  pub criticality : String

-- The asset at a place of the reply.
unfoldable pub enhance : ℕ → RawAsset → Asset
enhance i a = record {
  id = a.id;
  hostname = a.hostname;
  ip_address = a.ip_address;
  owner = if i % 4 == 0 then "" else or_default a.owner "Alice";
  criticality = if i % 4 == 0 then "" else or_default a.criticality "Tier 3";
  lifecycle_status =
      if i % 10 == 0 then decommissioned else if i % 7 == 0 then scheduled_decommission else active;
  is_unmanaged = i % 4 == 0;
}

unfoldable pub loaded : List RawAsset → List Asset
loaded as_sent = map_from 0 enhance as_sent

pub data ViewFilter : Type 0 where
  all_assets unmanaged_only : ViewFilter

pub record Page : Type 0 where
  pub table : AsyncState (List Asset)
  pub selected_ids : IdSet
  pub assign_owner_modal : Bool
  pub owner_input : String
  pub rescore_modal_asset : Option Asset
  pub new_criticality : String
  pub rescore_justification : String
  pub history_modal_asset : Option Asset
  pub view_filter : ViewFilter
  pub alerts : List String  -- the texts of `alert`, latest first

unfoldable pub start : Page
start = record {
  table = initial;
  selected_ids = [];
  assign_owner_modal = false;
  owner_input = "";
  rescore_modal_asset = none;
  new_criticality = "Tier 2";
  rescore_justification = "";
  history_modal_asset = none;
  view_filter = all_assets;
  alerts = [];
}

-- `data || []`.
unfoldable pub assets_of : Option (List Asset) → List Asset
assets_of none = []
assets_of (some xs) = xs

unfoldable pub unmanaged_count : List Asset → ℕ
unmanaged_count xs = length (filter_by (λ a. a.is_unmanaged) xs)

unfoldable pub is_shown : ViewFilter → Asset → Bool
is_shown all_assets a = true
is_shown unmanaged_only a = a.is_unmanaged

-- `filteredData`.
unfoldable pub filtered : Page → List Asset
filtered s = filter_by (is_shown s.view_filter) (assets_of s.table.value)

unfoldable pub assign_if : IdSet → String → Asset → Asset
assign_if ids owner a =
    if has ids a.id
    then record a {
      owner = owner;
      is_unmanaged = false;
      criticality = or_default a.criticality "Tier 3";
    }
    else a

-- `handleBulkAssign`.
unfoldable pub handle_bulk_assign : Page → Page
unfolding set_value
handle_bulk_assign s = if is_empty (trim s.owner_input) then s else record s {
  table =
      set_value (some (map (assign_if s.selected_ids s.owner_input) (assets_of s.table.value)))
        s.table;
  selected_ids = [];
  assign_owner_modal = false;
  owner_input = "";
}

unfoldable handle_remind_owners : Page → Page
handle_remind_owners s = record s {
  alerts = "Automated reminders sent via Slack to 3 owners for missing asset context." ∷ s.alerts;
}

rescore : Option Asset → Page → Page
rescore none s = s
rescore (some a) s = if is_empty (trim s.rescore_justification) then s else record s {
  rescore_modal_asset = none;
  rescore_justification = "";
  alerts =
      str_append "Approval request submitted to update "
        (str_append a.hostname (str_append " to " (str_append s.new_criticality ".")))
      ∷ s.alerts;
}

-- `handleSubmitRescore`.
unfoldable handle_submit_rescore : Page → Page
unfolding rescore
handle_submit_rescore s = rescore s.rescore_modal_asset s

unfoldable pub toggle_select : String → Page → Page
toggle_select id s = record s { selected_ids = toggle s.selected_ids id }

unfoldable pub toggle_select_all : Page → Page
toggle_select_all s = record s {
  selected_ids =
      if size s.selected_ids == length (filtered s)
      then []
      else of_list (map (λ a. a.id) (filtered s));
}

-- The `checked` of the checkbox in the head of the table.
unfoldable pub all_checked : Page → Bool
all_checked s = ltb 0 (length (filtered s)) && size s.selected_ids == length (filtered s)

other_filter : ViewFilter → ViewFilter
other_filter all_assets = unmanaged_only
other_filter unmanaged_only = all_assets

-- The button of the banner, which is there while an asset is unmanaged.
unfoldable toggle_filter : Page → Page
unfolding other_filter
toggle_filter s =
    if ltb 0 (unmanaged_count (assets_of s.table.value))
    then record s { view_filter = other_filter s.view_filter }
    else s

loaded_reply : Reply (List RawAsset) → Reply (List Asset)
loaded_reply (ok xs) = ok (loaded xs)
loaded_reply (failed message) = failed message

unfoldable pub load_settled : Reply (List RawAsset) → Page → Page
unfolding settle loaded_reply
load_settled r s = record s { table = settle (loaded_reply r) s.table }
