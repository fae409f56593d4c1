-- ===== src/Incidents/Active.antt =====
-- soc-frontend/src/pages/incidents/ActiveIncidentsPage.tsx: the active incidents, searching and
-- selecting them, and giving the selected ones to an analyst.
pub mod Reassign
pub mod Selection
use Prim.Native.Nat.{◌%◌}
use Prim.Native.String.{String}
use homelabs_siem_soar.Prelude.{
  ℕ, Bool, true, false, ◌&&◌, ◌||◌, ◌==◌, Option, none, some, List, [], ◌∷◌, map, map_from, length,
  filter_by, ltb, includes, is_empty, if◌then◌else◌,
}
use homelabs_siem_soar.Prelude.IdSet.{IdSet, has, size, of_list, toggle}
use homelabs_siem_soar.Hooks.AsyncState.{AsyncState, Reply, ok, failed, initial, begin, settle}

pub data SlaStatus : Type 0 where
  breached warning on_time : SlaStatus

-- An incident of the reply, whose `assignee` may be missing.
pub record RawIncident : Type 0 where
  pub id : String
  pub title : String
  pub severity : String
  pub assignee : Option String

-- `EnhancedIncident`, the fields that the page reads.
pub record Incident : Type 0 where
  pub id : String
  pub title : String
  pub severity : String
  pub sla_status : SlaStatus
  pub assignee : Option String

-- What the page makes of the incident at a place of the reply.
unfoldable pub enhance : ℕ → RawIncident → Incident
enhance i r = record {
  id = r.id;
  title = r.title;
  severity = r.severity;
  sla_status = if i % 7 == 0 then breached else if i % 4 == 0 then warning else on_time;
  assignee = r.assignee;
}

loaded : Reply (List RawIncident) → Reply (List Incident)
unfolding enhance
loaded (ok rs) = ok (map_from 0 enhance rs)
loaded (failed message) = failed message

pub record Page : Type 0 where
  pub table : AsyncState (List Incident)
  pub selected_ids : IdSet
  pub show_reassign_modal : Bool
  pub reassign_target : String
  pub search_query : String

unfoldable pub start : Page
start = record {
  table = initial;
  selected_ids = [];
  show_reassign_modal = false;
  reassign_target = "";
  search_query = "";
}

unfoldable pub assign_if : IdSet → String → Incident → Incident
assign_if ids target i = if has ids i.id then record i { assignee = some target } else i

reassign : Option (List Incident) → Page → Page
unfolding assign_if
reassign none s = s
reassign (some is) s = record s {
  table = record {
    value = some (map (assign_if s.selected_ids s.reassign_target) is);
    loading = s.table.loading;
    error = s.table.error;
  };
  selected_ids = [];
  show_reassign_modal = false;
}

-- `handleBulkReassign`.
unfoldable pub handle_bulk_reassign : Page → Page
unfolding reassign
handle_bulk_reassign s = reassign s.table.value s

unfoldable pub toggle_select : String → Page → Page
toggle_select id s = record s { selected_ids = toggle s.selected_ids id }

-- `selectedIds.size === data?.length`, and `data?.map(i => i.id)`, on which `new Set` gives the empty
-- set if it is undefined.
abbrev pub all_selected : IdSet → Option (List Incident) → Bool
all_selected ids none = false
all_selected ids (some is) = size ids == length is

abbrev ids_of : Option (List Incident) → List String
ids_of none = []
ids_of (some is) = map (λ i. i.id) is

unfoldable pub toggle_select_all : Page → Page
toggle_select_all s = record s {
  selected_ids =
      if all_selected s.selected_ids s.table.value then [] else of_list (ids_of s.table.value);
}

abbrev is_breached : SlaStatus → Bool
is_breached breached = true
is_breached _ = false

abbrev is_warning : SlaStatus → Bool
is_warning warning = true
is_warning _ = false

-- `data || []`, whose length is `data?.filter(…).length || 0`.
abbrev pub incidents : Option (List Incident) → List Incident
incidents none = []
incidents (some is) = is

unfoldable breached_count : Page → ℕ
breached_count s = length (filter_by (λ i. is_breached i.sla_status) (incidents s.table.value))

unfoldable warning_count : Page → ℕ
warning_count s = length (filter_by (λ i. is_warning i.sla_status) (incidents s.table.value))

-- `!i.assignee`.
abbrev pub is_unassigned : Option String → Bool
is_unassigned none = true
is_unassigned (some name) = is_empty name

-- The only computed row of `analystWorkload`.
unfoldable pub unassigned_count : Page → ℕ
unassigned_count s = length (filter_by (λ i. is_unassigned i.assignee) (incidents s.table.value))

-- `lower` is `toLowerCase`.
module _ (lower : String → String) where
  assignee_matches : Option String → String → Bool
  assignee_matches none query = false
  assignee_matches (some name) query = includes (lower name) (lower query)

  unfoldable pub is_shown : String → Incident → Bool
  unfolding assignee_matches
  is_shown query i =
      includes (lower i.id) (lower query)
      || includes (lower i.title) (lower query)
      || assignee_matches i.assignee query

  -- `filteredData`, or no rows without data.
  unfoldable pub filtered : Page → List Incident
  unfolding is_shown
  filtered s = filter_by (is_shown s.search_query) (incidents s.table.value)

  -- The `checked` of the checkbox in the head of the table.
  unfoldable pub all_checked : Page → Bool
  all_checked s = ltb 0 (length (filtered s)) && size s.selected_ids == length (filtered s)

pub data Event : Type 0 where
  executed : Event
  replied : Reply (List RawIncident) → Event
  searched : String → Event
  row_toggled : String → Event
  all_toggled : Event
  reassign_opened : Event
  analyst_chosen : String → Event
  reassign_cancelled : Event
  reassign_confirmed : Event

-- The button of the bulk bar is there while something is selected, the others while the modal is.
unfoldable pub step : Event → Page → Page
unfolding loaded handle_bulk_reassign
step executed s = record s { table = begin s.table }
step (replied r) s = record s { table = settle (loaded r) s.table }
step (searched query) s = record s { search_query = query }
step (row_toggled id) s = toggle_select id s
step all_toggled s = toggle_select_all s
step reassign_opened s =
    if ltb 0 (size s.selected_ids) then record s { show_reassign_modal = true } else s
step (analyst_chosen name) s =
    if s.show_reassign_modal then record s { reassign_target = name } else s
step reassign_cancelled s = record s { show_reassign_modal = false }
step reassign_confirmed s = if s.show_reassign_modal then handle_bulk_reassign s else s

unfoldable pub run : Page → List Event → Page
unfolding step
run s [] = s
run s (e ∷ es) = run (step e s) es
