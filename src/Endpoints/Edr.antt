-- ===== src/Endpoints/Edr.antt =====
-- soc-frontend/src/pages/endpoints/EdrLogsPage.tsx: the EDR log, its filters and the saved hunts.
pub mod HostsInput
use Prim.Native.String.{String, ◌++◌ as str_append}
use text.Mathlib.Text.{◌==◌ as str_eq}
use homelabs_siem_soar.Prelude.{
  ℕ, suc, ◌==◌, length, map_from, Bool, true, false, not, ◌&&◌, ◌||◌, Option, none, some, List, [],
  ◌∷◌, ◌++◌, map, any, filter_by, split_at, join, trim, includes, is_empty, if◌then◌else◌,
  get_elem?,
}
use homelabs_siem_soar.Hooks.AsyncState.{AsyncState, Reply, ok, failed, initial, begin, settle}

-- A row of the log; the fields that the page reads.
pub record EdrLog : Type 0 where
  pub id : String
  pub host : String
  pub event_type : String
  pub process : String
  pub detail : String
  pub is_suspicious : Bool
  pub has_process_tree : Bool

abbrev lolbins : List String
lolbins =
    "powershell.exe -enc" ∷ "certutil.exe -urlcache" ∷ "wmic process call create"
    ∷ "regsvr32.exe /s /u /i:" ∷ []

-- `filter`, with a number for the identity of its array of hosts, on which an effect depends.
pub record Filter : Type 0 where
  pub hosts : List String
  pub hosts_ref : ℕ
  pub keyword : String
  pub type : String

pub record Hunt : Type 0 where
  pub name : String
  pub filter : Filter

pub record Page : Type 0 where
  pub table : AsyncState (List EdrLog)
  pub filter : Filter
  pub saved_hunts : List Hunt
  pub stored_hunts : List Hunt  -- what local storage keeps
  pub hunt_name_input : String
  pub is_live_tail : Bool
  pub process_tree_modal : Option EdrLog
  pub fresh : ℕ  -- the next number of an array
  pub requests : List String  -- the paths that were read, latest first

-- `useSearchParams().get('host')`, where the empty text is falsy.
hosts_of_param : Option String → List String
hosts_of_param none = []
hosts_of_param (some h) = if is_empty h then [] else h ∷ []

-- A hunt that is read from local storage has an array of its own.
number_hunt : ℕ → Hunt → Hunt
number_hunt n h = record h { filter = record h.filter { hosts_ref = n } }

unfoldable pub open_page : Option String → List Hunt → Page
unfolding hosts_of_param number_hunt
open_page host_param stored = record {
  table = initial;
  filter = record { hosts = hosts_of_param host_param; hosts_ref = 0; keyword = ""; type = "all" };
  saved_hunts = map_from 1 number_hunt stored;
  stored_hunts = stored;
  hunt_name_input = "";
  is_live_tail = false;
  process_tree_modal = none;
  fresh = suc (length stored);
  requests = [];
}

hosts_param : List String → String
hosts_param [] = "all"
hosts_param (h ∷ hs) = join "," (h ∷ hs)

-- `execute` up to its `await`.
unfoldable pub fetch : Page → Page
unfolding begin hosts_param
fetch s = record s {
  table = begin s.table;
  requests = str_append "/endpoints/logs?hosts=" (hosts_param s.filter.hosts) ∷ s.requests;
}

-- `value={filter.hosts.join(',')}`, and what its `onChange` makes of a text: 44 is the comma.
unfoldable pub shown_hosts : List String → String
shown_hosts hosts = join "," hosts

unfoldable pub hosts_of : String → List String
hosts_of text = filter_by (λ h. not (is_empty h)) (map trim (split_at 44 text))

-- A new list of hosts makes the effect run, which reads the log again.
set_hosts : List String → Page → Page
unfolding fetch
set_hosts hosts s = fetch (record s {
  filter = record s.filter { hosts = hosts; hosts_ref = s.fresh };
  fresh = suc s.fresh;
})

-- `handleSaveHunt`.
handle_save_hunt : Page → Page
handle_save_hunt s =
    let hunts = s.saved_hunts ++ record { name = s.hunt_name_input; filter = s.filter } ∷ [] in
    if is_empty s.hunt_name_input
    then s
    else record s { saved_hunts = hunts; stored_hunts = hunts; hunt_name_input = "" }

-- `setFilter(hunt.filter)`: the log is read again unless the array of hosts is the one in use.
apply_hunt : Option Hunt → Page → Page
unfolding fetch
apply_hunt none s = s
apply_hunt (some h) s =
    let t = record s { filter = h.filter } in
    if h.filter.hosts_ref == s.filter.hosts_ref then t else fetch t

-- `lower` is `toLowerCase`.
module _ (lower : String → String) where
  unfoldable pub enhance : EdrLog → EdrLog
  enhance l = record l {
    is_suspicious = l.is_suspicious || any (λ b. includes (lower l.detail) b) lolbins;
    has_process_tree = str_eq l.event_type "PROCESS_EXECUTION";
  }

  enhanced : Reply (List EdrLog) → Reply (List EdrLog)
  enhanced (ok ls) = ok (map enhance ls)
  enhanced (failed message) = failed message

  unfoldable pub load_settled : Reply (List EdrLog) → Page → Page
  unfolding settle enhanced
  load_settled r s = record s { table = settle (enhanced r) s.table }

  unfoldable pub is_shown : Filter → EdrLog → Bool
  is_shown f l =
      (str_eq f.type "all" || str_eq l.event_type f.type)
      && (is_empty f.keyword
          || includes (lower l.detail) (lower f.keyword)
          || includes (lower l.process) (lower f.keyword))

  unfoldable pub filtered : Page → Option (List EdrLog)
  unfolding is_shown
  filtered s = elim s.table.value [
    | none ↦ none
    | some ls ↦ some (filter_by (is_shown s.filter) ls)
  ]

pub data Event : Type 0 where
  mounted : Event  -- the effect of the first rendering
  loaded : Reply (List EdrLog) → Event
  live_tail_clicked : Event
  interval : Event
  hosts_typed : String → Event
  host_clicked : EdrLog → Event
  type_chosen : String → Event
  keyword_typed : String → Event
  hunt_named : String → Event
  hunt_saved : Event
  hunt_chosen : ℕ → Event
  tree_opened : EdrLog → Event
  tree_closed : Event

unfoldable pub step : (String → String) → Event → Page → Page
unfolding apply_hunt load_settled set_hosts handle_save_hunt
step lower mounted s = fetch s
step lower (loaded r) s = load_settled lower r s
step lower live_tail_clicked s = record s { is_live_tail = not s.is_live_tail }
step lower interval s = if s.is_live_tail then fetch s else s
step lower (hosts_typed text) s = set_hosts (hosts_of text) s
step lower (host_clicked l) s = set_hosts (l.host ∷ []) s
step lower (type_chosen type) s = record s { filter = record s.filter { type = type } }
step lower (keyword_typed keyword) s = record s { filter = record s.filter { keyword = keyword } }
step lower (hunt_named name) s = record s { hunt_name_input = name }
step lower hunt_saved s = handle_save_hunt s
step lower (hunt_chosen i) s = apply_hunt (get_elem? s.saved_hunts i) s
step lower (tree_opened l) s =
    if str_eq l.event_type "PROCESS_EXECUTION" then record s { process_tree_modal = some l } else s
step lower tree_closed s = record s { process_tree_modal = none }
