-- ===== src/Playbooks/Store.antt =====
-- soc-frontend/src/features/playbooks/store/PlaybookContext.tsx: the playbooks, the selected one, and
-- the output of the last execution. An output is kept as data; the page prints it.
pub mod Overlaps
use Prim.Native.String.{String}
use homelabs_siem_soar.Prelude.{
  ℕ, zero, suc, Option, none, some, List, [], ◌∷◌, ◌++◌, get_elem?, remove_at,
}
use homelabs_siem_soar.Hooks.AsyncState.{Reply, ok, failed}

pub record Playbook : Type 0 where
  pub id : String
  pub name : String

-- The reply to an execution.
pub record Execution : Type 0 where
  pub playbook_id : String
  pub execution_time : String
  pub logs : List String

-- How a request fails: `detail ?? message`, each of which may be missing.
pub record Failure : Type 0 where
  pub detail : Option String
  pub message : Option String

pub data Outcome : Type 0 where
  succeeded : Execution → Outcome
  failed_with : Failure → Outcome

-- The three texts of `setPlaybookOutput`, and one that another component sets.
pub data Output : Type 0 where
  contacting : String → Output
  success : Execution → Output
  failure : String → Output
  other : String → Output

pub record Store : Type 0 where
  pub playbooks : List Playbook
  pub selected_playbook : Option Playbook
  pub playbook_output : Option Output
  pub loads : ℕ
  pub runs : List Playbook  -- the playbook of each request in flight

-- The first rendering, with its load.
unfoldable pub start : Store
start = record {
  playbooks = [];
  selected_playbook = none;
  playbook_output = none;
  loads = 1;
  runs = [];
}

load_settled : ℕ → Reply (List Playbook) → Store → Store
load_settled zero reply s = s
load_settled (suc n) (ok playbooks) s = record s { playbooks = playbooks; loads = n }
load_settled (suc n) (failed message) s = record s { loads = n }

-- `runPlaybook` up to its `await`.
unfoldable pub run_playbook : Playbook → Store → Store
run_playbook p s = record s { playbook_output = some (contacting p.name); runs = s.runs ++ p ∷ [] }

abbrev pub or_else : Option String → String → String
or_else none d = d
or_else (some t) d = t

abbrev output_of : Outcome → Output
output_of (succeeded e) = success e
output_of (failed_with f) = failure (or_else f.detail (or_else f.message "Unknown error"))

run_ended : Option Playbook → ℕ → Outcome → Store → Store
run_ended none i o s = s
run_ended (some p) i o s = record s {
  playbook_output = some (output_of o);
  runs = remove_at s.runs i;
}

-- The end of the request at a place of the list.
unfoldable pub run_settled : ℕ → Outcome → Store → Store
unfolding run_ended
run_settled i o s = run_ended (get_elem? s.runs i) i o s

pub data Event : Type 0 where
  load_ended : Reply (List Playbook) → Event
  selected : Option Playbook → Event
  output_set : Option Output → Event
  run_pressed : Playbook → Event
  run_replied : ℕ → Outcome → Event

unfoldable pub step : Event → Store → Store
unfolding load_settled run_playbook run_settled
step (load_ended reply) s = load_settled s.loads reply s
step (selected p) s = record s { selected_playbook = p }
step (output_set o) s = record s { playbook_output = o }
step (run_pressed p) s = run_playbook p s
step (run_replied i o) s = run_settled i o s

unfoldable pub run : Store → List Event → Store
unfolding step
run s [] = s
run s (e ∷ es) = run (step e s) es
