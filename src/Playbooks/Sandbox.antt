-- ===== src/Playbooks/Sandbox.antt =====
-- soc-frontend/src/features/playbooks/ui/PlaybookSandbox.tsx: executions of playbooks, each streamed
-- over a WebSocket of its own, with one reference to the socket that counts as active.
pub mod Streams
pub mod Races
use Prim.Native.String.{String}
use text.Mathlib.Text.{◌==◌ as str_eq}
use homelabs_siem_soar.Prelude.{
  ℕ, suc, Bool, true, false, Option, none, some, List, [], ◌∷◌, ◌++◌, map, get_elem?, remove_at,
  ◌==◌, is_empty, if◌then◌else◌,
}
use homelabs_siem_soar.Prelude.Int.{ℤ, is_zero}

pub data Status : Type 0 where
  queued running success failed : Status

pub record Execution : Type 0 where
  pub status : Status
  pub output : List String
  pub exit_code : Option ℤ
  pub duration : Option ℕ

-- `executionCache`, by the id of the playbook.
abbrev pub Cache : Type 0
Cache = String → Option Execution

abbrev pub store : Cache → String → Option Execution → Cache
store cache id e = λ key. if str_eq key id then e else cache key

pub data Ready : Type 0 where
  connecting opened closing : Ready

pub record Socket : Type 0 where
  pub number : ℕ
  pub playbook : String
  pub ready : Ready

pub record Sandbox : Type 0 where
  pub cache : Cache
  pub active : Option ℕ  -- the socket of `activeWsRef.current`
  pub fresh : ℕ
  pub sockets : List Socket

unfoldable pub start : Sandbox
start = record { cache = λ key. none; active = none; fresh = 0; sockets = [] }

close_active : Option ℕ → List Socket → List Socket
close_active none ws = ws
close_active (some k) ws = map (λ w. if w.number == k then record w { ready = closing } else w) ws

abbrev pub initiating : Execution
initiating = record {
  status = queued;
  output = "> Initiating sandbox execution container..." ∷ [];
  exit_code = none;
  duration = none;
}

run_playbook : String → Sandbox → Sandbox
unfolding close_active
run_playbook id s = record {
  cache = store s.cache id (some initiating);
  active = some s.fresh;
  fresh = suc s.fresh;
  sockets =
      close_active s.active s.sockets
      ++ record { number = s.fresh; playbook = id; ready = connecting } ∷ [];
}

-- An update of an entry that is there. The entry of a socket's playbook is, since it was run.
abbrev pub modify : String → (Execution → Execution) → Cache → Cache
modify id f cache = store cache id (elim (cache id) [ none ↦ none | some e ↦ some (f e) ])

unfoldable pub connected : Execution → Execution
connected e = record e {
  status = running;
  output = e.output ++ "> Connected to sandbox stream..." ∷ [];
}

open_found : Option Socket → Sandbox → Sandbox
unfolding connected
open_found none s = s
open_found (some w) s = elim w.ready [
  | connecting ↦ record s {
    cache = modify w.playbook connected s.cache;
    sockets = map (λ v. if v.number == w.number then record v { ready = opened } else v) s.sockets;
  }
  | _ ↦ s
]

-- What `JSON.parse` makes of a message, of which the page reads these fields.
pub record Parsed : Type 0 where
  pub kind : String  -- `type`
  pub exit_code : ℤ
  pub duration : ℕ
  pub output : String  -- empty if it is missing

pub data Frame : Type 0 where
  ended : ℤ → ℕ → Frame
  line : String → Frame

-- A message that is no JSON is a line as it stands, and so is JSON with no `output`.
unfoldable read_frame : String → Option Parsed → Frame
read_frame raw none = line raw
read_frame raw (some p) =
    if str_eq p.kind "END"
    then ended p.exit_code p.duration
    else if is_empty p.output
    then line raw
    else line p.output

unfoldable pub apply_frame : Frame → Execution → Execution
apply_frame (ended code ms) e = record e {
  status = if is_zero code then success else failed;
  exit_code = some code;
  duration = some ms;
}
apply_frame (line text) e = record e { output = e.output ++ text ∷ [] }

abbrev pub is_open : Ready → Bool
is_open opened = true
is_open _ = false

-- `ws.onmessage`; a socket that is not open delivers nothing.
receive : Option Socket → Frame → Sandbox → Sandbox
unfolding apply_frame
receive none f s = s
receive (some w) f s =
    if is_open w.ready then record s { cache = modify w.playbook (apply_frame f) s.cache } else s

-- `ws.onclose` clears the reference, whichever socket it is.
close_found : Option Socket → ℕ → Sandbox → Sandbox
close_found none i s = s
close_found (some w) i s = record s { active = none; sockets = remove_at s.sockets i }

terminated : Execution → Execution
terminated e = record e {
  status = failed;
  output = e.output ++ "> Execution forcibly terminated by user." ∷ [];
}

stop_active : Option ℕ → String → Sandbox → Sandbox
unfolding close_active terminated
stop_active none id s = s
stop_active (some k) id s = record s {
  cache = modify id terminated s.cache;
  sockets = close_active (some k) s.sockets;
}

stop_execution : String → Sandbox → Sandbox
unfolding stop_active
stop_execution id s = stop_active s.active id s

pub data Event : Type 0 where
  started : String → Event
  socket_opened : ℕ → Event
  message : ℕ → Frame → Event
  socket_closed : ℕ → Event
  stopped : String → Event

unfoldable pub step : Event → Sandbox → Sandbox
unfolding run_playbook open_found receive close_found stop_execution
step (started id) s = run_playbook id s
step (socket_opened i) s = open_found (get_elem? s.sockets i) s
step (message i f) s = receive (get_elem? s.sockets i) f s
step (socket_closed i) s = close_found (get_elem? s.sockets i) i s
step (stopped id) s = stop_execution id s

unfoldable pub run : Sandbox → List Event → Sandbox
unfolding step
run s [] = s
run s (e ∷ es) = run (step e s) es
