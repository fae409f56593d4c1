-- ===== src/Hooks/LogStream.antt =====
-- soc-frontend/src/hooks/useInvestigationStream.ts, of which
-- soc-frontend/src/features/investigations/hooks/useInvestigationStream.ts is a copy: the log lines
-- of one investigation, over a WebSocket that is not reopened.
pub mod Ring
pub mod Lifecycle
use Prim.Native.String.{String}
use homelabs_siem_soar.Prelude.{
  ℕ, zero, suc, ◌-◌, Bool, true, false, Option, none, some, List, [], ◌∷◌, ◌++◌, map, get_elem?,
  remove_at, drop, length, ltb, ◌==◌, is_empty, if◌then◌else◌,
}

pub data Ready : Type 0 where
  connecting opened closing : Ready

-- A socket that has not reported its close, with the investigation of its URL.
pub record Socket : Type 0 where
  pub number : ℕ
  pub investigation : String
  pub ready : Ready

pub record LogStream : Type 0 where
  pub logs : List String
  pub is_connected : Bool
  pub ws_ref : Option ℕ
  pub has_clean_up : Bool  -- the effect of the last rendering returned a clean-up
  pub fresh : ℕ
  pub sockets : List Socket

unfoldable pub start : LogStream
start = record {
  logs = [];
  is_connected = false;
  ws_ref = none;
  has_clean_up = false;
  fresh = 0;
  sockets = [];
}

abbrev pub ceiling : ℕ
ceiling = 1000

-- The functional update of `onmessage`, at any ceiling.
unfoldable pub push : ℕ → List String → String → List String
push most prev line =
    let updated = prev ++ line ∷ [] in
    if ltb most (length updated) then drop (length updated - most) updated else updated

abbrev pub is_open : Ready → Bool
is_open opened = true
is_open _ = false

-- `if (wsRef.current && wsRef.current.readyState === WebSocket.OPEN) wsRef.current.close()`.
close_open : Option ℕ → List Socket → List Socket
close_open none ws = ws
close_open (some k) ws =
    map
      (λ w.
        if w.number == k then (if is_open w.ready then record w { ready = closing } else w) else w)
      ws

unfoldable pub clean_up : LogStream → LogStream
unfolding close_open
clean_up s =
    if s.has_clean_up
    then record s { has_clean_up = false; sockets = close_open s.ws_ref s.sockets }
    else s

-- The body of the effect, for an id that is there.
unfoldable pub connect : String → LogStream → LogStream
connect id s = record s {
  ws_ref = some s.fresh;
  has_clean_up = true;
  fresh = suc s.fresh;
  sockets = s.sockets ++ record { number = s.fresh; investigation = id; ready = connecting } ∷ [];
}

unfoldable pub body : Option String → LogStream → LogStream
unfolding connect
body none s = s
body (some id) s = if is_empty id then s else connect id s

-- The effect runs when `investigationId` changes, after the clean-up of the effect before.
unfoldable pub set_investigation : Option String → LogStream → LogStream
unfolding clean_up body
set_investigation id s = body id (clean_up s)

mark_open : Option Socket → LogStream → LogStream
mark_open none s = s
mark_open (some w) s = elim w.ready [
  | connecting ↦ record s {
    is_connected = true;
    sockets = map (λ v. if v.number == w.number then record v { ready = opened } else v) s.sockets;
  }
  | _ ↦ s
]

receive : Option Socket → String → LogStream → LogStream
unfolding push
receive none line s = s
receive (some w) line s =
    if is_open w.ready then record s { logs = push ceiling s.logs line } else s

closed : Option Socket → ℕ → LogStream → LogStream
closed none i s = s
closed (some w) i s = record s { is_connected = false; sockets = remove_at s.sockets i }

pub data Event : Type 0 where
  shown : Option String → Event
  unmounted : Event
  socket_opened : ℕ → Event
  message : ℕ → String → Event
  socket_error : ℕ → Event
  socket_closed : ℕ → Event

unfoldable pub step : Event → LogStream → LogStream
unfolding set_investigation clean_up mark_open receive closed
step (shown id) s = set_investigation id s
step unmounted s = clean_up s
step (socket_opened i) s = mark_open (get_elem? s.sockets i) s
step (message i line) s = receive (get_elem? s.sockets i) line s
step (socket_error i) s = record s { is_connected = false }
step (socket_closed i) s = closed (get_elem? s.sockets i) i s

unfoldable pub run : LogStream → List Event → LogStream
unfolding step
run s [] = s
run s (e ∷ es) = run (step e s) es
