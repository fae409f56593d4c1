-- ===== src/Investigations/Chat.antt =====
-- soc-frontend/src/features/investigations/ui/AgentChatWidget.tsx: the chat with the assistant. Its
-- socket is opened by the effect of `isOpen`, whose clean-up tests the value that it closed over.
pub mod Replies
pub mod Reopening
use Prim.Native.String.{String, ◌++◌ as append}
use homelabs_siem_soar.Prelude.{
  ℕ, suc, Bool, true, false, not, ◌&&◌, ◌||◌, ◌==◌, Option, none, some, List, [], ◌∷◌, ◌++◌,
  filter_by, is_empty, trim, text_or, if◌then◌else◌,
}

pub data Role : Type 0 where
  user agent : Role

pub record Message : Type 0 where
  pub role : Role
  pub text : String
  pub provider : Option String

-- A message of the server.
pub record Frame : Type 0 where
  pub error : Option String
  pub chunk : String
  pub provider : Option String
  pub is_done : Bool

pub data Ready : Type 0 where
  connecting opened closing : Ready

-- A socket that has not reported its close.
pub record Socket : Type 0 where
  pub number : ℕ
  pub ready : Ready

pub record Chat : Type 0 where
  pub is_open : Bool
  pub is_minimized : Bool
  pub input : String
  pub messages : List Message
  pub is_typing : Bool
  pub ws_ref : Option ℕ
  pub fresh : ℕ
  pub sockets : List Socket
  pub sent : List String  -- what was sent on an open socket, latest first

connect : Chat → Chat
connect s = record s {
  ws_ref = some s.fresh;
  fresh = suc s.fresh;
  sockets = record { number = s.fresh; ready = connecting } ∷ s.sockets;
}

abbrev is_none {ℓ} : {A : Type ℓ} → Option A → Bool
is_none none = true
is_none (some a) = false

-- The body of the effect.
body : Chat → Chat
unfolding connect
body s = if s.is_open && is_none s.ws_ref then connect s else s

set_ready : ℕ → Ready → List Socket → List Socket
set_ready k r [] = []
set_ready k r (w ∷ ws) = if w.number == k then record w { ready = r } ∷ ws else w ∷ set_ready k r ws

close_ref : Option ℕ → Chat → Chat
unfolding set_ready
close_ref none s = s
close_ref (some k) s = record s { ws_ref = none; sockets = set_ready k closing s.sockets }

-- The clean-up that was returned when `isOpen` was `was_open`.
clean_up : Bool → Chat → Chat
unfolding close_ref
clean_up was_open s = if was_open then s else close_ref s.ws_ref s

-- `setIsOpen`, with the effect if the value changes.
unfoldable pub set_is_open : Bool → Chat → Chat
unfolding clean_up body
set_is_open true s = if s.is_open then s else body (record (clean_up false s) { is_open = true })
set_is_open false s = if s.is_open then body (record (clean_up true s) { is_open = false }) else s

-- The first rendering, with the two properties of the component.
unfoldable pub start : Bool → String → Chat
unfolding body
start default_open default_input = body (record {
  is_open = default_open;
  is_minimized = false;
  input = default_input;
  messages = [];
  is_typing = false;
  ws_ref = none;
  fresh = 0;
  sockets = [];
  sent = [];
})

unfoldable pub ready_of : ℕ → List Socket → Option Ready
ready_of k [] = none
ready_of k (w ∷ ws) = if w.number == k then some w.ready else ready_of k ws

-- `data.error` is truthy.
abbrev pub has_error : Option String → Bool
has_error none = false
has_error (some e) = not (is_empty e)

abbrev pub is_user : Role → Bool
is_user user = true
is_user agent = false

-- `a || b` for texts that may be missing.
abbrev pub provider_or : Option String → Option String → Option String
provider_or none b = b
provider_or (some a) b = if is_empty a then b else some a

abbrev pub new_reply : Frame → Message
new_reply f = record { role = agent; text = f.chunk; provider = f.provider }

abbrev pub grown : Message → Frame → Message
grown m f = record m { text = append m.text f.chunk; provider = provider_or f.provider m.provider }

-- The functional update for a chunk.
unfoldable pub add_chunk : List Message → Frame → List Message
add_chunk [] f = new_reply f ∷ []
add_chunk (m ∷ []) f = if is_user m.role then m ∷ new_reply f ∷ [] else grown m f ∷ []
add_chunk (m ∷ n ∷ ms) f = m ∷ add_chunk (n ∷ ms) f

abbrev error_of : Option String → String
error_of e = append "Error: " (text_or e "")

-- `onmessage`.
unfoldable pub handle_frame : Frame → Chat → Chat
unfolding add_chunk
handle_frame f s =
    if has_error f.error
    then record s {
      messages =
          s.messages ++ record { role = agent; text = error_of f.error; provider = none } ∷ [];
      is_typing = false;
    }
    else record s {
      messages = add_chunk s.messages f;
      is_typing = if f.is_done then false else s.is_typing;
    }

received : Option Ready → Frame → Chat → Chat
unfolding handle_frame
received (some opened) f s = handle_frame f s
received _ f s = s

-- A message reaches its socket only while it is open.
unfoldable pub receive : ℕ → Frame → Chat → Chat
unfolding received ready_of
receive k f s = received (ready_of k s.sockets) f s

opens : Option Ready → ℕ → Chat → Chat
unfolding set_ready
opens (some connecting) k s = record s { sockets = set_ready k opened s.sockets }
opens _ k s = s

unfoldable pub on_open : ℕ → Chat → Chat
unfolding opens ready_of
on_open k s = opens (ready_of k s.sockets) k s

closes : Option Ready → ℕ → Chat → Chat
closes none k s = s
closes (some r) k s = record s {
  ws_ref = none;
  sockets = filter_by (λ w. not (w.number == k)) s.sockets;
}

-- `onclose`, of whichever socket.
unfoldable pub on_close : ℕ → Chat → Chat
unfolding closes ready_of
on_close k s = closes (ready_of k s.sockets) k s

-- `wsRef.current.send(input)` and what follows it. On a socket that connects, `send` throws; on one that
-- closes, it drops the text.
send_on : Option Ready → Chat → Chat
send_on (some opened) s = record s { input = ""; is_typing = true; sent = s.input ∷ s.sent }
send_on (some connecting) s = s
send_on _ s = record s { input = ""; is_typing = true }

submit_to : Option ℕ → Chat → Chat
unfolding send_on ready_of
submit_to none s = s
submit_to (some k) s = send_on (ready_of k s.sockets) (record s {
  messages = s.messages ++ record { role = user; text = s.input; provider = none } ∷ [];
})

-- `handleSubmit`.
unfoldable pub handle_submit : Chat → Chat
unfolding submit_to trim
handle_submit s = if is_empty (trim s.input) then s else submit_to s.ws_ref s

-- The form is there while the chat is open and not minimized.
unfoldable pub submitted : Chat → Chat
unfolding handle_submit
submitted s = if s.is_open && not s.is_minimized then handle_submit s else s

pub data Event : Type 0 where
  open_clicked : Event
  close_clicked : Event
  minimize_clicked : Event
  restore_clicked : Event
  typed : String → Event
  form_submitted : Event
  socket_opened : ℕ → Event
  frame_came : ℕ → Frame → Event
  socket_closed : ℕ → Event

-- The close button of the minimized chat resets `isMinimized` as well, that of the open one finds it
-- false.
unfoldable pub step : Event → Chat → Chat
unfolding set_is_open submitted on_open receive on_close
step open_clicked s = set_is_open true s
step close_clicked s = set_is_open false (record s { is_minimized = false })
step minimize_clicked s = record s { is_minimized = true }
step restore_clicked s = record s { is_minimized = false }
step (typed value) s = record s { input = value }
step form_submitted s = submitted s
step (socket_opened k) s = on_open k s
step (frame_came k f) s = receive k f s
step (socket_closed k) s = on_close k s

unfoldable pub run : Chat → List Event → Chat
unfolding step
run s [] = s
run s (e ∷ es) = run (step e s) es
