-- ===== src/Hooks/Stream.antt =====
-- soc-frontend/src/shared/hooks/useWebSocketStream.ts: a WebSocket that reconnects, with everything
-- that can outlive the effect: sockets that have not reported their close, and armed timers.
pub mod Backoff
pub mod Teardown
use Prim.Native.String.{String}
use homelabs_siem_soar.Prelude.{
  ℕ, suc, ◌*◌, ◌^◌, min, Bool, true, false, not, Option, none, some, List, [], ◌∷◌, map, get_elem?,
  remove_at, filter_by, ◌==◌, if◌then◌else◌,
}

-- The part of `readyState` before the close event; a socket is dropped when that has been handled.
pub data Ready : Type 0 where
  connecting opened closing : Ready

pub record Socket : Type 0 where
  pub number : ℕ
  pub owner : ℕ  -- the instance of the effect whose `connect` made it
  pub ready : Ready

pub record Timer : Type 0 where
  pub owner : ℕ
  pub delay : ℕ

pub record Stream : Type 0 where
  pub live : Option ℕ  -- the mounted instance of the effect
  pub fresh : ℕ
  pub is_connected : Bool
  pub ws_ref : Option ℕ  -- the number of `wsRef.current`
  pub retry_count : ℕ
  pub sockets : List Socket
  pub timers : List Timer

unfoldable pub start : Stream
start = record {
  live = none;
  fresh = 0;
  is_connected = false;
  ws_ref = none;
  retry_count = 0;
  sockets = [];
  timers = [];
}

-- `Math.min(1000 * Math.pow(2, retryCount.current), 30000)`.
unfoldable pub backoff : ℕ → ℕ
backoff retries = min (1000 * 2 ^ retries) 30000

unfoldable pub connect : ℕ → Stream → Stream
connect owner s = record s {
  fresh = suc s.fresh;
  ws_ref = some s.fresh;
  sockets = record { number = s.fresh; owner = owner; ready = connecting } ∷ s.sockets;
}

-- `ws.onopen`.
on_open : ℕ → Stream → Stream
on_open number s = record s {
  is_connected = true;
  retry_count = 0;
  sockets = map (λ w. if w.number == number then record w { ready = opened } else w) s.sockets;
}

-- `ws.onclose`: it arms the timer that runs `connect` of the same instance.
on_close : ℕ → Stream → Stream
on_close owner s = record s {
  is_connected = false;
  retry_count = suc s.retry_count;
  timers = record { owner = owner; delay = backoff s.retry_count } ∷ s.timers;
}

-- A socket that is connecting can open; one on which `close` was called cannot.
open_found : Option Socket → Stream → Stream
open_found none s = s
open_found (some w) s = elim w.ready [ connecting ↦ on_open w.number s | _ ↦ s ]

close_found : Option Socket → ℕ → Stream → Stream
close_found none i s = s
close_found (some w) i s = on_close w.owner (record s { sockets = remove_at s.sockets i })

fire_found : Option Timer → ℕ → Stream → Stream
fire_found none i s = s
fire_found (some t) i s = connect t.owner (record s { timers = remove_at s.timers i })

-- `wsRef.current.close()`: the close event comes later.
unfoldable pub close_ref : Option ℕ → List Socket → List Socket
close_ref none ws = ws
close_ref (some k) ws = map (λ w. if w.number == k then record w { ready = closing } else w) ws

unfoldable pub clean_up : ℕ → Stream → Stream
unfolding close_ref
clean_up owner s = record s {
  live = none;
  timers = filter_by (λ t. not (t.owner == owner)) s.timers;
  sockets = close_ref s.ws_ref s.sockets;
}

unfoldable pub clean_up_if : Option ℕ → Stream → Stream
unfolding clean_up
clean_up_if none s = s
clean_up_if (some owner) s = clean_up owner s

unfoldable pub unmount : Stream → Stream
unfolding clean_up_if
unmount s = clean_up_if s.live s

-- The effect, at the first rendering and when `url` changes.
unfoldable pub run_effect : Stream → Stream
unfolding connect unmount
run_effect s =
    let t = unmount s in connect t.fresh (record t { live = some t.fresh; fresh = suc t.fresh })

pub data Event : Type 0 where
  mounted : Event
  unmounted : Event
  socket_opened : ℕ → Event
  socket_closed : ℕ → Event
  timer_fired : ℕ → Event

unfoldable pub step : Event → Stream → Stream
unfolding run_effect on_open on_close open_found close_found fire_found
step mounted s = run_effect s
step unmounted s = unmount s
step (socket_opened i) s = open_found (get_elem? s.sockets i) s
step (socket_closed i) s = close_found (get_elem? s.sockets i) i s
step (timer_fired i) s = fire_found (get_elem? s.timers i) i s

unfoldable pub run : Stream → List Event → Stream
unfolding step
run s [] = s
run s (e ∷ es) = run (step e s) es

-- `ws.onmessage`: `JSON.parse` and the page's callback stand in one `try`, so an error of either
-- calls the callback with the raw text. `handle` says whether the callback throws; a throw of the
-- second call reaches nobody.
module _ {ℓ κ} {S : Type ℓ} {T : Type κ} (parse : String → Option T) (raw : String → T)
    (handle : T → S → S × Bool) where
  unfoldable pub on_message : String → S → S
  on_message text s = elim (parse text) [
    | none ↦ (handle (raw text) s).0
    | some v ↦ let (s', threw) = handle v s in if threw then (handle (raw text) s').0 else s'
  ]
