-- ===== src/Hooks/Polling.antt =====
-- soc-frontend/src/shared/hooks/usePolling.ts: the effect that polls a URL, with everything that
-- can outlive it: requests in flight and armed timers. An instance of the effect is known by the
-- number of its run.
pub mod Safety
pub mod Silence
use homelabs_siem_soar.Prelude.{
  ℕ, suc, ◌+◌, Bool, true, false, Option, none, some, List, [], ◌∷◌, map, get_elem?, remove_at,
  filter_by, not, ◌==◌, if◌then◌else◌,
}

abbrev pub is_some : Option ℕ → Bool
is_some none = false
is_some (some n) = true

-- One `apiClient.get` in flight: the controller that it was given, the instance of the effect that
-- waits for it, and whether the controller's signal has fired.
pub record Request : Type 0 where
  pub controller : ℕ
  pub owner : ℕ
  pub aborted : Bool

-- How a request that was not aborted ends.
pub data Answer : Type 0 where
  arrived : Answer
  refused : Answer

pub record Polling : Type 0 where
  pub live : Option ℕ  -- the mounted instance of the effect
  pub fresh : ℕ  -- the next number of an instance or a controller
  pub abort_ref : Option ℕ  -- `abortRef.current`
  pub requests : List Request
  pub timers : List ℕ  -- the instances whose `timeoutId` is armed
  pub on_data : ℕ  -- calls of `onData`
  pub on_error : ℕ  -- calls of `onError`

unfoldable pub start : Polling
start = record {
  live = none;
  fresh = 0;
  abort_ref = none;
  requests = [];
  timers = [];
  on_data = 0;
  on_error = 0;
}

-- `poll` up to its `await`: a new controller, and a request with its signal.
unfoldable pub poll : ℕ → Polling → Polling
poll owner s = record s {
  fresh = suc s.fresh;
  abort_ref = some s.fresh;
  requests = record { controller = s.fresh; owner = owner; aborted = false } ∷ s.requests;
}

-- The rest of `poll`. An aborted request rejects with `CanceledError`, and `poll` returns; any other
-- end calls one of the callbacks and arms the timer.
resume_if : Bool → Answer → ℕ → Polling → Polling
resume_if true answer owner s = s
resume_if false arrived owner s = record s { on_data = suc s.on_data; timers = owner ∷ s.timers }
resume_if false refused owner s = record s { on_error = suc s.on_error; timers = owner ∷ s.timers }

unfoldable pub resume : Request → Answer → Polling → Polling
unfolding resume_if
resume r answer s = resume_if r.aborted answer r.owner s

settle_found : Option Request → ℕ → Answer → Polling → Polling
settle_found none i answer s = s
settle_found (some r) i answer s = resume r answer (record s { requests = remove_at s.requests i })

unfoldable pub settle : ℕ → Answer → Polling → Polling
unfolding settle_found
settle i answer s = settle_found (get_elem? s.requests i) i answer s

-- `setTimeout` runs `poll` of the instance that armed the timer.
fire_found : Option ℕ → ℕ → Polling → Polling
fire_found none i s = s
fire_found (some owner) i s = poll owner (record s { timers = remove_at s.timers i })

unfoldable pub fire : ℕ → Polling → Polling
unfolding fire_found
fire i s = fire_found (get_elem? s.timers i) i s

-- `abortRef.current?.abort()`.
unfoldable pub abort : Option ℕ → List Request → List Request
abort none rs = rs
abort (some k) rs = map (λ r. if r.controller == k then record r { aborted = true } else r) rs

-- The clean-up of an instance: abort, and `clearTimeout(timeoutId)`.
unfoldable pub clean_up : ℕ → Polling → Polling
unfolding abort
clean_up owner s = record s {
  live = none;
  requests = abort s.abort_ref s.requests;
  timers = filter_by (λ t. not (t == owner)) s.timers;
}

unfoldable pub clean_up_if : Option ℕ → Polling → Polling
unfolding clean_up
clean_up_if none s = s
clean_up_if (some owner) s = clean_up owner s

unfoldable pub unmount : Polling → Polling
unfolding clean_up_if
unmount s = clean_up_if s.live s

-- The effect runs: at the first rendering, and again when `url` or `intervalMs` changes, after the
-- clean-up of the instance before.
unfoldable pub run_effect : Polling → Polling
run_effect s =
    let t = unmount s in poll t.fresh (record t { live = some t.fresh; fresh = suc t.fresh })

pub data Event : Type 0 where
  mounted : Event
  changed : Event
  unmounted : Event
  settled : ℕ → Answer → Event
  fired : ℕ → Event

unfoldable pub step : Event → Polling → Polling
step mounted s = run_effect s
step changed s = if is_some s.live then run_effect s else s
step unmounted s = unmount s
step (settled i answer) s = settle i answer s
step (fired i) s = fire i s

unfoldable pub run : Polling → List Event → Polling
run s [] = s
run s (e ∷ es) = run (step e s) es
