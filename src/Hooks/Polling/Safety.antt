-- ===== src/Hooks/Polling/Safety.antt =====
-- What is pending for `usePolling` at any time: one request or one timer.
use homelabs_siem_soar.Prelude.{
  ℕ, ◌+◌, ◌≡◌, refl, Bool, true, false, not, Option, none, some, List, [], ◌∷◌, arith, get_elem?,
  remove_at, filter_by, length, count_by, count_by-remove_at, length-remove_at, All, All-remove_at,
  All-get, ◌==◌, if◌then◌else◌,
}
use homelabs_siem_soar.Hooks.Polling.{
  Request, Answer, Polling, start, poll, resume, settle, fire, abort, clean_up, clean_up_if,
  is_some, resume_if, arrived, refused, settle_found, fire_found, unmount, run_effect, Event,
  mounted, changed, unmounted, settled, fired, step, run,
}

abbrev pub is_active : Request → Bool
is_active r = not r.aborted

-- Requests that still count, and timers.
abbrev pub work : Polling → ℕ
work s = count_by is_active s.requests + length s.timers

abbrev pub expected : Option ℕ → ℕ
expected none = 0
expected (some owner) = 1

-- An active request belongs to the mounted instance, and the reference holds its controller.
abbrev IsCurrent : Option ℕ → Option ℕ → Request → Type 0
IsCurrent live ref r = r.aborted ≡ false → (live ≡ some r.owner) × (ref ≡ some r.controller)

pub record Inv (s : Polling) : Type 0 where
  pub one : work s ≡ expected s.live
  pub current : All (IsCurrent s.live s.abort_ref) s.requests
  pub timed : All (λ t. s.live ≡ some t) s.timers

pub start-Inv : Inv start
unfolding start
start-Inv = record { one = refl; current = tt; timed = tt }

abbrev AllAborted : List Request → Type 0
AllAborted rs = All (λ r. r.aborted ≡ true) rs

AllAborted-of_count : (rs : List Request) → count_by is_active rs ≡ 0 → AllAborted rs
AllAborted-of_count [] h = tt
AllAborted-of_count (r ∷ rs) h = (ground arith, AllAborted-of_count rs (ground arith))

count_of_AllAborted : (rs : List Request) → AllAborted rs → count_by is_active rs ≡ 0
count_of_AllAborted [] h = refl
count_of_AllAborted (r ∷ rs) h = ground (arith, count_of_AllAborted rs h.1)

IsCurrent-of_AllAborted :
    (live ref : Option ℕ) (rs : List Request) → AllAborted rs → All (IsCurrent live ref) rs
IsCurrent-of_AllAborted live ref [] h = tt
IsCurrent-of_AllAborted live ref (r ∷ rs) h =
    (λ active. ground arith, IsCurrent-of_AllAborted live ref rs h.1)

abort-AllAborted :
    (live ref : Option ℕ) (rs : List Request)
    → All (IsCurrent live ref) rs
    → AllAborted (abort ref rs)
unfolding abort
abort-AllAborted live none [] h = tt
abort-AllAborted live none (r ∷ rs) h = (ground arith, abort-AllAborted live none rs h.1)
abort-AllAborted live (some k) [] h = tt
abort-AllAborted live (some k) (r ∷ rs) h = (ground arith, abort-AllAborted live (some k) rs h.1)

no_timers :
    (owner : ℕ) (ts : List ℕ)
    → All (λ t. some owner ≡ some t) ts
    → filter_by (λ t. not (t == owner)) ts ≡ []
no_timers owner [] h = refl
no_timers owner (t ∷ ts) h = ground (arith, no_timers owner ts h.1)

nil_of_length : (ts : List ℕ) → length ts ≡ 0 → ts ≡ []
nil_of_length [] h = refl
nil_of_length (t ∷ ts) h = ground arith

-- What is left of a hook after its clean-up: requests that were aborted, and no timer.
pub record IsQuiet (s : Polling) : Type 0 where
  pub gone : s.live ≡ none
  pub aborted : All (λ r. r.aborted ≡ true) s.requests
  pub silent : s.timers ≡ []

pub unmount-IsQuiet : (s : Polling) → Inv s → IsQuiet (unmount s)
unfolding unmount clean_up
unmount-IsQuiet s v = go s.live refl
  where
    go : (l : Option ℕ) → s.live ≡ l → IsQuiet (clean_up_if l s)
    go none e = record {
      gone = e;
      aborted = AllAborted-of_count s.requests (ground arith);
      silent = nil_of_length s.timers (ground arith);
    }
    go (some owner) e = record {
      gone = refl;
      aborted = abort-AllAborted s.live s.abort_ref s.requests v.current;
      silent = no_timers owner s.timers (rw e at v.timed);
    }

poll-Inv :
    (owner : ℕ) (s : Polling)
    → s.live ≡ some owner
    → AllAborted s.requests
    → s.timers ≡ []
    → Inv (poll owner s)
unfolding poll
poll-Inv owner s l a t = record {
  one = ground (arith, count_of_AllAborted s.requests a);
  current = (λ e. (l, refl), IsCurrent-of_AllAborted _ _ s.requests a);
  timed = rw t tt;
}

-- The number of callbacks made so far.
abbrev pub callbacks : Polling → ℕ
callbacks s = s.on_data + s.on_error

settle-Inv : (i : ℕ) (answer : Answer) (s : Polling) → Inv s → Inv (settle i answer s)
unfolding settle resume
settle-Inv i answer s v = found (get_elem? s.requests i) refl
  where
    left : All (IsCurrent s.live s.abort_ref) (remove_at s.requests i)
    left = All-remove_at (IsCurrent s.live s.abort_ref) s.requests i v.current

    ended :
        (r : Request)
        → get_elem? s.requests i ≡ some r
        → (b : Bool) (a : Answer) → r.aborted ≡ b
        → Inv (resume_if b a r.owner (record s { requests = remove_at s.requests i }))
    ended r e true a q = record {
      one = ground (arith, count_by-remove_at is_active s.requests i e);
      current = left;
      timed = v.timed;
    }
    ended r e false arrived q = record {
      one = ground (arith, count_by-remove_at is_active s.requests i e);
      current = left;
      timed = ((All-get (IsCurrent s.live s.abort_ref) s.requests i v.current e q).0, v.timed);
    }
    ended r e false refused q = record {
      one = ground (arith, count_by-remove_at is_active s.requests i e);
      current = left;
      timed = ((All-get (IsCurrent s.live s.abort_ref) s.requests i v.current e q).0, v.timed);
    }

    found : (o : Option Request) → get_elem? s.requests i ≡ o → Inv (settle_found o i answer s)
    found none e = v
    found (some r) e = ended r e r.aborted answer refl

fire-Inv : (i : ℕ) (s : Polling) → Inv s → Inv (fire i s)
unfolding fire
fire-Inv i s v = found (get_elem? s.timers i) refl
  where
    found : (o : Option ℕ) → get_elem? s.timers i ≡ o → Inv (fire_found o i s)
    found none e = v
    found (some owner) e =
        let here = All-get (λ t. s.live ≡ some t) s.timers i v.timed e in
        let one : work s ≡ 1 = ground (arith, v.one) in
        let timer = length-remove_at s.timers i e in
        poll-Inv owner _ here (AllAborted-of_count s.requests (omega arith))
          (nil_of_length (remove_at s.timers i) (omega arith))

unmount-Inv : (s : Polling) → Inv s → Inv (unmount s)
unmount-Inv s v =
    let q = unmount-IsQuiet s v in
    record {
      one = ground (arith, count_of_AllAborted (unmount s).requests q.aborted, q.gone, q.silent);
      current = IsCurrent-of_AllAborted _ _ (unmount s).requests q.aborted;
      timed = rw q.silent tt;
    }

run_effect-Inv : (s : Polling) → Inv s → Inv (run_effect s)
unfolding run_effect
run_effect-Inv s v =
    let q = unmount-IsQuiet s v in poll-Inv (unmount s).fresh _ refl q.aborted q.silent

-- Whatever happens to the hook, at most one of a timer and a request that counts is pending, one
-- exactly while the page is mounted, and it belongs to the mounted instance of the effect.
pub step-Inv : (e : Event) (s : Polling) → Inv s → Inv (step e s)
unfolding step
step-Inv mounted s v = run_effect-Inv s v
step-Inv changed s v = go s.live
  where
    go : (l : Option ℕ) → Inv (if is_some l then run_effect s else s)
    go none = v
    go (some n) = run_effect-Inv s v
step-Inv unmounted s v = unmount-Inv s v
step-Inv (settled i answer) s v = settle-Inv i answer s v
step-Inv (fired i) s v = fire-Inv i s v

pub run-Inv : (es : List Event) (s : Polling) → Inv s → Inv (run s es)
unfolding run
run-Inv [] s v = v
run-Inv (e ∷ es) s v = run-Inv es (step e s) (step-Inv e s v)

-- From the first rendering on, whatever the order of answers, timers, changes and remounts, exactly
-- one request or timer is pending while the page is mounted, and none that counts while it is not.
pub one_poll_at_a_time :
    (es : List Event)
    → (count_by is_active (run start es).requests + length (run start es).timers
        ≡ expected (run start es).live)
      × All (λ t. (run start es).live ≡ some t) (run start es).timers
one_poll_at_a_time es = let v = run-Inv es start start-Inv in (v.one, v.timed)
