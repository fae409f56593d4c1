-- ===== src/Hooks/LogStream/Ring.antt =====
-- The log of `useInvestigationStream` is a window on all lines received.
use Prim.Native.String.{String}
use homelabs_siem_soar.Prelude.{
  ℕ, ◌-◌, ◌≤◌, ◌≡◌, refl, sym, ap, ◌∙◌, Option, none, some, List, [], ◌∷◌, ◌++◌, arith, get_elem?,
  drop, length, ltb, inl, inr, Bool-cases, if◌then◌else◌,
}
use homelabs_siem_soar.Prelude.Window.{window, window-append, length-window}
use mathlib.Core.List.{append-nil, append_assoc}
use homelabs_siem_soar.Hooks.LogStream.{
  Socket, LogStream, start, ceiling, push, is_open, receive, mark_open, closed, clean_up,
  set_investigation, Event, shown, unmounted, socket_opened, message, socket_error, socket_closed,
  step, run, body,
}

-- Below the ceiling nothing is dropped, so `push` is one `drop` on both branches.
push-drop :
    (most : ℕ) (prev : List String) (line : String)
    → push most prev line ≡ drop (length (prev ++ line ∷ []) - most) (prev ++ line ∷ [])
unfolding push
push-drop most prev line = elim (Bool-cases (ltb most (length (prev ++ line ∷ [])))) [
  | inl e ↦ rw e
  | inr e ↦ rw e (
      ap (λ n. drop n (prev ++ line ∷ []))
        (let zero_left : 0 ≡ length (prev ++ line ∷ []) - most = ground arith in zero_left))
]

push-window :
    (most : ℕ) (all : List String) (line : String)
    → push most (window most all) line ≡ window most (all ++ line ∷ [])
push-window most all line =
    push-drop most (window most all) line ∙ window-append most all (line ∷ [])

-- The lines that open sockets deliver during the events.
abbrev pub accepted : Option Socket → String → List String
accepted none line = []
accepted (some w) line = if is_open w.ready then line ∷ [] else []

pub received : LogStream → List Event → List String
received s [] = []
received s (message i line ∷ es) =
    accepted (get_elem? s.sockets i) line ++ received (step (message i line) s) es
received s (e ∷ es) = received (step e s) es

receive-window :
    (all : List String) (o : Option Socket) (line : String) (s : LogStream)
    → s.logs ≡ window ceiling all
    → (receive o line s).logs ≡ window ceiling (all ++ accepted o line)
unfolding receive
receive-window all none line s h = h ∙ ap (window ceiling) (sym (append-nil all))
receive-window all (some w) line s h = elim (Bool-cases (is_open w.ready)) [
  | inl e ↦ rw e (ap (λ l. push ceiling l line) h ∙ push-window ceiling all line)
  | inr e ↦ rw e (h ∙ ap (window ceiling) (sym (append-nil all)))
]

clean_up-logs : (s : LogStream) → (clean_up s).logs ≡ s.logs
unfolding clean_up
clean_up-logs s = ground arith

body-logs : (id : Option String) (s : LogStream) → (body id s).logs ≡ s.logs
unfolding body
body-logs none s = refl
body-logs (some id) s = ground arith

set_investigation-logs :
    (id : Option String) (s : LogStream) → (set_investigation id s).logs ≡ s.logs
unfolding set_investigation
set_investigation-logs id s = body-logs id (clean_up s) ∙ clean_up-logs s

mark_open-logs : (o : Option Socket) (s : LogStream) → (mark_open o s).logs ≡ s.logs
unfolding mark_open
mark_open-logs none s = refl
mark_open-logs (some w) s = ground arith

closed-logs : (o : Option Socket) (i : ℕ) (s : LogStream) → (closed o i s).logs ≡ s.logs
unfolding closed
closed-logs none i s = refl
closed-logs (some w) i s = refl

run-window :
    (all : List String) (es : List Event) (s : LogStream)
    → s.logs ≡ window ceiling all
    → (run s es).logs ≡ window ceiling (all ++ received s es)
unfolding run received
run-window all [] s h = h ∙ ap (window ceiling) (sym (append-nil all))
run-window all (message i line ∷ es) s h =
    run-window (all ++ accepted (get_elem? s.sockets i) line) es (step (message i line) s)
      (receive-window all (get_elem? s.sockets i) line s h)
    ∙ ap (window ceiling) (append_assoc all _ _)
run-window all (shown id ∷ es) s h =
    run-window all es (step (shown id) s) (set_investigation-logs id s ∙ h)
run-window all (unmounted ∷ es) s h = run-window all es (step unmounted s) (clean_up-logs s ∙ h)
run-window all (socket_opened i ∷ es) s h =
    run-window all es (step (socket_opened i) s) (mark_open-logs (get_elem? s.sockets i) s ∙ h)
run-window all (socket_error i ∷ es) s h = run-window all es (step (socket_error i) s) h
run-window all (socket_closed i ∷ es) s h =
    run-window all es (step (socket_closed i) s) (closed-logs (get_elem? s.sockets i) i s ∙ h)

-- Whatever the events, the log is the last thousand of all lines that open sockets have delivered,
-- in their order, and so never longer than that. A change of the investigation does not empty it.
pub log_is_window :
    (es : List Event)
    → ((run start es).logs ≡ window ceiling (received start es))
      × (length (run start es).logs ≤ ceiling)
log_is_window es =
    let same = run-window [] es start (unfold start in refl) in
    (same, rw same (length-window ceiling (received start es)))
