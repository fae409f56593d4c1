-- ===== src/Playbooks/Sandbox/Streams.antt =====
-- What executions leave in the cache.
use Prim.Native.String.{String}
use text.Mathlib.TextPositions.{eq_refl}
use homelabs_siem_soar.Prelude.{
  ℕ, ◌≡◌, refl, sym, ap, ◌∙◌, ◌≢◌, Option, none, some, List, [], ◌∷◌, ◌++◌, map, get_elem?,
  eq-false_of_ne, if◌then◌else◌, inl, inr, Bool-cases,
}
use homelabs_siem_soar.Prelude.Int.{ℤ, is_zero}
use homelabs_siem_soar.Playbooks.Sandbox.{
  running, success, failed, Execution, Cache, modify, Ready, connecting, opened, closing, Socket,
  Sandbox, start, connected, Frame, ended, line, apply_frame, is_open, open_found, receive,
  close_found, stop_active, Event, started, socket_opened, message, socket_closed, stopped, step,
  run,
}
use mathlib.Core.List.{append-nil, append_assoc}
use mathlib.Core.Path.{subst}

-- The playbook whose entry an event may change.
abbrev owner : Option Socket → Option String
owner none = none
owner (some w) = some w.playbook

abbrev subject : Event → Sandbox → Option String
subject (started id) s = some id
subject (socket_opened i) s = owner (get_elem? s.sockets i)
subject (message i f) s = owner (get_elem? s.sockets i)
subject (socket_closed i) s = none
subject (stopped id) s = some id

modify_other :
    (id key : String) (f : Execution → Execution) (cache : Cache)
    → some id ≢ some key
    → modify id f cache key ≡ cache key
modify_other id key f cache h = rw (eq-false_of_ne key id (λ e. h (ap some (sym e))))

-- An event changes at most the entry of the playbook that it is about: the one that is started or
-- stopped, or the one whose socket opens or delivers a message.
entries_are_separate :
    (e : Event) (s : Sandbox) (key : String)
    → subject e s ≢ some key
    → (step e s).cache key ≡ s.cache key
unfolding step
entries_are_separate (started id) s key h = rw (eq-false_of_ne key id (λ e. h (ap some (sym e))))
entries_are_separate (socket_opened i) s key h = go (get_elem? s.sockets i) h
  where
    ready :
        (w : Socket) (r : Ready)
        → some w.playbook ≢ some key
        → (open_found (some (record w { ready = r })) s).cache key ≡ s.cache key
    ready w connecting n = modify_other w.playbook key connected s.cache n
    ready w opened n = refl
    ready w closing n = refl

    go : (o : Option Socket) → owner o ≢ some key → (open_found o s).cache key ≡ s.cache key
    go none n = refl
    go (some w) n = ready w w.ready n
entries_are_separate (message i f) s key h = go (get_elem? s.sockets i) h
  where
    go : (o : Option Socket) → owner o ≢ some key → (receive o f s).cache key ≡ s.cache key
    go none n = refl
    go (some w) n = elim (Bool-cases (is_open w.ready)) [
      | inl e ↦ rw e (modify_other w.playbook key (apply_frame f) s.cache n)
      | inr e ↦ rw e
    ]
entries_are_separate (socket_closed i) s key h = go (get_elem? s.sockets i)
  where
    go : (o : Option Socket) → (close_found o i s).cache key ≡ s.cache key
    go none = refl
    go (some w) = refl
entries_are_separate (stopped id) s key h = go s.active
  where
    go : (o : Option ℕ) → (stop_active o id s).cache key ≡ s.cache key
    go none = refl
    go (some k) = modify_other id key _ s.cache h

-- One open socket of a playbook whose execution runs.
record IsStreaming (id : String) (out : List String) (s : Sandbox) : Type 0 where
  number : ℕ
  only : s.sockets ≡ record { number = number; playbook = id; ready = opened } ∷ []
  entry :
      s.cache id
      ≡ some (record { status = running; output = out; exit_code = none; duration = none })

abbrev pub lines : List String → List Event
lines = map (λ text. message 0 (line text))

frame_lem :
    (id : String) (out : List String) (f : Frame) (s : Sandbox)
    → IsStreaming id out s
    → ((step (message 0 f) s).sockets ≡ s.sockets)
      × ((step (message 0 f) s).cache id
          ≡ some (
              apply_frame f
                (record { status = running; output = out; exit_code = none; duration = none })))
unfolding step
frame_lem id out f s v = rw v.only (refl, rw (eq_refl, v.entry))

lines_lem :
    (id : String) (out texts : List String) (s : Sandbox)
    → IsStreaming id out s
    → IsStreaming id (out ++ texts) (run s (lines texts))
unfolding run apply_frame
lines_lem id out [] s v = rw append-nil v
lines_lem id out (text ∷ texts) s v =
    let (same, stored) = frame_lem id out (line text) s v in
    subst (λ o. IsStreaming id o (run s (lines (text ∷ texts))))
      (append_assoc out (text ∷ []) texts)
      (lines_lem id (out ++ text ∷ []) texts (step (message 0 (line text)) s)
        (record { number = v.number; only = same ∙ v.only; entry = stored }))

run-append : (s : Sandbox) (es fs : List Event) → run s (es ++ fs) ≡ run (run s es) fs
unfolding run
run-append s [] fs = refl
run-append s (e ∷ es) fs = run-append (step e s) es fs

opened-IsStreaming :
    (id : String)
    → IsStreaming id
        ("> Initiating sandbox execution container..." ∷ "> Connected to sandbox stream..." ∷ [])
        (run start (started id ∷ socket_opened 0 ∷ []))
unfolding run start connected
opened-IsStreaming id = record { number = 0; only = refl; entry = rw eq_refl }

-- An execution that nothing disturbs ends with all its lines in order under the two lines of the
-- page, with the exit code and the duration of the end marker, and as a success exactly if the exit
-- code is zero.
pub execution_result :
    (id : String) (texts : List String) (code : ℤ) (ms : ℕ)
    → (run start
          (started id ∷ socket_opened 0 ∷ (lines texts ++ message 0 (ended code ms) ∷ []))).cache
        id
      ≡ some (record {
        status = if is_zero code then success else failed;
        output =
            "> Initiating sandbox execution container..." ∷ "> Connected to sandbox stream..."
            ∷ texts;
        exit_code = some code;
        duration = some ms;
      })
unfolding run apply_frame
execution_result id texts code ms =
    let out : List String =
      "> Initiating sandbox execution container..." ∷ "> Connected to sandbox stream..." ∷ [] in
    let s : Sandbox = step (socket_opened 0) (step (started id) start) in
    ap (λ t. t.cache id) (run-append s (lines texts) (message 0 (ended code ms) ∷ []))
    ∙ (frame_lem id (out ++ texts) (ended code ms) _
        (lines_lem id out texts s (opened-IsStreaming id))).1
