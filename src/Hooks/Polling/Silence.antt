-- ===== src/Hooks/Polling/Silence.antt =====
-- What `usePolling` does after the page is gone: nothing.
use homelabs_siem_soar.Prelude.{
  ◌∙◌, ℕ, ◌≡◌, refl, Bool, true, false, Option, none, some, List, [], ◌∷◌, get_elem?, All,
  All-remove_at, All-get,
}
use homelabs_siem_soar.Hooks.Polling.{
  Request, Answer, Polling, start, resume, settle, fire, settle_found, unmount, Event, mounted,
  changed, unmounted, settled, fired, step, run,
}
use homelabs_siem_soar.Hooks.Polling.Safety.{IsQuiet, unmount-IsQuiet, start-Inv, run-Inv}

abbrev is_mount : Event → Bool
is_mount mounted = true
is_mount _ = false

-- The parts that tell whether anything was done.
abbrev pub SameTraffic : Polling → Polling → Type 0
SameTraffic s t =
    (t.on_data ≡ s.on_data) × (t.on_error ≡ s.on_error) × (t.fresh ≡ s.fresh) × IsQuiet t

quiet-settle :
    (i : ℕ) (answer : Answer) (s : Polling) → IsQuiet s → SameTraffic s (settle i answer s)
unfolding settle resume
quiet-settle i answer s q = found (get_elem? s.requests i) refl
  where
    found :
        (o : Option Request)
        → get_elem? s.requests i ≡ o
        → SameTraffic s (settle_found o i answer s)
    found none e = (refl, refl, refl, q)
    found (some r) e = rw (All-get (λ r. r.aborted ≡ true) s.requests i q.aborted e) (
      refl,
      refl,
      refl,
      record {
        gone = q.gone;
        aborted = All-remove_at (λ r. r.aborted ≡ true) s.requests i q.aborted;
        silent = q.silent;
      },
    )

quiet-fire : (i : ℕ) (s : Polling) → IsQuiet s → SameTraffic s (fire i s)
unfolding fire
quiet-fire i s q = simp q.silent (refl, refl, refl, q)

quiet-step : (e : Event) (s : Polling) → is_mount e ≡ false → IsQuiet s → SameTraffic s (step e s)
unfolding step unmount
quiet-step mounted s h q = cc
quiet-step changed s h q = simp q.gone (refl, refl, refl, q)
quiet-step unmounted s h q = simp q.gone (refl, refl, refl, q)
quiet-step (settled i answer) s h q = quiet-settle i answer s q
quiet-step (fired i) s h q = quiet-fire i s q

quiet-run :
    (es : List Event) (s : Polling)
    → All (λ e. is_mount e ≡ false) es
    → IsQuiet s
    → SameTraffic s (run s es)
unfolding run
quiet-run [] s h q = (refl, refl, refl, q)
quiet-run (e ∷ es) s h q =
    let (d, r, f, q') = quiet-step e s h.0 q in
    let (d', r', f', q'') = quiet-run es (step e s) h.1 q' in (d' ∙ d, r' ∙ r, f' ∙ f, q'')

-- Once the page is unmounted, until it is mounted again, the hook calls neither callback, sends no
-- request and arms no timer, whatever was in flight or armed and in whatever order it ends.
pub silent_after_unmount :
    (es later : List Event)
    → All (λ e. is_mount e ≡ false) later
    → SameTraffic (unmount (run start es)) (run (unmount (run start es)) later)
silent_after_unmount es later h =
    quiet-run later _ h (unmount-IsQuiet (run start es) (run-Inv es start start-Inv))
