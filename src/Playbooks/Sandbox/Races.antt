-- ===== src/Playbooks/Sandbox/Races.antt =====
-- Two executions one after the other.
use Prim.Native.String.{String}
use text.Mathlib.TextPositions.{eq_refl}
use homelabs_siem_soar.Prelude.{◌≡◌, refl, none, some, [], ◌∷◌}
use homelabs_siem_soar.Playbooks.Sandbox.{
  opened, start, initiating, connected, started, socket_opened, socket_closed, stopped, step, run,
}

-- A second playbook is started while the first one runs, and opens; then the close of the first
-- socket arrives. The page now has no active socket, while the second execution runs on an open one,
-- and its Stop button does nothing.
stop_is_lost :
    (a b : String)
    → let s =
        run start
          (started a ∷ socket_opened 0 ∷ started b ∷ socket_opened 1 ∷ socket_closed 0 ∷ []) in
      (s.active ≡ none)
      × (s.cache b ≡ some (connected initiating))
      × (s.sockets ≡ record { number = 1; playbook = b; ready = opened } ∷ [])
      × (step (stopped b) s ≡ s)
unfolding run start
stop_is_lost a b = (refl, rw eq_refl, refl, refl)
