-- ===== src/Hooks/LogStream/Lifecycle.antt =====
-- Sockets of `useInvestigationStream` that outlive their effect.
use Prim.Native.String.{String}
use homelabs_siem_soar.Prelude.{◌≡◌, refl, true, false, some, [], ◌∷◌, is_empty}
use homelabs_siem_soar.Hooks.LogStream.{
  opened, closing, start, shown, unmounted, socket_opened, message, socket_closed, run,
}

-- A page that is left while its socket is connecting does not close it: the socket opens later, its
-- lines are taken, and nothing is left that would close it.
connecting_socket_survives :
    (id line : String)
    → is_empty id ≡ false
    → let s = run start (shown (some id) ∷ unmounted ∷ socket_opened 0 ∷ message 0 line ∷ []) in
      (s.has_clean_up ≡ false)
      × (s.is_connected ≡ true)
      × (s.logs ≡ line ∷ [])
      × (s.sockets ≡ record { number = 0; investigation = id; ready = opened } ∷ [])
unfolding run start
connecting_socket_survives id line h = rw h (refl, refl, refl, refl)

-- An open socket is asked to close when the page is left, and its lines are ignored from then on.
open_socket_closes :
    (id line : String)
    → is_empty id ≡ false
    → let s = run start (shown (some id) ∷ socket_opened 0 ∷ unmounted ∷ message 0 line ∷ []) in
      (s.has_clean_up ≡ false)
      × (s.logs ≡ [])
      × (s.sockets ≡ record { number = 0; investigation = id; ready = closing } ∷ [])
unfolding run start
open_socket_closes id line h = rw h (refl, refl, refl)

-- When the investigation changes, the close of the old socket arrives after the new one has opened,
-- and the page says that it is disconnected while the new socket is open.
late_close_hides_connection :
    (a b : String)
    → is_empty a ≡ false
    → is_empty b ≡ false
    → let s = run start (
        shown (some a)
        ∷ socket_opened 0
        ∷ shown (some b)
        ∷ socket_opened 1
        ∷ socket_closed 0
        ∷ []) in
      (s.is_connected ≡ false)
      × (s.sockets ≡ record { number = 1; investigation = b; ready = opened } ∷ [])
unfolding run start
late_close_hides_connection a b p q = rw (p, q) (refl, refl)
