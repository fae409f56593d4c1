-- ===== src/Hooks/Stream/Teardown.antt =====
-- What `useWebSocketStream` does after its page is gone.
use homelabs_siem_soar.Prelude.{
  ℕ, ◌≡◌, refl, ap, ◌∙◌, not, Option, none, some, [], ◌∷◌, arith, length, filter_by, ◌==◌,
  if◌then◌else◌,
}
use homelabs_siem_soar.Hooks.Stream.{Socket, closing, Stream, close_ref, clean_up_if, unmount, run}
use homelabs_siem_soar.Hooks.Stream.Backoff.{IsUp, rounds, rounds_lem}

close_ref-one :
    (ref : Option ℕ) (w : Socket)
    → (w' : Socket) × (close_ref ref (w ∷ []) ≡ w' ∷ []) × (w'.owner ≡ w.owner)
unfolding close_ref
close_ref-one none w = (w, refl, refl)
close_ref-one (some k) w =
    (if w.number == k then record w { ready = closing } else w, refl, ground arith)

unmount-IsUp : (owner : ℕ) (s : Stream) → IsUp owner s → IsUp owner (unmount s)
unfolding unmount
unmount-IsUp owner s u = go s.live
  where
    go : (l : Option ℕ) → IsUp owner (clean_up_if l s)
    go none = u
    go (some n) =
        let (w, e, o) = close_ref-one s.ws_ref u.socket in
        record {
          socket = w;
          only = ap (close_ref s.ws_ref) u.only ∙ e;
          owned = o ∙ u.owned;
          idle = ap (filter_by (λ t. not (t.owner == n))) u.idle;
        }

-- A hook that is unmounted while it has a socket reconnects: the close that the clean-up itself asks
-- for arms the timer that the clean-up has just cleared, and so on after each failure. However many
-- rounds pass, the page is gone and there is a socket of it.
pub reconnects_after_unmount :
    (owner k : ℕ) (s : Stream)
    → s.live ≡ some owner
    → IsUp owner s
    → ((run (unmount s) (rounds k)).live ≡ none) × (length (run (unmount s) (rounds k)).sockets ≡ 1)
unfolding unmount
reconnects_after_unmount owner k s l u =
    let (u', _, l') = rounds_lem owner k (unmount s) (unmount-IsUp owner s u) in
    (l' ∙ ground arith, ap length u'.only)

-- A hook that is unmounted while it waits to reconnect ends: no socket, and no timer.
waiting_unmount_ends :
    (owner delay : ℕ) (s : Stream)
    → s.live ≡ some owner
    → s.sockets ≡ []
    → s.timers ≡ record { owner = owner; delay = delay } ∷ []
    → ((unmount s).live ≡ none) × ((unmount s).sockets ≡ []) × ((unmount s).timers ≡ [])
unfolding unmount
waiting_unmount_ends owner delay s l q t = ground arith
