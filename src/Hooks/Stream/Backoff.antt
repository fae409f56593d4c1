-- ===== src/Hooks/Stream/Backoff.antt =====
-- The waiting times of `useWebSocketStream`.
use homelabs_siem_soar.Prelude.{
  ℕ, zero, suc, ◌+◌, ◌*◌, ◌^◌, ◌≤◌, ◌<◌, ◌≡◌, refl, ap, ◌∙◌, List, [], ◌∷◌, arith,
}
use native.Mathlib.Nat.{pow-suc, one-le-pow, pow-le-pow_right}
use homelabs_siem_soar.Hooks.Stream.{
  Socket, connecting, Stream, backoff, Event, socket_opened, socket_closed, timer_fired, step, run,
}

pow_pos : (n : ℕ) → 1 ≤ 2 ^ n
pow_pos n = one-le-pow n 2 (omega arith)

pow_small : (n : ℕ) → n < 5 → 2 ^ n ≤ 16
pow_small n h = pow-le-pow_right {n = 2} (omega arith) {i = n} {j = 4} (omega arith)

pow_large : (n : ℕ) → 5 ≤ n → 32 ≤ 2 ^ n
pow_large n h = pow-le-pow_right {n = 2} (omega arith) h

-- The waiting time is at least one second and at most thirty, never falls with the number of closes
-- in a row, doubles from one second up to the fifth of them, and is thirty seconds from then on.
backoff_shape :
    (n : ℕ)
    → (1000 ≤ backoff n)
      × (backoff n ≤ backoff (suc n))
      × (backoff n ≤ 30000)
      × (n < 5 → backoff n ≡ 1000 * 2 ^ n)
      × (5 ≤ n → backoff n ≡ 30000)
unfolding backoff
backoff_shape n = (
  omega (arith, pow_pos n),
  omega (arith, pow-suc 2 n),
  omega arith,
  λ h. omega (arith, pow_small n h),
  λ h. omega (arith, pow_large n h),
)

-- One socket and no timer: what a mounted hook has while its socket is connecting or open.
pub record IsUp (owner : ℕ) (s : Stream) : Type 0 where
  pub socket : Socket
  pub only : s.sockets ≡ socket ∷ []
  pub owned : socket.owner ≡ owner
  pub idle : s.timers ≡ []

-- The socket closes, and the timer fires.
abbrev pub rounds : ℕ → List Event
rounds zero = []
rounds (suc k) = socket_closed 0 ∷ timer_fired 0 ∷ rounds k

abbrev pub round : Stream → Stream
round s = step (timer_fired 0) (step (socket_closed 0) s)

round-IsUp :
    (owner : ℕ) (s : Stream)
    → IsUp owner s
    → IsUp owner (round s)
      × ((round s).retry_count ≡ suc s.retry_count)
      × ((round s).live ≡ s.live)
      × ((step (socket_closed 0) s).timers
          ≡ record { owner = owner; delay = backoff s.retry_count } ∷ [])
unfolding step
round-IsUp owner s u =
    rw (u.only, u.idle)
      (
        record {
          socket = record { number = s.fresh; owner = u.socket.owner; ready = connecting };
          only = refl;
          owned = u.owned;
          idle = refl;
        },
        refl,
        refl,
        ap (λ o. record { owner = o; delay = backoff s.retry_count } ∷ []) u.owned,
      )

pub rounds_lem :
    (owner k : ℕ) (s : Stream)
    → IsUp owner s
    → IsUp owner (run s (rounds k))
      × ((run s (rounds k)).retry_count ≡ s.retry_count + k)
      × ((run s (rounds k)).live ≡ s.live)
unfolding run
rounds_lem owner zero s u = (u, omega arith, refl)
rounds_lem owner (suc k) s u =
    let (u', r, l, _) = round-IsUp owner s u in
    let (u'', r', l') = rounds_lem owner k (round s) u' in (u'', omega arith, l' ∙ l)

reopened :
    (owner : ℕ) (s : Stream) (u : IsUp owner s)
    → u.socket.ready ≡ connecting
    → (step (socket_closed 0) (step (socket_opened 0) s)).timers
      ≡ record { owner = owner; delay = 1000 } ∷ []
unfolding step backoff
reopened owner s u c = ground arith

-- From a hook with one connecting socket and no timer, the close after `k` failed connections in a
-- row waits for `backoff` of the count at the start plus `k`; if the socket opens first, its close
-- waits for one second, whatever the count was.
consecutive_failures :
    (owner k : ℕ) (s : Stream) (u : IsUp owner s)
    → u.socket.ready ≡ connecting
    → ((step (socket_closed 0) (run s (rounds k))).timers
        ≡ record { owner = owner; delay = backoff (s.retry_count + k) } ∷ [])
      × ((step (socket_closed 0) (step (socket_opened 0) s)).timers
          ≡ record { owner = owner; delay = 1000 } ∷ [])
consecutive_failures owner k s u c =
    let (u', r, _) = rounds_lem owner k s u in
    let (_, _, _, waits) = round-IsUp owner (run s (rounds k)) u' in
    (waits ∙ ap (λ n. record { owner = owner; delay = backoff n } ∷ []) r, reopened owner s u c)
