-- ===== src/Investigations/Chat/Reopening.antt =====
-- The chat after it was closed and opened again.
use Prim.Native.String.{String}
use homelabs_siem_soar.Prelude.{
  ℕ, suc, ◌<◌, ◌≡◌, ◌∙◌, ap, refl, true, false, not, ◌==◌, none, some, List, [], ◌∷◌, filter_by,
  arith, is_empty, trim, Bool-cases, inl, inr,
}
use homelabs_siem_soar.Investigations.Chat.{
  Ready, connecting, opened, closing, Socket, Chat, open_clicked, close_clicked, socket_opened,
  socket_closed, typed, form_submitted, ready_of, set_ready, set_is_open, on_open, on_close,
  submitted, handle_submit, step, run,
}

ready_of-set_ready :
    (k : ℕ) (r t : Ready) (ws : List Socket)
    → ready_of k ws ≡ some t
    → ready_of k (set_ready k r ws) ≡ some r
unfolding ready_of set_ready
ready_of-set_ready k r t [] h = cc
ready_of-set_ready k r t (w ∷ ws) h = ground (arith, ready_of-set_ready k r t ws)

-- The chat after both clicks, and after both events of its sockets.
abbrev reopened : ℕ → Chat → Chat
reopened k s = record s {
  is_open = true;
  is_minimized = false;
  ws_ref = some s.fresh;
  fresh = suc s.fresh;
  sockets = record { number = s.fresh; ready = connecting } ∷ set_ready k closing s.sockets;
}

abbrev dead : ℕ → Chat → Chat
dead k s = record (reopened k s) {
  ws_ref = none;
  sockets =
      record { number = s.fresh; ready = opened }
      ∷ filter_by (λ w. not (w.number == k)) (set_ready k closing s.sockets);
}

step-reopened :
    (k : ℕ) (s : Chat)
    → s.is_open ≡ true
    → s.ws_ref ≡ some k
    → step open_clicked (step close_clicked s) ≡ reopened k s
unfolding step set_is_open
step-reopened k s o w = rw (o, w) refl

step-dead :
    (k : ℕ) (s : Chat)
    → k < s.fresh
    → ready_of k s.sockets ≡ some opened
    → step (socket_closed k) (step (socket_opened s.fresh) (reopened k s)) ≡ dead k s
unfolding step on_open on_close ready_of set_ready
step-dead k s l r =
    let same : (s.fresh == s.fresh) ≡ true = ground arith in
    let other : (s.fresh == k) ≡ false = ground (arith, l) in
    let gone : ready_of k (set_ready k closing s.sockets) ≡ some closing =
      ready_of-set_ready k closing opened s.sockets r in
    rw same (rw same (rw other (rw (gone, other) refl)))

-- The chat is closed while its socket is open, and opened again: the old socket is closed and a new
-- one is made. When the new one is open and the old one reports its close, the chat is open and has an
-- open socket, but it does not refer to it: whatever is typed and submitted stays in the field.
pub reopened_chat_is_dead :
    (s : Chat) (k : ℕ) (value : String)
    → s.is_open ≡ true
    → s.ws_ref ≡ some k
    → k < s.fresh
    → ready_of k s.sockets ≡ some opened
    → let t = run s (close_clicked ∷ open_clicked ∷ socket_opened s.fresh ∷ socket_closed k ∷ []) in
      (t.is_open ≡ true)
      × (ready_of s.fresh t.sockets ≡ some opened)
      × (run t (typed value ∷ form_submitted ∷ []) ≡ record t { input = value })
unfolding run step submitted handle_submit ready_of
reopened_chat_is_dead s k value o w l r =
    let e : run s (close_clicked ∷ open_clicked ∷ socket_opened s.fresh ∷ socket_closed k ∷ [])
        ≡ dead k s =
      ap (λ (c : Chat). step (socket_closed k) (step (socket_opened s.fresh) c))
        (step-reopened k s o w)
      ∙ step-dead k s l r in
    let same : (s.fresh == s.fresh) ≡ true = ground arith in
    rw e (
      refl,
      rw same refl,
      elim (Bool-cases (is_empty (trim value))) [ inl b ↦ rw b refl | inr b ↦ rw b refl ],
    )
