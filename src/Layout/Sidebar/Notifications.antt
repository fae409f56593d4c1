-- ===== src/Layout/Sidebar/Notifications.antt =====
-- The notifications of the sidebar over any events.
use homelabs_siem_soar.Prelude.{
  ℕ, zero, suc, ◌<◌, ◌≡◌, refl, true, not, Option, List, [], ◌∷◌, arith, count_by, Bool-cases, inl,
  inr,
}
use Prim.Native.String.{String}
use homelabs_siem_soar.Hooks.AsyncState.{failed}
use homelabs_siem_soar.Layout.Sidebar.{
  Sidebar, Event, replied, notifications_clicked, step, run, unread_label, load_ended,
  load_ended_with, toggle_menu, on_key, open_notifications, Key,
}

-- The items that have not been read.
abbrev unread : Sidebar → ℕ
unread s = count_by (λ n. not n.read) s.notifications

-- While the page says that it loads, a request is in flight.
abbrev IsHonest : Sidebar → Type 0
IsHonest s = s.notifs_loading ≡ true → 0 < s.loads

step-IsHonest : (e : Event) (s : Sidebar) → IsHonest s → IsHonest (step e s)
unfolding step toggle_menu on_key open_notifications load_ended load_ended_with
step-IsHonest (Event.menu_clicked name) s h = h
step-IsHonest (Event.key_pressed Key.escape) s h = h
step-IsHonest (Event.key_pressed Key.search_key) s h = h
step-IsHonest Event.search_clicked s h = h
step-IsHonest notifications_clicked s h = elim (Bool-cases s.show_notifs) [
  | inl e ↦ rw e h
  | inr e ↦ rw e (λ l. omega arith)
]
step-IsHonest Event.notifications_closed s h = h
step-IsHonest (replied now reply) s h = ended s.loads refl
  where
    ended : (n : ℕ) → s.loads ≡ n → IsHonest (load_ended_with n now reply s)
    ended zero e = h
    ended (suc n) e = λ l. cc

-- Whatever the events, if the spinner of the notifications turns only with a request in flight, it
-- does so afterwards too.
spinner-IsHonest : (s : Sidebar) (es : List Event) → IsHonest s → IsHonest (run s es)
unfolding run
spinner-IsHonest s [] h = h
spinner-IsHonest s (e ∷ es) h = spinner-IsHonest (step e s) es (step-IsHonest e s h)

-- The end of a load that failed: the label says that one notification is unread, and none is.
error_counts_as_unread :
    (now : ℕ) (error : Option String) (s : Sidebar)
    → 0 < s.loads
    → let t = load_ended now (failed error) s in (unread_label t ≡ 1) × (unread t ≡ 0)
unfolding load_ended load_ended_with
error_counts_as_unread now error s h = ended s.loads h
  where
    ended :
        (n : ℕ)
        → 0 < n
        → let t = load_ended_with n now (failed error) s in (unread_label t ≡ 1) × (unread t ≡ 0)
    ended zero h = absurd (omega arith)
    ended (suc n) h = (refl, refl)
