-- ===== src/Layout/CommandPalette/Range.antt =====
-- The active item of the palette is always one of those on display.
use Prim.Native.Nat.{◌%◌}
use Prim.Native.String.{String}
use text.Mathlib.Text.{◌==◌ as str_eq}
use native.Mathlib.Nat.{mod-lt, mod-eq_of_lt, mod_self, add-mod_right}
use homelabs_siem_soar.Prelude.{
  ℕ, zero, suc, ◌+◌, ◌-◌, ◌≡◌, ◌<◌, refl, ap, ◌∙◌, Bool, true, false, Option, none, some, List, [],
  ◌∷◌, arith, length, get_elem?, ltb, is_empty, if◌then◌else◌, inl, inr, Bool-cases, ltb→lt,
}
use homelabs_siem_soar.Layout.CommandPalette.{
  CommandItem, Palette, start, displayed_items, default_commands, search_results, shown_count,
  shows_items, set_query, open_palette, close, run_item, arrow_down, arrow_up, enter, Event, opened,
  closed, escape_pressed, down_pressed, up_pressed, enter_pressed, typed, query_elapsed, hovered,
  clicked, on_item, elapse, step, run,
}

abbrev IsInRange : Palette → Type 0
IsInRange s = s.active_index < shown_count s

shown_pos : (query : String) → 0 < length (displayed_items query)
unfolding displayed_items default_commands search_results
shown_pos query = elim (Bool-cases (is_empty query)) [
  | inl e ↦ rw e (omega arith)
  | inr e ↦ rw e (omega arith)
]

set_query-IsInRange : (text : String) (s : Palette) → IsInRange s → IsInRange (set_query text s)
unfolding set_query
set_query-IsInRange text s h = elim (Bool-cases (str_eq text s.query)) [
  | inl e ↦ rw e h
  | inr e ↦ rw e (shown_pos text)
]

run_item-IsInRange : (o : Option CommandItem) (s : Palette) → IsInRange s → IsInRange (run_item o s)
unfolding run_item close
run_item-IsInRange none s h = h
run_item-IsInRange (some item) s h = go item.target
  where
    go :
        (t : Option String)
        → IsInRange (elim t [
          | none ↦ close s
          | some path ↦ close (record s { visited = path ∷ s.visited })
        ])
    go none = h
    go (some path) = h

down-IsInRange : (s : Palette) → IsInRange (arrow_down s)
unfolding arrow_down
down-IsInRange s = mod-lt (s.active_index + 1) (shown_pos s.query)

up-IsInRange : (s : Palette) → IsInRange (arrow_up s)
unfolding arrow_up
up-IsInRange s = mod-lt (s.active_index + shown_count s - 1) (shown_pos s.query)

open-IsInRange : (s : Palette) → IsInRange (open_palette s)
unfolding open_palette set_query
open-IsInRange s = elim (Bool-cases (str_eq "" s.query)) [
  | inl e ↦ rw e (shown_pos s.query)
  | inr e ↦ rw e (shown_pos "")
]

-- An event that is handled only under a condition.
when-IsInRange :
    (b : Bool) (t s : Palette)
    → (b ≡ true → IsInRange t)
    → IsInRange s
    → IsInRange (if b then t else s)
when-IsInRange true t s f h = f refl
when-IsInRange false t s f h = h

hover-IsInRange :
    (i : ℕ) (s : Palette)
    → IsInRange s
    → IsInRange (on_item (shows_items s) i (λ t. record t { active_index = i }) s)
unfolding on_item
hover-IsInRange i s h =
    when-IsInRange (shows_items s)
      (if ltb i (shown_count s) then record s { active_index = i } else s) s
      (λ o.
        when-IsInRange (ltb i (shown_count s)) (record s { active_index = i }) s
          (λ e. ltb→lt i (shown_count s) e) h)
      h

click-IsInRange :
    (i : ℕ) (s : Palette)
    → IsInRange s
    → IsInRange
        (on_item (shows_items s) i (λ t. run_item (get_elem? (displayed_items t.query) i) t) s)
unfolding on_item
click-IsInRange i s h =
    when-IsInRange (shows_items s) (if ltb i (shown_count s) then chosen else s) s
      (λ o.
        when-IsInRange (ltb i (shown_count s)) chosen s
          (λ e. run_item-IsInRange (get_elem? (displayed_items s.query) i) s h) h)
      h
  where
    chosen : Palette
    chosen = run_item (get_elem? (displayed_items s.query) i) s

step-IsInRange : (e : Event) (s : Palette) → IsInRange s → IsInRange (step e s)
unfolding step close enter elapse
step-IsInRange opened s h = when-IsInRange s.is_open s (open_palette s) (λ e. h) (open-IsInRange s)
step-IsInRange closed s h = h
step-IsInRange escape_pressed s h = when-IsInRange s.is_open (close s) s (λ e. h) h
step-IsInRange down_pressed s h =
    when-IsInRange s.is_open (arrow_down s) s (λ e. down-IsInRange s) h
step-IsInRange up_pressed s h = when-IsInRange s.is_open (arrow_up s) s (λ e. up-IsInRange s) h
step-IsInRange enter_pressed s h =
    when-IsInRange s.is_open (enter s) s
      (λ e. run_item-IsInRange (get_elem? (displayed_items s.query) s.active_index) s h) h
step-IsInRange (typed text) s h =
    when-IsInRange s.is_open (set_query text s) s (λ e. set_query-IsInRange text s h) h
step-IsInRange query_elapsed s h = when-IsInRange s.has_timer (elapse s) s (λ e. h) h
step-IsInRange (hovered i) s h = hover-IsInRange i s h
step-IsInRange (clicked i) s h = click-IsInRange i s h

run-IsInRange : (es : List Event) (s : Palette) → IsInRange s → IsInRange (run s es)
unfolding run
run-IsInRange [] s h = h
run-IsInRange (e ∷ es) s h = run-IsInRange es (step e s) (step-IsInRange e s h)

get-IsInRange :
    (xs : List CommandItem) (i : ℕ) → i < length xs → (x : CommandItem) × (get_elem? xs i ≡ some x)
get-IsInRange [] i h = absurd (omega arith)
get-IsInRange (x ∷ xs) zero h = (x, refl)
get-IsInRange (x ∷ xs) (suc i) h = get-IsInRange xs i (omega arith)

mod_back : (n i : ℕ) → i < n → ((i + 1) % n + n - 1) % n ≡ i
mod_back n i h = elim (Bool-cases (ltb (i + 1) n)) [
  | inl e ↦
      let p : (i + 1) % n ≡ i + 1 = mod-eq_of_lt (ltb→lt (i + 1) n e) in
      ap (λ m. (m + n - 1) % n) p
      ∙ ap (λ m. m % n) (let q : i + 1 + n - 1 ≡ i + n = omega arith in q)
      ∙ add-mod_right i n
      ∙ mod-eq_of_lt h
  | inr e ↦
      let p : i + 1 ≡ n = ground arith in
      ap (λ m. (m % n + n - 1) % n) p
      ∙ ap (λ m. (m + n - 1) % n) (mod_self n)
      ∙ ap (λ m. m % n) (let q : 0 + n - 1 ≡ i = omega arith in q)
      ∙ mod-eq_of_lt h
]

start-IsInRange : IsInRange start
unfolding start
start-IsInRange = shown_pos ""

-- Whatever was typed, pressed, hovered or clicked, the active index is that of an item on display, so
-- that Enter always has an item to run; and an arrow up takes back an arrow down, also at the end of
-- the list.
pub active_item_is_shown :
    (es : List Event)
    → ((run start es).active_index < shown_count (run start es))
      × ((item : CommandItem) × (get_elem?
              (displayed_items (run start es).query)
              (run start es).active_index
            ≡ some item))
      × ((arrow_up (arrow_down (run start es))).active_index ≡ (run start es).active_index)
unfolding arrow_up arrow_down
active_item_is_shown es =
    let h = run-IsInRange es start (start-IsInRange) in (h, get-IsInRange _ _ h, mod_back _ _ h)
