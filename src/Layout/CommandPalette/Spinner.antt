-- ===== src/Layout/CommandPalette/Spinner.antt =====
-- The spinner of the palette.
use Prim.Native.String.{String}
use text.Mathlib.Text.{◌==◌ as str_eq}
use text.Mathlib.TextEquality.{eq_iff}
use homelabs_siem_soar.Prelude.{
  ◌≡◌, refl, sym, ap, ◌∙◌, eq-false_of_ne, Bool, true, false, Option, none, some, List, [], ◌∷◌,
  arith, get_elem?, ltb, is_empty, if◌then◌else◌, All,
}
use homelabs_siem_soar.Layout.CommandPalette.{
  CommandItem, Palette, displayed_items, shown_count, shows_items, set_query, open_palette, close,
  run_item, arrow_down, arrow_up, enter, Event, opened, closed, escape_pressed, down_pressed,
  up_pressed, enter_pressed, typed, query_elapsed, hovered, clicked, on_item, elapse, step, run,
}

-- The events that type no text but the empty one.
abbrev is_quiet : Event → Bool
is_quiet (typed text) = is_empty text
is_quiet _ = true

-- The spinner turns, and no timeout will stop it.
abbrev IsStuck : Palette → Type 0
IsStuck s = (s.query ≡ "") × (s.is_querying ≡ true) × (s.has_timer ≡ false)

run_item-IsStuck : (o : Option CommandItem) (s : Palette) → IsStuck s → IsStuck (run_item o s)
unfolding run_item close
run_item-IsStuck none s h = h
run_item-IsStuck (some item) s h = go item.target
  where
    go :
        (t : Option String)
        → IsStuck (elim t [
          | none ↦ close s
          | some path ↦ close (record s { visited = path ∷ s.visited })
        ])
    go none = h
    go (some path) = h

set_query-IsStuck :
    (text : String) (s : Palette) → is_empty text ≡ true → IsStuck s → IsStuck (set_query text s)
unfolding set_query
set_query-IsStuck String.[] s e h = rw ((eq_iff "" s.query).1 (sym h.0)) h
set_query-IsStuck (String.◌∷◌ c text) s e h = ground arith

-- An event that is handled only under a condition.
when-IsStuck :
    (b : Bool) (t s : Palette) → (b ≡ true → IsStuck t) → IsStuck s → IsStuck (if b then t else s)
when-IsStuck true t s f h = f refl
when-IsStuck false t s f h = h

step-IsStuck : (e : Event) (s : Palette) → is_quiet e ≡ true → IsStuck s → IsStuck (step e s)
unfolding step close enter on_item open_palette arrow_down arrow_up
step-IsStuck opened s q h =
    when-IsStuck s.is_open s (open_palette s) (λ e. h) (set_query-IsStuck "" s refl h)
step-IsStuck closed s q h = h
step-IsStuck escape_pressed s q h = when-IsStuck s.is_open (close s) s (λ e. h) h
step-IsStuck down_pressed s q h = when-IsStuck s.is_open (arrow_down s) s (λ e. h) h
step-IsStuck up_pressed s q h = when-IsStuck s.is_open (arrow_up s) s (λ e. h) h
step-IsStuck enter_pressed s q h =
    when-IsStuck s.is_open (enter s) s
      (λ e. run_item-IsStuck (get_elem? (displayed_items s.query) s.active_index) s h) h
step-IsStuck (typed text) s q h =
    when-IsStuck s.is_open (set_query text s) s (λ e. set_query-IsStuck text s q h) h
step-IsStuck query_elapsed s q h = when-IsStuck s.has_timer (elapse s) s (λ e. ground arith) h
step-IsStuck (hovered i) s q h =
    when-IsStuck (shows_items s)
      (if ltb i (shown_count s) then record s { active_index = i } else s) s
      (λ o. when-IsStuck (ltb i (shown_count s)) (record s { active_index = i }) s (λ e. h) h) h
step-IsStuck (clicked i) s q h =
    when-IsStuck (shows_items s) (if ltb i (shown_count s) then chosen else s) s
      (λ o.
        when-IsStuck (ltb i (shown_count s)) chosen s
          (λ e. run_item-IsStuck (get_elem? (displayed_items s.query) i) s h) h)
      h
  where
    chosen : Palette
    chosen = run_item (get_elem? (displayed_items s.query) i) s

run-IsStuck :
    (es : List Event) (s : Palette)
    → All (λ e. is_quiet e ≡ true) es
    → IsStuck s
    → IsStuck (run s es)
unfolding run
run-IsStuck [] s q h = h
run-IsStuck (e ∷ es) s q h = run-IsStuck es (step e s) q.1 (step-IsStuck e s q.0 h)

-- The palette after a text has been typed.
abbrev typed_in : String → Palette → Palette
typed_in text s = record s { query = text; active_index = 0; is_querying = true; has_timer = true }

differs : (text query : String) → is_empty text ≡ false → query ≡ "" → (str_eq text query) ≡ false
differs text query t q =
    eq-false_of_ne text query (λ e. absurd (ground (arith, ap is_empty (e ∙ q))))

typing :
    (text : String) (s : Palette)
    → s.is_open ≡ true
    → is_empty text ≡ false
    → s.query ≡ ""
    → step (typed text) s ≡ typed_in text s
unfolding step set_query
typing text s o t q = simp (o, differs text s.query t q, t) refl

clearing :
    (text : String) (s : Palette)
    → s.is_open ≡ true
    → is_empty text ≡ false
    → IsStuck (step (typed "") (typed_in text s))
unfolding step set_query
clearing text s o t =
    let other : (str_eq "" text) ≡ false =
      eq-false_of_ne "" text (λ e. absurd (ground (arith, ap is_empty e))) in
    rw o (rw other (refl, refl, refl))

-- A text that is typed into the open palette and deleted again before its timeout leaves the spinner
-- turning, whatever else happens, also over closing and opening, until a text is typed again.
spinner_is_stuck :
    (text : String) (s : Palette) (es : List Event)
    → s.is_open ≡ true
    → is_empty text ≡ false
    → s.query ≡ ""
    → All (λ e. is_quiet e ≡ true) es
    → (run (step (typed "") (step (typed text) s)) es).is_querying ≡ true
spinner_is_stuck text s es o t q later =
    rw (typing text s o t q)
      (run-IsStuck es (step (typed "") (typed_in text s)) later (clearing text s o t)).1
