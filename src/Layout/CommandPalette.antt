-- ===== src/Layout/CommandPalette.antt =====
-- soc-frontend/src/layouts/ui/CommandPalette.tsx: the palette, its list of items and the active one.
pub mod Range
pub mod Spinner
use Prim.Native.Nat.{◌%◌}
use Prim.Native.String.{String, ◌++◌ as str_append}
use text.Mathlib.Text.{◌==◌ as str_eq}
use homelabs_siem_soar.Prelude.{
  ℕ, ◌+◌, ◌-◌, Bool, true, false, not, ◌&&◌, Option, none, some, List, [], ◌∷◌, length, get_elem?,
  ltb, is_empty, if◌then◌else◌,
}

-- `CommandItem`; `target` is where its action navigates to before it closes the palette.
pub record CommandItem : Type 0 where
  pub id : String
  pub label : String
  pub shortcut : Option String
  pub target : Option String

-- The routes that the commands use, by their constants in `ROUTES`.
unfoldable pub default_commands : List CommandItem
default_commands =
    record {
      id = "c1";
      label = "Go to Playbooks";
      shortcut = some "G P";
      target = some "/playbooks";
    }
    ∷ record {
      id = "c2";
      label = "View Active Incidents";
      shortcut = some "G I";
      target = some "/incidents/active";
    }
    ∷ record {
      id = "c3";
      label = "Asset Inventory";
      shortcut = some "G A";
      target = some "/assets/inventory";
    }
    ∷ record {
      id = "c4";
      label = "Threat Feeds";
      shortcut = some "G T";
      target = some "/detection/feeds";
    }
    ∷ record {
      id = "c5";
      label = "System Settings";
      shortcut = some "G S";
      target = some "/settings";
    }
    ∷ []

quoted : String → String
quoted query = str_append "\"" (str_append query "\"")

unfoldable pub search_results : String → List CommandItem
unfolding quoted
search_results query =
    record {
      id = "s1";
      label = str_append "Search AI Index for " (quoted query);
      shortcut = none;
      target = none;
    }
    ∷ record {
      id = "s2";
      label = str_append "Filter Alerts by " (quoted query);
      shortcut = none;
      target = some "/incidents/active";
    }
    ∷ []

unfoldable pub displayed_items : String → List CommandItem
displayed_items query = if is_empty query then default_commands else search_results query

pub record Palette : Type 0 where
  pub is_open : Bool  -- the property that the layout passes
  pub query : String
  pub active_index : ℕ
  pub is_querying : Bool
  pub has_timer : Bool  -- the timeout of the last effect is armed
  pub visited : List String  -- the targets of `navigate`, latest first

unfoldable pub start : Palette
start = record {
  is_open = false;
  query = "";
  active_index = 0;
  is_querying = false;
  has_timer = false;
  visited = [];
}

-- The query is set, and the effect of a new query runs, after the clean-up of the one before.
unfoldable pub set_query : String → Palette → Palette
set_query text s = if str_eq text s.query then s else record s {
  query = text;
  active_index = 0;
  is_querying = if is_empty text then s.is_querying else true;
  has_timer = not (is_empty text);
}

-- The layout opens the palette.
unfoldable pub open_palette : Palette → Palette
unfolding set_query
open_palette s = record (set_query "" s) { is_open = true; active_index = 0 }

-- `onClose`.
unfoldable pub close : Palette → Palette
close s = record s { is_open = false }

-- `action` of an item: most navigate, and all close the palette.
unfoldable pub run_item : Option CommandItem → Palette → Palette
unfolding close
run_item none s = s
run_item (some item) s = elim item.target [
  | none ↦ close s
  | some path ↦ close (record s { visited = path ∷ s.visited })
]

-- The number of items on display.
abbrev pub shown_count : Palette → ℕ
shown_count s = length (displayed_items s.query)

unfoldable pub arrow_down : Palette → Palette
arrow_down s = record s { active_index = (s.active_index + 1) % shown_count s }

-- `prev - 1 + n`, which is not negative, since there is an item.
unfoldable pub arrow_up : Palette → Palette
arrow_up s = record s { active_index = (s.active_index + shown_count s - 1) % shown_count s }

unfoldable pub enter : Palette → Palette
unfolding run_item
enter s = run_item (get_elem? (displayed_items s.query) s.active_index) s

pub data Event : Type 0 where
  opened : Event
  closed : Event
  escape_pressed : Event
  down_pressed : Event
  up_pressed : Event
  enter_pressed : Event
  typed : String → Event
  query_elapsed : Event  -- the timeout of 600 ms
  hovered : ℕ → Event
  clicked : ℕ → Event

-- The timeout goes off.
unfoldable pub elapse : Palette → Palette
elapse s = record s { is_querying = false; has_timer = false }

-- The palette shows its items, and not the spinner.
abbrev pub shows_items : Palette → Bool
shows_items s = s.is_open && not s.is_querying

-- An item can be hovered or clicked if it is on display.
on_item : Bool → ℕ → (Palette → Palette) → Palette → Palette
on_item shown i f s = if shown then (if ltb i (shown_count s) then f s else s) else s

unfoldable pub step : Event → Palette → Palette
unfolding open_palette close arrow_down arrow_up enter set_query on_item run_item elapse
step opened s = if s.is_open then s else open_palette s
step closed s = close s
step escape_pressed s = if s.is_open then close s else s
step down_pressed s = if s.is_open then arrow_down s else s
step up_pressed s = if s.is_open then arrow_up s else s
step enter_pressed s = if s.is_open then enter s else s
step (typed text) s = if s.is_open then set_query text s else s
step query_elapsed s = if s.has_timer then elapse s else s
step (hovered i) s = on_item (shows_items s) i (λ t. record t { active_index = i }) s
step (clicked i) s =
    on_item (shows_items s) i (λ t. run_item (get_elem? (displayed_items t.query) i) t) s

unfoldable pub run : Palette → List Event → Palette
unfolding step
run s [] = s
run s (e ∷ es) = run (step e s) es
