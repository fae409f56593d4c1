-- ===== src/Layout/Sidebar.antt =====
-- soc-frontend/src/layouts/ui/Sidebar.tsx with shared/config/navigation.ts and routes.ts: the items of
-- the navigation, which of them is marked, and the state of the sidebar.
pub mod Active
pub mod Notifications
use Prim.Native.String.{String}
use text.Mathlib.Text.{◌==◌ as str_eq}
use homelabs_siem_soar.Prelude.{
  ℕ, zero, suc, Bool, true, false, not, ◌&&◌, ◌||◌, Option, none, some, List, [], ◌∷◌, ◌++◌, any,
  length, is_prefix, get_elem?, remove_at, if◌then◌else◌,
}
use homelabs_siem_soar.Prelude.IdSet.{IdSet, toggle}
use homelabs_siem_soar.Hooks.AsyncState.{Reply, ok, failed}

-- `NavSubItem` and `NavGroup`.
pub record NavSubItem : Type 0 where
  pub label : String
  pub path : String

pub record NavGroup : Type 0 where
  pub label : String
  pub items : List NavSubItem

abbrev item : String → String → NavSubItem
item label path = record { label = label; path = path }

-- `NAV_GROUPS`, with the paths of `ROUTES`.
abbrev nav_groups : List NavGroup
nav_groups =
    record {
      label = "Dashboards & Reports";
      items =
          item "Overview" "/dashboard/overview"
          ∷ item "Executive Summary" "/dashboard/executive"
          ∷ item "Compliance" "/dashboard/compliance"
          ∷ [];
    }
    ∷ record {
      label = "Incident Response";
      items =
          item "Active Incidents" "/incidents/active"
          ∷ item "Closed Incidents" "/incidents/closed"
          ∷ item "War Room" "/incidents/war-room"
          ∷ [];
    }
    ∷ record {
      label = "Detection & Threat Intel";
      items =
          item "Alert Rules" "/detection/rules"
          ∷ item "Threat Feeds" "/detection/feeds"
          ∷ item "IOC Search" "/detection/ioc"
          ∷ [];
    }
    ∷ record {
      label = "Assets";
      items =
          item "Inventory" "/assets/inventory"
          ∷ item "Vulnerabilities" "/assets/vulnerabilities"
          ∷ item "Network Map" "/assets/network-map"
          ∷ [];
    }
    ∷ record {
      label = "Endpoints";
      items =
          item "Host Management" "/endpoints/hosts"
          ∷ item "EDR Logs" "/endpoints/edr"
          ∷ item "Isolation Controls" "/endpoints/isolation"
          ∷ [];
    }
    ∷ []

-- The items besides the groups that are marked when they are active.
abbrev other_paths : List String
other_paths = "/" ∷ "/playbooks" ∷ "/marketplace" ∷ "/settings" ∷ []

abbrev item_paths : List NavSubItem → List String
item_paths [] = []
item_paths (i ∷ items) = i.path ∷ item_paths items

abbrev group_paths : List NavGroup → List String
group_paths [] = []
group_paths (g ∷ groups) = item_paths g.items ++ group_paths groups

-- The paths of all items that can be marked.
abbrev pub nav_paths : List String
nav_paths = other_paths ++ group_paths nav_groups

-- `isActive`, with `location.pathname` first.
unfoldable pub is_active : String → String → Bool
is_active pathname path = str_eq pathname path || not (str_eq path "/") && is_prefix path pathname

-- `anyChildActive`.
unfoldable any_child_active : String → NavGroup → Bool
unfolding is_active
any_child_active pathname g = any (λ i. is_active pathname i.path) g.items

pub data Severity : Type 0 where
  info warning critical : Severity

pub record NotificationItem : Type 0 where
  pub id : String
  pub message : String
  pub severity : Severity
  pub timestamp : ℕ
  pub read : Bool

pub record Sidebar : Type 0 where
  pub expanded_menus : IdSet
  pub show_search : Bool
  pub show_notifs : Bool
  pub notifications : List NotificationItem
  pub notifs_loading : Bool
  pub loads : ℕ  -- the requests in flight

unfoldable pub start : Sidebar
start = record {
  expanded_menus = [];
  show_search = false;
  show_notifs = false;
  notifications = [];
  notifs_loading = false;
  loads = 0;
}

unfoldable pub toggle_menu : String → Sidebar → Sidebar
toggle_menu name s = record s { expanded_menus = toggle s.expanded_menus name }

-- The keys that the window listens to.
pub data Key : Type 0 where
  escape : Key
  search_key : Key  -- K with the control or the meta key

unfoldable pub on_key : Key → Sidebar → Sidebar
on_key escape s = record s { show_search = false; show_notifs = false }
on_key search_key s = record s { show_search = not s.show_search }

-- `openNotifications` up to its `await`.
unfoldable pub open_notifications : Sidebar → Sidebar
open_notifications s =
    if s.show_notifs
    then record s { show_notifs = false }
    else record s { show_notifs = true; notifs_loading = true; loads = suc s.loads }

-- The item that stands for a load that failed.
abbrev load_error : ℕ → NotificationItem
load_error now = record {
  id = "err";
  message = "Could not load notifications.";
  severity = info;
  timestamp = now;
  read = true;
}

abbrev pub received : ℕ → Reply (List NotificationItem) → List NotificationItem
received now (ok items) = items
received now (failed error) = load_error now ∷ []

load_ended_with : ℕ → ℕ → Reply (List NotificationItem) → Sidebar → Sidebar
load_ended_with zero now reply s = s
load_ended_with (suc n) now reply s = record s {
  notifications = received now reply;
  notifs_loading = false;
  loads = n;
}

-- The end of a load; the loads that are in flight differ in nothing.
unfoldable pub load_ended : ℕ → Reply (List NotificationItem) → Sidebar → Sidebar
unfolding load_ended_with
load_ended now reply s = load_ended_with s.loads now reply s

-- The label of NotificationCenter.tsx, `notifications.length`, and what it speaks of.
abbrev pub unread_label : Sidebar → ℕ
unread_label s = length s.notifications

pub data Event : Type 0 where
  menu_clicked : String → Event
  key_pressed : Key → Event
  search_clicked : Event
  notifications_clicked : Event
  notifications_closed : Event
  replied : ℕ → Reply (List NotificationItem) → Event

unfoldable pub step : Event → Sidebar → Sidebar
unfolding toggle_menu on_key open_notifications load_ended
step (menu_clicked name) s = toggle_menu name s
step (key_pressed key) s = on_key key s
step search_clicked s = record s { show_search = not s.show_search }
step notifications_clicked s = open_notifications s
step notifications_closed s = record s { show_notifs = false }
step (replied now reply) s = load_ended now reply s

unfoldable pub run : Sidebar → List Event → Sidebar
unfolding step
run s [] = s
run s (e ∷ es) = run (step e s) es
