-- ===== src/Lib.antt =====
-- Homelabs SIEM-SOAR: a model of the web client, soc-frontend, with the theorems on its state.
--
-- The client is a React application. Its pages keep state in hooks, send requests through one axios
-- client (soc-frontend/src/shared/api/apiClient.ts) and read streams over WebSockets. The shared hooks
-- are used by every page; the store of investigations, the command centre, the playbook sandbox and
-- the pages about detection, endpoints, assets and incidents each keep a state of their own.
--
-- How the code is modelled:
--   - A component is a record of its state variables. A handler is a function on that record. The
--     events that can happen to it (clicks, replies, timers, messages) are a data type, `step` handles
--     one of them, and `run` a list of them, so an interleaving is a list of events.
--   - An `async` handler is cut at its `await`. What it closed over waits in a list of the state; an
--     event with a place in that list goes on with it. Replies may come in any order.
--   - The clean-up of an effect, a socket after `close` and before its close event, and an armed
--     timer are parts of the state: they outlive the page in the code and in the model.
--   - `alert`, toasts and requests that are sent are data that the state records.
--   - Random numbers and the time are arguments. A text is a list of code points, a `Set<string>` a
--     list of distinct ids in insertion order, and `sort` is stable.
--   - `toLowerCase` is an argument of the functions that use it.
--
-- Which file models which part:
--   - Prelude: Boolean tests, lists and windows on them, texts, sets of ids and what they
--     hold as a quotient, integers, the stable sort.
--   - Hooks/AsyncState, Hooks/Polling, Hooks/Stream: shared/hooks/useAsyncState.ts, usePolling.ts and
--     useWebSocketStream.ts under soc-frontend/src. Hooks/LogStream: hooks/useInvestigationStream.ts.
--   - Auth: features/auth/ui/ProtectedRoute.tsx, the session check of Login.tsx, and the error
--     interceptor of shared/api/apiClient.ts.
--   - Investigations/Types: types/index.ts. Investigations/Context:
--     features/investigations/store/InvestigationContext.tsx. Investigations/CommandCenter:
--     features/investigations/ui/CommandCenter.tsx. Investigations/Dashboard:
--     features/investigations/ui/InvestigationDashboard.tsx. Investigations/Graph:
--     features/investigations/ui/InvestigationGraph.tsx. Investigations/Chat:
--     features/investigations/ui/AgentChatWidget.tsx.
--   - AgentOps/TriageFeed and AgentOps/Resilience: AgentTriageFeed.tsx and AgentResilienceStatus.tsx
--     under features/agent-ops.
--   - Playbooks/Sandbox and Playbooks/Store: features/playbooks/ui/PlaybookSandbox.tsx and
--     features/playbooks/store/PlaybookContext.tsx.
--   - Shared/TwoKeyModal: shared/ui/TwoKeyModal/index.tsx, which Detection/AlertRules/Confirmation
--     uses.
--   - Detection/AlertRules, Detection/IocSearch and Detection/ThreatFeeds: AlertRulesPage.tsx,
--     IocSearchPage.tsx and ThreatFeedsPage.tsx under pages/detection.
--   - Endpoints/Isolation: pages/endpoints/IsolationControlsPage.tsx, with its rendering in
--     Endpoints/Isolation/View. Endpoints/Fleet, Endpoints/Hosts and Endpoints/Hosts/Admin:
--     pages/endpoints/HostManagementPage.tsx. Endpoints/Edr: pages/endpoints/EdrLogsPage.tsx.
--   - Assets/Inventory and Assets/Vulnerabilities: the pages of these names under pages/assets.
--     Assets/NetworkMap: pages/assets/NetworkMapPage.tsx, its load and the findings of the nodes;
--     Assets/NetworkMap/Graph: its search for the blast radius, which Paths specifies;
--     Assets/NetworkMap/Page: its state, response actions and colours.
--   - Incidents/Active, Incidents/Closed and Incidents/WarRoom: ActiveIncidentsPage.tsx,
--     ClosedIncidentsPage.tsx and WarRoomPage.tsx under pages/incidents.
--   - Layout/CommandPalette and Layout/Sidebar: layouts/ui/CommandPalette.tsx and Sidebar.tsx, with
--     shared/config/navigation.ts.
--   - Dashboards/Overview: pages/dashboards/OverviewPage.tsx. Settings:
--     pages/settings/SettingsPage.tsx.
--   - Tests: concrete runs.
-- A state variable or a function of the code has the name of the code in snake case.
--
-- Bounds: the search of the blast radius has fuel for two turns for each edge and one more:
-- each turn takes an id off the queue, and an edge puts at most two on it. The decimal digits of a
-- number are at most as many as the number plus one. The log ceiling is 1000 lines, that of the agent
-- feed 500 events, as many as the backend keeps for a history, and the backoff is 1 to 30
-- seconds. A dictionary is an association list; no key is taken to be the name of a method of
-- Object. A page handles an event also when it shows its skeleton or its error, unless the
-- handler's own button is modelled.
--
-- Not modelled: markup and styles, charts and the drawing on a canvas, floating-point rates, the
-- request interceptor, the frame of the layout, the other dashboards, tenants, profile and
-- marketplace, and the services in Python and Go, whose replies are arguments here.
pub mod Prelude
pub mod Hooks
pub mod Shared
pub mod Auth
pub mod Investigations
pub mod Playbooks
pub mod Detection
pub mod Endpoints
pub mod Assets
pub mod Layout
pub mod Incidents
pub mod AgentOps
pub mod Dashboards
pub mod Settings
pub mod Tests
