-- ===== src/Auth.antt =====
-- soc-frontend/src/features/auth/ui/ProtectedRoute.tsx, the session check of Login.tsx beside it,
-- and the interceptors of soc-frontend/src/shared/api/apiClient.ts.
pub mod Access
use Prim.Native.Nat.{ℕ}
use Prim.Native.String.{String}
use text.Mathlib.Text.{◌==◌ as str_eq}
use homelabs_siem_soar.Prelude.{
  Bool, true, false, not, ◌&&◌, Option, none, some, List, ◌==◌, is_empty, or_default, if◌then◌else◌,
}
use homelabs_siem_soar.Prelude.IdSet.{has}

-- How `GET /auth/session` ends: with the user's role, which may be missing, or with an error.
pub data SessionReply : Type 0 where
  session : Option String → SessionReply
  rejected : SessionReply

pub record RouteState : Type 0 where
  pub is_verifying : Bool
  pub user_role : Option String
  pub is_valid : Bool

unfoldable pub initial : RouteState
initial = record { is_verifying = true; user_role = none; is_valid = false }

-- The rest of `verifySession` after its `await`.
unfoldable pub settle : SessionReply → RouteState → RouteState
settle (session role) s = record s { user_role = role; is_valid = true; is_verifying = false }
settle rejected s = record s { is_valid = false; is_verifying = false }

-- What the route renders. `to_login` carries the path that goes into `redirect`, not yet encoded.
pub data Page : Type 0 where
  verifying : Page
  to_login : String → Page
  to_unauthorized : Page
  children : Page

-- `allowedRoles && userRole && !allowedRoles.includes(userRole)`.
unfoldable pub is_denied : Option (List String) → Option String → Bool
is_denied none role = false
is_denied (some allowed) none = false
is_denied (some allowed) (some role) = not (is_empty role) && not (has allowed role)

unfoldable pub view : Option (List String) → String → RouteState → Page
unfolding is_denied
view allowed path s =
    if s.is_verifying
    then verifying
    else if not s.is_valid
    then to_login path
    else if is_denied allowed s.user_role
    then to_unauthorized
    else children

-- Where the error interceptor of `apiClient` sends the browser. The error is rejected again in any
-- case. `clearToken` does nothing.
pub data Redirect : Type 0 where
  stay : Redirect
  login : String → Redirect
  unauthorized : Redirect

unfoldable pub on_error : Option ℕ → String → Redirect
on_error none path = stay
on_error (some status) path =
    if status == 401
    then if str_eq path "/login" then stay else login path
    else if status == 403
    then unauthorized
    else stay

-- The session check of the login page: a session leads to the `redirect` parameter, or else to `/`.
unfoldable login_target : Option String → SessionReply → Option String
login_target redirect rejected = none
login_target none (session role) = some "/"
login_target (some path) (session role) = some (or_default path "/")
