-- ===== src/Auth/Access.antt =====
-- Who gets to see a protected page.
use Prim.Native.Nat.{ℕ}
use Prim.Native.String.{String}
use text.Mathlib.TextEquality.{eq_iff}
use mathlib.Core.Path.{subst}
use homelabs_siem_soar.Prelude.{
  ◌≡◌, refl, ◌≢◌, ◌↔◌, ◌⊎◌, inl, inr, Bool-cases, true, false, Option, none, some, List, arith,
  is_empty,
}
use homelabs_siem_soar.Prelude.IdSet.{has}
use homelabs_siem_soar.Auth.{
  SessionReply, session, rejected, initial, settle, verifying, to_login, to_unauthorized, children,
  is_denied, view, stay, login, unauthorized, on_error,
}

-- The role is missing or empty, so the list of roles is not asked.
abbrev pub IsBlank : Option String → Type 0
IsBlank none = Unit
IsBlank (some role) = is_empty role ≡ true

abbrev pub IsAllowed : List String → Option String → Type 0
IsAllowed allowed none = ⊥
IsAllowed allowed (some role) = has allowed role ≡ true

denied_iff :
    (allowed : List String) (role : Option String)
    → (is_denied (some allowed) role ≡ false) ↔ (IsBlank role ⊎ IsAllowed allowed role)
unfolding is_denied
denied_iff allowed none = (λ _. inl tt, λ _. refl)
denied_iff allowed (some role) = (λ h. ground arith, λ h. ground arith)

-- Nothing protected is shown before the session reply. After it the children are shown exactly if
-- the reply is a session whose role is on the list, or is missing or empty; a rejected check leads
-- to the login page with the path, and a session with any other role to the page for the
-- unauthorized.
pub protected_view :
    (allowed : List String) (path : String) (r : SessionReply)
    → (view (some allowed) path initial ≡ verifying)
      × ((view (some allowed) path (settle r initial) ≡ children)
          ↔ ((role : Option String) × (r ≡ session role) × (IsBlank role ⊎ IsAllowed allowed role)))
      × ((view (some allowed) path (settle r initial) ≡ to_login path) ↔ (r ≡ rejected))
      × ((view (some allowed) path (settle r initial) ≡ to_unauthorized) ↔ (
          (role : Option String) × (r ≡ session role) × ¬ (IsBlank role ⊎ IsAllowed allowed role)))
unfolding view settle initial
protected_view allowed path rejected = (
  refl,
  (λ h. absurd (cc), λ h. absurd (cc)),
  (λ h. refl, λ h. refl),
  (λ h. absurd (cc), λ h. absurd (cc)),
)
protected_view allowed path (session role) = (
  refl,
  (λ h. (role, refl, (denied_iff allowed role).0 (ground arith)), λ h. readmit h.2 (cc)),
  (λ h. ground arith, λ h. absurd (cc)),
  (
    λ h. (role, refl, λ x. let shown = (denied_iff allowed role).1 x in ground arith),
    λ h. refuse h.2 (cc),
  ),
)
  where
    readmit :
        {x : Option String}
        → IsBlank x ⊎ IsAllowed allowed x
        → x ≡ role
        → view (some allowed) path (settle (session role) initial) ≡ children
    readmit {x} h e =
        rw ((denied_iff allowed role).1 (subst (λ y. IsBlank y ⊎ IsAllowed allowed y) e h))

    refuse :
        {x : Option String}
        → ¬ (IsBlank x ⊎ IsAllowed allowed x)
        → x ≡ role
        → view (some allowed) path (settle (session role) initial) ≡ to_unauthorized
    refuse {x} h e =
        let denied = (denied_iff allowed role).0 in
        let other = subst (λ y. ¬ (IsBlank y ⊎ IsAllowed allowed y)) e h in
        elim (Bool-cases (is_denied (some allowed) role)) [
          | inl d ↦ rw d refl
          | inr d ↦ absurd (other (denied d))
        ]

-- An expired session leads to the login page with the path, except on the login page itself, so a
-- failed check there starts no loop; a missing permission leads to the page for the unauthorized
-- from everywhere; no other error moves the browser.
error_redirects :
    (status : ℕ) (path : String)
    → ((on_error (some status) path ≡ login path) ↔ ((status ≡ 401) × (path ≢ "/login")))
      × ((on_error (some status) path ≡ unauthorized) ↔ (status ≡ 403))
      × ((status ≢ 401) → (status ≢ 403) → on_error (some status) path ≡ stay)
unfolding on_error
error_redirects status path = (
  (λ h. ground (arith, eq_iff path "/login"), λ h. ground (arith, eq_iff path "/login")),
  (λ h. ground (arith, eq_iff path "/login"), λ h. ground (arith, eq_iff path "/login")),
  λ p q. ground (arith, eq_iff path "/login"),
)
