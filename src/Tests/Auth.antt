-- ===== src/Tests/Auth.antt =====
-- Concrete runs of the protected route and of the error redirects.
use homelabs_siem_soar.Prelude.{◌≡◌, ◌↔◌, ◌⊎◌, Option, some, List, [], ◌∷◌}
use Prim.Native.String.{String}
use homelabs_siem_soar.Auth.{
  session, rejected, initial, settle, verifying, to_login, to_unauthorized, children, view,
}
use homelabs_siem_soar.Auth.Access.{protected_view, IsBlank, IsAllowed}

abbrev analysts : List String
analysts = "analyst" ∷ "admin" ∷ []

protected_view_example :
    (view (some analysts) "/soar" initial ≡ verifying)
    × ((view (some analysts) "/soar" (settle (session (some "admin")) initial) ≡ children) ↔ (
        (role : Option String) × (session (some "admin") ≡ session role)
        × (IsBlank role ⊎ IsAllowed analysts role)))
    × ((view (some analysts) "/soar" (settle (session (some "admin")) initial) ≡ to_login "/soar")
        ↔ (session (some "admin") ≡ rejected))
    × ((view (some analysts) "/soar" (settle (session (some "admin")) initial) ≡ to_unauthorized)
        ↔ ((role : Option String) × (session (some "admin") ≡ session role)
            × ¬ (IsBlank role ⊎ IsAllowed analysts role)))
protected_view_example = protected_view analysts "/soar" (session (some "admin"))
