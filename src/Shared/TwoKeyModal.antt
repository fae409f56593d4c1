-- ===== src/Shared/TwoKeyModal.antt =====
-- soc-frontend/src/shared/ui/TwoKeyModal/index.tsx: the modal that asks for the name of the target
-- before a destructive action.
use Prim.Native.String.{String}
use text.Mathlib.Text.{◌==◌ as str_eq}
use homelabs_siem_soar.Prelude.{
  Bool, false, not, ◌&&◌, Option, none, some, trim, is_empty, if◌then◌else◌,
}
use homelabs_siem_soar.Investigations.Types.{ActionInfo}

-- `isMatch`.
unfoldable pub is_match : Option ActionInfo → String → Bool
is_match none input = false
is_match (some a) input = str_eq (trim input) a.target

-- `isNonEmptyMismatch`.
unfoldable is_non_empty_mismatch : Option ActionInfo → String → Bool
unfolding is_match
is_non_empty_mismatch action input = not (is_empty (trim input)) && not (is_match action input)

-- `if (!show || !action) return null`.
unfoldable pub is_shown : Bool → Option ActionInfo → Bool
is_shown show none = false
is_shown show (some a) = show

-- The page around the modal, and the state of the modal.
pub record Dialog {ℓ} (S : Type ℓ) : Type ℓ where
  pub page : S
  pub is_submitting : Bool

module _ {ℓ} {S : Type ℓ} where
  -- The effect of a new `show` or a new target.
  unfoldable reset_if : Bool → Dialog S → Dialog S
  reset_if show d = if show then record d { is_submitting = false } else d

  -- `handleConfirm` up to its `await`, behind the button, which is disabled under the same condition.
  -- With an `onConfirm` that returns no promise the `finally` follows before any other event:
  -- `waits` says whether it returns one.
  unfoldable pub handle_confirm :
      Bool → (S → S) → Bool → Option ActionInfo → String → Dialog S → Dialog S
  handle_confirm waits on_confirm show action input d =
      if is_shown show action && is_match action input && not d.is_submitting
      then record { page = on_confirm d.page; is_submitting = waits }
      else d

  -- The `finally`, when the promise of `onConfirm` ends.
  unfoldable confirm_settled : Dialog S → Dialog S
  confirm_settled d = record d { is_submitting = false }

  -- The cancel button, the Escape key, and a click beside the modal; `by_button` says which.
  unfoldable pub handle_cancel : (S → S) → Bool → Bool → Option ActionInfo → Dialog S → Dialog S
  handle_cancel on_cancel by_button show action d =
      if is_shown show action && not (by_button && d.is_submitting)
      then record d { page = on_cancel d.page }
      else d
