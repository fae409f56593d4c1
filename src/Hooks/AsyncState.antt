-- ===== src/Hooks/AsyncState.antt =====
-- soc-frontend/src/shared/hooks/useAsyncState.ts: the state that a page keeps of one request.
-- `execute` is cut at its `await`: `begin` is what it does before, `settle` what it does after.
pub mod Screens
use homelabs_siem_soar.Prelude.{
  ◌≡◌, Bool, true, false, Option, none, some, List, [], ◌∷◌, or_default, is_empty, if◌then◌else◌,
}
use Prim.Native.String.{String}

-- How the awaited call ends: a result, or an error with its `message`, which may be missing.
pub data Reply {ℓ} (A : Type ℓ) : Type ℓ where
  ok : A → Reply A
  failed : Option String → Reply A

-- `data`, `loading` and `error` of the hook.
pub record AsyncState {ℓ} (A : Type ℓ) : Type ℓ where
  pub value : Option A
  pub loading : Bool
  pub error : Option String

-- `err.message || 'An error occurred'`.
unfoldable pub error_text : Option String → String
error_text none = "An error occurred"
error_text (some message) = or_default message "An error occurred"

-- What a page shows before its own content.
pub data Screen : Type 0 where
  skeleton : Screen
  failure : String → Screen
  content : Screen

module _ {ℓ} {A : Type ℓ} where
  unfoldable pub initial : AsyncState A
  initial = record { value = none; loading = true; error = none }

  unfoldable pub begin : AsyncState A → AsyncState A
  begin s = record s { loading = true; error = none }

  -- The branch of `try` or `catch`, and then `finally`.
  unfoldable pub settle : Reply A → AsyncState A → AsyncState A
  unfolding error_text
  settle (ok a) s = record s { value = some a; loading = false }
  settle (failed message) s = record s { loading = false; error = some (error_text message) }

  unfoldable pub set_value : Option A → AsyncState A → AsyncState A
  set_value v s = record s { value = v }

  -- One whole call of `execute` with nothing in between.
  unfoldable pub execute : Reply A → AsyncState A → AsyncState A
  unfolding begin settle
  execute r s = settle r (begin s)

  -- Whole calls one after the other.
  unfoldable pub run : AsyncState A → List (Reply A) → AsyncState A
  unfolding execute
  run s [] = s
  run s (r ∷ rs) = run (execute r s) rs

  -- `if (loading) …; if (error && !data) …; return …`.
  -- `error && !data`, where the empty text is falsy; a loaded value is an object, so truthy.
  unfoldable pub failure_or_content : Option String → Option A → Screen
  failure_or_content (some message) none = if is_empty message then content else failure message
  failure_or_content _ _ = content

  unfoldable pub screen : AsyncState A → Screen
  unfolding failure_or_content
  screen s = if s.loading then skeleton else failure_or_content s.error s.value

-- Calls that overlap: the events of one hook in the order in which they happen.
pub data Call {ℓ} (A : Type ℓ) : Type ℓ where
  begun : Call A
  settled : Reply A → Call A

module _ {ℓ} {A : Type ℓ} where
  unfoldable pub on_call : Call A → AsyncState A → AsyncState A
  unfolding begin settle
  on_call begun s = begin s
  on_call (settled r) s = settle r s

  unfoldable pub run_calls : AsyncState A → List (Call A) → AsyncState A
  unfolding on_call
  run_calls s [] = s
  run_calls s (c ∷ cs) = run_calls (on_call c s) cs
