-- ===== src/Hooks/AsyncState/Screens.antt =====
-- What a page shows after any calls of `execute`, one after the other or overlapping.
use Prim.Native.String.{String}
use homelabs_siem_soar.Prelude.{
  ◌≡◌, refl, ap, ◌∙◌, Bool, true, false, ◌||◌, Option, none, some, List, [], ◌∷◌, ◌++◌, arith, any,
  if◌then◌else◌, is_empty,
}
use homelabs_siem_soar.Hooks.AsyncState.{
  Reply, ok, failed, AsyncState, error_text, initial, begin, settle, execute, run, Screen, failure,
  content, screen, Call, begun, settled, on_call, run_calls,
}

abbrev is_ok {ℓ} : {A : Type ℓ} → Reply A → Bool
is_ok (ok a) = true
is_ok (failed message) = false

-- The screen that the last reply leaves, when `loaded` says whether there was a value before it.
abbrev screen_of {ℓ} : {A : Type ℓ} → Bool → Reply A → Screen
screen_of loaded (ok a) = content
screen_of loaded (failed message) = if loaded then content else failure (error_text message)

abbrev is_begun {ℓ} : {A : Type ℓ} → Call A → Bool
is_begun begun = true
is_begun (settled r) = false

-- The value of the call that settled last with a result, or else the first one.
abbrev last_ok {ℓ} : {A : Type ℓ} → Option A → List (Call A) → Option A
last_ok v [] = v
last_ok v (begun ∷ cs) = last_ok v cs
last_ok v (settled (ok a) ∷ cs) = last_ok (some a) cs
last_ok v (settled (failed message) ∷ cs) = last_ok v cs

abbrev pub is_some {ℓ} : {A : Type ℓ} → Option A → Bool
is_some none = false
is_some (some a) = true

or_regroup : (a b c : Bool) → (b || (a || c)) ≡ ((a || b) || c)
or_regroup a b c = ground arith

or_false : (a : Bool) → (a || false) ≡ a
or_false a = ground arith

error_text_nonempty : (message : Option String) → is_empty (error_text message) ≡ false
unfolding error_text
error_text_nonempty none = refl
error_text_nonempty (some String.[]) = refl
error_text_nonempty (some (String.◌∷◌ c s)) = refl

module _ {ℓ} {A : Type ℓ} where
  execute-screen :
      (r : Reply A) (s : AsyncState A) → screen (execute r s) ≡ screen_of (is_some s.value) r
  unfolding execute begin settle screen error_text
  execute-screen (ok a) s = refl
  execute-screen (failed m) s = ground (arith, error_text_nonempty m)

  execute-value :
      (r : Reply A) (s : AsyncState A) → is_some (execute r s).value ≡ (is_ok r || is_some s.value)
  unfolding execute begin settle
  execute-value (ok a) s = refl
  execute-value (failed m) s = refl

  run-screen :
      (s : AsyncState A) (rs : List (Reply A)) (r : Reply A)
      → screen (run s (rs ++ r ∷ [])) ≡ screen_of (any is_ok rs || is_some s.value) r
  unfolding run
  run-screen s [] r = execute-screen r s
  run-screen s (q ∷ rs) r =
      run-screen (execute q s) rs r
      ∙ ap (λ b. screen_of b r)
          (rw (execute-value q s) (or_regroup (is_ok q) (any is_ok rs) (is_some s.value)))

  -- After calls of `execute` that do not overlap, the page shows its content exactly if some call
  -- so far had a result, and else the message of the last error: a failed refresh keeps the old
  -- content on the screen, and the skeleton is gone.
  pub screen-run :
      (rs : List (Reply A)) (r : Reply A)
      → screen (run initial (rs ++ r ∷ [])) ≡ screen_of (any is_ok rs) r
  unfolding initial
  screen-run rs r = run-screen _ rs r ∙ ap (λ b. screen_of b r) (or_false (any is_ok rs))

  calls-loading :
      (s : AsyncState A) (cs : List (Call A)) (c : Call A)
      → (run_calls s (cs ++ c ∷ [])).loading ≡ is_begun c
  unfolding run_calls begin settle
  calls-loading s [] begun = refl
  calls-loading s [] (settled (ok a)) = refl
  calls-loading s [] (settled (failed m)) = refl
  calls-loading s (d ∷ cs) c = calls-loading (on_call d s) cs c

  calls-value :
      (s : AsyncState A) (cs : List (Call A)) → (run_calls s cs).value ≡ last_ok s.value cs
  unfolding run_calls begin settle
  calls-value s [] = refl
  calls-value s (begun ∷ cs) = calls-value (begin s) cs
  calls-value s (settled (ok a) ∷ cs) = calls-value (settle (ok a) s) cs
  calls-value s (settled (failed m) ∷ cs) = calls-value (settle (failed m) s) cs

  -- However calls of `execute` overlap, the hook says that it is loading exactly if the last event
  -- is the start of a call, whatever else is in flight, and its value is that of the call that
  -- settled last with a result, whichever of the calls was started last.
  pub overlapping_calls :
      (s : AsyncState A) (cs : List (Call A)) (c : Call A)
      → ((run_calls s (cs ++ c ∷ [])).loading ≡ is_begun c)
        × ((run_calls s (cs ++ c ∷ [])).value ≡ last_ok s.value (cs ++ c ∷ []))
  overlapping_calls s cs c = (calls-loading s cs c, calls-value s (cs ++ c ∷ []))
