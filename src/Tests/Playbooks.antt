-- ===== src/Tests/Playbooks.antt =====
-- Concrete runs of the playbook sandbox.
use Prim.Native.String.{String}
use text.Mathlib.Text.{◌==◌ as str_eq}
use homelabs_siem_soar.Prelude.{
  ◌≡◌, ◌≢◌, ap, arith, Bool, true, false, Option, none, some, [], ◌∷◌, ◌++◌,
}
use homelabs_siem_soar.Prelude.Int.{pos}
use homelabs_siem_soar.Playbooks.Sandbox.{
  run, start, started, socket_opened, message, ended, success,
}
use homelabs_siem_soar.Playbooks.Sandbox.Streams.{execution_result, lines}

is_first : Option String → Bool
is_first none = false
is_first (some id) = str_eq id "pb-1"

abbrev first : Option String
first = some "pb-1"

abbrev second : Option String
second = some "pb-2"

first≢second : first ≢ second
unfolding is_first
first≢second e = let same : true ≡ false = ap is_first e in absurd (ground arith)

execution_result_example :
    (run start (
        started "pb-1"
        ∷ socket_opened 0
        ∷ (lines ("blocked" ∷ []) ++ message 0 (ended (pos 0) 420) ∷ []))).cache
      "pb-1"
    ≡ some (record {
      status = success;
      output =
          "> Initiating sandbox execution container..." ∷ "> Connected to sandbox stream..."
          ∷ "blocked" ∷ [];
      exit_code = some (pos 0);
      duration = some 420;
    })
execution_result_example = execution_result "pb-1" ("blocked" ∷ []) (pos 0) 420
