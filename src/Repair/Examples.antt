-- ===== src/Repair/Examples.antt =====
-- A repair run of three steps, and how commands are classified.
use Prim.Native.String.{len}
use capd.Prelude.{
  ℕ, ◌≤◌, String, true, false, Option, none, List, [], ◌∷◌, ◌≡◌, refl, All, trim_space,
}
use capd.Repair.Plan.{RepairStep, Spec, classify}
use capd.Repair.Runner.{Options, run, bounded_output}
use capd.Repair.Counts.{Tally, run-Tally}
use capd.Repair.Safety.{SafeCall, run-SafeCall}
use capd.Repair.Output.{Bounded, bounded_output-le}

abbrev step_of : String → RepairStep
step_of command = record {
  id = "r";
  title = "";
  command = command;
  expected_evidence = "";
  requires_daemon = false;
  requires_secret = false;
  is_optional = false;
  execution = none;
}

abbrev opts : Options
opts = record { execute = true; include_final = false }

abbrev steps : List RepairStep
steps = step_of " capd doctor " ∷ step_of "rm -r x" ∷ step_of "A=1 make test" ∷ []

abbrev exec : ℕ → Spec → String × Option String
exec i spec = ("done", none)

run-Tally_example : Tally opts 3 3 (run exec opts steps)
run-Tally_example = run-Tally exec opts steps

run-SafeCall_example : All (SafeCall steps) (run exec opts steps).calls
run-SafeCall_example = run-SafeCall exec opts steps

bounded_output-le_example :
    (len (bounded_output " ok ").0 ≤ 8192) × Bounded (trim_space " ok ") (bounded_output " ok ")
bounded_output-le_example = bounded_output-le " ok "

executes_two :
    (run exec opts steps).calls
    ≡ record { env = []; bin = "capd"; args = "doctor" ∷ [] }
      ∷ record { env = "A=1" ∷ []; bin = "make"; args = "test" ∷ [] }
      ∷ []
unfolding run
executes_two = refl

start_is_refused : (classify (step_of "capd start") false).runnable ≡ false
unfolding classify
start_is_refused = refl

-- A word that sets a variable hides the subcommand from the check.
start_behind_override : (classify (step_of "CAPD_LOG=debug capd start") false).runnable ≡ true
unfolding classify
start_behind_override = refl
