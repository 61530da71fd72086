-- ===== src/Repair/Runner.antt =====
-- internal/repairrunner/runner.go: running the steps of a repair plan. What a command of step `i` prints and
-- whether it fails is the argument `exec`; an output is a text, as the commands print valid UTF-8.
use Prim.Native.Char.{len_utf8}
use Prim.Native.String.{len}
use capd.Prelude.{
  ℕ, suc, ◌+◌, ◌-◌, String, Bool, true, false, not, Option, none, some, List, [], ◌∷◌, ◌++◌, length,
  if◌then◌else◌, leb, ltb, trim_space,
}
use capd.Repair.Plan.{Execution, RepairStep, Spec, classify, split_command}

pub record Options : Type 0 where
  pub execute : Bool
  pub include_final : Bool

abbrev pub max_repair_steps : ℕ
max_repair_steps = 20

abbrev pub max_repair_command_size : ℕ
max_repair_command_size = 4096

abbrev pub max_repair_output_size : ℕ
max_repair_output_size = 8192

pub data Status : Type 0 where
  planned skipped succeeded failed : Status

pub record StepReport : Type 0 where
  pub step : RepairStep
  pub status : Status
  pub reason : String
  pub output : String
  pub output_truncated : Bool
  pub error : Option String

pub record Summary : Type 0 where
  pub total : ℕ
  pub planned : ℕ
  pub skipped : ℕ
  pub succeeded : ℕ
  pub failed : ℕ

-- `calls` is what was executed, in order.
pub record RunResult : Type 0 where
  pub all_ok : Bool
  pub dry_run : Bool
  pub steps : List StepReport
  pub summary : Summary
  pub calls : List Spec

-- The longest initial part of at most `room` bytes that cuts no code point.
unfoldable pub take_bytes : ℕ → String → String
take_bytes room String.[] = String.[]
take_bytes room (String.◌∷◌ c s) =
    let rest = String.◌∷◌ c (take_bytes (room - len_utf8 c) s) in
    if leb (len_utf8 c) room then rest else String.[]

unfoldable pub bounded_output : String → String × Bool
unfolding take_bytes trim_space
bounded_output output =
    let trimmed = trim_space output in
    if leb (len trimmed) max_repair_output_size
    then (trimmed, false)
    else (trim_space (take_bytes max_repair_output_size trimmed), true)

-- The classification, and the limit on the size of the command.
unfoldable pub execution_of : Options → RepairStep → Execution
unfolding classify
execution_of opts step =
    if ltb max_repair_command_size (len step.command)
    then record { runnable = false; reason = "command exceeds repair runner limit" }
    else classify step opts.include_final

abbrev pub report : RepairStep → Execution → Status → String → StepReport
report step execution status reason = record {
  step = record step { execution = some execution };
  status = status;
  reason = reason;
  output = "";
  output_truncated = false;
  error = none;
}

abbrev pub add_skipped : Summary → Summary
add_skipped s = record s { skipped = s.skipped + 1 }

abbrev pub skip_step : RepairStep → Execution → RunResult → RunResult
skip_step step execution r = record r {
  steps = r.steps ++ report step execution skipped execution.reason ∷ [];
  summary = add_skipped r.summary;
}

abbrev pub plan_step : RepairStep → Execution → RunResult → RunResult
plan_step step execution r = record r {
  steps = r.steps ++ report step execution planned "use execute=true to run" ∷ [];
  summary = record (r.summary) { planned = r.summary.planned + 1 };
}

-- What a command printed and how it failed, if it did.
abbrev pub executed : RepairStep → Execution → String → Option String → RunResult → RunResult
executed step execution output none r = record r {
  steps =
      r.steps
      ++ record (report step execution succeeded "") {
        output = (bounded_output output).0;
        output_truncated = (bounded_output output).1;
      }
        ∷ [];
  summary = record (r.summary) { succeeded = r.summary.succeeded + 1 };
}
executed step execution output (some e) r = record r {
  all_ok = false;
  steps =
      r.steps
      ++ record (report step execution failed "") {
        output = (bounded_output output).0;
        output_truncated = (bounded_output output).1;
        error = some e;
      }
        ∷ [];
  summary = record (r.summary) { failed = r.summary.failed + 1 };
}

abbrev pub empty_result : Options → ℕ → RunResult
empty_result opts total = record {
  all_ok = true;
  dry_run = not opts.execute;
  steps = [];
  summary = record { total = total; planned = 0; skipped = 0; succeeded = 0; failed = 0 };
  calls = [];
}

module _ (exec : ℕ → Spec → String × Option String) where
  abbrev pub execute_step : ℕ → RepairStep → Execution → RunResult → RunResult
  execute_step i step execution r =
      let spec = split_command step.command in
      executed step execution (exec i spec).0 (exec i spec).1
        (record r { calls = r.calls ++ spec ∷ [] })

  -- The body of the loop.
  unfoldable pub run_step : Options → ℕ → RepairStep → RunResult → RunResult
  unfolding execution_of bounded_output split_command
  run_step opts i step r =
      let execution = execution_of opts step in
      if leb max_repair_steps i
      then record r { summary = add_skipped r.summary }
      else if not opts.execute
      then (if execution.runnable then plan_step step execution r else skip_step step execution r)
      else if execution.runnable
      then execute_step i step execution r
      else skip_step step execution r

  unfoldable pub run_from : Options → ℕ → List RepairStep → RunResult → RunResult
  unfolding run_step
  run_from opts i [] r = r
  run_from opts i (step ∷ steps) r = run_from opts (suc i) steps (run_step opts i step r)

  unfoldable pub run : Options → List RepairStep → RunResult
  unfolding run_from
  run opts steps = run_from opts 0 steps (empty_result opts (length steps))
