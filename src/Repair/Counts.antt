-- ===== src/Repair/Counts.antt =====
-- internal/repairrunner/runner.go: what the summary of a run counts.
use capd.Prelude.{
  ℕ, suc, ◌+◌, ◌≤◌, String, Bool, true, false, not, Option, none, some, List, [], ◌∷◌, ◌++◌, length,
  if◌then◌else◌, leb, ◌==◌, length-append, ◌≡◌, refl, subst, arith, ◌⊎◌, inl, inr, leb→le,
}
use Prim.Native.Nat.{min}
use capd.Repair.Plan.{Execution, RepairStep, Spec, split_command}
use capd.Repair.Runner.{
  Options, RunResult, max_repair_steps, execution_of, plan_step, skip_step, executed, execute_step,
  run_step, run_from, run, empty_result, report, add_skipped, skipped, planned,
}

-- What is counted after `i` steps.
pub record Tally (opts : Options) (total i : ℕ) (r : RunResult) : Type 0 where
  pub whole : r.summary.total ≡ total
  pub parts : r.summary.planned + r.summary.skipped + r.summary.succeeded + r.summary.failed ≡ i
  pub calls : length r.calls ≡ r.summary.succeeded + r.summary.failed
  pub answer : r.all_ok ≡ (r.summary.failed == 0)
  pub rows : length r.steps ≡ min i 20
  pub dry : (opts.execute ≡ true) ⊎ (length r.calls ≡ 0)
  pub planned : (opts.execute ≡ false) ⊎ (r.summary.planned ≡ 0)

module _ (opts : Options) (total i : ℕ) (r : RunResult) (h : Tally opts total i r) where
  over-Tally :
      20 ≤ i
      → Tally opts total
          (suc i)
          (record r { summary = record (r.summary) { skipped = r.summary.skipped + 1 } })
  over-Tally late = record {
    whole = h.whole;
    parts = omega (arith, h.parts);
    calls = h.calls;
    answer = h.answer;
    rows = omega (arith, h.rows);
    dry = h.dry;
    planned = h.planned;
  }

  skip_step-Tally :
      (step : RepairStep) (execution : Execution)
      → suc i ≤ 20
      → Tally opts total (suc i) (skip_step step execution r)
  skip_step-Tally step execution early = record {
    whole = h.whole;
    parts = omega (arith, h.parts);
    calls = h.calls;
    answer = h.answer;
    rows = omega (
      arith,
      h.rows,
      length-append r.steps (report step execution skipped execution.reason ∷ []),
    );
    dry = h.dry;
    planned = h.planned;
  }

  plan_step-Tally :
      (step : RepairStep) (execution : Execution)
      → opts.execute ≡ false
      → suc i ≤ 20
      → Tally opts total (suc i) (plan_step step execution r)
  plan_step-Tally step execution asked early = record {
    whole = h.whole;
    parts = omega (arith, h.parts);
    calls = h.calls;
    answer = h.answer;
    rows = omega (
      arith,
      h.rows,
      length-append r.steps (report step execution planned "use execute=true to run" ∷ []),
    );
    dry = h.dry;
    planned = inl asked;
  }

  executed-Tally :
      (step : RepairStep) (execution : Execution) (spec : Spec) (output : String)
      (failure : Option String)
      → opts.execute ≡ true
      → suc i ≤ 20
      → Tally opts total
          (suc i)
          (executed step execution output failure (record r { calls = r.calls ++ spec ∷ [] }))
  executed-Tally step execution spec output none asked early = record {
    whole = h.whole;
    parts = omega (arith, h.parts);
    calls = omega (arith, h.calls, length-append r.calls (spec ∷ []));
    answer = h.answer;
    rows = omega (arith, h.rows, length-append {0} r.steps);
    dry = inl asked;
    planned = h.planned;
  }
  executed-Tally step execution spec output (some e) asked early = record {
    whole = h.whole;
    parts = omega (arith, h.parts);
    calls = omega (arith, h.calls, length-append r.calls (spec ∷ []));
    answer = ground (arith);
    rows = omega (arith, h.rows, length-append {0} r.steps);
    dry = inl asked;
    planned = h.planned;
  }

module _ (exec : ℕ → Spec → String × Option String) (opts : Options) (total : ℕ) where
  run_step-Tally :
      (i : ℕ) (step : RepairStep) (r : RunResult)
      → Tally opts total i r
      → Tally opts total (suc i) (run_step exec opts i step r)
  unfolding run_step
  run_step-Tally i step r h =
      go (leb max_repair_steps i) (opts.execute) (execution_of opts step).runnable refl refl
    where
      go :
          (over execute runnable : Bool)
          → leb max_repair_steps i ≡ over
          → opts.execute ≡ execute
          → Tally opts total (suc i) (
              if over
              then record r { summary = add_skipped r.summary }
              else if not execute
              then (if runnable
                  then plan_step step (execution_of opts step) r
                  else skip_step step (execution_of opts step) r)
              else if runnable
              then execute_step exec i step (execution_of opts step) r
              else skip_step step (execution_of opts step) r)
      go true execute runnable e k = over-Tally opts total i r h (leb→le 20 i e)
      go false false true e k =
          plan_step-Tally opts total i r h step (execution_of opts step) k (ground (arith, e))
      go false false false e k =
          skip_step-Tally opts total i r h step (execution_of opts step) (ground (arith, e))
      go false true true e k =
          executed-Tally opts total i r h step (execution_of opts step) (split_command step.command)
            (exec i (split_command step.command)).0 (exec i (split_command step.command)).1 k
            (ground (arith, e))
      go false true false e k =
          skip_step-Tally opts total i r h step (execution_of opts step) (ground (arith, e))

  run_from-Tally :
      (i : ℕ) (steps : List RepairStep) (r : RunResult)
      → Tally opts total i r
      → Tally opts total (i + length steps) (run_from exec opts i steps r)
  unfolding run_from
  run_from-Tally i [] r h = subst (λ n. Tally opts total n r) (omega arith) h
  run_from-Tally i (step ∷ steps) r h =
      subst
        (λ n. Tally opts total n (run_from exec opts (suc i) steps (run_step exec opts i step r)))
        (omega arith)
        (run_from-Tally (suc i) steps (run_step exec opts i step r) (run_step-Tally i step r h))

-- Of every run: each step is counted once as planned, skipped, succeeded or failed; as many commands were
-- executed as succeeded or failed; the run is fine exactly when none failed; of n steps
-- min(n, 20) are reported; without `execute` nothing is executed, and with it nothing is only planned.
pub run-Tally :
    (exec : ℕ → Spec → String × Option String) (opts : Options) (steps : List RepairStep)
    → Tally opts (length steps) (length steps) (run exec opts steps)
unfolding run
run-Tally exec opts steps =
    subst (λ n. Tally opts (length steps) n (run exec opts steps)) (omega arith)
      (run_from-Tally exec opts (length steps) 0 steps (empty_result opts (length steps)) (record {
        whole = refl;
        parts = refl;
        calls = refl;
        answer = refl;
        rows = refl;
        dry = inr refl;
        planned = inr refl;
      }))
