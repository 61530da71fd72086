-- ===== src/Repair/Safety.antt =====
-- internal/repairrunner and internal/repairplan: what the repair runner executes.
use Prim.Native.Char.{Char}
use Prim.Native.String.{len, ◌++◌ as append}
use capd.Prelude.{
  ℕ, zero, suc, ◌≤◌, String, Bool, true, false, not, Option, none, some, List, [], ◌∷◌, ◌++◌,
  length, get_elem?, drop, if◌then◌else◌, leb, ltb, str_eq, eq_iff, ◌≡◌, refl, sym, ap, ◌∙◌, arith,
  ◌⊎◌, inl, inr, Bool-cases, All, All-append, trim_left, trim_right, trim_space, cons_trimmed,
  is_space, fields_from, fields, end_field,
}
use capd.Repair.Plan.{
  Execution, RepairStep, Spec, has_placeholder, classify_command, classify, split_command,
  split_words,
}
use capd.Repair.Runner.{
  Options, RunResult, max_repair_steps, execution_of, plan_step, skip_step, executed, execute_step,
  run_step, run_from, run, empty_result, add_skipped,
}

-- The words of a text are those of the text without the spaces around it.
fields-trim_left : (s : String) → fields (trim_left s) ≡ fields s
unfolding trim_left fields_from
fields-trim_left String.[] = refl
fields-trim_left (String.◌∷◌ c s) =
    let rest = fields-trim_left s in
    elim (Bool-cases (is_space c)) [ inl e ↦ rw e rest | inr e ↦ rw e (rw e refl) ]

-- A code point in front of a text without the spaces behind it.
fields_from-cons_trimmed :
    (cur : String) (c : Char) (r s : String)
    → fields r ≡ fields s
    → fields_from (append cur (String.◌∷◌ c "")) r ≡ fields_from (append cur (String.◌∷◌ c "")) s
    → fields_from cur (cons_trimmed c r) ≡ fields_from cur (String.◌∷◌ c s)
unfolding fields_from
fields_from-cons_trimmed cur c String.[] s h k = elim (Bool-cases (is_space c)) [
  | inl e ↦ rw e (ap (end_field cur) h)
  | inr e ↦ rw e (rw e k)
]
fields_from-cons_trimmed cur c (String.◌∷◌ d r) s h k = elim (Bool-cases (is_space c)) [
  | inl e ↦ rw e (ap (end_field cur) h)
  | inr e ↦ rw e k
]

fields_from-trim_right : (cur s : String) → fields_from cur (trim_right s) ≡ fields_from cur s
unfolding trim_right
fields_from-trim_right cur String.[] = refl
fields_from-trim_right cur (String.◌∷◌ c s) =
    fields_from-cons_trimmed cur c (trim_right s) s (fields_from-trim_right "" s)
      (fields_from-trim_right (append cur (String.◌∷◌ c "")) s)

split_command-trim_space : (s : String) → split_command (trim_space s) ≡ split_command s
unfolding split_command trim_space
split_command-trim_space s =
    ap split_words (fields_from-trim_right "" (trim_left s) ∙ fields-trim_left s)

-- A command that may run: short, without a placeholder, and of one of two programs.
pub record SafeCommand (command : String) : Type 0 where
  pub short : len command ≤ 4096
  pub concrete : has_placeholder (trim_space command) ≡ false
  pub program : ((split_command command).bin ≡ "capd") ⊎ ((split_command command).bin ≡ "make")

-- A call is made for a step of the plan.
pub record SafeCall (steps : List RepairStep) (call : Spec) : Type 0 where
  pub place : ℕ
  pub step : RepairStep
  pub stands : get_elem? steps place ≡ some step
  pub early : suc place ≤ 20
  pub splits : call ≡ split_command step.command
  pub safe : SafeCommand step.command

classify_command-runs :
    (id command : String) (include_final : Bool)
    → (classify_command id command include_final).runnable ≡ true
    → (has_placeholder command ≡ false)
      × ((str_eq (split_command command).bin "capd" ≡ true)
          ⊎ (str_eq (split_command command).bin "make" ≡ true))
unfolding classify_command
classify_command-runs id command include_final h = ground (arith, h)

execution_of-SafeCommand :
    (opts : Options) (step : RepairStep)
    → (execution_of opts step).runnable ≡ true
    → SafeCommand step.command
unfolding execution_of classify
execution_of-SafeCommand opts step h =
    let short : ltb 4096 (len step.command) ≡ false = ground (arith, h) in
    let same = split_command-trim_space step.command in
    let (clean, allowed) =
      classify_command-runs step.id (trim_space step.command) opts.include_final
        (ground (arith, h, short)) in
    record {
      short = ground (arith, short);
      concrete = clean;
      program = elim allowed [
        | inl e ↦ inl (ap (λ (spec : Spec). spec.bin) (sym same) ∙ (eq_iff _ _).0 e)
        | inr e ↦ inr (ap (λ (spec : Spec). spec.bin) (sym same) ∙ (eq_iff _ _).0 e)
      ];
    }

drop_head :
    {A : Type 0} (i : ℕ) (xs rest : List A) (x : A)
    → drop i xs ≡ x ∷ rest
    → (get_elem? xs i ≡ some x) × (drop (suc i) xs ≡ rest)
drop_head zero [] rest x h = absurd (ground (arith, h))
drop_head zero (y ∷ xs) rest x h = ground (arith, h)
drop_head (suc i) [] rest x h = absurd (ground (arith, h))
drop_head (suc i) (y ∷ xs) rest x h = drop_head i xs rest x h

abbrev SafeCalls : List RepairStep → RunResult → Type 0
SafeCalls all r = All (SafeCall all) r.calls

module _ (exec : ℕ → Spec → String × Option String) (opts : Options) (all : List RepairStep) where
  executed-SafeCalls :
      (step : RepairStep) (execution : Execution) (spec : Spec) (output : String)
      (failure : Option String) (r : RunResult)
      → SafeCalls all r
      → SafeCall all spec
      → SafeCalls all
          (executed step execution output failure (record r { calls = r.calls ++ spec ∷ [] }))
  executed-SafeCalls step execution spec output none r h k =
      All-append (SafeCall all) r.calls (spec ∷ []) h (k, tt)
  executed-SafeCalls step execution spec output (some e) r h k =
      All-append (SafeCall all) r.calls (spec ∷ []) h (k, tt)

  run_step-SafeCalls :
      (i : ℕ) (step : RepairStep) (r : RunResult)
      → get_elem? all i ≡ some step
      → SafeCalls all r
      → SafeCalls all (run_step exec opts i step r)
  unfolding run_step
  run_step-SafeCalls i step r found h =
      go (leb max_repair_steps i) (opts.execute) (execution_of opts step).runnable refl refl
    where
      go :
          (over execute runnable : Bool)
          → leb max_repair_steps i ≡ over
          → (execution_of opts step).runnable ≡ runnable
          → SafeCalls all (
              if over
              then record r { summary = add_skipped r.summary }
              else if not execute
              then (if runnable
                  then plan_step step (execution_of opts step) r
                  else skip_step step (execution_of opts step) r)
              else if runnable
              then execute_step exec i step (execution_of opts step) r
              else skip_step step (execution_of opts step) r)
      go true execute runnable e k = h
      go false false true e k = h
      go false false false e k = h
      go false true true e k =
          executed-SafeCalls step (execution_of opts step) (split_command step.command)
            (exec i (split_command step.command)).0 (exec i (split_command step.command)).1 r h
            (record {
              place = i;
              step = step;
              stands = found;
              early = ground (arith, e);
              splits = refl;
              safe = execution_of-SafeCommand opts step k;
            })
      go false true false e k = h

  run_from-SafeCalls :
      (i : ℕ) (steps : List RepairStep) (r : RunResult)
      → drop i all ≡ steps
      → SafeCalls all r
      → SafeCalls all (run_from exec opts i steps r)
  unfolding run_from
  run_from-SafeCalls i [] r at_end h = h
  run_from-SafeCalls i (step ∷ steps) r here h =
      let (found, later) = drop_head i all steps step here in
      run_from-SafeCalls (suc i) steps (run_step exec opts i step r) later
        (run_step-SafeCalls i step r found h)

-- Every command that a run executes is that of one of the first twenty steps, of at most 4096 bytes,
-- without a placeholder, and its program is `capd` or `make`.
pub run-SafeCall :
    (exec : ℕ → Spec → String × Option String) (opts : Options) (steps : List RepairStep)
    → All (SafeCall steps) (run exec opts steps).calls
unfolding run
run-SafeCall exec opts steps =
    run_from-SafeCalls exec opts steps 0 steps (empty_result opts (length steps)) refl tt
