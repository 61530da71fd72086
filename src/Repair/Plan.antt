-- ===== src/Repair/Plan.antt =====
-- internal/repairplan/repairplan.go: which steps the repair runner may execute by itself.
use capd.Prelude.{
  String, Bool, true, false, not, ◌&&◌, ◌||◌, Option, some, List, [], ◌∷◌, map, str_eq,
  if◌then◌else◌, trim_space, has_prefix, contains, fields, fields_from,
}

pub record Execution : Type 0 where
  pub runnable : Bool
  pub reason : String

pub record RepairStep : Type 0 where
  pub id : String
  pub title : String
  pub command : String
  pub expected_evidence : String
  pub requires_daemon : Bool
  pub requires_secret : Bool
  pub is_optional : Bool
  pub execution : Option Execution

-- The environment, the binary and its arguments of a command.
pub record Spec : Type 0 where
  pub env : List String
  pub bin : String
  pub args : List String

abbrev pub is_override : String → Bool
is_override word = contains word "=" && not (has_prefix word "-")

abbrev pub with_env : String → Spec → Spec
with_env word spec = record spec { env = word ∷ spec.env }

unfoldable pub split_words : List String → Spec
unfolding contains
split_words [] = record { env = []; bin = ""; args = [] }
split_words (word ∷ words) =
    let rest = with_env word (split_words words) in
    if is_override word then rest else record { env = []; bin = word; args = words }

unfoldable pub split_command : String → Spec
unfolding split_words fields_from
split_command command = split_words (fields command)

abbrev refusal : String → Execution
refusal reason = record { runnable = false; reason = reason }

unfoldable pub has_placeholder : String → Bool
unfolding contains
has_placeholder command =
    contains command "/path/" || (contains command "<" || contains command "...")

-- Classify on the trimmed command.
unfoldable pub classify_command : String → String → Bool → Execution
unfolding has_placeholder split_command
classify_command id command include_final =
    if str_eq command ""
    then refusal "empty command"
    else if has_placeholder command
    then refusal "command contains placeholders"
    else if has_prefix command "capd start"
    then refusal "starts a foreground daemon; run manually in another terminal"
    else if has_prefix command "export "
    then refusal "changes shell environment; run manually in your shell"
    else if not (str_eq (split_command command).bin "capd")
        && not (str_eq (split_command command).bin "make")
    then refusal "command is outside the repair runner allowlist"
    else if str_eq id "final-live-preflight" && not include_final
    then refusal "final live preflight requires --include-final"
    else record { runnable = true; reason = "safe repair runner allowlist" }

unfoldable pub classify : RepairStep → Bool → Execution
unfolding trim_space classify_command
classify step include_final = classify_command step.id (trim_space step.command) include_final

abbrev pub annotated : Bool → RepairStep → RepairStep
annotated include_final step = record step { execution = some (classify step include_final) }

unfoldable pub annotate : Bool → List RepairStep → List RepairStep
annotate include_final steps = map (annotated include_final) steps
