-- ===== src/Agents/Cli.antt =====
-- internal/adapter and internal/proc: what the dialects of the agents share.
use capd.Prelude.{
  String, Option, none, some, List, [], ◌∷◌, ◌++◌, str_eq, if◌then◌else◌, trim_space, has_prefix,
}
use capd.Protocol.{Value, Members, null, object, text, Attachment}
use capd.Adapter.Turn.{Emission}

pub record Message : Type 0 where
  pub prompt : String
  pub images : List Attachment

pub record Spec : Type 0 where
  pub bin : String
  pub args : List String
  pub cwd : String
  pub env : List String

-- What a translator emits for one line, and the id that it returns.
abbrev pub Translation : Type 0
Translation = List Emission × String

abbrev pub silent : Translation
silent = ([], "")

abbrev pub parsed {ℓ} : {E : Type ℓ} → (String → Option E) → String → Option E
parsed decode line = if has_prefix line "{" then decode line else none

-- A line that is a JSON object; `decode` is json.Unmarshal into the event of the dialect.
unfoldable pub json_line {ℓ} : {E : Type ℓ} → (String → Option E) → String → Option E
unfolding trim_space
json_line decode line = parsed decode (trim_space line)

abbrev pub given : String → List String → List String
given value args = if str_eq value "" then [] else args

-- A flag in front of the path of each image that has one.
unfoldable pub image_args : String → List Attachment → List String
image_args flag [] = []
image_args flag (img ∷ imgs) = given img.path (flag ∷ img.path ∷ []) ++ image_args flag imgs

-- A map of a struct as `any`.
abbrev pub map_value : Option Members → Value
map_value none = null
map_value (some obj) = object obj

-- A json.RawMessage: its text, and what decoding it into `any` gives.
pub record Raw : Type 0 where
  pub source : String
  pub value : Option Value

abbrev pub decoded_or_text : String → Option Value → Value
decoded_or_text source none = text source
decoded_or_text source (some v) = v

unfoldable pub raw_to_any : Raw → Value
raw_to_any raw = if str_eq raw.source "" then null else decoded_or_text raw.source raw.value

-- A block of a message's content that the Claude-compatible dialects read as text.
pub record TextBlock : Type 0 where
  pub type : String
  pub text : String
