-- ===== src/PerfEval/Loading/Engines.antt =====
-- `load_model_config` of LLMOps/Benchmark/llm-perf-eval.py. None is for the errors.
use dev_llmops.Prelude.{
  ℕ, suc, String, Bool, true, false, not, ◌||◌, Option, none, some, List, [], ◌∷◌, ◌++◌,
  if◌then◌else◌,
}
use dev_llmops.Prelude.Text.{text, strip, show}
use dev_llmops.Prelude.Dict.{get, str_eq}
use dev_llmops.PerfEval.Config.{apply_defaults}
use dev_llmops.PerfEval.Values.{
  ◌>>=◌, Value, null, flag, number, real, words, items, table, Floats, dict_of, elements, list_of,
  is_number, is_true,
}
use dev_llmops.PerfEval.Loading.Commands.{parse_container_name, parse_image_name}
use dev_llmops.PerfEval.Loading.{Conf, get_value}

-- The fields of an engine that the modes use.
pub record EngineConfig (F : Type 0) : Type 0 where
  pub engine_name : Option (Value F)
  pub container_cmd : String
  pub stop_cmd : String
  pub commands : List String
  pub container_name : Option String
  pub image_name : String
  pub exclude_params : List (Value F)
  pub ssh_cmd : Option String

module _ {F : Type 0} (floats : Floats F) (shlex_split : String → Option (List String)) where
  unfoldable pub model_defaults : Conf F
  model_defaults =
      ("stop_cmd", some (words "docker stop model-server && docker rm -f model-server")) ∷ []

  -- v.strip(), for a text
  unfoldable pub strip_value : Option (Value F) → Option String
  unfolding strip
  strip_value (some (words s)) = some (strip s)
  strip_value _ = none

  -- A value that is there and true.
  unfoldable pub required : Option (Value F) → Option (Value F)
  unfolding is_true
  required none = none
  required (some v) = if is_true floats v then some v else none

  -- item["cmd"].strip() for each command
  unfoldable pub load_commands : List (Value F) → Option (List String)
  unfolding get_value dict_of strip_value
  load_commands [] = some []
  load_commands (table fs ∷ vs) = do
    cmd ← strip_value (get_value "cmd" (dict_of fs))
    rest ← load_commands vs
    some (cmd ∷ rest)
  load_commands (v ∷ vs) = none

  -- Equality of two keys.
  unfoldable pub same_key : Value F → Value F → Bool
  unfolding is_number
  same_key null null = true
  same_key (words s) (words t) = str_eq s t
  same_key (number n) v = is_number floats n v
  same_key (flag b) v = is_number floats (if b then 1 else 0) v
  same_key (real x) (number n) = floats.equals x n
  same_key (real x) (flag b) = floats.equals x (if b then 1 else 0)
  same_key (real x) (real y) = floats.same x y
  same_key _ _ = false

  unfoldable pub is_key : Value F → Bool
  is_key (items vs) = false
  is_key (table fs) = false
  is_key _ = true

  unfoldable pub key_in : Value F → List (Value F) → Bool
  unfolding same_key
  key_in v [] = false
  key_in v (w ∷ ws) = same_key w v || key_in v ws

  -- list(dict.fromkeys(values)), after the keys `seen`
  unfoldable pub unique_keys : List (Value F) → List (Value F) → Option (List (Value F))
  unfolding is_key key_in
  unique_keys seen [] = some []
  unique_keys seen (v ∷ vs) =
      let skipped = unique_keys seen vs in
      let kept = unique_keys (v ∷ seen) vs in
      if not (is_key v)
      then none
      else if key_in v seen
      then skipped
      else elim kept [ none ↦ none | some rest ↦ some (v ∷ rest) ]

  -- conf.get("exclude_params", []), which has to be a list.
  unfoldable pub list_value : Option (Option (Value F)) → Option (List (Value F))
  unfolding list_of
  list_value none = some []
  list_value (some (some (items vs))) = some (list_of vs)
  list_value _ = none

  -- eng.get("exclude_params") or []
  unfoldable pub list_or_empty : Option (Value F) → Option (List (Value F))
  unfolding required list_of
  list_or_empty v = elim (required v) [
    | none ↦ some []
    | some (items vs) ↦ some (list_of vs)
    | some _ ↦ none
  ]

  -- ssh_cmd.strip() if ssh_cmd else None; `some none` is None.
  unfoldable pub load_ssh : Option (Value F) → Option (Option String)
  unfolding required strip_value
  load_ssh v = elim (required v) [
    | none ↦ some none
    | some cmd ↦ elim (strip_value (some cmd)) [ none ↦ none | some s ↦ some (some s) ]
  ]

  -- eng.get("engine", f"engine-{idx}")
  unfoldable pub name_of : ℕ → Conf F → Option (Value F)
  unfolding get text show
  name_of idx eng = elim (get "engine" eng) [
    | none ↦ some (words (text ("engine-" ∷ show idx ∷ [])))
    | some v ↦ v
  ]

  -- eng.get("ssh_cmd", top_level_ssh)
  unfoldable pub ssh_of : Option (Value F) → Conf F → Option (Value F)
  unfolding get
  ssh_of top_level_ssh eng = elim (get "ssh_cmd" eng) [ none ↦ top_level_ssh | some v ↦ v ]

  -- The body of the loop over the engines, for one that is a dict.
  unfoldable pub load_engine :
      Option (Value F) → Option (Option (Value F)) → ℕ → Conf F → Option (EngineConfig F)
  unfolding apply_defaults model_defaults get_value required strip_value load_commands
      parse_container_name parse_image_name list_value list_or_empty unique_keys load_ssh name_of
      ssh_of
  load_engine top_level_ssh top_level_exclude idx raw = do
    let eng = apply_defaults raw model_defaults
    container ← required (get_value "container_cmd" eng)
    listed ← required (get_value "commands" eng)
    container_cmd ← strip_value (some container)
    stop_cmd ← strip_value (get_value "stop_cmd" eng)
    values ← elements listed
    commands ← load_commands values
    image_name ← parse_image_name shlex_split container_cmd
    top ← list_value top_level_exclude
    own ← list_or_empty (get_value "exclude_params" eng)
    exclude_params ← unique_keys [] (top ++ own)
    ssh_cmd ← load_ssh (ssh_of top_level_ssh eng)
    some (record {
      engine_name = name_of idx eng;
      container_cmd = container_cmd;
      stop_cmd = stop_cmd;
      commands = commands;
      container_name = parse_container_name container_cmd;
      image_name = image_name;
      exclude_params = exclude_params;
      ssh_cmd = ssh_cmd;
    })

  -- The engines from the index `idx` on.
  unfoldable pub load_engines :
      Option (Value F)
      → Option (Option (Value F))
      → ℕ
      → List (Value F)
      → Option (List (EngineConfig F))
  unfolding load_engine dict_of
  load_engines top_level_ssh top_level_exclude idx [] = some []
  load_engines top_level_ssh top_level_exclude idx (table fs ∷ vs) = do
    engine ← load_engine top_level_ssh top_level_exclude idx (dict_of fs)
    rest ← load_engines top_level_ssh top_level_exclude (suc idx) vs
    some (engine ∷ rest)
  load_engines top_level_ssh top_level_exclude idx (v ∷ vs) = none

  unfoldable pub load_model_config : Conf F → Option (List (EngineConfig F))
  unfolding get_value get load_engines list_of
  load_model_config conf = elim (get_value "engines" conf) [
    | some (items vs) ↦ elim (list_of vs) [
      | [] ↦ none
      | v ∷ rest ↦ load_engines (get_value "ssh_cmd" conf) (get "exclude_params" conf) 1 (v ∷ rest)
    ]
    | _ ↦ none
  ]
