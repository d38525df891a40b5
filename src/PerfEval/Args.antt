-- ===== src/PerfEval/Args.antt =====
-- The arguments of a model's start command in llm-perf-eval.py: `parse_model_cmd_args`,
-- `apply_override_args`, `_cmds_are_equivalent` and `collect_all_param_keys`. `shlex.split` is a
-- parameter: it gives the tokens, or none where it raises.
pub mod Tokens
mod Settings
mod Kept
pub mod Override
pub mod Total
use Prim.Native.Char.{code}
use Prim.Native.String
use dev_llmops.Prelude.{
  ℕ, zero, suc, String, Bool, true, false, not, ◌&&◌, ◌||◌, Option, none, some, List, [], ◌∷◌, ◌++◌,
  leb, ◌==◌, if◌then◌else◌, length, set,
}
use dev_llmops.Prelude.Text.{text, join, is_empty, strip}
use dev_llmops.Prelude.Dict.{Dict, get, put, remove, str_eq}

-- s.replace("\\\n", " ")
unfoldable pub join_lines : String → String
join_lines String.[] = ""
join_lines (String.◌∷◌ c String.[]) = String.◌∷◌ c ""
join_lines (String.◌∷◌ c (String.◌∷◌ d s)) =
    let joined = String.◌++◌ " " (join_lines s) in
    let rest = String.◌∷◌ c (join_lines (String.◌∷◌ d s)) in
    if code c == b'\\' && code d == 10 then joined else rest

-- [A-Za-z_]
unfoldable pub starts_key : ℕ → Bool
starts_key c = (leb b'A' c && leb c b'Z') || (leb b'a' c && leb c b'z') || c == b'_'

-- [A-Za-z0-9_.-]
unfoldable pub in_key : ℕ → Bool
unfolding starts_key
in_key c = starts_key c || (leb b'0' c && leb c b'9') || c == b'.' || c == b'-'

-- [A-Za-z0-9_.-]*$ , where `$` also matches before a last line end
unfoldable pub key_tail : String → Bool
unfolding in_key
key_tail String.[] = true
key_tail (String.◌∷◌ c s) = (in_key (code c) && key_tail s) || (code c == 10 && is_empty s)

-- [A-Za-z_][A-Za-z0-9_.-]*$
unfoldable pub is_key : String → Bool
unfolding starts_key key_tail
is_key String.[] = false
is_key (String.◌∷◌ c s) = starts_key (code c) && key_tail s

-- The regular expression of `_is_option_token`: one dash or two, and a key.
unfoldable pub is_option : String → Bool
unfolding is_key
is_option String.[] = false
is_option (String.◌∷◌ c String.[]) = false
is_option (String.◌∷◌ c (String.◌∷◌ d s)) =
    code c == b'-' && (is_key (String.◌∷◌ d s) || (code d == b'-' && is_key s))

-- tok.lstrip("-")
unfoldable pub lstrip_dash : String → String
lstrip_dash String.[] = ""
lstrip_dash (String.◌∷◌ c s) =
    let rest = lstrip_dash s in if code c == b'-' then rest else String.◌∷◌ c s

-- token.split("=", 1): the parts around the first `=`, where there is one
unfoldable pub split_eq : String → Option (String × String)
split_eq String.[] = none
split_eq (String.◌∷◌ c s) =
    let rest = split_eq s in
    if code c == b'='
    then some ("", s)
    else elim rest [ none ↦ none | some (k, v) ↦ some (String.◌∷◌ c k, v) ]

-- The loop of `parse_model_cmd_args` over the tokens.
unfoldable pub parse_tokens : List String → Dict String → Dict String
unfolding is_option lstrip_dash split_eq put
parse_tokens [] params = params
parse_tokens (t ∷ []) params = if not (is_option t) then params else elim (split_eq t) [
  | some (k, v) ↦ put (lstrip_dash k) v params
  | none ↦ put (lstrip_dash t) "true" params
]
parse_tokens (t ∷ u ∷ ts) params =
    let skipped = parse_tokens (u ∷ ts) params in
    let flag = parse_tokens (u ∷ ts) (put (lstrip_dash t) "true" params) in
    let valued = parse_tokens ts (put (lstrip_dash t) u params) in
    if not (is_option t) then skipped else elim (split_eq t) [
      | some (k, v) ↦ parse_tokens (u ∷ ts) (put (lstrip_dash k) v params)
      | none ↦ if not (is_option u) then valued else flag
    ]

-- An argument of the command: its option with the dashes, and its value.
abbrev pub Arg : Type 0
Arg = String × Option String

-- `prefix`, `args` with None where one is deleted, and `args_key_map`.
pub record Args : Type 0 where
  pub prefix : List String
  pub args : List (Option Arg)
  pub key_map : Dict ℕ

-- args.append(arg); args_key_map[key_name] = len(args) - 1
unfoldable pub append_arg : String → Arg → Args → Args
unfolding put
append_arg key_name arg a = record a {
  args = a.args ++ some arg ∷ [];
  key_map = put key_name (length a.args) a.key_map;
}

-- The loop of `apply_override_args` over the command's tokens.
unfoldable pub read_args : List String → Args → Args
unfolding is_option lstrip_dash append_arg
read_args [] a = a
read_args (t ∷ []) a =
    if is_option t
    then append_arg (lstrip_dash t) (t, none) a
    else record a { prefix = a.prefix ++ t ∷ [] }
read_args (t ∷ u ∷ ts) a =
    let valued = read_args ts (append_arg (lstrip_dash t) (t, some u) a) in
    let flag = read_args (u ∷ ts) (append_arg (lstrip_dash t) (t, none) a) in
    let other = read_args (u ∷ ts) (record a { prefix = a.prefix ++ t ∷ [] }) in
    if not (is_option t) then other else if not (is_option u) then valued else flag

-- `override.startswith("!")`: what follows the mark.
unfoldable pub deletion : String → Option String
deletion String.[] = none
deletion (String.◌∷◌ c s) = if code c == b'!' then some s else none

-- A key that is missing only logs a warning.
unfoldable pub delete_arg : String → Args → Args
unfolding get remove
delete_arg key_name a = elim (get key_name a.key_map) [
  | none ↦ a
  | some idx ↦ record a { args = set a.args idx none; key_map = remove key_name a.key_map }
]

-- override_tokens[1] if len(override_tokens) > 1 else None
unfoldable pub second : List String → Option String
second [] = none
second (v ∷ rest) = some v

unfoldable pub set_arg : String → Option String → Args → Args
unfolding get lstrip_dash append_arg
set_arg key_tok value a = elim (get (lstrip_dash key_tok) a.key_map) [
  | none ↦ append_arg (lstrip_dash key_tok) (key_tok, value) a
  | some idx ↦ record a { args = set a.args idx (some (key_tok, value)) }
]

unfoldable pub parts_of : List (Option Arg) → List String
parts_of [] = []
parts_of (none ∷ args) = parts_of args
parts_of (some (key, none) ∷ args) = key ∷ parts_of args
parts_of (some (key, some value) ∷ args) = key ∷ value ∷ parts_of args

-- ' '.join(parts)
unfoldable pub print_args : Args → String
unfolding parts_of join
print_args a = join " " (a.prefix ++ parts_of a.args)

module _ (shlex_split : String → Option (List String)) where
  unfoldable pub parse_model_cmd_args : String → Option (Dict String)
  unfolding join_lines parse_tokens
  parse_model_cmd_args cmd_str = elim (shlex_split (join_lines cmd_str)) [
    | none ↦ none
    | some tokens ↦ some (parse_tokens tokens [])
  ]

  -- One override, stripped and not empty.
  unfoldable pub apply_override : String → Args → Option Args
  unfolding deletion strip lstrip_dash delete_arg second set_arg
  apply_override override a = elim (deletion override) [
    | some key_part ↦ some (delete_arg (lstrip_dash (strip key_part)) a)
    | none ↦ elim (shlex_split override) [
      | none ↦ none
      | some [] ↦ some a
      | some (key_tok ∷ rest) ↦ some (set_arg key_tok (second rest) a)
    ]
  ]

  unfoldable pub apply_overrides : List String → Args → Option Args
  unfolding apply_override strip is_empty
  apply_overrides [] a = some a
  apply_overrides (o ∷ os) a =
      let skipped = apply_overrides os a in
      if is_empty (strip o)
      then skipped
      else elim (apply_override (strip o) a) [ none ↦ none | some a' ↦ apply_overrides os a' ]

  unfoldable pub apply_override_args : String → List String → Option String
  unfolding join_lines read_args apply_overrides print_args
  apply_override_args model_cmd [] = some model_cmd
  apply_override_args model_cmd (o ∷ os) = elim (shlex_split (join_lines model_cmd)) [
    | none ↦ none
    | some tokens ↦
        elim (apply_overrides (o ∷ os)
          (read_args tokens record { prefix = []; args = []; key_map = [] })) [
            | none ↦ none
            | some a ↦ some (print_args a)
          ]
  ]

-- d1 == d2, for dicts of texts: as many keys, and each with its value in the other.
unfoldable pub within : Dict String → Dict String → Bool
unfolding get
within [] d = true
within ((k, v) ∷ e) d = elim (get k d) [ none ↦ false | some w ↦ str_eq v w && within e d ]

unfoldable pub same_dict : Dict String → Dict String → Bool
unfolding within
same_dict d e = length d == length e && within d e

unfoldable pub cmds_are_equivalent : (String → Option (List String)) → String → String → Option Bool
unfolding parse_model_cmd_args same_dict
cmds_are_equivalent shlex_split cmd1 cmd2 = elim (parse_model_cmd_args shlex_split cmd1) [
  | none ↦ none
  | some d ↦ elim (parse_model_cmd_args shlex_split cmd2) [
    | none ↦ none
    | some e ↦ some (same_dict d e)
  ]
]

unfoldable pub str_mem : String → List String → Bool
str_mem k [] = false
str_mem k (j ∷ js) = str_eq j k || str_mem k js

-- The keys of one command, after those collected: `keys` holds those of `seen`.
unfoldable pub collect_keys : List String → Dict String → List String → List String
unfolding str_mem
collect_keys exclude [] keys = keys
collect_keys exclude ((k, v) ∷ params) keys =
    collect_keys exclude params
      (if not (str_mem k keys) && not (str_mem k exclude) then keys ++ k ∷ [] else keys)

unfoldable pub collect_from : List String → List (Dict String) → List String → List String
unfolding collect_keys
collect_from exclude [] keys = keys
collect_from exclude (params ∷ rest) keys =
    collect_from exclude rest (collect_keys exclude params keys)

unfoldable pub collect_all_param_keys : List (Dict String) → List String → List String
unfolding collect_from
collect_all_param_keys commands_params exclude = collect_from exclude commands_params []
