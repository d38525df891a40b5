-- ===== src/PerfEval/Loading/Commands.antt =====
-- What llm-perf-eval.py reads off the command of a container, and `build_full_cmd`. `shlex.split` and
-- `shlex.quote` are parameters.
use Prim.Native.Char.{code}
use dev_llmops.Prelude.{
  ℕ, String, Bool, true, false, not, ◌||◌, Option, none, some, List, [], ◌∷◌, if◌then◌else◌,
}
use dev_llmops.Prelude.Text.{text, lstrip, is_empty, is_space, after_prefix}
use dev_llmops.PerfEval.Args.{join_lines}

-- The longest start of a text without white space.
unfoldable pub take_word : String → String
unfolding is_space
take_word String.[] = ""
take_word (String.◌∷◌ c s) =
    let rest = take_word s in if is_space (code c) then "" else String.◌∷◌ c rest

unfoldable pub starts_space : String → Bool
unfolding is_space
starts_space String.[] = false
starts_space (String.◌∷◌ c s) = is_space (code c)

-- What follows a text and white space, where a text starts with them.
unfoldable pub after_spaced : String → String → Option String
unfolding after_prefix starts_space lstrip
after_spaced prefix s = elim (after_prefix prefix s) [
  | none ↦ none
  | some rest ↦ if starts_space rest then some (lstrip rest) else none
]

-- The word of `--name\s+(\S+)` at the start of a text.
unfoldable pub name_here : String → Option String
unfolding after_spaced is_empty take_word
name_here s = elim (after_spaced "--name" s) [
  | none ↦ none
  | some rest ↦ if is_empty rest then none else some (take_word rest)
]

unfoldable pub parse_container_name : String → Option String
unfolding name_here
parse_container_name String.[] = none
parse_container_name (String.◌∷◌ c s) =
    let later = parse_container_name s in
    elim (name_here (String.◌∷◌ c s)) [ none ↦ later | some name ↦ some name ]

unfoldable pub last_or : String → List String → String
last_or d [] = d
last_or d (t ∷ ts) = last_or t ts

unfoldable pub parse_image_name : (String → Option (List String)) → String → Option String
unfolding join_lines last_or
parse_image_name shlex_split container_cmd = elim (shlex_split (join_lines container_cmd)) [
  | none ↦ none
  | some tokens ↦ some (last_or container_cmd tokens)
]

-- `is_word` tells the characters of `\w`.
module _ (is_word : ℕ → Bool) where
  unfoldable pub ends_word : String → Bool
  ends_word String.[] = true
  ends_word (String.◌∷◌ c s) = not (is_word (code c))

  -- (?:bash|sh)\b
  unfoldable pub is_shell : String → Bool
  unfolding after_prefix ends_word
  is_shell s = elim (after_prefix "bash" s) [
    | some rest ↦ ends_word rest
    | none ↦ elim (after_prefix "sh" s) [ none ↦ false | some rest ↦ ends_word rest ]
  ]

  unfoldable pub shell_here : String → Bool
  unfolding after_spaced after_prefix is_shell
  shell_here s = elim (after_spaced "--entrypoint" s) [
    | none ↦ false
    | some rest ↦ elim (after_prefix "/bin/" rest) [
      | none ↦ is_shell rest
      | some path ↦ is_shell path
    ]
  ]

  -- --entrypoint\s+(?:/bin/)?(?:bash|sh)\b somewhere in a text
  unfoldable pub has_entrypoint_shell : String → Bool
  unfolding shell_here
  has_entrypoint_shell String.[] = false
  has_entrypoint_shell (String.◌∷◌ c s) =
      let later = has_entrypoint_shell s in shell_here (String.◌∷◌ c s) || later

  unfoldable pub build_full_cmd : (String → String) → String → String → String
  unfolding has_entrypoint_shell text
  build_full_cmd shlex_quote container_cmd model_cmd =
      if has_entrypoint_shell container_cmd
      then text (container_cmd ∷ " -lc " ∷ shlex_quote model_cmd ∷ [])
      else text (container_cmd ∷ " " ∷ model_cmd ∷ [])
