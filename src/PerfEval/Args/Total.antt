-- ===== src/PerfEval/Args/Total.antt =====
-- The commands of llm-perf-eval.py where `shlex.split` never raises.
use dev_llmops.Prelude.{
  String, ◌≡◌, refl, Bool, true, false, Option, none, some, List, [], ◌∷◌, if◌then◌else◌,
}
use dev_llmops.Prelude.Text.{is_empty, strip}
use dev_llmops.Prelude.Dict.{Dict}
use dev_llmops.PerfEval.Args.{
  Args, apply_override, apply_overrides, apply_override_args, parse_model_cmd_args,
  cmds_are_equivalent, deletion, join_lines, print_args, read_args, parse_tokens, same_dict,
  delete_arg, lstrip_dash, set_arg, second,
}

abbrev pub IsTotal : (String → Option (List String)) → Type 0
IsTotal shlex_split = (s : String) → (tokens : List String) × (shlex_split s ≡ some tokens)

module _ (shlex_split : String → Option (List String)) (total : IsTotal shlex_split) where
  pub parse_model_cmd_args-total :
      (cmd : String) → (d : Dict String) × (parse_model_cmd_args shlex_split cmd ≡ some d)
  unfolding parse_model_cmd_args
  parse_model_cmd_args-total cmd =
      let (tokens, split) = total (join_lines cmd) in
      (parse_tokens tokens [], rw (split, parse_model_cmd_args) refl)

  pub cmds_are_equivalent-total :
      (c1 c2 : String) → (b : Bool) × (cmds_are_equivalent shlex_split c1 c2 ≡ some b)
  unfolding cmds_are_equivalent
  cmds_are_equivalent-total c1 c2 =
      let (d, left) = parse_model_cmd_args-total c1 in
      let (e, right) = parse_model_cmd_args-total c2 in
      (same_dict d e, rw (left, right, cmds_are_equivalent) refl)

  apply_override-total :
      (o : String) (a : Args) → (a' : Args) × (apply_override shlex_split o a ≡ some a')
  unfolding apply_override
  apply_override-total o a = go (deletion o) (shlex_split o) (total o)
    where
      go :
          (key : Option String) (split : Option (List String))
          → ((tokens : List String) × (split ≡ some tokens))
          → (a' : Args) × ((elim key [
            | some key_part ↦ some (delete_arg (lstrip_dash (strip key_part)) a)
            | none ↦ elim split [
              | none ↦ none
              | some [] ↦ some a
              | some (key_tok ∷ rest) ↦ some (set_arg key_tok (second rest) a)
            ]
          ])
              ≡ some a')
      go (some k) s t = (_, refl)
      go none none (tokens, e) = absurd (cc)
      go none (some []) t = (_, refl)
      go none (some (k ∷ rest)) t = (_, refl)

  apply_overrides-total :
      (os : List String) (a : Args) → (a' : Args) × (apply_overrides shlex_split os a ≡ some a')
  unfolding apply_overrides
  apply_overrides-total [] a = (a, refl)
  apply_overrides-total (o ∷ os) a =
      let (b, one) = apply_override-total (strip o) a in
      go (is_empty (strip o)) _ one (apply_overrides-total os a) (apply_overrides-total os b)
    where
      go :
          (empty : Bool) (first : Option Args) {b : Args}
          → first ≡ some b
          → ((a' : Args) × (apply_overrides shlex_split os a ≡ some a'))
          → ((a' : Args) × (apply_overrides shlex_split os b ≡ some a'))
          → (a' : Args) × ((if empty
                then apply_overrides shlex_split os a
                else elim first [ none ↦ none | some b ↦ apply_overrides shlex_split os b ])
              ≡ some a')
      go true first e skipped applied = skipped
      go false first e skipped (a', q) = (a', rw e q)

  pub apply_override_args-total :
      (cmd : String) (os : List String)
      → (cmd' : String) × (apply_override_args shlex_split cmd os ≡ some cmd')
  unfolding apply_override_args
  apply_override_args-total cmd [] = (cmd, refl)
  apply_override_args-total cmd (o ∷ os) =
      let (tokens, split) = total (join_lines cmd) in
      let (a, applied) =
        apply_overrides-total (o ∷ os)
          (read_args tokens record { prefix = []; args = []; key_map = [] }) in
      (print_args a, rw (split, applied, apply_override_args) refl)
