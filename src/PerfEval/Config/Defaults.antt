-- ===== src/PerfEval/Config/Defaults.antt =====
-- What `_apply_defaults` of llm-perf-eval.py makes of a configuration.
use dev_llmops.Prelude.{
  String, ◌≡◌, refl, ◌∙◌, Option, none, some, [], ◌∷◌, if◌then◌else◌, arith, inl, inr, Bool-cases,
}
use dev_llmops.Prelude.Dict.{Dict, get, put, str_eq, eq_iff, get-put}
use dev_llmops.PerfEval.Config.{is_unset, apply_defaults}

module _ {V : Type 0} where
  -- What `get` finds: nothing, null or a value; the default where it is not a value.
  abbrev pub or_default : Option (Option V) → Option (Option V) → Option (Option V)
  or_default (some (some v)) d = some (some v)
  or_default x none = x
  or_default x (some d) = some d

  -- The first default of the name that is a value, or the last null.
  abbrev pub default_of : String → Dict (Option V) → Option (Option V) → Option (Option V)
  default_of k [] found = found
  default_of k ((j, v) ∷ defaults) found =
      let same = default_of k defaults (or_default found (some v)) in
      let rest = default_of k defaults found in if str_eq j k then same else rest

  one_default :
      (j k : String) (v : Option V) (conf : Dict (Option V))
      → get k (if is_unset (get j conf) then put j v conf else conf)
        ≡ (if str_eq j k then or_default (get k conf) (some v) else get k conf)
  unfolding is_unset
  one_default j k v conf = ground (arith, eq_iff j k, get-put j k v conf)

  -- After the defaults, each key has its value where the configuration had one, and else the first
  -- default of the key that is not null, where there is one; an unset key whose defaults are all null
  -- is null, and a key without a default stays as it was.
  pub get-apply_defaults :
      (k : String) (conf defaults : Dict (Option V))
      → get k (apply_defaults conf defaults) ≡ default_of k defaults (get k conf)
  unfolding apply_defaults
  get-apply_defaults k conf [] = refl
  get-apply_defaults k conf ((j, v) ∷ defaults) =
      get-apply_defaults k (if is_unset (get j conf) then put j v conf else conf) defaults
      ∙ elim (Bool-cases (str_eq j k)) [
        | inl same ↦ rw (same, one_default j k v conf, same) refl
        | inr other ↦ rw (other, one_default j k v conf, other) refl
      ]
