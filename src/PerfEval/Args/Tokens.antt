-- ===== src/PerfEval/Args/Tokens.antt =====
-- Tokens with an `=` in `parse_model_cmd_args` of llm-perf-eval.py.
use Prim.Native.Char.{Char, code}
use dev_llmops.Prelude.{
  ℕ, String, ◌≡◌, refl, sym, true, false, ◌&&◌, none, some, List, [], ◌∷◌, ◌==◌, ==_iff, ◌⊎◌, subst,
  arith, inl, inr, Bool-cases,
}
use dev_llmops.Prelude.Text.{is_empty}
use dev_llmops.Prelude.Dict.{Dict}
use dev_llmops.PerfEval.Args.{
  starts_key, in_key, key_tail, is_key, is_option, split_eq, parse_tokens,
}

is_eq-cases : (c : ℕ) → (in_key c ≡ false) ⊎ ((c == b'=') ≡ false)
unfolding in_key starts_key
is_eq-cases c = elim (Bool-cases (c == b'=')) [
  | inl same ↦ inl (subst (λ d. in_key d ≡ false) (sym ((==_iff c b'=').0 same)) refl)
  | inr other ↦ inr other
]

starts_key-in : (c : ℕ) → starts_key c ≡ true → in_key c ≡ true
unfolding in_key
starts_key-in c h = rw h refl

split-cons :
    (c : Char) (s : String)
    → (code c == b'=') ≡ false
    → split_eq s ≡ none
    → split_eq (String.◌∷◌ c s) ≡ none
unfolding split_eq
split-cons c s h e = rw (h, e) refl

no_eq-after :
    (c : Char) (s : String)
    → in_key (code c) ≡ true
    → split_eq s ≡ none
    → split_eq (String.◌∷◌ c s) ≡ none
no_eq-after c s h e = elim (is_eq-cases (code c)) [
  | inl out ↦ ground arith
  | inr other ↦ split-cons c s other e
]

line_end-no_eq :
    (c : Char) (s : String) → (code c == 10) && is_empty s ≡ true → split_eq (String.◌∷◌ c s) ≡ none
unfolding is_empty split_eq
line_end-no_eq c String.[] h = ground arith
line_end-no_eq c (String.◌∷◌ d s) h = ground arith

key_tail-no_eq : (s : String) → key_tail s ≡ true → split_eq s ≡ none
unfolding key_tail split_eq
key_tail-no_eq String.[] h = refl
key_tail-no_eq (String.◌∷◌ c s) h =
    ground (arith, no_eq-after c s, line_end-no_eq c s, key_tail-no_eq s)

is_key-no_eq : (s : String) → is_key s ≡ true → split_eq s ≡ none
unfolding is_key
is_key-no_eq String.[] h = ground arith
is_key-no_eq (String.◌∷◌ c s) h =
    ground (arith, starts_key-in (code c), key_tail-no_eq s, no_eq-after c s)

is_option-no_eq : (t : String) → is_option t ≡ true → split_eq t ≡ none
unfolding is_option split_eq
is_option-no_eq String.[] h = refl
is_option-no_eq (String.◌∷◌ c String.[]) h = ground arith
is_option-no_eq (String.◌∷◌ c (String.◌∷◌ d s)) h =
    ground (arith, is_key-no_eq s, is_key-no_eq (String.◌∷◌ d s))

not_option : (t k v : String) → split_eq t ≡ some (k, v) → is_option t ≡ false
not_option t k v e = elim (Bool-cases (is_option t)) [
  | inl h ↦ ground (arith, is_option-no_eq t h)
  | inr h ↦ h
]

-- A token with an `=`, in the place of an option, is skipped: the arguments parsed are those of the
-- tokens after it.
pub parse_tokens-skips_eq :
    (t k v : String) (ts : List String) (params : Dict String)
    → split_eq t ≡ some (k, v)
    → parse_tokens (t ∷ ts) params ≡ parse_tokens ts params
unfolding parse_tokens
parse_tokens-skips_eq t k v [] params e = rw (not_option t k v e) refl
parse_tokens-skips_eq t k v (u ∷ ts) params e = rw (not_option t k v e) refl
