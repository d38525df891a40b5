-- ===== src/PerfEval/Values.antt =====
-- The values that LLMOps/Benchmark/llm-perf-eval.py gets from YAML files and from evalscope, and what it
-- uses of them. `F` is the type of floats.
use dev_llmops.Prelude.{
  ℕ, String, Bool, true, false, not, Option, none, some, List, [], ◌∷◌, ◌==◌, if◌then◌else◌,
}
use dev_llmops.Prelude.Text.{is_empty, show}
use dev_llmops.Prelude.Dict.{Dict, get}

-- What follows is done where there is a value.
infixl 1 ◌>>=◌
abbrev pub ◌>>=◌ {ℓ κ} : {A : Type ℓ} {B : Type κ} → Option A → (A → Option B) → Option B
none >>= f = none
some a >>= f = f a

mutual
  pub data Value (F : Type 0) : Type 0 where
    null : Value F
    flag : Bool → Value F
    number : ℕ → Value F
    real : F → Value F
    words : String → Value F
    items : Values F → Value F
    table : Fields F → Value F

  pub data Values (F : Type 0) : Type 0 where
    no_values : Values F
    value : Value F → Values F → Values F

  pub data Fields (F : Type 0) : Type 0 where
    no_fields : Fields F
    field : String → Value F → Fields F → Fields F

-- What the program does with floats, and `ast.literal_eval`, `str` of a value that is no text and no
-- number, and `int`; none where it raises. `of_thousand` divides by 1000.
pub record Floats (F : Type 0) : Type 0 where
  pub of_number : ℕ → F
  pub of_text : String → Option F
  pub of_thousand : F → F
  pub is_zero : F → Bool
  pub equals : F → ℕ → Bool
  pub same : F → F → Bool
  pub literal_eval : String → Option (Value F)
  pub str_of : Value F → String
  pub to_int : Value F → Option ℕ

module _ {F : Type 0} where
  -- A dict, where null is no value.
  unfoldable pub dict_of : Fields F → Dict (Option (Value F))
  dict_of no_fields = []
  dict_of (field k null fs) = (k, none) ∷ dict_of fs
  dict_of (field k v fs) = (k, some v) ∷ dict_of fs

  unfoldable pub list_of : Values F → List (Value F)
  list_of no_values = []
  list_of (value v vs) = v ∷ list_of vs

  unfoldable pub chars_of : String → List (Value F)
  chars_of String.[] = []
  chars_of (String.◌∷◌ c s) = words (String.◌∷◌ c "") ∷ chars_of s

  unfoldable pub keys_of : Fields F → List (Value F)
  keys_of no_fields = []
  keys_of (field k v fs) = words k ∷ keys_of fs

  -- What a `for` over a value gives; none where it raises.
  unfoldable pub elements : Value F → Option (List (Value F))
  unfolding list_of chars_of keys_of
  elements (items vs) = some (list_of vs)
  elements (words s) = some (chars_of s)
  elements (table fs) = some (keys_of fs)
  elements _ = none

  module _ (floats : Floats F) where
    -- v == n, for a number n; True is 1 and False 0.
    unfoldable pub is_number : ℕ → Value F → Bool
    is_number n (number m) = m == n
    is_number n (flag b) = if b then n == 1 else n == 0
    is_number n (real x) = floats.equals x n
    is_number n _ = false

    -- The truth of a value.
    unfoldable pub is_true : Value F → Bool
    unfolding is_empty
    is_true null = false
    is_true (flag b) = b
    is_true (number n) = not (n == 0)
    is_true (real x) = not (floats.is_zero x)
    is_true (words s) = not (is_empty s)
    is_true (items no_values) = false
    is_true (items (value v vs)) = true
    is_true (table no_fields) = false
    is_true (table (field k v fs)) = true

    -- conf.get(key), in a test
    unfoldable pub has_true : String → Dict (Option (Value F)) → Bool
    unfolding get is_true
    has_true key conf = elim (get key conf) [
      | none ↦ false
      | some none ↦ false
      | some (some v) ↦ is_true v
    ]

    -- str(v)
    unfoldable pub str_value : Value F → String
    unfolding show
    str_value (words s) = s
    str_value (number n) = show n
    str_value v = floats.str_of v
