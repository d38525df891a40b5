-- ===== src/Dashboard/Json.antt =====
-- JSON values, and the renaming of template variables inside them: `rewrite_variable_refs` and
-- `rewrite_in_place` of merge-dashboards.py.
use Prim.Native.Char.{code}
use Prim.Native.String
use dev_llmops.Prelude.{
  ℕ, zero, suc, ◌-◌, String, Bool, true, false, not, ◌&&◌, ◌||◌, none, some, [], ◌∷◌, leb, ◌==◌,
  if◌then◌else◌,
}
use dev_llmops.Prelude.Text.{text, after_prefix}
use dev_llmops.Prelude.Dict.{Dict}

unfoldable pub is_word : ℕ → Bool
is_word c =
    (leb b'A' c && leb c b'Z')
    || (leb b'a' c && leb c b'z')
    || (leb b'0' c && leb c b'9')
    || c == b'_'

-- (?![A-Za-z0-9_])
unfoldable pub at_boundary : String → Bool
unfolding is_word
at_boundary String.[] = true
at_boundary (String.◌∷◌ c s) = not (is_word (code c))

unfoldable pub text_length : String → ℕ
text_length String.[] = 0
text_length (String.◌∷◌ c s) = suc (text_length s)

-- re.sub of a fixed text by another from left to right; `skip` characters belong to a match. With
-- `bounded`, the match must end at a boundary.
unfoldable pub substitute : Bool → String → String → ℕ → String → String
unfolding after_prefix at_boundary text_length
substitute bounded old new skip String.[] = ""
substitute bounded old new (suc skip) (String.◌∷◌ c s) = substitute bounded old new skip s
substitute bounded old new zero (String.◌∷◌ c s) =
    let kept = String.◌∷◌ c (substitute bounded old new 0 s) in
    let replaced = String.◌++◌ new (substitute bounded old new (text_length old - 1) s) in
    elim (after_prefix old (String.◌∷◌ c s)) [
      | none ↦ kept
      | some rest ↦ if not bounded || at_boundary rest then replaced else kept
    ]

-- Both substitutions for each name, in the order of the dict.
unfoldable pub rewrite_variable_refs : Dict String → String → String
unfolding text substitute
rewrite_variable_refs [] out = out
rewrite_variable_refs ((old, new) ∷ rename_map) out = rewrite_variable_refs rename_map (
    substitute true (text ("$" ∷ old ∷ [])) (text ("$" ∷ new ∷ [])) 0
      (substitute false (text ("${" ∷ old ∷ "}" ∷ [])) (text ("${" ∷ new ∷ "}" ∷ [])) 0 out))

mutual
  -- A value that is no text, list or dict is `atom`.
  pub data Json : Type 0 where
    atom : Json
    str : String → Json
    arr : Items → Json
    obj : Fields → Json

  pub data Items : Type 0 where
    nil : Items
    cons : Json → Items → Items

  pub data Fields : Type 0 where
    end : Fields
    field : String → Json → Fields → Fields

unfoldable mutual
  unfolding rewrite_variable_refs

  -- The texts inside a value, with the names rewritten; keys stay.
  pub rewrite_json : Dict String → Json → Json
  rewrite_json m atom = atom
  rewrite_json m (str s) = str (rewrite_variable_refs m s)
  rewrite_json m (arr xs) = arr (rewrite_items m xs)
  rewrite_json m (obj fs) = obj (rewrite_fields m fs)

  pub rewrite_items : Dict String → Items → Items
  rewrite_items m nil = nil
  rewrite_items m (cons x xs) = cons (rewrite_json m x) (rewrite_items m xs)

  pub rewrite_fields : Dict String → Fields → Fields
  rewrite_fields m end = end
  rewrite_fields m (field k v fs) = field k (rewrite_json m v) (rewrite_fields m fs)

-- `rewrite_in_place(obj, rename_map)` changes what lies inside a list or a dict, not a text itself.
unfoldable pub rewrite_in_place : Dict String → Json → Json
unfolding rewrite_json
rewrite_in_place m (str s) = str s
rewrite_in_place m (arr xs) = rewrite_json m (arr xs)
rewrite_in_place m (obj fs) = rewrite_json m (obj fs)
rewrite_in_place m atom = atom
