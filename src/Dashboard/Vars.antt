-- ===== src/Dashboard/Vars.antt =====
-- The template variables of merge-dashboards.py: namespacing and merging.
pub mod Merged
use dev_llmops.Prelude.{
  ℕ, zero, suc, String, ◌≡◌, refl, Bool, true, false, not, ◌&&◌, ◌||◌, Option, none, some, List, [],
  ◌∷◌, ◌++◌, map, arith, if◌then◌else◌, inl, inr, Bool-cases, All, ◌⊎◌,
}
use dev_llmops.Prelude.Text.{text}
use dev_llmops.Prelude.Dict.{Dict, get, put, str_eq, eq_iff}
use dev_llmops.Dashboard.Json.{
  Json, Items, Fields, rewrite_items, rewrite_fields, rewrite_variable_refs,
}

-- A template variable: its name, and its other fields.
pub record Var : Type 0 where
  pub name : String
  pub fields : Fields

unfoldable pub has_name : String → List String → Bool
has_name n [] = false
has_name n (m ∷ ms) = str_eq m n || has_name n ms

-- The loop of `merge_template_vars` over one list, with `seen` and `merged`.
unfoldable pub merge_one : List Var → List String → List Var → List String × List Var
unfolding has_name
merge_one [] seen merged = (seen, merged)
merge_one (v ∷ vs) seen merged =
    let skipped = merge_one vs seen merged in
    let added = merge_one vs (v.name ∷ seen) (merged ++ v ∷ []) in
    if has_name v.name seen then skipped else added

unfoldable pub merge_from : List (List Var) → List String → List Var → List Var
unfolding merge_one
merge_from [] seen merged = merged
merge_from (vs ∷ rest) seen merged =
    let (seen', merged') = merge_one vs seen merged in merge_from rest seen' merged'

unfoldable pub merge_template_vars : List (List Var) → List Var
unfolding merge_from
merge_template_vars lists = merge_from lists [] []

pub record Dashboard : Type 0 where
  pub panels : Items
  pub templating : List Var

-- The renames of the variables whose name is a target.
unfoldable pub rename_map : String → List String → List Var → Dict String → Dict String
unfolding has_name put text
rename_map prefix targets [] m = m
rename_map prefix targets (v ∷ vs) m =
    rename_map prefix targets vs
      (if has_name v.name targets then put v.name (text (prefix ∷ "_" ∷ v.name ∷ [])) m else m)

-- The references inside a variable, its name with them, as `rewrite_in_place(templating, ...)` leaves
-- them.
unfoldable pub rewrite_var : Dict String → Var → Var
unfolding rewrite_variable_refs rewrite_fields
rewrite_var m v = record {
  name = rewrite_variable_refs m v.name;
  fields = rewrite_fields m v.fields;
}

-- var["name"] = rename_map[name], where the name is there
unfoldable pub rename_var : Dict String → Var → Var
unfolding get
rename_var m v = elim (get v.name m) [ none ↦ v | some n ↦ record v { name = n } ]

unfoldable pub apply_renames : Dict String → Dashboard → Dashboard
unfolding rewrite_items rewrite_var rename_var
apply_renames [] d = d
apply_renames (r ∷ m) d = record {
  panels = rewrite_items (r ∷ m) d.panels;
  templating = map (λ v. rename_var (r ∷ m) (rewrite_var (r ∷ m) v)) d.templating;
}

unfoldable pub namespace_dashboard_vars : String → List String → Dashboard → Dashboard
unfolding rename_map apply_renames
namespace_dashboard_vars prefix targets d =
    apply_renames (rename_map prefix targets d.templating []) d

-- The variables of the merged dashboard, as `main` namespaces and merges them.
unfoldable pub merged_vars : Dashboard → Dashboard → Dashboard → List Var
unfolding namespace_dashboard_vars merge_template_vars
merged_vars sglang vllm_perf vllm_query =
    let targets : List String = "model_name" ∷ "instance" ∷ [] in
    let s = namespace_dashboard_vars "sgl" targets sglang in
    let p = namespace_dashboard_vars "vllm" targets vllm_perf in
    let q = namespace_dashboard_vars "vllm" targets vllm_query in
    merge_template_vars (s.templating ∷ p.templating ∷ q.templating ∷ [])
