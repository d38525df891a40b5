-- ===== src/Dashboard/Tests.antt =====
-- Small inputs of merge-dashboards.py: runs, and the theorems at them.
use dev_llmops.Prelude.{
  ℕ, suc, ◌+◌, String, ◌≡◌, refl, true, none, some, List, [], ◌∷◌, ◌++◌, map, length,
}
use dev_llmops.Dashboard.Panels.{
  Panel, Item, content, row_of, flatten_panels, sections, all_ids, section_ids,
}
use dev_llmops.Dashboard.Layout.{sections-ids, sections-Fits, count_up, Fits, bodies}
use dev_llmops.Dashboard.Json.{atom, str, Fields, end, field, nil, rewrite_variable_refs}
use dev_llmops.Dashboard.Merge.{Board, Merged, main_k8s}
use dev_llmops.Dashboard.Merge.Whole.{
  content_bodies, entry_id, content_of, size, merge_boards-whole,
}
use dev_llmops.Dashboard.Vars.{Var, Dashboard, merge_template_vars, merged_vars}
use dev_llmops.Dashboard.Vars.Merged.{merge_template_vars-first, unique_names, first_named, concat}

abbrev panel : ℕ → ℕ → Panel ℕ
panel y b = record { id = 9; grid = some (record { y = y; h = some 4 }); body = b }

abbrev one : List (Item ℕ)
one = content (panel 3 1) ∷ row_of (panel 5 2 ∷ []) ∷ []

abbrev two : List (Item ℕ)
two = content (record { id = 0; grid = none; body = 3 }) ∷ content (panel 7 4) ∷ []

ids_run : all_ids (sections one two []) ≡ 1 ∷ 2 ∷ 3 ∷ 4 ∷ 5 ∷ 6 ∷ 7 ∷ []
unfolding sections all_ids section_ids
ids_run = refl

sections-ids_example :
    all_ids (sections one two [])
    ≡ count_up 1 (suc (length (flatten_panels one)) + (suc (length (flatten_panels two)) + suc 0))
unfolding flatten_panels
sections-ids_example = sections-ids one two []

sections-Fits_example :
    let (s1, s2, s3) = sections one two [] in
    Fits 0 s1
    × Fits s1.next_y s2
    × Fits s2.next_y s3
    × (bodies s1.children ≡ bodies (flatten_panels one))
    × (bodies s2.children ≡ bodies (flatten_panels two))
    × (bodies s3.children ≡ bodies (flatten_panels []))
sections-Fits_example = sections-Fits one two []

rewrite_run :
    rewrite_variable_refs (("instance", "sgl_instance") ∷ []) "$instance ${instance} $instances"
    ≡ "$sgl_instance ${sgl_instance} $instances"
unfolding rewrite_variable_refs
rewrite_run = refl

abbrev instance_var : Fields → Var
instance_var fs = record { name = "instance"; fields = fs }

abbrev other_var : Var
other_var = record { name = "namespace"; fields = end }

abbrev dashboard : Dashboard
dashboard = record {
  panels = nil;
  templating = other_var ∷ instance_var (field "query" (str "up{instance=\"$instance\"}") end) ∷ [];
}

merged_run :
    merged_vars dashboard dashboard dashboard
    ≡ other_var
      ∷ record {
        name = "sgl_instance";
        fields = field "query" (str "up{instance=\"$sgl_instance\"}") end;
      }
      ∷ record {
        name = "vllm_instance";
        fields = field "query" (str "up{instance=\"$vllm_instance\"}") end;
      }
      ∷ []
unfolding merged_vars
merged_run = refl

abbrev two_lists : List (List Var)
two_lists = (other_var ∷ instance_var end ∷ []) ∷ (instance_var (field "a" atom end) ∷ []) ∷ []

merge_template_vars-first_example :
    (unique_names (merge_template_vars two_lists) ≡ true)
    × ((k : String)
        → first_named k (merge_template_vars two_lists) ≡ first_named k (concat two_lists))
merge_template_vars-first_example = merge_template_vars-first two_lists

abbrev board : Board
board = record {
  items =
      content (record {
        id = 7;
        grid = none;
        body = field "expr" (str "up{namespace=\"$namespace\"}") end;
      })
      ∷ [];
  templating = other_var ∷ instance_var end ∷ [];
}

k8s_run :
    (main_k8s board board board).templating
    ≡ record { name = "sgl_namespace"; fields = end }
      ∷ instance_var end
      ∷ record { name = "vllm_namespace"; fields = end }
      ∷ []
unfolding main_k8s
k8s_run = refl

merge_boards-whole_example :
    let targets : List String = "model_name" ∷ "namespace" ∷ "pod" ∷ [] in
    let whole : Merged = main_k8s board board board in
    (content_bodies whole.panels
      ≡ content_of "sgl" targets board
        ++ (content_of "vllm" targets board ++ content_of "vllm" targets board))
    × (whole.total_panels ≡ size board + (size board + size board))
    × (map entry_id whole.panels ≡ count_up 1 (whole.total_panels + 3))
    × (unique_names whole.templating ≡ true)
unfolding main_k8s
merge_boards-whole_example =
    merge_boards-whole ("model_name" ∷ "namespace" ∷ "pod" ∷ []) "../llm-all-k8s.json" board board
      board
