-- ===== src/Dashboard/Merge.antt =====
-- The whole `main` of LLMOps/monitor/grafana-dashboards/merge-dashboards.py, and that of
-- LLMOps/monitor/grafana-dashboard-k8s/merge-dashboards.py, which differs in its targets and files.
pub mod Whole
use dev_llmops.Prelude.{ℕ, ◌+◌, String, Bool, true, false, List, [], ◌∷◌, ◌++◌, map, length}
use dev_llmops.Prelude.Dict.{Dict}
use dev_llmops.Dashboard.Panels.{Panel, Item, content, row_of, Row, Section, sections}
use dev_llmops.Dashboard.Json.{Fields, nil, rewrite_fields}
use dev_llmops.Dashboard.Vars.{Var, Dashboard, rename_map, apply_renames, merge_template_vars}

-- An input dashboard: its panels, with what the script does not read as their bodies, and its variables.
pub record Board : Type 0 where
  pub items : List (Item Fields)
  pub templating : List Var

-- `rewrite_in_place` on a panel: its position and its id hold no text.
unfoldable pub rewrite_panel : Dict String → Panel Fields → Panel Fields
unfolding rewrite_fields
rewrite_panel m p = record p { body = rewrite_fields m p.body }

unfoldable pub rewrite_item : Dict String → Item Fields → Item Fields
unfolding rewrite_panel
rewrite_item m (content p) = content (rewrite_panel m p)
rewrite_item m (row_of subs) = row_of (map (rewrite_panel m) subs)

-- With no variable to rename, nothing is rewritten.
unfoldable pub rewrite_board : Dict String → List (Item Fields) → List (Item Fields)
unfolding rewrite_item
rewrite_board [] items = items
rewrite_board (r ∷ m) items = map (rewrite_item (r ∷ m)) items

unfoldable pub namespace_board : String → List String → Board → Board
unfolding rename_map rewrite_board apply_renames
namespace_board prefix targets b =
    let m = rename_map prefix targets b.templating [] in
    record {
      items = rewrite_board m b.items;
      templating =
          (apply_renames m (record { panels = nil; templating = b.templating })).templating;
    }

-- A panel of the merged dashboard: the header of a section, or content.
pub data Entry : Type 0 where
  header : Row → Entry
  entry : Panel Fields → Entry

unfoldable pub entries_of : Section Fields → List Entry
entries_of s = header s.row ∷ map entry s.children

-- `all_panels`
unfoldable pub all_entries : Section Fields × Section Fields × Section Fields → List Entry
unfolding entries_of
all_entries (s1, s2, s3) = entries_of s1 ++ entries_of s2 ++ entries_of s3

-- The built-in annotation.
pub record Annotation : Type 0 where
  pub built_in : ℕ
  pub datasource_type : String
  pub datasource_uid : String
  pub enable : Bool
  pub hide : Bool
  pub icon_color : String
  pub name : String
  pub type : String

abbrev pub annotations : List Annotation
annotations =
    record {
      built_in = 1;
      datasource_type = "grafana";
      datasource_uid = "-- Grafana --";
      enable = true;
      hide = true;
      icon_color = "rgba(0, 211, 255, 1)";
      name = "Annotations & Alerts";
      type = "dashboard";
    }
    ∷ []

-- What is written to `file`, without the entries that are empty, and the numbers of the summary.
pub record Merged : Type 0 where
  pub file : String
  pub annotations : List Annotation
  pub title : String
  pub uid : String
  pub description : String
  pub tags : List String
  pub editable : Bool
  pub preload : Bool
  pub refresh : String
  pub time_from : String
  pub time_to : String
  pub timezone : String
  pub schema_version : ℕ
  pub version : ℕ
  pub fiscal_year_start_month : ℕ
  pub graph_tooltip : ℕ
  pub panels : List Entry
  pub templating : List Var
  pub section_panels : List ℕ
  pub total_panels : ℕ

-- len([p for p in all_panels if p.get("type") != "row"])
unfoldable pub count_content : List Entry → ℕ
count_content [] = 0
count_content (header r ∷ es) = count_content es
count_content (entry p ∷ es) = count_content es + 1

-- `main`, with its targets and the file it writes.
unfoldable pub merge_boards : List String → String → Board → Board → Board → Merged
unfolding namespace_board sections all_entries merge_template_vars count_content
merge_boards targets file sglang vllm_perf vllm_query =
    let s = namespace_board "sgl" targets sglang in
    let p = namespace_board "vllm" targets vllm_perf in
    let q = namespace_board "vllm" targets vllm_query in
    let made = sections s.items p.items q.items in
    let (s1, s2, s3) = made in
    let all_panels = all_entries made in
    record {
      file = file;
      annotations = annotations;
      title = "LLM All-in-One Dashboard";
      uid = "llm-all-in-one";
      description =
          "Unified LLM Monitoring Dashboard - SGLang + vLLM Performance + vLLM Query Statistics";
      tags = "llm" ∷ "sglang" ∷ "vllm" ∷ [];
      editable = true;
      preload = false;
      refresh = "5s";
      time_from = "now-30m";
      time_to = "now";
      timezone = "browser";
      schema_version = 41;
      version = 1;
      fiscal_year_start_month = 0;
      graph_tooltip = 0;
      panels = all_panels;
      templating = merge_template_vars (s.templating ∷ p.templating ∷ q.templating ∷ []);
      section_panels = length s1.children ∷ length s2.children ∷ length s3.children ∷ [];
      total_panels = count_content all_panels;
    }

unfoldable pub main : Board → Board → Board → Merged
unfolding merge_boards
main = merge_boards ("model_name" ∷ "instance" ∷ []) "../llm-all.json"

unfoldable pub main_k8s : Board → Board → Board → Merged
unfolding merge_boards
main_k8s = merge_boards ("model_name" ∷ "namespace" ∷ "pod" ∷ []) "../llm-all-k8s.json"
