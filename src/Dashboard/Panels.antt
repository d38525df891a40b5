-- ===== src/Dashboard/Panels.antt =====
-- The panels of merge-dashboards.py: flattening, positions, ids and the expanded rows.
use dev_llmops.Prelude.{
  ℕ, ◌+◌, ◌-◌, min, String, Option, none, some, List, [], ◌∷◌, ◌++◌, ltb, if◌then◌else◌, map,
}

-- `gridPos`: the top, and the height where it is given. Positions are natural numbers.
pub record Grid : Type 0 where
  pub y : ℕ
  pub h : Option ℕ

-- p["gridPos"]["y"] + p["gridPos"].get("h", 8)
unfoldable pub bottom : Grid → ℕ
bottom g = elim g.h [ none ↦ g.y + 8 | some h ↦ g.y + h ]

-- A panel: what the script reads and writes, and the rest of it in `B`.
pub record Panel (B : Type 0) : Type 0 where
  pub id : ℕ
  pub grid : Option Grid
  pub body : B

-- An input panel: content, or a row with the panels inside it.
pub data Item (B : Type 0) : Type 0 where
  content : Panel B → Item B
  row_of : List (Panel B) → Item B

module _ {B : Type 0} where
  unfoldable pub flatten_panels : List (Item B) → List (Panel B)
  flatten_panels [] = []
  flatten_panels (content p ∷ items) = p ∷ flatten_panels items
  flatten_panels (row_of subs ∷ items) = subs ++ flatten_panels items

  -- p.get("gridPos", {}).get("y", 0)
  unfoldable pub y_of : Panel B → ℕ
  y_of p = elim p.grid [ none ↦ 0 | some g ↦ g.y ]

  unfoldable pub min_y : ℕ → List (Panel B) → ℕ
  unfolding y_of
  min_y m [] = m
  min_y m (p ∷ ps) = min_y (min m (y_of p)) ps

  unfoldable pub move : (ℕ → ℕ) → Panel B → Panel B
  move f p = record p {
    grid = elim p.grid [ none ↦ none | some g ↦ some (record g { y = f g.y }) ];
  }

  unfoldable pub normalize_gridpos : List (Panel B) → List (Panel B)
  unfolding y_of min_y move
  normalize_gridpos [] = []
  normalize_gridpos (p ∷ ps) = let m = min_y (y_of p) ps in map (move (λ y. y - m + 1)) (p ∷ ps)

  -- The panels with new ids, and the next id.
  unfoldable pub reassign_ids : ℕ → List (Panel B) → List (Panel B) × ℕ
  reassign_ids current_id [] = ([], current_id)
  reassign_ids current_id (p ∷ ps) =
      let (rest, next) = reassign_ids (current_id + 1) ps in
      (record p { id = current_id } ∷ rest, next)

  -- if bottom > max_y: max_y = bottom
  unfoldable pub raise_max : ℕ → Panel B → ℕ
  unfolding bottom
  raise_max max_y p = elim p.grid [
    | none ↦ max_y
    | some g ↦ if ltb max_y (bottom g) then bottom g else max_y
  ]

  unfoldable pub max_bottom : ℕ → List (Panel B) → ℕ
  unfolding raise_max
  max_bottom max_y [] = max_y
  max_bottom max_y (p ∷ ps) = max_bottom (raise_max max_y p) ps

-- The row header that the script writes: its title, top and id.
pub record Row : Type 0 where
  pub title : String
  pub row_y : ℕ
  pub row_id : ℕ

pub record Section (B : Type 0) : Type 0 where
  pub row : Row
  pub children : List (Panel B)
  pub next_id : ℕ
  pub next_y : ℕ

module _ {B : Type 0} where
  unfoldable pub make_expanded_row : String → List (Item B) → ℕ → ℕ → ℕ → Section B
  unfolding flatten_panels normalize_gridpos reassign_ids move max_bottom
  make_expanded_row title child_panels row_y row_id id_start =
      let (numbered, next_id) =
        reassign_ids id_start (normalize_gridpos (flatten_panels child_panels)) in
      let children = map (move (λ y. y + row_y)) numbered in
      record {
        row = record { title = title; row_y = row_y; row_id = row_id };
        children = children;
        next_id = next_id;
        next_y = max_bottom (row_y + 1) children;
      }

  -- One section of `main`, which takes its row's id from the counter.
  unfoldable pub add_section : String → List (Item B) → ℕ → ℕ → Section B
  unfolding make_expanded_row
  add_section title items next_id current_y =
      make_expanded_row title items current_y next_id (next_id + 1)

  -- The three sections of `main`, from the next id 1 and the top 0.
  unfoldable pub sections :
      List (Item B) → List (Item B) → List (Item B) → Section B × Section B × Section B
  unfolding add_section
  sections sglang vllm_perf vllm_query =
      let s1 = add_section "SGLang Dashboard" sglang 1 0 in
      let s2 = add_section "vLLM Performance Statistics" vllm_perf s1.next_id s1.next_y in
      let s3 = add_section "vLLM Query Statistics" vllm_query s2.next_id s2.next_y in (s1, s2, s3)

  unfoldable pub section_ids : Section B → List ℕ
  section_ids s = s.row.row_id ∷ map (λ (p : Panel B). p.id) s.children

  -- The ids of `all_panels`.
  unfoldable pub all_ids : Section B × Section B × Section B → List ℕ
  all_ids (s1, s2, s3) = section_ids s1 ++ section_ids s2 ++ section_ids s3
