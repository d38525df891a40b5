-- ===== src/Dashboard/Layout.antt =====
-- The ids and the positions of the merged dashboard.
use dev_llmops.Prelude.{
  ℕ, zero, suc, ◌+◌, ◌-◌, ◌≤◌, ◌<◌, String, ◌≡◌, refl, ap, ◌∙◌, Option, none, some, List, [], ◌∷◌,
  ◌++◌, map, length, length-map, All, arith,
}
use dev_llmops.Dashboard.Panels.{
  Grid, Panel, Item, flatten_panels, y_of, min_y, move, normalize_gridpos, reassign_ids, bottom,
  raise_max, max_bottom, Section, make_expanded_row, add_section, sections, section_ids, all_ids,
}

-- `start`, `start + 1`, ..., `n` numbers.
abbrev pub count_up : ℕ → ℕ → List ℕ
count_up start zero = []
count_up start (suc n) = start ∷ count_up (start + 1) n

count_up-append :
    (start m n : ℕ) → count_up start m ++ count_up (start + m) n ≡ count_up start (m + n)
count_up-append start zero n =
    let e1 : start + 0 ≡ start = omega arith in let e2 : 0 + n ≡ n = omega arith in rw (e1, e2)
count_up-append start (suc m) n =
    let e1 : start + suc m ≡ start + 1 + m = omega arith in
    let e2 : suc m + n ≡ suc (m + n) = omega arith in
    rw (e1, e2) (ap (λ (l : List ℕ). start ∷ l) (count_up-append (start + 1) m n))

three_counts :
    (k1 k2 k3 m2 m3 : ℕ)
    → m2 ≡ 1 + k1
    → m3 ≡ m2 + k2
    → count_up 1 k1 ++ count_up m2 k2 ++ count_up m3 k3 ≡ count_up 1 (k1 + (k2 + k3))
three_counts k1 k2 k3 m2 m3 e2 e3 =
    let regroup : 1 + k1 + k2 ≡ 1 + (k1 + k2) = omega arith in
    let total : k1 + (k2 + k3) ≡ k1 + k2 + k3 = omega arith in
    rw (e3, e2, count_up-append 1 k1 k2, regroup, total) (count_up-append 1 (k1 + k2) k3)

-- A panel with a position lies below the row's top `y`, and ends at `next` or above.
abbrev pub Inside : ℕ → ℕ → Option Grid → Type 0
Inside y next none = Unit
Inside y next (some g) = (y < g.y) × (bottom g ≤ next)

module _ {B : Type 0} where
  abbrev pub ids : List (Panel B) → List ℕ
  ids = map (λ p. p.id)

  abbrev pub bodies : List (Panel B) → List B
  bodies = map (λ p. p.body)

  reassign_ids_lem :
      (n : ℕ) (ps : List (Panel B))
      → let (ps', next) = reassign_ids n ps in
        (ids ps' ≡ count_up n (length ps)) × (next ≡ n + length ps) × (bodies ps' ≡ bodies ps)
  unfolding reassign_ids
  reassign_ids_lem n [] = (refl, omega arith, refl)
  reassign_ids_lem n (p ∷ ps) =
      let (same, next, kept) = reassign_ids_lem (n + 1) ps in
      (ap (λ (l : List ℕ). n ∷ l) same, omega arith, ap (λ (l : List B). p.body ∷ l) kept)

  map-move :
      (f : ℕ → ℕ) (ps : List (Panel B))
      → (ids (map (move f) ps) ≡ ids ps) × (bodies (map (move f) ps) ≡ bodies ps)
  unfolding move
  map-move f [] = (refl, refl)
  map-move f (p ∷ ps) =
      let (same, kept) = map-move f ps in
      (ap (λ (l : List ℕ). p.id ∷ l) same, ap (λ (l : List B). p.body ∷ l) kept)

  normalize_keeps :
      (ps : List (Panel B))
      → (length (normalize_gridpos ps) ≡ length ps) × (bodies (normalize_gridpos ps) ≡ bodies ps)
  unfolding normalize_gridpos
  normalize_keeps [] = (refl, refl)
  normalize_keeps (p ∷ ps) =
      let f : ℕ → ℕ = λ y. y - min_y (y_of p) ps + 1 in
      (length-map (move f) (p ∷ ps), (map-move f (p ∷ ps)).1)

  add_section_lem :
      (title : String) (items : List (Item B)) (n y : ℕ)
      → let s : Section B = add_section title items n y in
        let size : ℕ = length (flatten_panels items) in
        (section_ids s ≡ count_up n (suc size))
        × (s.next_id ≡ n + suc size)
        × (bodies s.children ≡ bodies (flatten_panels items))
  unfolding add_section make_expanded_row section_ids
  add_section_lem title items n y =
      let flat = flatten_panels items in
      let normal = normalize_gridpos flat in
      let (size, kept) = normalize_keeps flat in
      let (same, next, bodies') = reassign_ids_lem (n + 1) normal in
      let (same', kept') = map-move (λ t. t + y) (reassign_ids (n + 1) normal).0 in
      (
        ap (λ (l : List ℕ). n ∷ l) (same' ∙ same ∙ ap (count_up (n + 1)) size),
        omega arith,
        kept' ∙ bodies' ∙ kept,
      )

  abbrev pub Below : ℕ → Panel B → Type 0
  Below y p = elim p.grid [ none ↦ Unit | some g ↦ y < g.y ]

  normal_Below : (f : ℕ → ℕ) (ps : List (Panel B)) → All (Below 0) (map (move (λ y. f y + 1)) ps)
  unfolding move
  normal_Below f [] = tt
  normal_Below f (p ∷ ps) = (ground arith, normal_Below f ps)

  normalize_Below : (ps : List (Panel B)) → All (Below 0) (normalize_gridpos ps)
  unfolding normalize_gridpos
  normalize_Below [] = tt
  normalize_Below (p ∷ ps) = normal_Below (λ y. y - min_y (y_of p) ps) (p ∷ ps)

  reassign_Below :
      (n : ℕ) (ps : List (Panel B)) → All (Below 0) ps → All (Below 0) (reassign_ids n ps).0
  unfolding reassign_ids
  reassign_Below n [] h = tt
  reassign_Below n (p ∷ ps) (h, hs) = (h, reassign_Below (n + 1) ps hs)

  shift_Below :
      (y : ℕ) (ps : List (Panel B)) → All (Below 0) ps → All (Below y) (map (move (λ t. t + y)) ps)
  unfolding move
  shift_Below y [] h = tt
  shift_Below y (p ∷ ps) (h, hs) = (ground arith, shift_Below y ps hs)

  max_bottom-le : (m : ℕ) (ps : List (Panel B)) → m ≤ max_bottom m ps
  unfolding max_bottom
  max_bottom-le m [] = omega arith
  max_bottom-le m (p ∷ ps) = ground (arith, max_bottom-le (raise_max m p) ps)

  raise_max-Inside :
      (y m next : ℕ) (p : Panel B) → Below y p → raise_max m p ≤ next → Inside y next p.grid
  unfolding raise_max
  raise_max-Inside y m next p b h = ground arith

  max_bottom-Inside :
      (y m : ℕ) (ps : List (Panel B))
      → All (Below y) ps
      → All (λ p. Inside y (max_bottom m ps) p.grid) ps
  unfolding max_bottom
  max_bottom-Inside y m [] h = tt
  max_bottom-Inside y m (p ∷ ps) (h, hs) = (
    raise_max-Inside y m _ p h (max_bottom-le (raise_max m p) ps),
    max_bottom-Inside y (raise_max m p) ps hs,
  )

  -- The children of a section lie between its row, at `y`, and the top of the next section.
  abbrev pub Fits : ℕ → Section B → Type 0
  Fits y s = (s.row.row_y ≡ y) × (y < s.next_y) × All (λ p. Inside y s.next_y p.grid) s.children

  add_section-Fits :
      (title : String) (items : List (Item B)) (n y : ℕ) → Fits y (add_section title items n y)
  unfolding add_section make_expanded_row
  add_section-Fits title items n y =
      let numbered = (reassign_ids (n + 1) (normalize_gridpos (flatten_panels items))).0 in
      let children = map (move (λ t. t + y)) numbered in
      (
        refl,
        omega (arith, max_bottom-le (y + 1) children),
        max_bottom-Inside y (y + 1) children (
            shift_Below y numbered
              (reassign_Below (n + 1) _ (normalize_Below (flatten_panels items)))),
      )

  -- Whatever the panels of the three dashboards, the merged dashboard's panels have the ids 1, 2, 3
  -- and so on in order, one each.
  pub sections-ids :
      (a b c : List (Item B))
      → let n : ℕ =
          suc (length (flatten_panels a))
          + (suc (length (flatten_panels b)) + suc (length (flatten_panels c))) in
        all_ids (sections a b c) ≡ count_up 1 n
  unfolding sections all_ids
  sections-ids a b c =
      let k1 : ℕ = suc (length (flatten_panels a)) in
      let k2 : ℕ = suc (length (flatten_panels b)) in
      let k3 : ℕ = suc (length (flatten_panels c)) in
      let s1 = add_section "SGLang Dashboard" a 1 0 in
      let s2 = add_section "vLLM Performance Statistics" b s1.next_id s1.next_y in
      let s3 = add_section "vLLM Query Statistics" c s2.next_id s2.next_y in
      let l1 = add_section_lem "SGLang Dashboard" a 1 0 in
      let l2 = add_section_lem "vLLM Performance Statistics" b s1.next_id s1.next_y in
      let l3 = add_section_lem "vLLM Query Statistics" c s2.next_id s2.next_y in
      ap (λ (l : List ℕ). l ++ section_ids s2 ++ section_ids s3) l1.0
      ∙ ap (λ (l : List ℕ). count_up 1 k1 ++ l ++ section_ids s3) l2.0
      ∙ ap (λ (l : List ℕ). count_up 1 k1 ++ count_up s1.next_id k2 ++ l) l3.0
      ∙ three_counts k1 k2 k3 s1.next_id s2.next_id l1.1 l2.1

  -- Whatever the panels of the three dashboards, each section starts where the one above ends, the
  -- first at 0; its panels with a position lie strictly below its row and end above the next section;
  -- and its panels are those of its dashboard, without the rows, in order.
  pub sections-Fits :
      (a b c : List (Item B))
      → let (s1, s2, s3) = sections a b c in
        Fits 0 s1
        × Fits s1.next_y s2
        × Fits s2.next_y s3
        × (bodies s1.children ≡ bodies (flatten_panels a))
        × (bodies s2.children ≡ bodies (flatten_panels b))
        × (bodies s3.children ≡ bodies (flatten_panels c))
  unfolding sections
  sections-Fits a b c =
      let t1 : String = "SGLang Dashboard" in
      let t2 : String = "vLLM Performance Statistics" in
      let t3 : String = "vLLM Query Statistics" in
      let s1 = add_section t1 a 1 0 in
      let s2 = add_section t2 b s1.next_id s1.next_y in
      (
        add_section-Fits t1 a 1 0,
        add_section-Fits t2 b s1.next_id s1.next_y,
        add_section-Fits t3 c s2.next_id s2.next_y,
        (add_section_lem t1 a 1 0).2,
        (add_section_lem t2 b s1.next_id s1.next_y).2,
        (add_section_lem t3 c s2.next_id s2.next_y).2,
      )
