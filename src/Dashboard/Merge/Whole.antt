-- ===== src/Dashboard/Merge/Whole.antt =====
-- The merged dashboard of merge-dashboards.py, in one piece.
use mathlib.Core.Path.{ap₂}
use dev_llmops.Prelude.{
  ℕ, suc, ◌+◌, String, ◌≡◌, refl, ap, sym, ◌∙◌, true, List, [], ◌∷◌, ◌++◌, map, map-append,
  append_assoc, append-nil, arith, length, length-append, length-map,
}
use dev_llmops.Prelude.Dict.{Dict}
use dev_llmops.Dashboard.Panels.{
  Panel, Item, content, row_of, flatten_panels, Section, sections, section_ids, all_ids,
}
use dev_llmops.Dashboard.Layout.{count_up, bodies, sections-ids, sections-Fits}
use dev_llmops.Dashboard.Json.{Fields, rewrite_fields}
use dev_llmops.Dashboard.Vars.{rename_map}
use dev_llmops.Dashboard.Vars.Merged.{unique_names, merge_template_vars-first}
use dev_llmops.Dashboard.Merge.{
  Board, rewrite_panel, rewrite_item, rewrite_board, namespace_board, Entry, header, entry,
  entries_of, all_entries, Merged, count_content, merge_boards,
}

unfoldable pub entry_id : Entry → ℕ
entry_id (header r) = r.row_id
entry_id (entry p) = p.id

-- The bodies of the content, in order.
unfoldable pub content_bodies : List Entry → List Fields
content_bodies [] = []
content_bodies (header r ∷ es) = content_bodies es
content_bodies (entry p ∷ es) = p.body ∷ content_bodies es

ids-entries : (ps : List (Panel Fields)) → map entry_id (map entry ps) ≡ map (λ p. p.id) ps
unfolding entry_id
ids-entries [] = refl
ids-entries (p ∷ ps) = ap (λ ns. p.id ∷ ns) (ids-entries ps)

bodies-entries :
    (ps : List (Panel Fields)) (es : List Entry)
    → content_bodies (map entry ps ++ es) ≡ bodies ps ++ content_bodies es
unfolding content_bodies
bodies-entries [] es = refl
bodies-entries (p ∷ ps) es = ap (λ bs. p.body ∷ bs) (bodies-entries ps es)

ids-section : (s : Section Fields) → map entry_id (entries_of s) ≡ section_ids s
unfolding entries_of section_ids entry_id
ids-section s = ap (λ ns. s.row.row_id ∷ ns) (ids-entries s.children)

bodies-section :
    (s : Section Fields) (es : List Entry)
    → content_bodies (entries_of s ++ es) ≡ bodies s.children ++ content_bodies es
unfolding entries_of content_bodies
bodies-section s es = bodies-entries s.children es

last : (s : Section Fields) → content_bodies (entries_of s) ≡ bodies s.children
unfolding entries_of content_bodies
last s =
    ap content_bodies (sym (append-nil (map entry s.children)))
    ∙ bodies-entries s.children []
    ∙ append-nil (bodies s.children)

ids-all_entries :
    (t : Section Fields × Section Fields × Section Fields)
    → map entry_id (all_entries t) ≡ all_ids t
unfolding all_entries all_ids
ids-all_entries (s1, s2, s3) =
    let e1 = entries_of s1 in
    let e2 = entries_of s2 in
    let e3 = entries_of s3 in
    let parts : map entry_id (e1 ++ e2) ≡ section_ids s1 ++ section_ids s2 =
      map-append entry_id e1 e2 ∙ ap₂ ◌++◌ (ids-section s1) (ids-section s2) in
    map-append entry_id (e1 ++ e2) e3 ∙ ap₂ ◌++◌ parts (ids-section s3)

bodies-all_entries :
    (t : Section Fields × Section Fields × Section Fields)
    → content_bodies (all_entries t)
      ≡ bodies t.0.children ++ (bodies t.1.children ++ bodies t.2.children)
unfolding all_entries
bodies-all_entries (s1, s2, s3) =
    ap content_bodies (append_assoc (entries_of s1) (entries_of s2) (entries_of s3))
    ∙ bodies-section s1 (entries_of s2 ++ entries_of s3)
    ∙ ap (λ bs. bodies s1.children ++ bs)
        (bodies-section s2 (entries_of s3) ∙ ap (λ bs. bodies s2.children ++ bs) (last s3))

-- The content is counted by its bodies.
count_content-bodies : (es : List Entry) → count_content es ≡ length (content_bodies es)
unfolding count_content content_bodies
count_content-bodies [] = refl
count_content-bodies (header r ∷ es) = count_content-bodies es
count_content-bodies (entry p ∷ es) = omega (arith, count_content-bodies es)

-- The bodies of the content panels of a dashboard, in order: those outside the rows and those inside.
abbrev pub panel_bodies : List (Item Fields) → List Fields
panel_bodies [] = []
panel_bodies (content p ∷ items) = p.body ∷ panel_bodies items
panel_bodies (row_of subs ∷ items) = map (λ (p : Panel Fields). p.body) subs ++ panel_bodies items

-- The bodies with the texts that name renamed variables rewritten, where there are any.
abbrev pub renamed : Dict String → List Fields → List Fields
renamed [] bs = bs
renamed (r ∷ m) bs = map (rewrite_fields (r ∷ m)) bs

bodies-flatten_panels :
    (items : List (Item Fields)) → bodies (flatten_panels items) ≡ panel_bodies items
unfolding flatten_panels
bodies-flatten_panels [] = refl
bodies-flatten_panels (content p ∷ items) = ap (λ bs. p.body ∷ bs) (bodies-flatten_panels items)
bodies-flatten_panels (row_of subs ∷ items) =
    map-append (λ (p : Panel Fields). p.body) subs (flatten_panels items)
    ∙ ap (λ bs. bodies subs ++ bs) (bodies-flatten_panels items)

bodies-rewrite_panel :
    (m : Dict String) (ps : List (Panel Fields))
    → bodies (map (rewrite_panel m) ps) ≡ map (rewrite_fields m) (bodies ps)
unfolding rewrite_panel
bodies-rewrite_panel m [] = refl
bodies-rewrite_panel m (p ∷ ps) =
    ap (λ bs. rewrite_fields m p.body ∷ bs) (bodies-rewrite_panel m ps)

panel_bodies-rewrite_item :
    (m : Dict String) (items : List (Item Fields))
    → panel_bodies (map (rewrite_item m) items) ≡ map (rewrite_fields m) (panel_bodies items)
unfolding rewrite_item rewrite_panel
panel_bodies-rewrite_item m [] = refl
panel_bodies-rewrite_item m (content p ∷ items) =
    ap (λ bs. rewrite_fields m p.body ∷ bs) (panel_bodies-rewrite_item m items)
panel_bodies-rewrite_item m (row_of subs ∷ items) =
    ap₂ ◌++◌ (bodies-rewrite_panel m subs) (panel_bodies-rewrite_item m items)
    ∙ sym (map-append (rewrite_fields m) (bodies subs) (panel_bodies items))

panel_bodies-rewrite_board :
    (m : Dict String) (items : List (Item Fields))
    → panel_bodies (rewrite_board m items) ≡ renamed m (panel_bodies items)
unfolding rewrite_board
panel_bodies-rewrite_board [] items = refl
panel_bodies-rewrite_board (r ∷ m) items = panel_bodies-rewrite_item (r ∷ m) items

-- The content of a dashboard, with its variables renamed by a prefix.
abbrev pub content_of : String → List String → Board → List Fields
content_of prefix targets b =
    renamed (rename_map prefix targets b.templating []) (panel_bodies b.items)

-- The number of content panels of a dashboard.
abbrev pub size : Board → ℕ
size b = length (panel_bodies b.items)

namespace_board-content_of :
    (prefix : String) (targets : List String) (b : Board)
    → bodies (flatten_panels (namespace_board prefix targets b).items) ≡ content_of prefix targets b
unfolding namespace_board
namespace_board-content_of prefix targets b =
    bodies-flatten_panels (rewrite_board (rename_map prefix targets b.templating []) b.items)
    ∙ panel_bodies-rewrite_board (rename_map prefix targets b.templating []) b.items

length-renamed : (m : Dict String) (bs : List Fields) → length (renamed m bs) ≡ length bs
length-renamed [] bs = refl
length-renamed (r ∷ m) bs = length-map (rewrite_fields (r ∷ m)) bs

length-namespace_board :
    (prefix : String) (targets : List String) (b : Board)
    → length (flatten_panels (namespace_board prefix targets b).items) ≡ size b
length-namespace_board prefix targets b =
    sym (
      length-map (λ (p : Panel Fields). p.body)
        (flatten_panels (namespace_board prefix targets b).items))
    ∙ ap length (namespace_board-content_of prefix targets b)
    ∙ length-renamed (rename_map prefix targets b.templating []) (panel_bodies b.items)

count-three :
    (ps qs rs : List (Panel Fields))
    → length (bodies ps ++ (bodies qs ++ bodies rs)) ≡ length ps + (length qs + length rs)
count-three ps qs rs = omega (
  arith,
  length-append (bodies ps) (bodies qs ++ bodies rs),
  length-append (bodies qs) (bodies rs),
  length-map (λ (p : Panel Fields). p.body) ps,
  length-map (λ (p : Panel Fields). p.body) qs,
  length-map (λ (p : Panel Fields). p.body) rs,
)

module _ (targets : List String) (file : String) (a b c : Board) where
  abbrev whole : Merged
  whole = merge_boards targets file a b c

  -- The merged dashboard has the content of the three dashboards and three headers: the bodies of its
  -- content panels are those of the inputs, of the panels outside their rows and inside, in order, each
  -- with the names of its dashboard's renamed variables rewritten; they are as many as the script
  -- counts, which are those of the inputs; the ids are 1, 2, 3 and so on; and no variable's name comes
  -- twice.
  pub merge_boards-whole :
      (content_bodies whole.panels
        ≡ content_of "sgl" targets a
          ++ (content_of "vllm" targets b ++ content_of "vllm" targets c))
      × (whole.total_panels ≡ size a + (size b + size c))
      × (map entry_id whole.panels ≡ count_up 1 (whole.total_panels + 3))
      × (unique_names whole.templating ≡ true)
  unfolding merge_boards
  merge_boards-whole =
      let s = namespace_board "sgl" targets a in
      let p = namespace_board "vllm" targets b in
      let q = namespace_board "vllm" targets c in
      let made = sections s.items p.items q.items in
      let (f1, f2, f3, b1, b2, b3) = sections-Fits s.items p.items q.items in
      let content : content_bodies (all_entries made)
          ≡ bodies (flatten_panels s.items)
            ++ (bodies (flatten_panels p.items) ++ bodies (flatten_panels q.items)) =
        bodies-all_entries made ∙ ap₂ ◌++◌ b1 (ap₂ ◌++◌ b2 b3) in
      let n1 = length-namespace_board "sgl" targets a in
      let n2 = length-namespace_board "vllm" targets b in
      let n3 = length-namespace_board "vllm" targets c in
      let sized =
        count-three (flatten_panels s.items) (flatten_panels p.items) (flatten_panels q.items) in
      let counted : count_content (all_entries made) ≡ size a + (size b + size c) =
        count_content-bodies (all_entries made)
        ∙ ap length content
        ∙ sized
        ∙ omega (arith, n1, n2, n3) in
      let total : suc (length (flatten_panels s.items))
            + (suc (length (flatten_panels p.items)) + suc (length (flatten_panels q.items)))
          ≡ count_content (all_entries made) + 3 =
        omega (arith, counted, n1, n2, n3) in
      let inputs : bodies (flatten_panels s.items)
            ++ (bodies (flatten_panels p.items) ++ bodies (flatten_panels q.items))
          ≡ content_of "sgl" targets a
            ++ (content_of "vllm" targets b ++ content_of "vllm" targets c) =
        ap₂ ◌++◌ (namespace_board-content_of "sgl" targets a) (
          ap₂ ◌++◌ (namespace_board-content_of "vllm" targets b)
            (namespace_board-content_of "vllm" targets c)) in
      (
        content ∙ inputs,
        counted,
        ids-all_entries made ∙ sections-ids s.items p.items q.items ∙ ap (count_up 1) total,
        (merge_template_vars-first (s.templating ∷ p.templating ∷ q.templating ∷ [])).0,
      )
