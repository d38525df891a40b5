-- ===== src/Exporter/Nodes/Expansion.antt =====
-- The expansion of node ranges in fake-node-exporter.py ends, and leaves no range.
use dev_llmops.Prelude.{
  ℕ, zero, suc, ◌≤◌, ◌<◌, String, ◌≡◌, refl, sym, subst, ◌∙◌, Option, none, some, List, [], ◌∷◌,
  arith, All, concat_map, concat_map-same, All-concat_map, Option-cases, inl, inr,
}
use dev_llmops.Prelude.Text.{text, show, zfill, count_chars}
use dev_llmops.Exporter.Nodes.{
  Range, count_open, node_name, find_range, numbers, int_of, expand, expand_node_range,
}
use dev_llmops.Exporter.Nodes.Search.{find_range-no_match}
use dev_llmops.Exporter.Nodes.Matches.{IsMatch, AreFromTo, find_range-IsMatch, numbers-AreFromTo}
use dev_llmops.Exporter.Nodes.Count.{count-node_name, find_range-count}

module _ (digit_value : ℕ → Option ℕ) where
  expand-plain :
      (f : ℕ) (s : String) → find_range digit_value s ≡ none → expand digit_value f s ≡ s ∷ []
  unfolding expand
  expand-plain zero s e = refl
  expand-plain (suc f) s e = rw (e, expand) refl

  expand-step :
      (f : ℕ) (s : String) (r : Range)
      → find_range digit_value s ≡ some r
      → expand digit_value (suc f) s
        ≡ concat_map (λ i. expand digit_value f (node_name r i)) (numbers digit_value r)
  unfolding expand
  expand-step f s r e = rw (e, expand) refl

  name_count :
      (s : String) (r : Range) (i : ℕ)
      → find_range digit_value s ≡ some r
      → count_open (node_name r i) < count_open s
  name_count s r i e = omega (arith, count-node_name r i, find_range-count digit_value s r e)

  -- With fuel for each `[`, more fuel makes no difference.
  expand-enough :
      (f g : ℕ) (s : String)
      → count_open s ≤ f
      → count_open s ≤ g
      → expand digit_value f s ≡ expand digit_value g s
  unfolding expand
  expand-enough zero g s hf hg = elim (Option-cases (find_range digit_value s)) [
    | inl plain ↦ sym (expand-plain g s plain)
    | inr (r, e) ↦ absurd (omega (arith, find_range-count digit_value s r e))
  ]
  expand-enough (suc f) zero s hf hg = elim (Option-cases (find_range digit_value s)) [
    | inl plain ↦ expand-plain (suc f) s plain
    | inr (r, e) ↦ absurd (omega (arith, find_range-count digit_value s r e))
  ]
  expand-enough (suc f) (suc g) s hf hg = elim (Option-cases (find_range digit_value s)) [
    | inl plain ↦ expand-plain (suc f) s plain ∙ sym (expand-plain (suc g) s plain)
    | inr (r, e) ↦
        expand-step f s r e
        ∙ concat_map-same _ _ (numbers digit_value r) (λ i.
          expand-enough f g (node_name r i) (omega (arith, name_count s r i e))
            (omega (arith, name_count s r i e)))
        ∙ sym (expand-step g s r e)
  ]

  expand-some :
      (f : ℕ) (s : String) (r : Range)
      → count_open s ≤ f
      → find_range digit_value s ≡ some r
      → expand digit_value f s
        ≡ concat_map
            (λ i. expand digit_value (count_open (node_name r i)) (node_name r i))
            (numbers digit_value r)
  unfolding expand
  expand-some zero s r h e = absurd (omega (arith, find_range-count digit_value s r e))
  expand-some (suc f) s r h e =
      expand-step f s r e
      ∙ concat_map-same _ _ (numbers digit_value r)
          (λ i. expand-enough f _ (node_name r i) (omega (arith, name_count s r i e)) (omega arith))

  -- The nodes of a pattern have no range left.
  expand-done :
      (f : ℕ) (s : String)
      → count_open s ≤ f
      → All (λ name. find_range digit_value name ≡ none) (expand digit_value f s)
  unfolding expand
  expand-done zero s h = elim (Option-cases (find_range digit_value s)) [
    | inl plain ↦ (plain, tt)
    | inr (r, e) ↦ absurd (omega (arith, find_range-count digit_value s r e))
  ]
  expand-done (suc f) s h = elim (Option-cases (find_range digit_value s)) [
    | inl plain ↦
        subst (All (λ name. find_range digit_value name ≡ none))
          (sym (expand-plain (suc f) s plain)) (plain, tt)
    | inr (r, e) ↦
        subst (All (λ name. find_range digit_value name ≡ none)) (sym (expand-step f s r e)) (
          All-concat_map _ (λ i. expand digit_value f (node_name r i)) (numbers digit_value r)
            (λ i. expand-done f (node_name r i) (omega (arith, name_count s r i e))))
  ]

  -- No part of a text is a range.
  abbrev pub HasNoRange : String → Type 0
  HasNoRange s = (r : Range) → IsMatch digit_value s r → ⊥

  -- The names that a pattern gives: the pattern alone where it has no range; else, for one of its
  -- matches, the names of the patterns with a number in the match's place, for each number from the
  -- first to the last, written with at least as many digits as the first has.
  pub data IsExpanded (s : String) (names : List String) : Type 0 where
    plain : HasNoRange s → names ≡ s ∷ [] → IsExpanded s names
    ranged :
        (r : Range) (ns : List ℕ)
        → IsMatch digit_value s r
        → AreFromTo (int_of digit_value 0 r.start_str) (int_of digit_value 0 r.end_str) ns
        → names
          ≡ concat_map
              (λ i.
                let name =
                  text (r.prefix ∷ zfill (count_chars r.start_str) (show i) ∷ r.suffix ∷ []) in
                expand_node_range digit_value name)
              ns
        → IsExpanded s names

  module _ (dot : digit_value b'.' ≡ none) (close : digit_value b']' ≡ none) where
    All-HasNoRange :
        (names : List String)
        → All (λ name. find_range digit_value name ≡ none) names
        → All HasNoRange names
    All-HasNoRange [] h = tt
    All-HasNoRange (name ∷ names) (h, hs) =
        (find_range-no_match digit_value dot close name h, All-HasNoRange names hs)

    -- The expansion of a pattern ends, whatever the pattern, where `.` and `]` are no digits. It is the
    -- pattern alone where no part of it is `[`, digits, `..`, digits and `]`; else the pattern is a
    -- prefix, `[`, the digits of a first number, `..`, the digits of a last one, `]` and a suffix, and
    -- the expansion is that of the prefix, the number and the suffix for each number from the first to
    -- the last, both of them in, in order. No name that it gives has such a part.
    pub expand_node_range-ends :
        (s : String)
        → IsExpanded s (expand_node_range digit_value s)
          × All HasNoRange (expand_node_range digit_value s)
    unfolding expand_node_range node_name
    expand_node_range-ends s = (
      elim (Option-cases (find_range digit_value s)) [
        | inl none_there ↦
            plain (find_range-no_match digit_value dot close s none_there)
              (expand-plain _ s none_there)
        | inr (r, e) ↦
            ranged r (numbers digit_value r) (find_range-IsMatch digit_value s r e)
              (numbers-AreFromTo digit_value r) (expand-some (count_open s) s r (omega arith) e)
      ],
      All-HasNoRange _ (expand-done (count_open s) s (omega arith)),
    )
