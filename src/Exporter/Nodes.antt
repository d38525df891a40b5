-- ===== src/Exporter/Nodes.antt =====
-- The names of the simulated nodes: `expand_node_range` and `generate_nodes_from_config` of
-- k8s-yaml/fake-node-exporter/fake-node-exporter.py. `digit_value` gives what `\d` matches and `int`
-- reads: the value of a decimal digit of Unicode.
pub mod Matches
mod Count
mod Search
pub mod Expansion
use Prim.Native.Char.{Char, code}
use Prim.Native.String
use dev_llmops.Prelude.{
  ℕ, zero, suc, ◌+◌, ◌-◌, ◌*◌, String, Bool, true, false, not, Option, none, some, List, [], ◌∷◌,
  ◌++◌, map, ◌==◌, if◌then◌else◌, concat_map,
}
use dev_llmops.Prelude.Text.{text, show, zfill, count_chars, is_empty, after_prefix}

-- The match of `\[(\d+)\.\.(\d+)\]` in a pattern, with what stands before and after it.
pub record Range : Type 0 where
  pub prefix : String
  pub start_str : String
  pub end_str : String
  pub suffix : String

-- n numbers from i on
unfoldable pub range : ℕ → ℕ → List ℕ
range i zero = []
range i (suc n) = i ∷ range (i + 1) n

-- The number of `[` in a text.
unfoldable pub count_open : String → ℕ
count_open String.[] = 0
count_open (String.◌∷◌ c s) = if code c == b'[' then suc (count_open s) else count_open s

-- f"{prefix}{str(i).zfill(width)}{suffix}"
unfoldable pub node_name : Range → ℕ → String
unfolding text show zfill count_chars
node_name r i = text (r.prefix ∷ zfill (count_chars r.start_str) (show i) ∷ r.suffix ∷ [])

-- A match one character further on.
unfoldable pub one_before : Char → Option Range → Option Range
one_before c none = none
one_before c (some r) = some (record r { prefix = String.◌∷◌ c r.prefix })

module _ (digit_value : ℕ → Option ℕ) where
  -- (\d+): the digits at the front, and what follows.
  unfoldable pub take_digits : String → String
  take_digits String.[] = ""
  take_digits (String.◌∷◌ c s) =
      let rest = take_digits s in
      elim (digit_value (code c)) [ none ↦ "" | some d ↦ String.◌∷◌ c rest ]

  unfoldable pub drop_digits : String → String
  drop_digits String.[] = ""
  drop_digits (String.◌∷◌ c s) =
      let rest = drop_digits s in
      elim (digit_value (code c)) [ none ↦ String.◌∷◌ c s | some d ↦ rest ]

  -- int(s), for digits; `acc` is the value so far
  unfoldable pub int_of : ℕ → String → ℕ
  int_of acc String.[] = acc
  int_of acc (String.◌∷◌ c s) = elim (digit_value (code c)) [
    | none ↦ int_of acc s
    | some d ↦ int_of (acc * 10 + d) s
  ]

  -- The rest of the match, after `[`.
  unfoldable pub match_inside : String → Option Range
  unfolding take_digits drop_digits after_prefix is_empty
  match_inside s =
      if is_empty (take_digits s) then none else elim (after_prefix ".." (drop_digits s)) [
        | none ↦ none
        | some t ↦
            if is_empty (take_digits t) then none else elim (after_prefix "]" (drop_digits t)) [
              | none ↦ none
              | some suffix ↦ some (record {
                prefix = "";
                start_str = take_digits s;
                end_str = take_digits t;
                suffix = suffix;
              })
            ]
      ]

  -- re.search: the first match from the left
  unfoldable pub find_range : String → Option Range
  unfolding match_inside one_before
  find_range String.[] = none
  find_range (String.◌∷◌ c s) =
      let later = one_before c (find_range s) in
      if not (code c == b'[')
      then later
      else elim (match_inside s) [ some r ↦ some r | none ↦ later ]

  -- range(start, end + 1)
  unfoldable pub numbers : Range → List ℕ
  unfolding int_of range
  numbers r = range (int_of 0 r.start_str) (int_of 0 r.end_str + 1 - int_of 0 r.start_str)

  -- `expand_node_range` on fuel.
  unfoldable pub expand : ℕ → String → List String
  unfolding find_range numbers node_name
  expand zero pattern = pattern ∷ []
  expand (suc fuel) pattern = elim (find_range pattern) [
    | none ↦ pattern ∷ []
    | some r ↦ concat_map (λ i. expand fuel (node_name r i)) (numbers r)
  ]

  -- A match takes a `[` away, so that their number is fuel enough.
  unfoldable pub expand_node_range : String → List String
  unfolding expand count_open
  expand_node_range pattern = expand (count_open pattern) pattern

  -- [f"node-{str(i).zfill(4)}" for i in range(1, 1201)]
  unfoldable pub default_nodes : List String
  unfolding text show zfill range
  default_nodes = map (λ i. text ("node-" ∷ zfill 4 (show i) ∷ [])) (range 1 1200)

  unfoldable pub generate_nodes_from_config : List String → List String
  unfolding default_nodes expand_node_range
  generate_nodes_from_config [] = default_nodes
  generate_nodes_from_config (p ∷ patterns) = concat_map expand_node_range (p ∷ patterns)
