-- ===== src/Exporter/Nodes/Count.antt =====
-- How often `[` stands in the names of fake-node-exporter.py, which bounds the expansion of a range.
use Prim.Native.Char.{Char, code}
use Prim.Native.String
use Prim.Native.String.append
use dev_llmops.Prelude.{
  ℕ, zero, suc, ◌+◌, ◌-◌, ◌/◌, ◌%◌, ◌≤◌, ◌<◌, String, ◌≡◌, refl, subst, ◌∙◌, Option, none, some,
  List, [], ◌∷◌, ◌==◌, arith, All, Option-cases, Bool-cases, inl, inr,
}
use dev_llmops.Prelude.Text.{
  text, show, show_fuel, digit, digits, text_at, zeros, zfill, count_chars, is_empty, after_prefix,
}
use dev_llmops.Exporter.Nodes.{
  one_before, Range, count_open, node_name, take_digits, drop_digits, match_inside, find_range,
}
use dev_llmops.Exporter.Nodes.Matches.{append-nil, append-cons}

count-append : (s t : String) → count_open (String.◌++◌ s t) ≡ count_open s + count_open t
unfolding count_open
count-append String.[] t = rw (append-nil t) (omega arith)
count-append (String.◌∷◌ c s) t = elim (Bool-cases (code c == b'[')) [
  | inl opens ↦ rw (append-cons c s t, opens) (omega (arith, count-append s t))
  | inr other ↦ rw (append-cons c s t, other) (count-append s t)
]

count_open-nil : count_open "" ≡ 0
unfolding count_open
count_open-nil = refl

count-text_at :
    (ss : List String) (i : ℕ) → All (λ s. count_open s ≡ 0) ss → count_open (text_at ss i) ≡ 0
unfolding text_at
count-text_at [] i h = count_open-nil
count-text_at (s ∷ ss) zero (h, hs) = h
count-text_at (s ∷ ss) (suc i) (h, hs) = count-text_at ss i hs

count_open-digit : (d : ℕ) → count_open (digit d) ≡ 0
unfolding digit count_open
count_open-digit d =
    count-text_at digits d
      (refl, (refl, (refl, (refl, (refl, (refl, (refl, (refl, (refl, (refl, tt))))))))))

count-digit : (d : ℕ) (s : String) → count_open (String.◌++◌ (digit d) s) ≡ count_open s
count-digit d s = count-append (digit d) s ∙ rw (count_open-digit d) (omega arith)

count-show_fuel : (f n : ℕ) (acc : String) → count_open (show_fuel f n acc) ≡ count_open acc
unfolding show_fuel
count-show_fuel zero n acc = refl
count-show_fuel (suc f) n acc = elim (Bool-cases (n / 10 == 0)) [
  | inl last ↦ rw last (count-digit (n % 10) acc)
  | inr more ↦ rw more (count-show_fuel f (n / 10) _ ∙ count-digit (n % 10) acc)
]

count-zeros : (n : ℕ) (s : String) → count_open (zeros n s) ≡ count_open s
unfolding zeros count_open
count-zeros zero s = refl
count-zeros (suc n) s = count-append "0" (zeros n s) ∙ rw (count-zeros n s) (omega arith)

count-show : (n : ℕ) → count_open (show n) ≡ 0
unfolding show
count-show n = count-show_fuel (suc n) n "" ∙ count_open-nil

pub count-node_name :
    (r : Range) (i : ℕ) → count_open (node_name r i) ≡ count_open r.prefix + count_open r.suffix
unfolding node_name text zfill
count-node_name r i =
    let number = zeros (count_chars r.start_str - count_chars (show i)) (show i) in
    omega (
      arith,
      count-append r.prefix (String.◌++◌ number (String.◌++◌ r.suffix "")),
      count-append number (String.◌++◌ r.suffix ""),
      count-append r.suffix "",
      count-zeros (count_chars r.start_str - count_chars (show i)) (show i),
      count-show i,
      count_open-nil,
    )

some_injective : (q r : Range) → Path (Option Range) (some q) (some r) → q ≡ r
some_injective q r e = cc

one_before-count :
    (c : Char) (s : String) (o : Option Range) (r : Range)
    → ((q : Range) → o ≡ some q → count_open q.prefix + count_open q.suffix < count_open s)
    → one_before c o ≡ some r
    → count_open r.prefix + count_open r.suffix < count_open (String.◌∷◌ c s)
unfolding one_before count_open
one_before-count c s none r h e = absurd (ground arith)
one_before-count c s (some q) r h e =
    subst (λ x. count_open x.prefix + count_open x.suffix < count_open (String.◌∷◌ c s))
      (some_injective (record q { prefix = String.◌∷◌ c q.prefix }) r e) (counted (h q refl))
  where
    counted :
        count_open q.prefix + count_open q.suffix < count_open s
        → count_open (String.◌∷◌ c q.prefix) + count_open q.suffix < count_open (String.◌∷◌ c s)
    counted l = ground arith

module _ (digit_value : ℕ → Option ℕ) where
  count-drop_digits : (s : String) → count_open (drop_digits digit_value s) ≤ count_open s
  unfolding drop_digits count_open
  count-drop_digits String.[] = omega arith
  count-drop_digits (String.◌∷◌ c s) = ground (arith, count-drop_digits s)

  count-after_prefix : (p s t : String) → after_prefix p s ≡ some t → count_open t ≤ count_open s
  unfolding after_prefix count_open
  count-after_prefix String.[] s t e = let same : s ≡ t = cc in rw same (omega arith)
  count-after_prefix (String.◌∷◌ p ps) String.[] t e = ground arith
  count-after_prefix (String.◌∷◌ p ps) (String.◌∷◌ c s) t e =
      ground (arith, count-after_prefix ps s t)

  match_inside-suffix :
      (s : String) (r : Range)
      → match_inside digit_value s ≡ some r
      → (count_open r.suffix ≤ count_open s) × (count_open r.prefix ≡ 0)
  unfolding match_inside
  match_inside-suffix s r e = elim (Bool-cases (is_empty (take_digits digit_value s))) [
    | inl none_first ↦ absurd (ground (arith, rw none_first at e))
    | inr first ↦ elim (Option-cases (after_prefix ".." (drop_digits digit_value s))) [
      | inl no_dots ↦ absurd (ground (arith, rw (first, no_dots) at e))
      | inr (t, dots) ↦ elim (Bool-cases (is_empty (take_digits digit_value t))) [
        | inl none_second ↦ absurd (ground (arith, rw (first, dots, none_second) at e))
        | inr second ↦ elim (Option-cases (after_prefix "]" (drop_digits digit_value t))) [
          | inl no_close ↦ absurd (ground (arith, rw (first, dots, second, no_close) at e))
          | inr (u, close) ↦
              let found = rw (first, dots, second, close) at e in
              (
                ground (
                  arith,
                  found,
                  count-drop_digits s,
                  count-after_prefix ".." (drop_digits digit_value s) t dots,
                  count-drop_digits t,
                  count-after_prefix "]" (drop_digits digit_value t) u close,
                ),
                ground (arith, found, count_open-nil),
              )
        ]
      ]
    ]
  ]

  -- The range that is found has a `[` that stands neither before nor after it.
  pub find_range-count :
      (s : String) (r : Range)
      → find_range digit_value s ≡ some r
      → count_open r.prefix + count_open r.suffix < count_open s
  unfolding find_range count_open
  find_range-count String.[] r e = absurd (ground arith)
  find_range-count (String.◌∷◌ c s) r e = elim (Bool-cases (code c == b'[')) [
    | inr other ↦
        one_before-count c s (find_range digit_value s) r (find_range-count s) (rw other at e)
    | inl opens ↦ elim (Option-cases (match_inside digit_value s)) [
      | inr (q, inside) ↦
          let (after, before) = match_inside-suffix s q inside in
          let same : q ≡ r = some_injective q r (rw (opens, inside) at e) in
          ground (
            arith,
            subst (λ x. count_open x.prefix + count_open x.suffix ≤ count_open s) same
                (omega (arith, after, before)),
          )
      | inl nothing ↦
          one_before-count c s (find_range digit_value s) r (find_range-count s)
            (rw (opens, nothing) at e)
    ]
  ]
