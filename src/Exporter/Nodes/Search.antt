-- ===== src/Exporter/Nodes/Search.antt =====
-- `expand_node_range` of fake-node-exporter.py finds a match wherever there is one.
use Prim.Native.Char.{Char, code}
use Prim.Native.String
use Prim.Native.String.append
use mathlib.Core.Path.{ap₂}
use dev_llmops.Prelude.{
  ℕ, String, ◌≡◌, refl, sym, ap, subst, ◌∙◌, Option, none, some, ◌==◌, arith, Option-cases,
  Bool-cases, inl, inr, false,
}
use dev_llmops.Prelude.Text.{is_empty, after_prefix}
use dev_llmops.Exporter.Nodes.{
  one_before, Range, take_digits, drop_digits, match_inside, find_range,
}
use dev_llmops.Exporter.Nodes.Matches.{spelled, AllDigits, IsMatch, append-nil, append-cons}

module _ (digit_value : ℕ → Option ℕ) where
  -- What stands after digits, where it does not begin with one, is what is left of them.
  take_drop_digits :
      (a : String) (c : Char) (rest : String)
      → AllDigits digit_value a
      → digit_value (code c) ≡ none
      → (take_digits digit_value (String.◌++◌ a (String.◌∷◌ c rest)) ≡ a)
        × (drop_digits digit_value (String.◌++◌ a (String.◌∷◌ c rest)) ≡ String.◌∷◌ c rest)
  unfolding take_digits drop_digits
  take_drop_digits String.[] c rest all other =
      rw (append-nil (String.◌∷◌ c rest))
        (rw (other, take_digits) refl, rw (other, drop_digits) refl)
  take_drop_digits (String.◌∷◌ e a) c rest ((d, digit), all) other =
      let (taken, dropped) = take_drop_digits a c rest all other in
      rw (append-cons e a (String.◌∷◌ c rest))
        (rw (digit, take_digits) (ap (λ x. String.◌∷◌ e x) taken), rw (digit, drop_digits) dropped)

  module _ (dot : digit_value b'.' ≡ none) (close : digit_value b']' ≡ none) where
    match_inside-spelled :
        (a b u : String)
        → is_empty a ≡ false
        → is_empty b ≡ false
        → AllDigits digit_value a
        → AllDigits digit_value b
        → (q : Range) × (match_inside digit_value
              (String.◌++◌ a (String.◌++◌ ".." (String.◌++◌ b (String.◌∷◌ "]" u))))
            ≡ some q)
    unfolding match_inside after_prefix
    match_inside-spelled a b u some_first some_last first_all last_all =
        let last = String.◌++◌ b (String.◌∷◌ "]" u) in
        let dots : String.◌++◌ ".." last ≡ String.◌∷◌ "." (String.◌∷◌ "." last) =
          append-cons "." "." last
          ∙ ap (λ x. String.◌∷◌ "." x)
              (append-cons "." "" last ∙ ap (λ x. String.◌∷◌ "." x) (append-nil last)) in
        let (t1, d1) = take_drop_digits a "." (String.◌∷◌ "." last) first_all dot in
        let (t2, d2) = take_drop_digits b "]" u last_all close in
        (
          record { prefix = ""; start_str = a; end_str = b; suffix = u },
          rw (dots, t1, some_first, d1, t2, some_last, d2)
              (ap₂ (λ x y. some (record { prefix = ""; start_str = x; end_str = y; suffix = u }))
                (subst (λ x. take_digits digit_value (String.◌++◌ a x) ≡ a) (sym dots) t1) t2),
        )

    one_before-none : (c : Char) (o : Option Range) → one_before c o ≡ none → o ≡ none
    unfolding one_before
    one_before-none c none e = refl
    one_before-none c (some q) e = absurd (ground arith)

    find_range-later :
        (c : Char) (t : String)
        → find_range digit_value (String.◌∷◌ c t) ≡ none
        → one_before c (find_range digit_value t) ≡ none
    unfolding find_range
    find_range-later c t e = elim (Bool-cases (code c == b'[')) [
      | inr other ↦ rw other at e
      | inl opens ↦ elim (Option-cases (match_inside digit_value t)) [
        | inl nothing ↦ rw (opens, nothing) at e
        | inr (q, inside) ↦ absurd (ground (arith, rw (opens, inside) at e))
      ]
    ]

    find_range-spelled :
        (p a b u : String)
        → is_empty a ≡ false
        → is_empty b ≡ false
        → AllDigits digit_value a
        → AllDigits digit_value b
        → find_range digit_value
            (spelled record { prefix = p; start_str = a; end_str = b; suffix = u })
          ≡ none
        → ⊥
    unfolding find_range
    find_range-spelled String.[] a b u some_first some_last first_all last_all e =
        let rest = String.◌++◌ a (String.◌++◌ ".." (String.◌++◌ b (String.◌∷◌ "]" u))) in
        let (q, inside) = match_inside-spelled a b u some_first some_last first_all last_all in
        let e' : find_range digit_value (String.◌∷◌ "[" rest) ≡ none =
          subst (λ x. find_range digit_value x ≡ none) (append-nil (String.◌∷◌ "[" rest)) e in
        clash q (rw (inside, find_range) at e')
      where
        clash : (q : Range) → Path (Option Range) (some q) none → ⊥
        clash q f = ground arith
    find_range-spelled (String.◌∷◌ c p) a b u some_first some_last first_all last_all e =
        let rest = String.◌++◌ a (String.◌++◌ ".." (String.◌++◌ b (String.◌∷◌ "]" u))) in
        let tail = String.◌++◌ p (String.◌∷◌ "[" rest) in
        let e' : find_range digit_value (String.◌∷◌ c tail) ≡ none =
          subst (λ x. find_range digit_value x ≡ none) (append-cons c p (String.◌∷◌ "[" rest)) e in
        find_range-spelled p a b u some_first some_last first_all last_all
          (one_before-none c (find_range digit_value tail) (find_range-later c tail e'))

    -- Where the search finds nothing, there is no match.
    pub find_range-no_match :
        (s : String) → find_range digit_value s ≡ none → (r : Range) → IsMatch digit_value s r → ⊥
    find_range-no_match s e r m =
        find_range-spelled r.prefix r.start_str r.end_str r.suffix m.start_digits m.end_digits
          m.start_all m.end_all (rw m.whole at e)
