-- ===== src/Exporter/Nodes/Matches.antt =====
-- What a match of the pattern `\[(\d+)\.\.(\d+)\]` of `expand_node_range` of fake-node-exporter.py is,
-- and which numbers its range has.
use Prim.Native.Char.{Char, code}
use Prim.Native.String
use Prim.Native.String.append
use text.Mathlib.TextEquality.{Char-path}
use dev_llmops.Prelude.{
  ℕ, zero, suc, ◌+◌, ◌-◌, ◌<◌, String, ◌≡◌, refl, sym, ap, subst, ◌∙◌, Option, none, some, List,
  ◌==◌, ==_iff, arith, Option-cases, Bool-cases, inl, inr, false, length, get_elem?,
}
use dev_llmops.Prelude.Text.{is_empty, after_prefix}
use dev_llmops.Exporter.Nodes.{
  one_before, Range, take_digits, drop_digits, match_inside, find_range, int_of, range, numbers,
}

-- The text of a range with what stands before and after it.
abbrev pub spelled : Range → String
spelled r = String.◌++◌ r.prefix (
    String.◌∷◌ "[" (
      String.◌++◌ r.start_str (String.◌++◌ ".." (String.◌++◌ r.end_str (String.◌∷◌ "]" r.suffix)))))

-- Nothing but decimal digits.
abbrev pub AllDigits : (ℕ → Option ℕ) → String → Type 0
AllDigits digit_value String.[] = Unit
AllDigits digit_value (String.◌∷◌ c s) =
    ((d : ℕ) × (digit_value (code c) ≡ some d)) × AllDigits digit_value s

-- A match in a text: the text is its parts, and both numbers are digits, at least one.
pub record IsMatch (digit_value : ℕ → Option ℕ) (s : String) (r : Range) : Type 0 where
  pub whole : s ≡ spelled r
  pub start_digits : is_empty r.start_str ≡ false
  pub end_digits : is_empty r.end_str ≡ false
  pub start_all : AllDigits digit_value r.start_str
  pub end_all : AllDigits digit_value r.end_str

-- The numbers from `first` to `last`, both of them in, in order.
pub record AreFromTo (first last : ℕ) (ns : List ℕ) : Type 0 where
  pub size : length ns ≡ last + 1 - first
  pub at : (i : ℕ) → i < length ns → get_elem? ns i ≡ some (first + i)

length-range : (i n : ℕ) → length (range i n) ≡ n
unfolding range
length-range i zero = refl
length-range i (suc n) = ap suc (length-range (i + 1) n)

range-get_elem? : (i n k : ℕ) → k < n → get_elem? (range i n) k ≡ some (i + k)
unfolding range
range-get_elem? i zero k h = absurd (omega arith)
range-get_elem? i (suc n) zero h = ap some (omega arith)
range-get_elem? i (suc n) (suc k) h =
    range-get_elem? (i + 1) n k (omega arith) ∙ ap some (omega arith)

pub append-nil : (t : String) → String.◌++◌ "" t ≡ t
append-nil t = append.nil t

pub append-cons :
    (c : Char) (s t : String) → String.◌++◌ (String.◌∷◌ c s) t ≡ String.◌∷◌ c (String.◌++◌ s t)
append-cons c s t = append.cons c s t

after_prefix-append : (p s t : String) → after_prefix p s ≡ some t → s ≡ String.◌++◌ p t
unfolding after_prefix
after_prefix-append String.[] s t e = let same : s ≡ t = cc in same ∙ sym (append-nil t)
after_prefix-append (String.◌∷◌ p ps) String.[] t e = ground arith
after_prefix-append (String.◌∷◌ p ps) (String.◌∷◌ c s) t e = elim (Bool-cases (code p == code c)) [
  | inl same ↦
      ap (λ d. String.◌∷◌ d s) (sym (Char-path p c ((==_iff (code p) (code c)).0 same)))
      ∙ ap (λ x. String.◌∷◌ p x) (after_prefix-append ps s t (rw same at e))
      ∙ sym (append-cons p ps t)
  | inr other ↦ absurd (ground (arith, rw other at e))
]

one_before-IsMatch :
    (digit_value : ℕ → Option ℕ) (c : Char) (s : String) (o : Option Range) (r : Range)
    → ((q : Range) → o ≡ some q → IsMatch digit_value s q)
    → one_before c o ≡ some r
    → IsMatch digit_value (String.◌∷◌ c s) r
unfolding one_before
one_before-IsMatch digit_value c s none r h e = absurd (ground arith)
one_before-IsMatch digit_value c s (some q) r h e =
    let same : record q { prefix = String.◌∷◌ c q.prefix } ≡ r = cc in
    subst (λ x. IsMatch digit_value (String.◌∷◌ c s) x) same (later (h q refl))
  where
    later :
        IsMatch digit_value s q
        → IsMatch digit_value (String.◌∷◌ c s) (record q { prefix = String.◌∷◌ c q.prefix })
    later m = record {
      whole = ap (λ x. String.◌∷◌ c x) m.whole ∙ sym (append-cons c q.prefix _);
      start_digits = m.start_digits;
      end_digits = m.end_digits;
      start_all = m.start_all;
      end_all = m.end_all;
    }

module _ (digit_value : ℕ → Option ℕ) where
  take_digits-append :
      (s : String) → s ≡ String.◌++◌ (take_digits digit_value s) (drop_digits digit_value s)
  unfolding take_digits drop_digits
  take_digits-append String.[] = refl
  take_digits-append (String.◌∷◌ c s) = elim (Option-cases (digit_value (code c))) [
    | inl other ↦ rw (other, take_digits, drop_digits) (sym (append-nil (String.◌∷◌ c s)))
    | inr (d, e) ↦
        rw (e, take_digits, drop_digits)
          (ap (λ x. String.◌∷◌ c x) (take_digits-append s) ∙ sym (append-cons c _ _))
  ]

  take_digits-AllDigits : (s : String) → AllDigits digit_value (take_digits digit_value s)
  unfolding take_digits
  take_digits-AllDigits String.[] = tt
  take_digits-AllDigits (String.◌∷◌ c s) = elim (Option-cases (digit_value (code c))) [
    | inl other ↦ rw (other, take_digits) tt
    | inr (d, e) ↦ rw (e, take_digits) ((d, e), take_digits-AllDigits s)
  ]

  -- A match that begins at a `[`.
  match_inside-IsMatch :
      (s : String) (r : Range)
      → match_inside digit_value s ≡ some r
      → IsMatch digit_value (String.◌∷◌ "[" s) r
  unfolding match_inside
  match_inside-IsMatch s r e = elim (Bool-cases (is_empty (take_digits digit_value s))) [
    | inl none_first ↦ absurd (ground (arith, rw none_first at e))
    | inr first ↦ elim (Option-cases (after_prefix ".." (drop_digits digit_value s))) [
      | inl no_dots ↦ absurd (ground (arith, rw (first, no_dots) at e))
      | inr (t, dots) ↦ elim (Bool-cases (is_empty (take_digits digit_value t))) [
        | inl none_second ↦ absurd (ground (arith, rw (first, dots, none_second) at e))
        | inr second ↦ elim (Option-cases (after_prefix "]" (drop_digits digit_value t))) [
          | inl no_close ↦ absurd (ground (arith, rw (first, dots, second, no_close) at e))
          | inr (u, close) ↦
              let found : some _ ≡ some r = rw (first, dots, second, close) at e in
              made t u first dots second close found
        ]
      ]
    ]
  ]
    where
      made :
          (t u : String)
          → is_empty (take_digits digit_value s) ≡ false
          → after_prefix ".." (drop_digits digit_value s) ≡ some t
          → is_empty (take_digits digit_value t) ≡ false
          → after_prefix "]" (drop_digits digit_value t) ≡ some u
          → Path
              (Option Range)
              (some (record {
                prefix = "";
                start_str = take_digits digit_value s;
                end_str = take_digits digit_value t;
                suffix = u;
              }))
              (some r)
          → IsMatch digit_value (String.◌∷◌ "[" s) r
      made t u first dots second close found =
          let q : Range = record {
            prefix = "";
            start_str = take_digits digit_value s;
            end_str = take_digits digit_value t;
            suffix = u;
          } in
          let same : q ≡ r = cc in
          let at_close : drop_digits digit_value t ≡ String.◌∷◌ "]" u =
            after_prefix-append "]" (drop_digits digit_value t) u close
            ∙ append-cons "]" "" u
            ∙ ap (λ x. String.◌∷◌ "]" x) (append-nil u) in
          let at_end : t ≡ String.◌++◌ (take_digits digit_value t) (String.◌∷◌ "]" u) =
            take_digits-append t ∙ ap (λ x. String.◌++◌ (take_digits digit_value t) x) at_close in
          let at_dots : drop_digits digit_value s
              ≡ String.◌++◌ ".." (String.◌++◌ (take_digits digit_value t) (String.◌∷◌ "]" u)) =
            after_prefix-append ".." (drop_digits digit_value s) t dots
            ∙ ap (λ x. String.◌++◌ ".." x) at_end in
          let all : s
              ≡ String.◌++◌ (take_digits digit_value s)
                  (String.◌++◌ ".." (String.◌++◌ (take_digits digit_value t) (String.◌∷◌ "]" u))) =
            take_digits-append s ∙ ap (λ x. String.◌++◌ (take_digits digit_value s) x) at_dots in
          subst (λ x. IsMatch digit_value (String.◌∷◌ "[" s) x) same
            (record {
              whole = ap (λ x. String.◌∷◌ "[" x) all ∙ sym (append-nil _);
              start_digits = first;
              end_digits = second;
              start_all = take_digits-AllDigits s;
              end_all = take_digits-AllDigits t;
            })

  -- What the search finds is a match in the text.
  pub find_range-IsMatch :
      (s : String) (r : Range) → find_range digit_value s ≡ some r → IsMatch digit_value s r
  unfolding find_range
  find_range-IsMatch String.[] r e = absurd (ground arith)
  find_range-IsMatch (String.◌∷◌ c s) r e = elim (Bool-cases (code c == b'[')) [
    | inr other ↦
        one_before-IsMatch digit_value c s (find_range digit_value s) r (find_range-IsMatch s)
          (rw other at e)
    | inl opens ↦ elim (Option-cases (match_inside digit_value s)) [
      | inr (q, inside) ↦
          let same : c ≡ "[" = Char-path c "[" ((==_iff (code c) b'[').0 opens) in
          let found : match_inside digit_value s ≡ some r = inside ∙ rw (opens, inside) at e in
          subst (λ d. IsMatch digit_value (String.◌∷◌ d s) r) (sym same)
            (match_inside-IsMatch s r found)
      | inl nothing ↦
          one_before-IsMatch digit_value c s (find_range digit_value s) r (find_range-IsMatch s)
            (rw (opens, nothing) at e)
    ]
  ]

  -- The numbers of a range go from its first to its last.
  pub numbers-AreFromTo :
      (r : Range)
      → AreFromTo
          (int_of digit_value 0 r.start_str)
          (int_of digit_value 0 r.end_str)
          (numbers digit_value r)
  unfolding numbers
  numbers-AreFromTo r = record {
    size = length-range _ _;
    at = λ i h. range-get_elem? _ _ i (
        omega (
          arith,
          length-range (int_of digit_value 0 r.start_str)
              (int_of digit_value 0 r.end_str + 1 - int_of digit_value 0 r.start_str),
        ));
  }
