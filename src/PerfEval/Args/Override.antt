-- ===== src/PerfEval/Args/Override.antt =====
-- `apply_override_args` of llm-perf-eval.py as updates of a map from keys to values.
use dev_llmops.Prelude.{
  get_elem?-set_other, ℕ, String, ◌≡◌, refl, sym, ◌∙◌, ap, subst, ◌⊎◌, true, false, not, Option,
  none, some, List, [], ◌∷◌, ◌++◌, if◌then◌else◌, length, set, get_elem?, arith, inl, inr,
  Bool-cases, Option-cases,
}
use dev_llmops.Prelude.Text.{strip, is_empty}
use dev_llmops.Prelude.Dict.{Dict, get, put, remove, str_eq, eq_iff, get-put, get-remove}
use dev_llmops.PerfEval.Args.{
  Arg, Args, append_arg, delete_arg, set_arg, lstrip_dash, deletion, second, apply_override,
  apply_overrides, read_args, is_option,
}
use dev_llmops.PerfEval.Args.Kept.{
  Shadowed, AreKept, read-AreKept, set_arg-AreKept, delete_arg-AreKept,
}
use dev_llmops.PerfEval.Args.Settings.{
  Settings, value_of, slot, view, Names, IsIndexed, get_elem?-append, get_elem?-last, get_elem?-set,
  other_index, updated, Shows, Puts, view_at, view-none, Puts-Shows,
}

put_same : (k : String) (n : ℕ) (m : Dict ℕ) → get k (put k n m) ≡ some n
put_same k n m = get-put k k n m ∙ rw ((eq_iff k k).1 refl) refl

put_other : (k j : String) (n : ℕ) (m : Dict ℕ) → str_eq k j ≡ false → get j (put k n m) ≡ get j m
put_other k j n m h = get-put k j n m ∙ rw h refl

some_inj : (i j : ℕ) → Path (Option ℕ) (some i) (some j) → i ≡ j
some_inj i j e = ground arith

append_arg-Puts : (k : String) (x : Arg) (a : Args) → IsIndexed a → Puts k x a (append_arg k x a)
unfolding append_arg
append_arg-Puts k x a w = (
  λ i g.
      subst (λ n. get_elem? (a.args ++ some x ∷ []) n ≡ some (some x))
        (some_inj (length a.args) i (sym (put_same k (length a.args) a.key_map) ∙ g))
        (get_elem?-last a.args (some x)),
  λ missing. some_not_none (sym (put_same k (length a.args) a.key_map) ∙ missing),
  λ j i h g.
      let g' : get j a.key_map ≡ some i = sym (put_other k j (length a.args) a.key_map h) ∙ g in
      (g', get_elem?-append j a.args (some x ∷ []) i (w j i g')),
  λ j h. put_other k j (length a.args) a.key_map h,
)
  where
    some_not_none : {n : ℕ} → Path (Option ℕ) (some n) none → ⊥
    some_not_none e = ground arith

set_at-Puts :
    (k : String) (x : Arg) (a : Args) (m : ℕ)
    → IsIndexed a
    → get k a.key_map ≡ some m
    → Puts k x a (record a { args = set a.args m (some x) })
set_at-Puts k x a m w e = (
  λ i g.
      subst (λ n. get_elem? (set a.args m (some x)) n ≡ some (some x)) (some_inj m i (sym e ∙ g))
        (get_elem?-set k a.args m (some x) (w k m e)),
  λ missing. there (sym e ∙ missing),
  λ j i h g. (g, get_elem?-set_other a.args m i (some x) (other_index a j k i m w g e h)),
  λ j h. refl,
)
  where
    there : Path (Option ℕ) (some m) none → ⊥
    there q = ground arith

set_arg-Shows :
    (tok : String) (v : Option String) (a : Args) (f : Settings)
    → Shows a f
    → Shows (set_arg tok v a) (updated (lstrip_dash tok) (some v) f)
unfolding set_arg
set_arg-Shows tok v a f s = elim (Option-cases (get (lstrip_dash tok) a.key_map)) [
  | inl missing ↦
      rw (missing, set_arg)
        (Puts-Shows (lstrip_dash tok) tok v a (append_arg (lstrip_dash tok) (tok, v) a) f refl
          (append_arg-Puts (lstrip_dash tok) (tok, v) a s.0) s)
  | inr (i, e) ↦
      rw (e, set_arg)
        (Puts-Shows (lstrip_dash tok) tok v a (record a { args = set a.args i (some (tok, v)) }) f
          refl (set_at-Puts (lstrip_dash tok) (tok, v) a i s.0 e) s)
]

delete_at-Shows :
    (k : String) (a : Args) (f : Settings) (m : ℕ)
    → get k a.key_map ≡ some m
    → Shows a f
    → Shows (record a { args = set a.args m none; key_map = remove k a.key_map }) (updated k none f)
delete_at-Shows k a f m e (w, s) = (λ j i g. indexed j i g, λ j. shown j)
  where
    kept :
        (j : String) (i : ℕ)
        → str_eq k j ≡ false
        → get j a.key_map ≡ some i
        → get_elem? (set a.args m none) i ≡ get_elem? a.args i
    kept j i h g = get_elem?-set_other a.args m i none (other_index a j k i m w g e h)

    away : (j : String) → str_eq k j ≡ true → get j (remove k a.key_map) ≡ none
    away j h = get-remove k j a.key_map ∙ rw h refl

    stays : (j : String) → str_eq k j ≡ false → get j (remove k a.key_map) ≡ get j a.key_map
    stays j h = get-remove k j a.key_map ∙ rw h refl

    indexed :
        (j : String) (i : ℕ)
        → get j (remove k a.key_map) ≡ some i
        → Names j (get_elem? (set a.args m none) i)
    indexed j i g = elim (Bool-cases (str_eq k j)) [
      | inl same ↦ absurd (clash (sym g ∙ away j same))
      | inr other ↦
          let g' = sym (stays j other) ∙ g in subst (Names j) (sym (kept j i other g')) (w j i g')
    ]
      where
        clash : Path (Option ℕ) (some i) none → ⊥
        clash q = ground arith

    shown :
        (j : String) → slot (set a.args m none) (get j (remove k a.key_map)) ≡ updated k none f j
    shown j = elim (Bool-cases (str_eq k j)) [
      | inl same ↦ rw (same, away j same) refl
      | inr other ↦ elim (Option-cases (get j a.key_map)) [
        | inl missing ↦ rw (other, stays j other, missing) (sym (view-none a j missing) ∙ s j)
        | inr (i, g) ↦
            rw (other, stays j other, g)
              (ap value_of (kept j i other g) ∙ sym (view_at a j i g) ∙ s j)
      ]
    ]

delete_arg-Shows :
    (k : String) (a : Args) (f : Settings) → Shows a f → Shows (delete_arg k a) (updated k none f)
unfolding delete_arg
delete_arg-Shows k a f s = elim (Option-cases (get k a.key_map)) [
  | inl missing ↦ rw (missing, delete_arg) (s.0, λ j. absent j missing)
  | inr (i, e) ↦ rw (e, delete_arg) (delete_at-Shows k a f i e s)
]
  where
    absent : (j : String) → get k a.key_map ≡ none → view a j ≡ updated k none f j
    absent j missing = elim (Bool-cases (str_eq k j)) [
      | inl same ↦
          rw same (subst (λ l. view a l ≡ none) ((eq_iff k j).0 same) (view-none a k missing))
      | inr other ↦ rw other (s.1 j)
    ]

module _ (shlex_split : String → Option (List String)) where
  -- What one override, stripped and not empty, makes of the settings; none where the split raises.
  abbrev pub change : String → Settings → Option Settings
  change o f = elim (deletion o) [
    | some key_part ↦ some (updated (lstrip_dash (strip key_part)) none f)
    | none ↦ elim (shlex_split o) [
      | none ↦ none
      | some [] ↦ some f
      | some (key_tok ∷ rest) ↦ some (updated (lstrip_dash key_tok) (some (second rest)) f)
    ]
  ]

  -- The overrides in order: a later one wins.
  abbrev pub changes : List String → Settings → Option Settings
  changes [] f = some f
  changes (o ∷ os) f =
      let skipped = changes os f in
      if is_empty (strip o)
      then skipped
      else elim (change (strip o) f) [ none ↦ none | some f' ↦ changes os f' ]

-- The settings of a command's tokens, after those of `f`: a later option wins.
abbrev pub read_settings : List String → Settings → Settings
read_settings [] f = f
read_settings (t ∷ []) f = if is_option t then updated (lstrip_dash t) (some none) f else f
read_settings (t ∷ u ∷ ts) f =
    let valued = read_settings ts (updated (lstrip_dash t) (some (some u)) f) in
    let flag = read_settings (u ∷ ts) (updated (lstrip_dash t) (some none) f) in
    let other = read_settings (u ∷ ts) f in
    if not (is_option t) then other else if not (is_option u) then valued else flag

-- Each argument that is there is what the settings say of its key, or was shadowed in the command.
abbrev pub IsPinned : Args → Args → Settings → Type 0
IsPinned a0 a f =
    (i : ℕ) (tok : String) (v : Option String)
    → get_elem? a.args i ≡ some (some (tok, v))
    → (f (lstrip_dash tok) ≡ some v) ⊎ Shadowed a0 i (tok, v)

-- Both raise, or the settings are those of the arguments, and the arguments those of the settings.
abbrev pub Agree : Args → Option Args → Option Settings → Type 0
Agree a0 none none = Unit
Agree a0 none (some f) = ⊥
Agree a0 (some a) none = ⊥
Agree a0 (some a) (some f) = Shows a f × IsPinned a0 a f

-- The same, by the index.
abbrev Follows : Args → Option Args → Option Settings → Type 0
Follows a0 none none = Unit
Follows a0 none (some f) = ⊥
Follows a0 (some a) none = ⊥
Follows a0 (some a) (some f) = Shows a f × AreKept a0 a

Follows-Agree : (a0 : Args) (o : Option Args) (g : Option Settings) → Follows a0 o g → Agree a0 o g
Follows-Agree a0 none none h = tt
Follows-Agree a0 none (some f) h = absurd h
Follows-Agree a0 (some a) none h = absurd h
Follows-Agree a0 (some a) (some f) (s, kept) = (s, λ i tok v e. pinned i tok v e)
  where
    pinned :
        (i : ℕ) (tok : String) (v : Option String)
        → get_elem? a.args i ≡ some (some (tok, v))
        → (f (lstrip_dash tok) ≡ some v) ⊎ Shadowed a0 i (tok, v)
    pinned i tok v e = elim (kept i (tok, v) e) [
      | inr shadowed ↦ inr shadowed
      | inl named ↦
          inl (sym (s.1 (lstrip_dash tok)) ∙ view_at a (lstrip_dash tok) i named ∙ ap value_of e)
    ]

read_arg-Shows :
    (t : String) (v : Option String) (a : Args) (f : Settings)
    → Shows a f
    → Shows (append_arg (lstrip_dash t) (t, v) a) (updated (lstrip_dash t) (some v) f)
read_arg-Shows t v a f s =
    Puts-Shows (lstrip_dash t) t v a (append_arg (lstrip_dash t) (t, v) a) f refl
      (append_arg-Puts (lstrip_dash t) (t, v) a s.0) s

read_args-Shows :
    (ts : List String) (a : Args) (f : Settings)
    → Shows a f
    → Shows (read_args ts a) (read_settings ts f)
unfolding read_args
read_args-Shows [] a f s = s
read_args-Shows (t ∷ []) a f s = elim (Bool-cases (is_option t)) [
  | inl h ↦ rw h (read_arg-Shows t none a f s)
  | inr h ↦ rw h s
]
read_args-Shows (t ∷ u ∷ ts) a f s = elim (Bool-cases (is_option t)) [
  | inr h ↦ rw h (read_args-Shows (u ∷ ts) _ f s)
  | inl h ↦ elim (Bool-cases (is_option u)) [
    | inl g ↦ rw (h, g) (read_args-Shows (u ∷ ts) _ _ (read_arg-Shows t none a f s))
    | inr g ↦ rw (h, g) (read_args-Shows ts _ _ (read_arg-Shows t (some u) a f s))
  ]
]

module _ (shlex_split : String → Option (List String)) (a0 : Args) where
  apply_override-Follows :
      (o : String) (a : Args) (f : Settings)
      → Shows a f × AreKept a0 a
      → Follows a0 (apply_override shlex_split o a) (change shlex_split o f)
  unfolding apply_override
  apply_override-Follows o a f s = go (deletion o) (shlex_split o)
    where
      go :
          (d : Option String) (tokens : Option (List String))
          → Follows a0
              (elim d [
                | some key_part ↦ some (delete_arg (lstrip_dash (strip key_part)) a)
                | none ↦ elim tokens [
                  | none ↦ none
                  | some [] ↦ some a
                  | some (key_tok ∷ rest) ↦ some (set_arg key_tok (second rest) a)
                ]
              ])
              (elim d [
                | some key_part ↦ some (updated (lstrip_dash (strip key_part)) none f)
                | none ↦ elim tokens [
                  | none ↦ none
                  | some [] ↦ some f
                  | some (key_tok ∷ rest) ↦
                      some (updated (lstrip_dash key_tok) (some (second rest)) f)
                ]
              ])
      go (some key_part) tokens = (delete_arg-Shows _ a f s.0, delete_arg-AreKept a0 a _ s.0.0 s.1)
      go none none = tt
      go none (some []) = s
      go none (some (key_tok ∷ rest)) = (
        set_arg-Shows key_tok (second rest) a f s.0,
        set_arg-AreKept a0 a key_tok (second rest) s.0.0 s.1,
      )

  Follows-then :
      (next : Args → Option Args) (next' : Settings → Option Settings)
      → ((a : Args) (f : Settings) → Shows a f × AreKept a0 a → Follows a0 (next a) (next' f))
      → (x : Option Args) (y : Option Settings) → Follows a0 x y
      → Follows a0
          (elim x [ none ↦ none | some a ↦ next a ])
          (elim y [ none ↦ none | some f ↦ next' f ])
  Follows-then next next' h none none e = tt
  Follows-then next next' h none (some f) e = absurd e
  Follows-then next next' h (some a) none e = absurd e
  Follows-then next next' h (some a) (some f) e = h a f e

  apply_overrides-Follows :
      (os : List String) (a : Args) (f : Settings)
      → Shows a f × AreKept a0 a
      → Follows a0 (apply_overrides shlex_split os a) (changes shlex_split os f)
  unfolding apply_overrides
  apply_overrides-Follows [] a f s = s
  apply_overrides-Follows (o ∷ os) a f s = elim (Bool-cases (is_empty (strip o))) [
    | inl h ↦ rw h (apply_overrides-Follows os a f s)
    | inr h ↦ rw h (
        Follows-then (apply_overrides shlex_split os) (changes shlex_split os)
          (apply_overrides-Follows os) _ _ (apply_override-Follows (strip o) a f s))
  ]

module _ (shlex_split : String → Option (List String)) where
  -- Whatever the tokens of a command and the overrides, the arguments that `apply_override_args`
  -- reads and changes by index stand for a plain map from keys to values: each option of the command
  -- sets its key, then each override in order sets or deletes one; where the split of an override
  -- raises, both give none. An argument that is left to be printed has the value that the map has for
  -- its key, or is one of the command that a later option of the command with the same key had taken
  -- out of the index; so no argument stays whose key is deleted but of those.
  pub apply_overrides-refines :
      (tokens overrides : List String)
      → let a0 : Args = read_args tokens record { prefix = []; args = []; key_map = [] } in
        Agree a0
          (apply_overrides shlex_split overrides a0)
          (changes shlex_split overrides (read_settings tokens (λ k. none)))
  unfolding get
  apply_overrides-refines tokens overrides =
      let a0 = read_args tokens record { prefix = []; args = []; key_map = [] } in
      let shows =
        read_args-Shows tokens record { prefix = []; args = []; key_map = [] } (λ k. none)
          (λ k i g. absurd (nothing k i g), λ k. none_at k) in
      Follows-Agree a0 _ _ (
        apply_overrides-Follows shlex_split a0 overrides a0 (read_settings tokens (λ k. none))
          (shows, read-AreKept a0))
    where
      nothing : (k : String) (i : ℕ) → get k [] ≡ some i → ⊥
      nothing k i g = ground arith

      none_at : (k : String) → slot [] (get k []) ≡ none
      none_at k = refl
