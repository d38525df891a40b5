-- ===== src/Alert/Types/Laws.antt =====
-- The laws of the buffer as a dict with compound keys.
use dev_llmops.Prelude.{
  ℕ, ◌+◌, ◌≡◌, refl, ◌↔◌, inl, inr, Bool, true, Option, none, some, List, [], ◌∷◌, ◌++◌, arith,
  if◌then◌else◌, Bool-cases,
}
use dev_llmops.Prelude.Dict.{eq_iff}
use dev_llmops.Alert.Types.{Alert, Key, Group, Buffer, key_eq, find_group, put_group}

pub key_eq_iff : (k j : Key) → (key_eq k j ≡ true) ↔ (k ≡ j)
unfolding key_eq
key_eq_iff k j = (
  λ h. ground (
    arith,
    eq_iff k.webhook j.webhook,
    eq_iff k.alert_name j.alert_name,
    eq_iff k.status j.status,
  ),
  λ h. ground (
    arith,
    eq_iff k.webhook j.webhook,
    eq_iff k.alert_name j.alert_name,
    eq_iff k.status j.status,
  ),
)

pub find-put :
    (k j : Key) (g : Group) (b : Buffer)
    → find_group j (put_group k g b) ≡ (if key_eq k j then some g else find_group j b)
unfolding find_group put_group
find-put k j g [] = refl
find-put k j g ((i, h) ∷ b) =
    ground (arith, key_eq_iff k j, key_eq_iff i k, key_eq_iff i j, find-put k j g b)

-- No key twice, as in every dict.
abbrev pub DistinctKeys : Buffer → Type 0
DistinctKeys [] = Unit
DistinctKeys ((k, g) ∷ b) = (find_group k b ≡ none) × DistinctKeys b

pub DistinctKeys-put :
    (k : Key) (g : Group) (b : Buffer) → DistinctKeys b → DistinctKeys (put_group k g b)
unfolding find_group put_group
DistinctKeys-put k g [] d = (refl, tt)
DistinctKeys-put k g ((j, h) ∷ b) (fresh, d) =
    ground (arith, key_eq_iff j k, key_eq_iff k j, find-put k j g b, DistinctKeys-put k g b d)

-- How many alerts of a list, a group and a buffer satisfy `p`.
module _ (p : Alert → Bool) where
  abbrev pub count : List Alert → ℕ
  count [] = 0
  count (a ∷ as') = (if p a then 1 else 0) + count as'

  abbrev pub count_group : Option Group → ℕ
  count_group none = 0
  count_group (some g) = count g.alerts

  abbrev pub count_buffer : Buffer → ℕ
  count_buffer [] = 0
  count_buffer ((k, g) ∷ b) = count g.alerts + count_buffer b

  pub count-append : (xs ys : List Alert) → count (xs ++ ys) ≡ count xs + count ys
  count-append [] ys = omega arith
  count-append (x ∷ xs) ys = omega (arith, count-append xs ys)

  -- A write keeps all alerts but those of the group that it replaces.
  pub count-put :
      (k : Key) (g : Group) (b : Buffer)
      → count_buffer (put_group k g b) + count_group (find_group k b)
        ≡ count_buffer b + count g.alerts
  unfolding find_group put_group
  count-put k g [] = omega arith
  count-put k g ((j, h) ∷ b) = elim (Bool-cases (key_eq j k)) [
    | inl same ↦ rw same (omega arith)
    | inr other ↦ rw other (omega (arith, count-put k g b))
  ]
