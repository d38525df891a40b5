-- ===== src/Alert/Send/Pages.antt =====
-- A merged group is sent whole: the chunks are its alerts in order, numbered from 1 on.
use dev_llmops.Prelude.{
  ℕ, zero, suc, ◌+◌, ◌*◌, ◌≤◌, ◌<◌, String, Option, ◌≡◌, refl, sym, subst, ◌-◌, ap, List, [], ◌∷◌,
  ◌++◌, arith, length, length-take, take, drop, All, Bool, leb, leb→le, Bool-cases, inl, inr,
}
use mathlib.Core.List.{flatten}
use dev_llmops.Alert.Types.{Alert, Settings, Key}
use dev_llmops.Alert.Card.{
  Element, div, merged_alert, merged_alerts, merged_header, group_action,
  format_merged_alerts_to_feishu,
}
use dev_llmops.Alert.Send.{part_card}
use dev_llmops.Prelude.Dict.{str_eq}
use dev_llmops.Prelude.Chunks.{chunks, Fits, flatten-chunks, All-chunks}

drop_all : {A : Type 0} (n : ℕ) (xs : List A) → length xs ≤ n → drop n xs ≡ []
drop_all zero [] h = refl
drop_all zero (x ∷ xs) h = absurd (omega arith)
drop_all (suc n) [] h = refl
drop_all (suc n) (x ∷ xs) h = drop_all n xs (omega arith)

chunks-nil : {A : Type 0} (fuel m : ℕ) → chunks {A = A} fuel m [] ≡ []
unfolding chunks
chunks-nil zero m = refl
chunks-nil (suc fuel) m = refl

module _ (to_shanghai : String → Option String) (settings : Settings) where
  -- The elements of alerts, which are numbered one by one.
  abbrev pub blocks : Bool → ℕ → List Alert → List Element
  blocks is_firing number [] = []
  blocks is_firing number (alert ∷ alerts) =
      merged_alert to_shanghai settings is_firing number alert
      ++ blocks is_firing (number + 1) alerts

  merged_alerts-blocks :
      (is_firing : Bool) (number : ℕ) (alerts : List Alert)
      → merged_alerts to_shanghai settings is_firing number alerts ≡ blocks is_firing number alerts
  unfolding merged_alerts
  merged_alerts-blocks is_firing number [] = refl
  merged_alerts-blocks is_firing number (alert ∷ alerts) =
      ap (λ es. merged_alert to_shanghai settings is_firing number alert ++ es)
        (merged_alerts-blocks is_firing (number + 1) alerts)

  module _ (key : Key) (total total_parts : ℕ) where
    -- The cards of parts, from the part `part_index` on and after `before` alerts: each has a header
    -- and the elements of its alerts, which go on with the numbers where the part before has stopped.
    abbrev pub AreNumbered : ℕ → ℕ → List (List Alert) → Type 0
    AreNumbered part_index before [] = Unit
    AreNumbered part_index before (chunk ∷ rest) =
        let is_firing = str_eq key.status "firing" in
        let card = part_card to_shanghai settings key total total_parts part_index chunk in
        (card.elements
          ≡ div (
              merged_header to_shanghai settings is_firing key.alert_name total part_index
                total_parts)
            ∷ (blocks is_firing (before + 1) chunk
                ++ group_action to_shanghai settings is_firing key.alert_name total))
        × AreNumbered (part_index + 1) (before + length chunk) rest

    part_card-blocks :
        (part_index before : ℕ) (chunk : List Alert)
        → (part_index - 1) * settings.max_merge_count ≡ before
        → let is_firing = str_eq key.status "firing" in
          (part_card to_shanghai settings key total total_parts part_index chunk).elements
          ≡ div (
              merged_header to_shanghai settings is_firing key.alert_name total part_index
                total_parts)
            ∷ (blocks is_firing (before + 1) chunk
                ++ group_action to_shanghai settings is_firing key.alert_name total)
    unfolding part_card format_merged_alerts_to_feishu
    part_card-blocks part_index before chunk h =
        let is_firing = str_eq key.status "firing" in
        ap
          (λ es.
            div (
              merged_header to_shanghai settings is_firing key.alert_name total part_index
                total_parts)
            ∷ (es ++ group_action to_shanghai settings is_firing key.alert_name total))
          (subst
            (λ n.
              merged_alerts to_shanghai settings is_firing (n + 1) chunk
              ≡ blocks is_firing (before + 1) chunk)
            (sym h) (merged_alerts-blocks is_firing (before + 1) chunk))

    chunks-AreNumbered :
        (fuel j : ℕ) (ys : List Alert)
        → AreNumbered
            (suc j)
            (j * settings.max_merge_count)
            (chunks fuel settings.max_merge_count ys)
    unfolding chunks
    chunks-AreNumbered zero j ys = tt
    chunks-AreNumbered (suc fuel) j [] = tt
    chunks-AreNumbered (suc fuel) j (x ∷ xs) =
        let m = settings.max_merge_count in
        let ys = x ∷ xs in
        let later : AreNumbered (suc j + 1) (j * m + length (take m ys))
            (chunks fuel m (drop m ys)) =
          elim (Bool-cases (leb (length ys) m)) [
            | inl short ↦ rw (drop_all m ys (leb→le _ _ short), chunks-nil {A = Alert} fuel m) tt
            | inr long ↦
                let full : length (take m ys) ≡ m = ground (arith, length-take m ys) in
                let next : j * m + m ≡ suc j * m = omega arith in
                let part : suc j + 1 ≡ suc (suc j) = omega arith in
                rw (full, next, part) (chunks-AreNumbered fuel (suc j) (drop m ys))
          ] in
        (part_card-blocks (suc j) (j * m) (take m ys) (ground arith), later)

  -- Split into chunks of `max_merge_count > 0`, a group keeps all of its alerts in order, and a chunk
  -- has between 1 and `max_merge_count` alerts. The cards of the parts hold them after a header, and
  -- number each alert by its place in the group, from #1 in the first part on; the action of the group
  -- ends each card.
  pub chunks-whole :
      (key : Key) (alerts : List Alert)
      → 0 < settings.max_merge_count
      → let parts : List (List Alert) = chunks (length alerts) settings.max_merge_count alerts in
        (flatten parts ≡ alerts)
        × All (Fits settings.max_merge_count) parts
        × AreNumbered key (length alerts) (length parts) 1 0 parts
  chunks-whole key alerts pos =
      let m = settings.max_merge_count in
      let parts = chunks (length alerts) m alerts in
      let start : 0 * m ≡ 0 = omega arith in
      (
        flatten-chunks (length alerts) m alerts pos (omega arith),
        All-chunks (length alerts) m alerts pos,
        subst (λ before. AreNumbered key (length alerts) (length parts) 1 before parts) start
            (chunks-AreNumbered key (length alerts) (length parts) (length alerts) 0 alerts),
      )
