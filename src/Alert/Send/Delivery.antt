-- ===== src/Alert/Send/Delivery.antt =====
-- `_dispatch_group` where the webhook answers every POST.
use dev_llmops.Prelude.{
  ℕ, zero, suc, ◌+◌, ◌*◌, ◌<◌, String, ◌≡◌, refl, sym, ap, ◌∙◌, Bool, true, false, Option, some,
  List, [], ◌∷◌, ◌++◌, append_assoc, append-nil, arith, ◌==◌, if◌then◌else◌, length,
}
use dev_llmops.Prelude.Text.{is_empty}
use dev_llmops.Alert.Types.{Alert, Settings, Key}
use dev_llmops.Alert.Card.{Card}
use dev_llmops.Prelude.Chunks.{chunks}
use dev_llmops.Alert.Send.{
  Posted, responded, delivered, attempts, send_alert, part_card, single_card, send_parts,
  ok_of_sent, dispatch_group,
}

nonzero : (m : ℕ) → 0 < m → (m == 0) ≡ false
nonzero m h = ground arith

-- `log` reads from a world the cards that were posted, each with its target; a POST responds and adds
-- its own.
module _ {S : Type 0} (post : String → Card → ℕ → S → Posted × S) (sleep : ℕ → S → S)
    (to_shanghai : String → Option String) (settings : Settings) (log : S → List (String × Card))
    (responds : (target : String) (card : Card) (timeout : ℕ) (w : S)
      → (post target card timeout w).0 ≡ responded)
    (logs : (target : String) (card : Card) (timeout : ℕ) (w : S)
      → log (post target card timeout w).1 ≡ log w ++ (target, card) ∷ [])
    (tries : 0 < settings.send_max_attempts) where
  abbrev pub target_of : Key → String
  target_of key = if is_empty key.webhook then settings.webhook_url else key.webhook

  -- The cards of the parts from `part_index` on.
  abbrev pub part_cards : Key → ℕ → ℕ → ℕ → List (List Alert) → List (String × Card)
  part_cards key total total_parts part_index [] = []
  part_cards key total total_parts part_index (chunk ∷ rest) =
      (target_of key, part_card to_shanghai settings key total total_parts part_index chunk)
      ∷ part_cards key total total_parts (part_index + 1) rest

  attempts-responds :
      (left : ℕ) (target : String) (card : Card) (w : S)
      → 0 < left
      → ((attempts post sleep settings left 1 target card w).0 ≡ delivered)
        × (log (attempts post sleep settings left 1 target card w).1 ≡ log w ++ (target, card) ∷ [])
  unfolding attempts
  attempts-responds zero target card w h = absurd (omega arith)
  attempts-responds (suc left) target card w h =
      let timeout = settings.send_timeout_base * 1 in
      rw (responds target card timeout w, attempts) (refl, logs target card timeout w)

  send_alert-responds :
      (key : Key) (card : Card) (w : S)
      → ((send_alert post sleep settings card key.webhook w).0 ≡ delivered)
        × (log (send_alert post sleep settings card key.webhook w).1
            ≡ log w ++ (target_of key, card) ∷ [])
  unfolding send_alert
  send_alert-responds key card w =
      attempts-responds settings.send_max_attempts (target_of key) card w tries

  send_parts-responds :
      (key : Key) (total total_parts part_index : ℕ) (parts : List (List Alert)) (w : S)
      → let sent : Option Bool × S =
          send_parts post sleep to_shanghai settings key total total_parts part_index true parts
            w in
        (sent.0 ≡ some true)
        × (log sent.1 ≡ log w ++ part_cards key total total_parts part_index parts)
  unfolding send_parts
  send_parts-responds key total total_parts part_index [] w = (refl, sym (append-nil _))
  send_parts-responds key total total_parts part_index (chunk ∷ rest) w =
      let card = part_card to_shanghai settings key total total_parts part_index chunk in
      let (sent, logged) = send_alert-responds key card w in
      let w' = (send_alert post sleep settings card key.webhook w).1 in
      let (good, cards) = send_parts-responds key total total_parts (part_index + 1) rest w' in
      rw (sent, send_parts)
        (good, cards ∙ rw logged (append_assoc (log w) ((target_of key, card) ∷ []) _))

  -- The cards that the group's dispatch posts.
  abbrev pub group_cards : Key → List Alert → List (String × Card)
  group_cards key (alert ∷ []) =
      (target_of key, single_card to_shanghai settings key.status alert) ∷ []
  group_cards key alerts =
      let parts = chunks (length alerts) settings.max_merge_count alerts in
      part_cards key (length alerts) (length parts) 1 parts

  -- Where the webhook answers every POST, at least one attempt is allowed and a card may hold an
  -- alert, a dispatch reports success and posts exactly the group's cards, in order: the single card
  -- of one alert, or one card for each chunk.
  pub dispatch_group-responds :
      (key : Key) (alerts : List Alert) (w : S)
      → 0 < settings.max_merge_count
      → ((dispatch_group post sleep to_shanghai settings key alerts w).0 ≡ some true)
        × (log (dispatch_group post sleep to_shanghai settings key alerts w).1
            ≡ log w ++ group_cards key alerts)
  unfolding dispatch_group ok_of_sent
  dispatch_group-responds key [] w h =
      rw (nonzero settings.max_merge_count h) (refl, sym (append-nil _))
  dispatch_group-responds key (alert ∷ []) w h =
      let (sent, logged) =
        send_alert-responds key (single_card to_shanghai settings key.status alert) w in
      (ap ok_of_sent sent, logged)
  dispatch_group-responds key (a ∷ b ∷ alerts) w h =
      let total = length (a ∷ b ∷ alerts) in
      let parts = chunks total settings.max_merge_count (a ∷ b ∷ alerts) in
      rw (nonzero settings.max_merge_count h)
        (send_parts-responds key total (length parts) 1 parts w)
