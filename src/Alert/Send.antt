-- ===== src/Alert/Send.antt =====
-- `send_alert` and `_dispatch_group` of app.py.
pub mod Pages
pub mod Attempts
pub mod Delivery
use dev_llmops.Prelude.{
  ℕ, zero, suc, ◌+◌, ◌-◌, ◌*◌, min, String, Bool, true, false, ◌&&◌, Option, none, some, List, [],
  ◌∷◌, ltb, ◌==◌, if◌then◌else◌, length, get_elem?, take, drop,
}
use dev_llmops.Prelude.Text.{is_empty}
use dev_llmops.Prelude.Dict.{str_eq}
use dev_llmops.Alert.Types.{Alert, Settings, Key}
use dev_llmops.Prelude.Chunks.{chunks}
use dev_llmops.Alert.Card.{
  Card, format_alert_to_feishu, format_resolved_to_feishu, format_merged_alerts_to_feishu,
}

-- What a POST with `raise_for_status` does: a response, a `RequestException`, or another exception.
pub data Posted : Type 0 where
  responded request_exception other_exception : Posted

-- What `send_alert` does: a response, `None` after the last attempt, or an exception.
pub data Sent : Type 0 where
  delivered gave_up raised : Sent

-- SEND_RETRY_BACKOFFS[min(attempt - 1, len(SEND_RETRY_BACKOFFS) - 1)]; the list is never empty.
unfoldable pub backoff_of : List ℕ → ℕ → ℕ
backoff_of backoffs attempt = elim (get_elem? backoffs (min (attempt - 1) (length backoffs - 1))) [
  | none ↦ 0
  | some seconds ↦ seconds
]

-- `S` is the outside world; `post target card timeout` is `requests.post` with `raise_for_status`, and
-- `sleep` is `time.sleep`.
module _ {S : Type 0} (post : String → Card → ℕ → S → Posted × S) (sleep : ℕ → S → S)
    (settings : Settings) where
  -- The loop of `send_alert`, where `left` attempts are left and `attempt` is the next one.
  unfoldable pub attempts : ℕ → ℕ → String → Card → S → Sent × S
  unfolding backoff_of
  attempts zero attempt target card w = (gave_up, w)
  attempts (suc left) attempt target card w =
      let (posted, w') = post target card (settings.send_timeout_base * attempt) w in
      let w'' =
        if ltb attempt settings.send_max_attempts
        then sleep (backoff_of settings.send_retry_backoffs attempt) w'
        else w' in
      let rest = attempts left (attempt + 1) target card w'' in
      elim posted [
        | responded ↦ (delivered, w')
        | request_exception ↦ rest
        | other_exception ↦ (raised, w')
      ]

  unfoldable pub send_alert : Card → String → S → Sent × S
  unfolding attempts is_empty
  send_alert card webhook w =
      attempts settings.send_max_attempts 1
        (if is_empty webhook then settings.webhook_url else webhook) card w

-- `to_shanghai` converts a time, as in `format_time`.
module _ (to_shanghai : String → Option String) (settings : Settings) where
  unfoldable pub single_card : String → Alert → Card
  unfolding format_alert_to_feishu format_resolved_to_feishu
  single_card status alert =
      if str_eq status "firing"
      then format_alert_to_feishu to_shanghai settings alert
      else format_resolved_to_feishu to_shanghai settings alert

  -- The card of the part `part_index` of a group of `total` alerts.
  unfoldable pub part_card : Key → ℕ → ℕ → ℕ → List Alert → Card
  unfolding format_merged_alerts_to_feishu
  part_card key total total_parts part_index chunk =
      format_merged_alerts_to_feishu to_shanghai settings chunk key.status key.alert_name total
        part_index total_parts ((part_index - 1) * settings.max_merge_count)

unfoldable pub ok_of_sent : Sent → Option Bool
ok_of_sent delivered = some true
ok_of_sent gave_up = some false
ok_of_sent raised = none

module _ {S : Type 0} (post : String → Card → ℕ → S → Posted × S) (sleep : ℕ → S → S)
    (to_shanghai : String → Option String) (settings : Settings) where
  -- The loop over the chunks: `all_ok`, or `none` for an exception, which ends the loop.
  unfoldable pub send_parts : Key → ℕ → ℕ → ℕ → Bool → List (List Alert) → S → Option Bool × S
  unfolding send_alert part_card
  send_parts key total total_parts part_index all_ok [] w = (some all_ok, w)
  send_parts key total total_parts part_index all_ok (chunk ∷ rest) w =
      let (sent, w') =
        send_alert post sleep settings
          (part_card to_shanghai settings key total total_parts part_index chunk) key.webhook w in
      let good = send_parts key total total_parts (part_index + 1) all_ok rest w' in
      let bad = send_parts key total total_parts (part_index + 1) false rest w' in
      elim sent [ delivered ↦ good | gave_up ↦ bad | raised ↦ (none, w') ]

  -- `_dispatch_group`: the result, or `none` for an exception. `range` raises at a step of 0.
  unfoldable pub dispatch_group : Key → List Alert → S → Option Bool × S
  unfolding single_card send_alert ok_of_sent send_parts chunks
  dispatch_group key (alert ∷ []) w =
      let (sent, w') =
        send_alert post sleep settings (single_card to_shanghai settings key.status alert)
          key.webhook w in
      (ok_of_sent sent, w')
  dispatch_group key alerts w =
      let parts = chunks (length alerts) settings.max_merge_count alerts in
      if settings.max_merge_count == 0
      then (none, w)
      else send_parts key (length alerts) (length parts) 1 true parts w
