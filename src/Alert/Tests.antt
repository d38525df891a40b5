-- ===== src/Alert/Tests.antt =====
-- Small inputs of app.py: runs, and the theorems at them.
use mathlib.Core.Option
use mathlib.Core.List.{flatten}
use dev_llmops.Prelude.{
  length, min, ◌≤◌, ℕ, ◌+◌, String, ◌≡◌, refl, Bool, true, false, Option, none, some, List, [], ◌∷◌,
  ◌++◌, arith, All,
}
use dev_llmops.Alert.Types.{Alert, Settings, Key, Group, Buffer, find_group}
use dev_llmops.Alert.Types.Laws.{DistinctKeys, count, count_buffer}
use dev_llmops.Alert.Card.{Card}
use dev_llmops.Alert.Silence.{Link, build_silence_link}
use dev_llmops.Alert.Receive.{Query, receive_alert, enqueue, accepted, is_known, status_of}
use dev_llmops.Alert.Receive.Accepts.{queued, receive_alert-accounts}
use dev_llmops.Alert.Send.{
  Sent, Posted, responded, request_exception, gave_up, send_alert, dispatch_group,
}
use dev_llmops.Prelude.Chunks.{chunks, Fits}
use dev_llmops.Alert.Send.Pages.{AreNumbered, chunks-whole}
use dev_llmops.Alert.Send.Attempts.{send_alert-Bounded}
use dev_llmops.Alert.Send.Delivery.{group_cards, dispatch_group-responds}
use dev_llmops.Alert.Flush.{ok_of, flush_groups, flush_pass}
use dev_llmops.Alert.Flush.Counts.{Accounts, DropsLate, flush_pass-Accounts}
use dev_llmops.Alert.Flush.Runs.{
  Bot, here, next, arrive, IsSound, Reach-IsSound, flush_groups-overwrites,
}

abbrev settings : Settings
settings = record {
  cluster_name = "Token";
  silence_base_url = "https://am";
  webhook_url = "https://hook";
  debounce_seconds = 10;
  max_merge_count = 2;
  send_max_attempts = 3;
  send_retry_backoffs = 5 ∷ 10 ∷ [];
  send_timeout_base = 5;
  send_requeue_max_retries = 3;
}

abbrev down : Alert
down = record {
  status = some "firing";
  labels = ("alertname", "NodeDown") ∷ ("node", "n 1") ∷ [];
  annotations = [];
  starts_at = none;
  ends_at = none;
}

abbrev odd : Alert
odd = record down { status = some "pending" }

abbrev query : Query
query = record { webhook_arg = none; query_string = ""; decoded = ""; arg_values = [] }

abbrev key : Key
key = record { webhook = "https://hook"; alert_name = "NodeDown"; status = "firing" }

abbrev failed : Group
failed = record { first_seen = 0; alerts = down ∷ []; requeue_retries = 0 }

abbrev newer : Group
newer = record { first_seen = 12; alerts = down ∷ down ∷ []; requeue_retries = 0 }

abbrev unparsed : String → Option String
unparsed t = none

link_example :
    Option.map (λ (l : Link). l.filter) (build_silence_link settings down)
    ≡ some "{alertname=\"NodeDown\",node=\"n 1\"}"
unfolding build_silence_link
link_example = refl

receive_example :
    (receive_alert settings query ((0, down) ∷ (1, odd) ∷ (2, down) ∷ []) []).1 ≡ accepted 2
unfolding receive_alert
receive_example = refl

receive_alert-accounts_example :
    let (b', response) = receive_alert settings query ((0, down) ∷ (1, odd) ∷ (2, down) ∷ []) [] in
    ((p : Alert → Bool) → count_buffer p b' ≡ 0 + count p (down ∷ down ∷ []))
    × (queued response ≡ 2)
    × DistinctKeys b'
unfolding is_known status_of
receive_alert-accounts_example =
    receive_alert-accounts settings query ((0, down) ∷ (1, odd) ∷ (2, down) ∷ []) [] tt

abbrev still : Key → List Alert → Buffer × ℕ → Option Bool × (Buffer × ℕ)
still k alerts (b, w) = (some false, (b, w + 1))

flush_pass-Accounts_example :
    ((p : Alert → Bool)
      → Accounts still
          (λ w. w)
          settings
          (λ k alerts b w. refl)
          (count_buffer p ((key, failed) ∷ []))
          p
          (flush_pass still (λ w. w) settings ((key, failed) ∷ [], 20)))
    × DistinctKeys (flush_pass still (λ w. w) settings ((key, failed) ∷ [], 20)).0.0
    × All (DropsLate settings) (flush_pass still (λ w. w) settings ((key, failed) ∷ [], 20)).1
unfolding find_group
flush_pass-Accounts_example =
    flush_pass-Accounts still (λ w. w) settings (λ k alerts b w. refl) ((key, failed) ∷ []) 20
      (refl, tt)

-- While the group is sent, a request opens a new group under its key.
abbrev busy : Key → List Alert → Buffer × ℕ → Option Bool × (Buffer × ℕ)
busy k alerts (b, w) = (some false, ((key, newer) ∷ b, w))

flush_groups-overwrites_example :
    let b' : Buffer = (flush_groups busy (λ w. w) settings ((key, failed) ∷ []) ([], 20)).0.0 in
    (Option.map (λ (h : Group). h.alerts) (find_group key b') ≡ some (down ∷ []))
    × ((p : Alert → Bool)
        → count_buffer p b' + count p (down ∷ down ∷ [])
          ≡ count_buffer p ((key, newer) ∷ []) + count p (down ∷ []))
unfolding find_group ok_of
flush_groups-overwrites_example =
    flush_groups-overwrites busy (λ w. w) settings key failed newer [] 20 refl (omega arith) refl

abbrev empty : Bot
empty = record { buffer = []; in_flight = [] }

abbrev one_alert : Bot
one_alert = record { buffer = enqueue "https://hook" 0 down []; in_flight = [] }

Reach-IsSound_example : IsSound settings one_alert
Reach-IsSound_example =
    Reach-IsSound settings {s = empty} {t = one_alert}
      (record { keys = tt; buffered = tt; taken = tt }) (next here (arrive "https://hook" 0 down))

abbrev down_key : Key
down_key = record { webhook = "https://hook"; alert_name = "Down"; status = "firing" }

chunks-whole_example :
    let alerts : List Alert = down ∷ odd ∷ down ∷ [] in
    let parts : List (List Alert) = chunks 3 2 alerts in
    (flatten parts ≡ alerts)
    × All (Fits 2) parts
    × AreNumbered unparsed settings down_key 3 (length parts) 1 0 parts
chunks-whole_example =
    chunks-whole unparsed settings down_key (down ∷ odd ∷ down ∷ []) (omega arith)

abbrev card : Card
card = record { title = "t"; template = "red"; elements = [] }

-- A world that counts the requests, and in which every one fails.
abbrev refuse : String → Card → ℕ → ℕ → Posted × ℕ
refuse target c timeout w = (request_exception, w + 1)

abbrev nap : {S : Type 0} → ℕ → S → S
nap seconds w = w

send_alert_refused : send_alert refuse nap settings card "" 0 ≡ (gave_up, 3)
unfolding send_alert
send_alert_refused = refl

send_alert-Bounded_example :
    let o : Sent × ℕ = send_alert refuse nap settings card "" 0 in
    (0 + min 1 3 ≤ o.1) × (o.1 ≤ 0 + 3) × (o.0 ≡ gave_up → o.1 ≡ 0 + 3)
send_alert-Bounded_example =
    send_alert-Bounded refuse nap settings (λ w. w) (λ a b c d. refl) (λ a b. refl) card "" 0

abbrev answer : String → Card → ℕ → List (String × Card) → Posted × List (String × Card)
answer target c timeout w = (responded, w ++ (target, c) ∷ [])

dispatch_group-responds_example :
    ((dispatch_group answer nap unparsed settings key (down ∷ odd ∷ down ∷ []) []).0 ≡ some true)
    × ((dispatch_group answer nap unparsed settings key (down ∷ odd ∷ down ∷ []) []).1
        ≡ []
          ++ group_cards answer nap unparsed settings
              (λ w. w)
              (λ a b c d. refl)
              (λ a b c d. refl)
              (omega arith)
              key
              (down ∷ odd ∷ down ∷ []))
dispatch_group-responds_example =
    dispatch_group-responds answer nap unparsed settings (λ w. w) (λ a b c d. refl)
      (λ a b c d. refl) (omega arith) key (down ∷ odd ∷ down ∷ []) [] (omega arith)
