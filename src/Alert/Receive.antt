-- ===== src/Alert/Receive.antt =====
-- `receive_alert` of app.py.
pub mod Accepts
use dev_llmops.Prelude.{
  ℕ, zero, suc, ◌+◌, String, Bool, true, false, ◌&&◌, ◌||◌, Option, none, some, List, [], ◌∷◌, ◌++◌,
  if◌then◌else◌,
}
use text.Mathlib.Text.{starts_with}
use dev_llmops.Prelude.Text.{is_empty}
use dev_llmops.Prelude.Dict.{str_eq}
use dev_llmops.Alert.Types.{
  Alert, get_or, or_default, Settings, Key, Group, Buffer, find_group, put_group,
}

-- The query of a request, as Flask gives it: the argument `webhook`, the raw query string, its
-- decoding by `unquote_plus`, and the values of all arguments.
pub record Query : Type 0 where
  pub webhook_arg : Option String
  pub query_string : String
  pub decoded : String
  pub arg_values : List String

unfoldable pub query_webhook : Query → String
unfolding is_empty
query_webhook q =
    if is_empty q.query_string
    then ""
    else if starts_with q.decoded "http://" || starts_with q.decoded "https://"
    then q.decoded
    else elim q.arg_values [ [] ↦ "" | ◌∷◌ v vs ↦ v ]

unfoldable pub choose_webhook : Settings → Query → String
unfolding is_empty or_default query_webhook
choose_webhook settings q =
    let given = or_default q.webhook_arg "" in
    let webhook = if is_empty given then query_webhook q else given in
    if is_empty webhook then settings.webhook_url else webhook

unfoldable pub is_known : String → Bool
is_known status = str_eq status "firing" || str_eq status "resolved"

unfoldable pub status_of : Alert → String
unfolding or_default
status_of alert = or_default alert.status "firing"

unfoldable pub key_of : String → Alert → Key
unfolding get_or status_of
key_of webhook alert = record {
  webhook = webhook;
  alert_name = get_or "alertname" alert.labels "Unknown";
  status = status_of alert;
}

-- group["alerts"].append(alert), on the group of the key or a new one first seen at `now`
unfoldable pub append_alert : ℕ → Alert → Option Group → Group
append_alert now alert none = record { first_seen = now; alerts = alert ∷ []; requeue_retries = 0 }
append_alert now alert (some g) = record g { alerts = g.alerts ++ alert ∷ [] }

-- One turn of the loop over the alerts; `now` is what `time.time()` returns in it.
unfoldable pub enqueue : String → ℕ → Alert → Buffer → Buffer
unfolding key_of append_alert find_group put_group
enqueue webhook now alert buffer =
    let key = key_of webhook alert in
    put_group key (append_alert now alert (find_group key buffer)) buffer

-- The loop over the alerts, each with the clock's reading; returns the count `buffered`.
unfoldable pub enqueue_all : String → List (ℕ × Alert) → Buffer → ℕ → Buffer × ℕ
unfolding is_known status_of enqueue
enqueue_all webhook [] buffer buffered = (buffer, buffered)
enqueue_all webhook ((now, alert) ∷ alerts) buffer buffered =
    let taken = enqueue_all webhook alerts (enqueue webhook now alert buffer) (buffered + 1) in
    let skipped = enqueue_all webhook alerts buffer buffered in
    if is_known (status_of alert) then taken else skipped

-- The responses by their status code: 200 "no alerts" and 202 with the count.
pub data Response : Type 0 where
  no_alerts : Response
  accepted : ℕ → Response

unfoldable pub receive_alert : Settings → Query → List (ℕ × Alert) → Buffer → Buffer × Response
unfolding choose_webhook enqueue_all
receive_alert settings q [] buffer = (buffer, no_alerts)
receive_alert settings q (a ∷ alerts) buffer =
    let (buffer', buffered) = enqueue_all (choose_webhook settings q) (a ∷ alerts) buffer 0 in
    (buffer', accepted buffered)
