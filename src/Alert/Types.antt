-- ===== src/Alert/Types.antt =====
-- The data of app.py: alerts, the aggregation buffer and the settings.
pub mod Laws
use dev_llmops.Prelude.{
  ℕ, String, Bool, true, false, ◌&&◌, Option, none, some, List, [], ◌∷◌, if◌then◌else◌,
}
use dev_llmops.Prelude.Dict.{Dict, get, str_eq}

-- An alert of Alertmanager's payload; a missing `labels` or `annotations` is an empty dict.
pub record Alert : Type 0 where
  pub status : Option String
  pub labels : Dict String
  pub annotations : Dict String
  pub starts_at : Option String
  pub ends_at : Option String

-- d.get(key, default)
unfoldable pub get_or : String → Dict String → String → String
unfolding get
get_or k d default = elim (get k d) [ none ↦ default | some v ↦ v ]

unfoldable pub or_default : Option String → String → String
or_default none default = default
or_default (some v) default = v

pub record Settings : Type 0 where
  pub cluster_name : String
  pub silence_base_url : String
  pub webhook_url : String
  pub debounce_seconds : ℕ
  pub max_merge_count : ℕ
  pub send_max_attempts : ℕ
  pub send_retry_backoffs : List ℕ
  pub send_timeout_base : ℕ
  pub send_requeue_max_retries : ℕ

-- The key (webhook, alertname, status) of a group.
pub record Key : Type 0 where
  pub webhook : String
  pub alert_name : String
  pub status : String

unfoldable pub key_eq : Key → Key → Bool
key_eq k j =
    str_eq k.webhook j.webhook && str_eq k.alert_name j.alert_name && str_eq k.status j.status

pub record Group : Type 0 where
  pub first_seen : ℕ
  pub alerts : List Alert
  pub requeue_retries : ℕ

-- `_alert_buffer`: a dict in the order of insertion.
abbrev pub Buffer : Type 0
Buffer = List (Key × Group)

unfoldable pub find_group : Key → Buffer → Option Group
unfolding key_eq
find_group k [] = none
find_group k ((j, g) ∷ b) = if key_eq j k then some g else find_group k b

-- _alert_buffer[key] = group
unfoldable pub put_group : Key → Group → Buffer → Buffer
unfolding key_eq
put_group k g [] = (k, g) ∷ []
put_group k g ((j, h) ∷ b) =
    let rest = put_group k g b in if key_eq j k then (j, g) ∷ b else (j, h) ∷ rest
