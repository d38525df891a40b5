-- ===== src/Alert/Card.antt =====
-- The Feishu cards of app.py: single alerts, resolved alerts and merged groups.
use dev_llmops.Prelude.{
  ℕ, ◌+◌, String, Bool, true, false, Option, none, some, List, [], ◌∷◌, ◌++◌, ltb, if◌then◌else◌,
}
use dev_llmops.Prelude.Text.{text, join, is_empty, show, lower_eq}
use dev_llmops.Prelude.Dict.{str_eq}
use dev_llmops.Alert.Types.{Alert, Settings, get_or, or_default}
use dev_llmops.Alert.Silence.{Link, build_silence_link, build_group_silence_link}

-- The elements of a card by their tag.
pub data Element : Type 0 where
  div : String → Element
  hr : Element
  note : String → Element
  action : String → Link → Element

pub record Card : Type 0 where
  pub title : String
  pub template : String
  pub elements : List Element

-- `_SEVERITY_COLORS.get(severity.lower(), "grey")`
unfoldable pub severity_color : String → String
unfolding lower_eq
severity_color severity =
    if lower_eq severity "critical"
    then "red"
    else if lower_eq severity "high"
    then "red"
    else if lower_eq severity "warning"
    then "orange"
    else if lower_eq severity "info"
    then "blue"
    else if lower_eq severity "low"
    then "grey"
    else "grey"

unfoldable pub silence_action : String → Option Link → List Element
silence_action content none = []
silence_action content (some link) = hr ∷ action content link ∷ []

unfoldable pub summary_lines : String → List String
unfolding is_empty text
summary_lines summary = if is_empty summary then [] else text ("**告警摘要**：" ∷ summary ∷ []) ∷ []

unfoldable pub instance_line : Alert → String
unfolding text get_or
instance_line alert =
    text
      ("**告警实例**：<font color='blue'>" ∷ get_or "instance" alert.labels "Unknown" ∷ "</font>" ∷ [])

unfoldable pub severity_line : Alert → String
unfolding text get_or severity_color
severity_line alert =
    let severity = get_or "severity" alert.labels "N/A" in
    text ("**告警级别**：<font color='" ∷ severity_color severity ∷ "'>" ∷ severity ∷ "</font>" ∷ [])

unfoldable pub description_lines : Alert → List String
unfolding text get_or summary_lines
description_lines alert =
    summary_lines (get_or "summary" alert.annotations "")
    ++ text ("**告警描述**：" ∷ get_or "description" alert.annotations "无描述" ∷ []) ∷ []

-- `format_time` keeps a text that it cannot parse; `to_shanghai` is the conversion, `none` where the
-- parse fails.
module _ (to_shanghai : String → Option String) where
  unfoldable pub format_time : String → String
  unfolding or_default
  format_time timestr = or_default (to_shanghai timestr) timestr

  unfoldable pub firing_note : Alert → Element
  unfolding format_time or_default text
  firing_note alert =
      note (text ("告警触发时间：" ∷ format_time (or_default alert.starts_at "Unknown") ∷ []))

  unfoldable pub resolved_note : Alert → Element
  unfolding format_time or_default text get_or
  resolved_note alert = note (
      text (
        "告警恢复说明："
        ∷ get_or "success" alert.annotations "告警已恢复"
        ∷ " ｜ 告警恢复时间："
        ∷ format_time (or_default alert.ends_at "Unknown")
        ∷ []))

  module _ (settings : Settings) where
    unfoldable pub format_alert_to_feishu : Alert → Card
    unfolding text join get_or instance_line severity_line description_lines firing_note
        silence_action build_silence_link
    format_alert_to_feishu alert =
        let alert_name = get_or "alertname" alert.labels "Unknown" in
        let main_lines =
          text ("**告警名称**：" ∷ alert_name ∷ [])
          ∷ instance_line alert
          ∷ severity_line alert
          ∷ description_lines alert in
        record {
          title = text (settings.cluster_name ∷ " | 告警 | " ∷ alert_name ∷ []);
          template = "red";
          elements =
              (div (join "\n" main_lines) ∷ hr ∷ firing_note alert ∷ [])
              ++ silence_action "🔕 一键静默此告警" (build_silence_link settings alert);
        }

    unfoldable pub format_resolved_to_feishu : Alert → Card
    unfolding text join get_or instance_line description_lines resolved_note
    format_resolved_to_feishu alert =
        let alert_name = get_or "alertname" alert.labels "Unknown" in
        let main_lines =
          text ("**告警名称**：" ∷ alert_name ∷ []) ∷ instance_line alert ∷ description_lines alert in
        record {
          title = text (settings.cluster_name ∷ " | 恢复 | " ∷ alert_name ∷ []);
          template = "green";
          elements = div (join "\n" main_lines) ∷ hr ∷ resolved_note alert ∷ [];
        }

    unfoldable pub index_line : ℕ → String
    unfolding text show
    index_line idx = text ("<font color='black'>**#" ∷ show idx ∷ "**</font>" ∷ [])

    -- The three elements of one alert in a merged card.
    unfoldable pub merged_alert : Bool → ℕ → Alert → List Element
    unfolding join index_line instance_line severity_line description_lines firing_note
        resolved_note
    merged_alert true idx alert =
        hr
        ∷ div (
            join "\n" (
              index_line idx ∷ instance_line alert ∷ severity_line alert ∷ description_lines alert))
        ∷ firing_note alert
        ∷ []
    merged_alert false idx alert =
        hr
        ∷ div (join "\n" (index_line idx ∷ instance_line alert ∷ description_lines alert))
        ∷ resolved_note alert
        ∷ []

    -- `for offset, alert in enumerate(alerts, start=1)`, where `idx` is `start_index + offset`
    unfoldable pub merged_alerts : Bool → ℕ → List Alert → List Element
    unfolding merged_alert
    merged_alerts is_firing idx [] = []
    merged_alerts is_firing idx (alert ∷ alerts) =
        merged_alert is_firing idx alert ++ merged_alerts is_firing (idx + 1) alerts

    unfoldable pub group_action : Bool → String → ℕ → List Element
    unfolding text show silence_action build_group_silence_link
    group_action is_firing alert_name total =
        if is_firing
        then silence_action (text ("🔕 一键静默本组全部告警（共" ∷ show total ∷ "条）" ∷ []))
            (build_group_silence_link settings alert_name)
        else []

    unfoldable pub merged_header : Bool → String → ℕ → ℕ → ℕ → String
    unfolding text join show
    merged_header is_firing alert_name total part_index total_parts =
        let part_suffix =
          if ltb 1 total_parts
          then text ("（第" ∷ show part_index ∷ "/" ∷ show total_parts ∷ "片）" ∷ [])
          else "" in
        join "\n" (
          text ("**告警名称**：" ∷ alert_name ∷ [])
          ∷ text (
              "**告警"
              ∷ (if is_firing then "触发" else "恢复")
              ∷ "数量**：共"
              ∷ show total
              ∷ "条(按告警名称聚合)"
              ∷ part_suffix
              ∷ [])
          ∷ [])

    unfoldable pub format_merged_alerts_to_feishu :
        List Alert → String → String → ℕ → ℕ → ℕ → ℕ → Card
    unfolding text merged_header merged_alerts group_action
    format_merged_alerts_to_feishu alerts status alert_name total part_index total_parts
          start_index =
        let is_firing = str_eq status "firing" in
        record {
          title = text (
              settings.cluster_name
              ∷ " | "
              ∷ (if is_firing then "告警" else "恢复")
              ∷ " | "
              ∷ alert_name
              ∷ []);
          template = if is_firing then "red" else "green";
          elements =
              (div (merged_header is_firing alert_name total part_index total_parts) ∷ [])
              ++ merged_alerts is_firing (start_index + 1) alerts
              ++ group_action is_firing alert_name total;
        }
