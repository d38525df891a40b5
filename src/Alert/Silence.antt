-- ===== src/Alert/Silence.antt =====
-- `build_silence_link` and `build_group_silence_link` of app.py.
use Prim.Native.Char.{code}
use dev_llmops.Prelude.{
  ℕ, ◌+◌, ◌-◌, ◌/◌, ◌%◌, String, Bool, ◌&&◌, ◌||◌, Option, none, some, List, [], ◌∷◌, ◌++◌, ltb,
  leb, ◌==◌, if◌then◌else◌,
}
use dev_llmops.Prelude.Text.{text, join, is_empty}
use dev_llmops.Prelude.Dict.{Dict, get, str_eq}
use dev_llmops.Alert.Types.{Alert, Settings}

-- The bytes of a code point in UTF-8.
unfoldable pub utf8 : ℕ → List ℕ
utf8 c =
    if ltb c 128
    then c ∷ []
    else if ltb c 2048
    then (192 + c / 64) ∷ (128 + c % 64) ∷ []
    else if ltb c 65536
    then (224 + c / 4096) ∷ (128 + (c / 64) % 64) ∷ (128 + c % 64) ∷ []
    else (240 + c / 262144) ∷ (128 + (c / 4096) % 64) ∷ (128 + (c / 64) % 64) ∷ (128 + c % 64) ∷ []

-- Letters, digits and `_.-~` are kept by `quote(s, safe="")`.
unfoldable pub is_unreserved : ℕ → Bool
is_unreserved c =
    (leb b'A' c && leb c b'Z')
    || (leb b'a' c && leb c b'z')
    || (leb b'0' c && leb c b'9')
    || c == b'_'
    || c == b'.'
    || c == b'-'
    || c == b'~'

unfoldable pub hex_digit : ℕ → ℕ
hex_digit d = if ltb d 10 then b'0' + d else b'A' + (d - 10)

unfoldable pub escape : List ℕ → List ℕ
unfolding hex_digit
escape [] = []
escape (b ∷ bs) = b'%' ∷ hex_digit (b / 16) ∷ hex_digit (b % 16) ∷ escape bs

-- urllib.parse.quote(s, safe=""), as code points
unfoldable pub quote : String → List ℕ
unfolding utf8 is_unreserved escape
quote String.[] = []
quote (String.◌∷◌ c s) =
    (if is_unreserved (code c) then code c ∷ [] else escape (utf8 (code c))) ++ quote s

-- A link: the base address with its fixed path, and the quoted filter.
pub record Link : Type 0 where
  pub base : String
  pub filter : String
  pub quoted : List ℕ

unfoldable pub matcher : String → String → String
unfolding text
matcher label value = text (label ∷ "=\"" ∷ value ∷ "\"" ∷ [])

-- A label that is there and not empty.
unfoldable pub present : String → Dict String → Option String
unfolding get is_empty
present k labels = elim (get k labels) [
  | none ↦ none
  | some v ↦ if is_empty v then none else some v
]

unfoldable pub instance_matcher : Dict String → List String
unfolding present matcher
instance_matcher labels = elim (present "instance" labels) [
  | none ↦ []
  | some v ↦ matcher "instance" v ∷ []
]

unfoldable pub pod_matchers : Dict String → List String
unfolding present matcher instance_matcher
pod_matchers labels = elim (present "namespace" labels) [
  | none ↦ instance_matcher labels
  | some n ↦ elim (present "pod" labels) [
    | none ↦ instance_matcher labels
    | some p ↦ matcher "namespace" n ∷ matcher "pod" p ∷ []
  ]
]

-- node, else namespace and pod, else instance, else nothing more.
unfoldable pub place_matchers : Dict String → List String
unfolding present matcher pod_matchers
place_matchers labels = elim (present "node" labels) [
  | none ↦ pod_matchers labels
  | some v ↦ matcher "node" v ∷ []
]

unfoldable pub silence_url : String → List String → Link
unfolding text join quote
silence_url base_url matchers =
    let filter_expr = text ("{" ∷ join "," matchers ∷ "}" ∷ []) in
    record {
      base = text (base_url ∷ "/#/silences/new?filter=" ∷ []);
      filter = filter_expr;
      quoted = quote filter_expr;
    }

unfoldable pub build_silence_link : Settings → Alert → Option Link
unfolding is_empty present place_matchers silence_url
build_silence_link settings alert =
    if is_empty settings.silence_base_url then none else elim (present "alertname" alert.labels) [
      | none ↦ none
      | some alert_name ↦ some (
          silence_url settings.silence_base_url
            (matcher "alertname" alert_name ∷ place_matchers alert.labels))
    ]

unfoldable pub build_group_silence_link : Settings → String → Option Link
unfolding is_empty silence_url
build_group_silence_link settings alert_name =
    if is_empty settings.silence_base_url
    then none
    else if is_empty alert_name || str_eq alert_name "Unknown"
    then none
    else some (silence_url settings.silence_base_url (matcher "alertname" alert_name ∷ []))
