-- ===== src/Voxtral.antt =====
-- LLM/ASR/voxtral-realtime-verify.py: a session with a speech service that transcribes audio.
pub mod Protocol
pub mod Verdict
mod Tests
use Prim.Native.Char.{code}
use Prim.Native.String
use dev_llmops.Prelude.{
  ℕ, ◌+◌, ◌-◌, ◌/◌, String, Bool, true, false, not, ◌||◌, Option, none, some, List, [], ◌∷◌, ◌++◌,
  map, ◌==◌, if◌then◌else◌, length,
}
use dev_llmops.Prelude.Text.{text, is_empty, show}
use dev_llmops.Prelude.Chunks.{chunks}
use dev_llmops.Prelude.Dict.{str_eq}

-- The entries of an event that the script reads.
pub record Response : Type 0 where
  pub type : Option String
  pub id : Option String
  pub delta : Option String
  pub text : Option String
  pub usage : Option String
  pub error : Option String

-- What the script sends.
pub data Frame : Type 0 where
  update : String → Frame
  append : String → Frame
  commit : Bool → Frame

-- What the script prints, without the times.
pub data Line : Type 0 where
  created : Option String → Line
  not_created : Line
  sending : ℕ → Line
  waiting : Line
  delta_text : String → Line
  final_text : Option String → Line
  used : String → Line
  first_delta_time : Line
  total_time : Line
  error_text : Option String → Line
  session_failed : Line

-- The service: whether it takes the connection; its first event; whether it takes a frame after those
-- sent before; the events that come once all frames are sent. none is an exception of the receipt,
-- and the end of the events is one too: the receipt times out.
pub record Service : Type 0 where
  pub connects : Bool
  pub greeting : Option Response
  pub takes : List Frame → Frame → Bool
  pub events : List Frame → List (Option Response)

pub record Talk : Type 0 where
  pub ok : Bool
  pub sent : List Frame
  pub printed : List Line

-- response.get("type") == t
unfoldable pub has_type : String → Response → Bool
has_type t r = elim r.type [ none ↦ false | some s ↦ str_eq s t ]

unfoldable pub or_empty : Option String → String
or_empty none = ""
or_empty (some s) = s

-- Sends the frames in order, up to one that is not taken: the frames sent, and whether all are.
unfoldable pub send_all : Service → List Frame → List Frame → List Frame × Bool
send_all service sent [] = (sent, true)
send_all service sent (f ∷ fs) =
    let rest = send_all service (sent ++ f ∷ []) fs in
    if service.takes sent f then rest else (sent, false)

-- What is printed at `transcription.done`; `seen` says whether a delta came before.
unfoldable pub done_lines : Bool → Response → List Line
unfolding is_empty or_empty
done_lines seen r =
    final_text r.text ∷ (if is_empty (or_empty r.usage) then [] else used (or_empty r.usage) ∷ [])
    ++ (if seen then first_delta_time ∷ [] else [])
    ++ total_time ∷ []

-- The loop over the events.
unfoldable pub listen : Bool → List (Option Response) → List Line × Bool
unfolding has_type or_empty done_lines
listen seen [] = (session_failed ∷ [], false)
listen seen (none ∷ rs) = (session_failed ∷ [], false)
listen seen (some r ∷ rs) =
    let (lines, ok) = listen true rs in
    let other = listen seen rs in
    if has_type "transcription.delta" r
    then (delta_text (or_empty r.delta) ∷ lines, ok)
    else if has_type "transcription.done" r
    then (done_lines seen r, true)
    else if has_type "error" r
    then (error_text r.error ∷ [], false)
    else other

-- `b64encode` gives the text of bytes.
module _ (b64encode : List ℕ → String) where
  -- The frames that carry the audio.
  unfoldable pub audio_frames : ℕ → List ℕ → List Frame
  unfolding chunks
  audio_frames chunk_size audio_bytes =
      map (λ chunk. append (b64encode chunk)) (chunks (length audio_bytes) chunk_size audio_bytes)

  -- (len(audio_bytes) + chunk_size - 1) // chunk_size
  unfoldable pub total_chunks : ℕ → List ℕ → ℕ
  total_chunks chunk_size audio_bytes = (length audio_bytes + chunk_size - 1) / chunk_size

  -- The part of `realtime_transcribe` after the session is created.
  unfoldable pub talk : Service → String → List ℕ → ℕ → Option String → Talk
  unfolding send_all listen audio_frames total_chunks
  talk service model audio_bytes chunk_size id =
      let (opened, open_ok) = send_all service [] (update model ∷ commit false ∷ []) in
      let (sent, sent_ok) =
        send_all service opened (audio_frames chunk_size audio_bytes ++ commit true ∷ []) in
      let (lines, ok) = listen false (service.events sent) in
      let begun = created id ∷ sending (total_chunks chunk_size audio_bytes) ∷ [] in
      if not open_ok
      then record { ok = false; sent = opened; printed = created id ∷ session_failed ∷ [] }
      else if not sent_ok
      then record { ok = false; sent = sent; printed = begun ++ session_failed ∷ [] }
      else record { ok = ok; sent = sent; printed = begun ++ waiting ∷ lines }

  -- `realtime_transcribe`, on the bytes of the audio, for a positive `chunk_size`.
  unfoldable pub realtime_transcribe : Service → String → List ℕ → ℕ → Talk
  unfolding talk has_type
  realtime_transcribe service model audio_bytes chunk_size =
      let failed : Talk = record { ok = false; sent = []; printed = session_failed ∷ [] } in
      if not service.connects then failed else elim service.greeting [
        | none ↦ failed
        | some r ↦
            if has_type "session.created" r
            then talk service model audio_bytes chunk_size r.id
            else record { ok = false; sent = []; printed = not_created ∷ [] }
      ]

-- s.rstrip("/")
unfoldable pub rstrip_slash : String → String
unfolding is_empty
rstrip_slash String.[] = ""
rstrip_slash (String.◌∷◌ c s) =
    let rest = rstrip_slash s in
    if is_empty rest then (if code c == b'/' then "" else String.◌∷◌ c "") else String.◌∷◌ c rest

-- model in model_ids
unfoldable pub has_id : String → List (Option String) → Bool
has_id model [] = false
has_id model (none ∷ ids) = has_id model ids
has_id model (some id ∷ ids) = str_eq id model || has_id model ids

-- `list_models` gives the ids that the service lists at an address, none where the request or the
-- reading of its answer raises.
unfoldable pub check_model_registered :
    (String → Option (List (Option String))) → String → String → Bool
unfolding rstrip_slash has_id text
check_model_registered list_models base_http_url model =
    elim (list_models (text (rstrip_slash base_http_url ∷ "/v1/models" ∷ []))) [
      | none ↦ false
      | some ids ↦ has_id model ids
    ]

pub record Args : Type 0 where
  pub host : String
  pub port : ℕ
  pub model : String
  pub audio_path : Option String
  pub check_only : Bool

unfoldable pub http_url : Args → String
unfolding text show
http_url args = text ("http://" ∷ args.host ∷ ":" ∷ show args.port ∷ [])

unfoldable pub ws_url : Args → String
unfolding text show
ws_url args = text ("ws://" ∷ args.host ∷ ":" ∷ show args.port ∷ "/v1/realtime" ∷ [])

-- `load_audio` and `synthetic` give the bytes of `to_pcm16_base64` for a file, none where loading
-- raises, and for the sine wave.
unfoldable pub audio_of : (String → Option (List ℕ)) → List ℕ → Option String → Option (List ℕ)
unfolding is_empty
audio_of load_audio synthetic none = some synthetic
audio_of load_audio synthetic (some path) =
    if is_empty path then some synthetic else load_audio path

-- `main`, after the arguments are read: the exit code. `connect` gives the service at an address.
unfoldable pub main :
    (List ℕ → String)
    → (String → Option (List (Option String)))
    → (String → Option (List ℕ))
    → List ℕ
    → (String → Service)
    → Args
    → ℕ
unfolding check_model_registered audio_of realtime_transcribe http_url ws_url
main b64encode list_models load_audio synthetic connect args =
    let registered = check_model_registered list_models (http_url args) args.model in
    if args.check_only
    then (if registered then 0 else 1)
    else elim (audio_of load_audio synthetic args.audio_path) [
      | none ↦ 1
      | some audio ↦
          let talked =
            realtime_transcribe b64encode (connect (ws_url args)) args.model audio 4096 in
          if talked.ok then 0 else 1
    ]
