-- ===== src/Voxtral/Tests.antt =====
-- Small inputs of voxtral-realtime-verify.py: runs, and the theorems at them.
use Prim.Native.Char.{code}
use mathlib.Core.List.{flatten}
use dev_llmops.Prelude.{
  ℕ, zero, suc, ◌+◌, ◌≤◌, ◌≡◌, refl, ◌∙◌, ap, ◌↔◌, true, false, String, Option, none, some, List,
  [], ◌∷◌, All, arith, ◌==◌, if◌then◌else◌, length,
}
use dev_llmops.Prelude.Chunks.{Fits}
use dev_llmops.Voxtral.{
  Response, update, append, commit, created, sending, waiting, delta_text, final_text,
  first_delta_time, total_time, Service, Talk, Args, realtime_transcribe, total_chunks, main,
}
use dev_llmops.Voxtral.Protocol.{Transcribes, script, realtime_transcribe_iff}
use dev_llmops.Voxtral.Verdict.{uploads, realtime_transcribe-uploads, IsVerified, main_iff}

-- A text for bytes: each byte is as many `a` as its value, and a `b`.
abbrev ticks : ℕ → String → String
ticks zero s = s
ticks (suc n) s = String.◌∷◌ "a" (ticks n s)

abbrev encode : List ℕ → String
encode [] = ""
encode (n ∷ bytes) = ticks n (String.◌∷◌ "b" (encode bytes))

abbrev decode_from : ℕ → String → List ℕ
decode_from acc String.[] = []
decode_from acc (String.◌∷◌ c s) =
    let more = decode_from (suc acc) s in
    let next = decode_from 0 s in if code c == 97 then more else acc ∷ next

decode_from-ticks : (acc n : ℕ) (s : String) → decode_from acc (ticks n s) ≡ decode_from (n + acc) s
decode_from-ticks acc zero s =
    let same : acc ≡ 0 + acc = omega arith in ap (λ k. decode_from k s) same
decode_from-ticks acc (suc n) s =
    let same : n + suc acc ≡ suc n + acc = omega arith in
    decode_from-ticks (suc acc) n s ∙ ap (λ k. decode_from k s) same

decode-encode : (bytes : List ℕ) → decode_from 0 (encode bytes) ≡ bytes
decode-encode [] = refl
decode-encode (n ∷ bytes) =
    let same : n + 0 ≡ n = omega arith in
    decode_from-ticks 0 n (String.◌∷◌ "b" (encode bytes))
    ∙ rw (decode-encode bytes) (ap (λ k. k ∷ bytes) same)

abbrev event : String → Option String → Option Response
event t content = some (record {
  type = some t;
  id = none;
  delta = content;
  text = content;
  usage = none;
  error = none;
})

abbrev service : Service
service = record {
  connects = true;
  greeting = event "session.created" none;
  takes = λ sent f. true;
  events = λ sent.
      event "conversation.item.created" none
      ∷ event "transcription.delta" (some "hi")
      ∷ event "transcription.done" (some "hi")
      ∷ event "error" none
      ∷ [];
}

abbrev audio : List ℕ
audio = 1 ∷ 2 ∷ 0 ∷ 3 ∷ 1 ∷ []

session_runs : realtime_transcribe encode service "m" audio 2 ≡ record {
  ok = true;
  sent =
      update "m" ∷ commit false ∷ append "abaab" ∷ append "baaab" ∷ append "ab" ∷ commit true ∷ [];
  printed =
      created none
      ∷ sending 3
      ∷ waiting
      ∷ delta_text "hi"
      ∷ final_text (some "hi")
      ∷ first_delta_time
      ∷ total_time
      ∷ [];
}
unfolding realtime_transcribe
session_runs = refl

realtime_transcribe_iff_example :
    let run : Talk = realtime_transcribe encode service "m" audio 2 in
    ((run.ok ≡ true) ↔ Transcribes service (script encode "m" audio 2))
    × (run.ok ≡ true → run.sent ≡ script encode "m" audio 2)
realtime_transcribe_iff_example = realtime_transcribe_iff encode service "m" audio 2

realtime_transcribe-uploads_example :
    let parts : List (List ℕ) =
      uploads (decode_from 0) (realtime_transcribe encode service "m" audio 2).sent in
    (flatten parts ≡ audio) × (length parts ≡ total_chunks encode 2 audio) × All (Fits 2) parts
unfolding realtime_transcribe
realtime_transcribe-uploads_example =
    realtime_transcribe-uploads encode (decode_from 0) decode-encode service "m" audio 2
      (omega arith) refl

abbrev args : Args
args = record {
  host = "h";
  port = 30000;
  model = "m";
  audio_path = some "a.wav";
  check_only = false;
}

main_iff_example :
    let exit_code : ℕ = main encode (λ url. none) (λ path. some audio) [] (λ url. service) args in
    ((exit_code ≡ 0)
      ↔ IsVerified encode (λ url. none) (λ path. some audio) [] (λ url. service) args)
    × (exit_code ≤ 1)
main_iff_example = main_iff encode (λ url. none) (λ path. some audio) [] (λ url. service) args
