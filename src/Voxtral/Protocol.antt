-- ===== src/Voxtral/Protocol.antt =====
-- The session of LLM/ASR/voxtral-realtime-verify.py: when it succeeds, and what it sends then.
use dev_llmops.Prelude.{
  ℕ, ◌≡◌, refl, ap, sym, subst, ◌∙◌, ◌↔◌, inl, inr, Bool, true, false, String, Option, none, some,
  List, [], ◌∷◌, ◌++◌, append_assoc, append-nil, arith, Bool-cases, Option-cases,
}
use dev_llmops.Voxtral.{
  Response, Frame, update, commit, Service, Talk, has_type, send_all, listen, audio_frames, talk,
  realtime_transcribe,
}

-- Events whose first that ends the session is a `transcription.done`.
pub data EndsWell : List (Option Response) → Type 0 where
  done :
      (r : Response) (rs : List (Option Response))
      → has_type "transcription.delta" r ≡ false
      → has_type "transcription.done" r ≡ true
      → EndsWell (some r ∷ rs)
  delta :
      (r : Response) (rs : List (Option Response))
      → has_type "transcription.delta" r ≡ true
      → EndsWell rs
      → EndsWell (some r ∷ rs)
  ignored :
      (r : Response) (rs : List (Option Response))
      → has_type "transcription.delta" r ≡ false
      → has_type "transcription.done" r ≡ false
      → has_type "error" r ≡ false
      → EndsWell rs
      → EndsWell (some r ∷ rs)

listen-EndsWell :
    (seen : Bool) (rs : List (Option Response)) → (listen seen rs).1 ≡ true → EndsWell rs
unfolding listen
listen-EndsWell seen [] h = ground arith
listen-EndsWell seen (none ∷ rs) h = ground arith
listen-EndsWell seen (some r ∷ rs) h = elim (Bool-cases (has_type "transcription.delta" r)) [
  | inl is_delta ↦ delta r rs is_delta (listen-EndsWell true rs (rw is_delta at h))
  | inr no_delta ↦ elim (Bool-cases (has_type "transcription.done" r)) [
    | inl is_done ↦ done r rs no_delta is_done
    | inr not_done ↦ elim (Bool-cases (has_type "error" r)) [
      | inl is_error ↦ absurd (let bad = rw (no_delta, not_done, is_error) at h in ground arith)
      | inr no_error ↦
          ignored r rs no_delta not_done no_error
            (listen-EndsWell seen rs (rw (no_delta, not_done, no_error) at h))
    ]
  ]
]

EndsWell-listen :
    (seen : Bool) (rs : List (Option Response)) → EndsWell rs → (listen seen rs).1 ≡ true
unfolding listen
EndsWell-listen seen _ (done r rs no_delta is_done) = rw (no_delta, is_done) refl
EndsWell-listen seen _ (delta r rs is_delta h) = rw is_delta (EndsWell-listen true rs h)
EndsWell-listen seen _ (ignored r rs no_delta not_done no_error h) =
    rw (no_delta, not_done, no_error) (EndsWell-listen seen rs h)

-- A service takes frames, one after the other, after those that were sent.
pub TakesAll : Service → List Frame → List Frame → Type 0
TakesAll service sent [] = Unit
TakesAll service sent (f ∷ fs) =
    (service.takes sent f ≡ true) × TakesAll service (sent ++ f ∷ []) fs

send_all-TakesAll :
    (service : Service) (sent fs : List Frame)
    → (send_all service sent fs).1 ≡ true
    → TakesAll service sent fs × ((send_all service sent fs).0 ≡ sent ++ fs)
unfolding send_all TakesAll
send_all-TakesAll service sent [] h = (tt, sym (append-nil sent))
send_all-TakesAll service sent (f ∷ fs) h = elim (Bool-cases (service.takes sent f)) [
  | inl taken ↦
      let (all, whole) = send_all-TakesAll service (sent ++ f ∷ []) fs (rw taken at h) in
      ((taken, all), rw taken (whole ∙ append_assoc sent (f ∷ []) fs))
  | inr refused ↦ absurd (let bad = rw refused at h in ground arith)
]

TakesAll-send_all :
    (service : Service) (sent fs : List Frame)
    → TakesAll service sent fs
    → (send_all service sent fs).1 ≡ true
unfolding send_all TakesAll
TakesAll-send_all service sent [] h = refl
TakesAll-send_all service sent (f ∷ fs) (taken, all) =
    rw taken (TakesAll-send_all service (sent ++ f ∷ []) fs all)

-- What `realtime_transcribe` sends: the model, a commit, the audio, and the last commit.
abbrev pub script : (List ℕ → String) → String → List ℕ → ℕ → List Frame
script b64encode model audio_bytes chunk_size =
    (update model ∷ commit false ∷ [])
    ++ audio_frames b64encode chunk_size audio_bytes
    ++ commit true ∷ []

-- A service that transcribes: it takes the connection, greets, takes each frame of the script, and
-- then ends the transcription well.
pub record Transcribes (service : Service) (frames : List Frame) : Type 0 where
  pub connects : service.connects ≡ true
  pub greets : (r : Response) × (service.greeting ≡ some r) × (has_type "session.created" r ≡ true)
  pub takes : TakesAll service [] frames
  pub ends : EndsWell (service.events frames)

TakesAll-append :
    (service : Service) (sent fs gs : List Frame)
    → TakesAll service sent fs
    → TakesAll service (sent ++ fs) gs
    → TakesAll service sent (fs ++ gs)
unfolding TakesAll
TakesAll-append service sent [] gs h g = subst (λ s. TakesAll service s gs) (append-nil sent) g
TakesAll-append service sent (f ∷ fs) gs (taken, h) g = (
  taken,
  TakesAll-append service (sent ++ f ∷ []) fs gs h
      (subst (λ s. TakesAll service s gs) (sym (append_assoc sent (f ∷ []) fs)) g),
)

TakesAll-split :
    (service : Service) (sent fs gs : List Frame)
    → TakesAll service sent (fs ++ gs)
    → TakesAll service sent fs × TakesAll service (sent ++ fs) gs
unfolding TakesAll
TakesAll-split service sent [] gs h =
    (tt, subst (λ s. TakesAll service s gs) (sym (append-nil sent)) h)
TakesAll-split service sent (f ∷ fs) gs (taken, h) =
    let (front, back) = TakesAll-split service (sent ++ f ∷ []) fs gs h in
    ((taken, front), subst (λ s. TakesAll service s gs) (append_assoc sent (f ∷ []) fs) back)

module _ (b64encode : List ℕ → String) (service : Service) (model : String) (audio_bytes : List ℕ)
    (chunk_size : ℕ) where
  abbrev run : Talk
  run = realtime_transcribe b64encode service model audio_bytes chunk_size

  abbrev opening : List Frame
  opening = update model ∷ commit false ∷ []

  abbrev upload : List Frame
  upload = audio_frames b64encode chunk_size audio_bytes ++ commit true ∷ []

  abbrev frames : List Frame
  frames = script b64encode model audio_bytes chunk_size

  talk-sends :
      (id : Option String)
      → (talk b64encode service model audio_bytes chunk_size id).ok ≡ true
      → TakesAll service [] frames
        × EndsWell (service.events frames)
        × ((talk b64encode service model audio_bytes chunk_size id).sent ≡ frames)
  unfolding talk
  talk-sends id h = elim (Bool-cases (send_all service [] opening).1) [
    | inr closed ↦ absurd (let bad = rw closed at h in ground arith)
    | inl open_ok ↦
        let opened = (send_all service [] opening).0 in
        let sent = (send_all service opened upload).0 in
        elim (Bool-cases (send_all service opened upload).1) [
          | inr cut ↦ absurd (let bad = rw (open_ok, cut) at h in ground arith)
          | inl sent_ok ↦
              let (first, whole) = send_all-TakesAll service [] opening open_ok in
              let (second, all) = send_all-TakesAll service opened upload sent_ok in
              let same : sent ≡ frames = all ∙ ap (λ (s : List Frame). s ++ upload) whole in
              let well : EndsWell (service.events sent) =
                listen-EndsWell false (service.events sent) (rw (open_ok, sent_ok) at h) in
              (
                TakesAll-append service [] opening upload first
                    (subst (λ s. TakesAll service s upload) whole second),
                subst (λ fs. EndsWell (service.events fs)) same well,
                rw (open_ok, sent_ok) same,
              )
        ]
  ]

  sends-talk :
      (id : Option String)
      → TakesAll service [] frames
      → EndsWell (service.events frames)
      → (talk b64encode service model audio_bytes chunk_size id).ok ≡ true
  unfolding talk
  sends-talk id takes ends =
      let (first, second) = TakesAll-split service [] opening upload takes in
      let open_ok = TakesAll-send_all service [] opening first in
      let opened : (send_all service [] opening).0 ≡ opening =
        (send_all-TakesAll service [] opening open_ok).1 in
      let sent_ok = TakesAll-send_all service opening upload second in
      let sent : (send_all service opening upload).0 ≡ frames =
        (send_all-TakesAll service opening upload sent_ok).1 in
      rw (open_ok, opened, sent_ok, sent) (EndsWell-listen false (service.events frames) ends)

  session :
      run.ok ≡ true
      → (service.connects ≡ true)
        × ((r : Response) × (service.greeting ≡ some r) × (has_type "session.created" r ≡ true))
        × (run.sent ≡ frames)
        × TakesAll service [] frames
        × EndsWell (service.events frames)
  unfolding realtime_transcribe
  session h = elim (Bool-cases service.connects) [
    | inr down ↦ absurd (let bad = rw down at h in ground arith)
    | inl up ↦ elim (Option-cases service.greeting) [
      | inl silent ↦ absurd (let bad = rw (up, silent) at h in ground arith)
      | inr (r, greeted) ↦ elim (Bool-cases (has_type "session.created" r)) [
        | inr other ↦ absurd (let bad = rw (up, greeted, other) at h in ground arith)
        | inl made ↦
            let (takes, ends, same) = talk-sends r.id (rw (up, greeted, made) at h) in
            (up, (r, greeted, made), rw (up, greeted, made) same, takes, ends)
      ]
    ]
  ]

  runs : run.ok ≡ true → Transcribes service frames
  runs h =
      let (up, greeted, same, takes, ends) = session h in
      record { connects = up; greets = greeted; takes = takes; ends = ends }

  ran : Transcribes service frames → run.ok ≡ true
  unfolding realtime_transcribe
  ran t =
      let (r, greeted, made) = t.greets in
      rw (t.connects, greeted, made) (sends-talk r.id t.takes t.ends)

  -- The session succeeds exactly where the service transcribes, and then the whole script is sent.
  pub realtime_transcribe_iff :
      ((run.ok ≡ true) ↔ Transcribes service (script b64encode model audio_bytes chunk_size))
      × (run.ok ≡ true → run.sent ≡ script b64encode model audio_bytes chunk_size)
  realtime_transcribe_iff = ((runs, ran), λ ok. (session ok).2)
