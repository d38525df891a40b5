-- ===== src/Voxtral/Verdict.antt =====
-- The audio that a session of LLM/ASR/voxtral-realtime-verify.py sends, and the exit code of the script.
use mathlib.Core.List.{flatten}
use dev_llmops.Prelude.{
  ℕ, ◌≤◌, ◌<◌, ◌≡◌, refl, ap, subst, ◌∙◌, ◌↔◌, ◌⊎◌, inl, inr, true, false, String, Option, none,
  some, List, [], ◌∷◌, ◌++◌, append-nil, map, All, arith, Bool-cases, Option-cases, length,
}
use dev_llmops.Prelude.Text.{text}
use dev_llmops.Prelude.Dict.{str_eq, eq_iff}
use dev_llmops.Prelude.Chunks.{chunks, Fits, flatten-chunks, All-chunks, length-chunks}
use dev_llmops.Voxtral.{
  Frame, update, append, commit, Service, Args, audio_frames, total_chunks, realtime_transcribe,
  rstrip_slash, has_id, check_model_registered, audio_of, http_url, ws_url, main,
}
use dev_llmops.Voxtral.Protocol.{Transcribes, script, realtime_transcribe_iff}

-- The audio that frames carry, frame by frame.
abbrev pub uploads : (String → List ℕ) → List Frame → List (List ℕ)
uploads b64decode [] = []
uploads b64decode (append audio ∷ fs) = b64decode audio ∷ uploads b64decode fs
uploads b64decode (update model ∷ fs) = uploads b64decode fs
uploads b64decode (commit final ∷ fs) = uploads b64decode fs

module _ (b64encode : List ℕ → String) (b64decode : String → List ℕ)
    (round_trip : (bytes : List ℕ) → b64decode (b64encode bytes) ≡ bytes) where
  uploads-chunks :
      (parts : List (List ℕ)) (rest : List Frame)
      → uploads b64decode (map (λ chunk. append (b64encode chunk)) parts ++ rest)
        ≡ parts ++ uploads b64decode rest
  uploads-chunks [] rest = refl
  uploads-chunks (part ∷ parts) rest = rw (round_trip part, uploads-chunks parts rest) refl

  uploads-script :
      (model : String) (audio_bytes : List ℕ) (chunk_size : ℕ)
      → uploads b64decode (script b64encode model audio_bytes chunk_size)
        ≡ chunks (length audio_bytes) chunk_size audio_bytes
  unfolding audio_frames
  uploads-script model audio_bytes chunk_size =
      let parts = chunks (length audio_bytes) chunk_size audio_bytes in
      uploads-chunks parts (commit true ∷ []) ∙ append-nil parts

  -- A session that succeeds has sent the audio whole: the parts it sent, decoded and put together, are
  -- the bytes of the audio. They are as many as the script prints, `total_chunks`, and each has between
  -- 1 and `chunk_size` bytes, for a positive `chunk_size`.
  pub realtime_transcribe-uploads :
      (service : Service) (model : String) (audio_bytes : List ℕ) (chunk_size : ℕ)
      → 0 < chunk_size
      → (realtime_transcribe b64encode service model audio_bytes chunk_size).ok ≡ true
      → let parts : List (List ℕ) =
          uploads b64decode
            (realtime_transcribe b64encode service model audio_bytes chunk_size).sent in
        (flatten parts ≡ audio_bytes)
        × (length parts ≡ total_chunks b64encode chunk_size audio_bytes)
        × All (Fits chunk_size) parts
  unfolding total_chunks
  realtime_transcribe-uploads service model audio_bytes chunk_size pos ok =
      let size = length audio_bytes in
      let sent = (realtime_transcribe_iff b64encode service model audio_bytes chunk_size).1 ok in
      rw (sent, uploads-script model audio_bytes chunk_size)
        (
          flatten-chunks size chunk_size audio_bytes pos (omega arith),
          length-chunks size chunk_size audio_bytes pos (omega arith),
          All-chunks size chunk_size audio_bytes pos,
        )

-- The address of the list of models.
abbrev models_url : Args → String
models_url args = text (rstrip_slash (http_url args) ∷ "/v1/models" ∷ [])

has_id-splits :
    (model : String) (ids : List (Option String))
    → has_id model ids ≡ true
    → (before after : List (Option String)) × (ids ≡ before ++ some model ∷ after)
unfolding has_id
has_id-splits model [] h = absurd (ground arith)
has_id-splits model (none ∷ ids) h =
    let (before, after, e) = has_id-splits model ids h in
    (none ∷ before, after, ap (λ xs. none ∷ xs) e)
has_id-splits model (some id ∷ ids) h = elim (Bool-cases (str_eq id model)) [
  | inl same ↦ ([], ids, ap (λ x. some x ∷ ids) ((eq_iff id model).0 same))
  | inr other ↦
      let (before, after, e) = has_id-splits model ids (rw other at h) in
      (some id ∷ before, after, ap (λ xs. some id ∷ xs) e)
]

has_id-middle :
    (model : String) (before after : List (Option String))
    → has_id model (before ++ some model ∷ after) ≡ true
unfolding has_id
has_id-middle model [] after = rw ((eq_iff model model).1 refl) refl
has_id-middle model (none ∷ before) after = has_id-middle model before after
has_id-middle model (some id ∷ before) after = ground (arith, has_id-middle model before after)

module _ (b64encode : List ℕ → String) (list_models : String → Option (List (Option String)))
    (load_audio : String → Option (List ℕ)) (synthetic : List ℕ) (connect : String → Service) where
  check_model_registered-none :
      (url model : String)
      → list_models (text (rstrip_slash url ∷ "/v1/models" ∷ [])) ≡ none
      → check_model_registered list_models url model ≡ false
  unfolding check_model_registered
  check_model_registered-none url model silent = rw (silent, check_model_registered) refl

  check_model_registered-has_id :
      (url model : String) (ids : List (Option String))
      → list_models (text (rstrip_slash url ∷ "/v1/models" ∷ [])) ≡ some ids
      → check_model_registered list_models url model ≡ has_id model ids
  unfolding check_model_registered
  check_model_registered-has_id url model ids answered = rw (answered, check_model_registered) refl

  -- What the script verifies: with `--check-only`, that the service answers with a list of models and
  -- the model stands in it; else that there is audio and the service at the address transcribes it.
  pub data IsVerified (args : Args) : Type 0 where
    listed :
        args.check_only ≡ true
        → (ids before after : List (Option String)) → list_models (models_url args) ≡ some ids
        → ids ≡ before ++ some args.model ∷ after
        → IsVerified args
    transcribed :
        args.check_only ≡ false
        → (audio : List ℕ) → audio_of load_audio synthetic args.audio_path ≡ some audio
        → Transcribes (connect (ws_url args)) (script b64encode args.model audio 4096)
        → IsVerified args

  abbrev exit_code : Args → ℕ
  exit_code = main b64encode list_models load_audio synthetic connect

  abbrev Judged : Args → Type 0
  Judged args =
      ((exit_code args ≡ 0) × IsVerified args) ⊎ ((exit_code args ≡ 1) × (IsVerified args → ⊥))

  Judged-checked : (args : Args) → args.check_only ≡ true → Judged args
  unfolding main
  Judged-checked args only = elim (Option-cases (list_models (models_url args))) [
    | inl silent ↦ inr (
      rw (only, check_model_registered-none (http_url args) args.model silent) refl,
      λ v. elim v [
        | listed o ids before after e parts ↦ ground arith
        | transcribed full audio e t ↦ ground arith
      ],
    )
    | inr (ids, answered) ↦
        let read = check_model_registered-has_id (http_url args) args.model ids answered in
        elim (Bool-cases (has_id args.model ids)) [
          | inl there ↦
              let (before, after, parts) = has_id-splits args.model ids there in
              inl (rw (only, read, there) refl, listed only ids before after answered parts)
          | inr missing ↦ inr (
            rw (only, read, missing) refl,
            λ v. elim v [
              | listed o others before after e parts ↦
                  let same : ids ≡ before ++ some args.model ∷ after =
                    (let again = rw answered at e in cc) in
                  let there : has_id args.model ids ≡ true =
                    rw same (has_id-middle args.model before after) in
                  ground arith
              | transcribed full audio e t ↦ ground arith
            ],
          )
        ]
  ]

  Judged-full : (args : Args) → args.check_only ≡ false → Judged args
  unfolding main
  Judged-full args full = elim (Option-cases (audio_of load_audio synthetic args.audio_path)) [
    | inl broken ↦ inr (
      rw (full, broken) refl,
      λ v. elim v [
        | listed only ids before after e0 parts ↦ ground arith
        | transcribed f audio e t ↦ ground arith
      ],
    )
    | inr (audio, loaded) ↦
        let service = connect (ws_url args) in
        let (talks, heard) = (realtime_transcribe_iff b64encode service args.model audio 4096).0 in
        elim (Bool-cases (realtime_transcribe b64encode service args.model audio 4096).ok) [
          | inl ok ↦ inl (rw (full, loaded, ok) refl, transcribed full audio loaded (talks ok))
          | inr no_ok ↦ inr (
            rw (full, loaded, no_ok) refl,
            λ v. elim v [
              | listed only ids before after e0 parts ↦ ground arith
              | transcribed f other e t ↦
                  let same : other ≡ audio = (let again = rw loaded at e in cc) in
                  let ok = heard (
                    subst (λ a. Transcribes service (script b64encode args.model a 4096)) same t) in
                  ground arith
            ],
          )
        ]
  ]

  -- The exit code is 0 exactly where what the script verifies holds, and else 1: with `--check-only`,
  -- that the service answers at the address of the models with ids of which one is the model; without,
  -- that there is audio and the service transcribes it by the protocol.
  pub main_iff : (args : Args) → ((exit_code args ≡ 0) ↔ IsVerified args) × (exit_code args ≤ 1)
  main_iff args =
      let judged : Judged args = elim (Bool-cases args.check_only) [
        | inl only ↦ Judged-checked args only
        | inr full ↦ Judged-full args full
      ] in
      elim judged [
        | inl (good, verified) ↦ ((λ h. verified, λ v. good), omega arith)
        | inr (bad, refuted) ↦ ((λ h. absurd (omega arith), λ v. absurd (refuted v)), omega arith)
      ]
