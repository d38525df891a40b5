-- ===== src/Alert/Send/Attempts.antt =====
-- The retries of `send_alert`.
use dev_llmops.Prelude.{
  ℕ, zero, suc, ◌+◌, ◌*◌, ◌≤◌, ◌<◌, String, ◌≡◌, refl, Bool, true, false, arith, ltb, min,
  if◌then◌else◌,
}
use dev_llmops.Alert.Types.{Settings}
use dev_llmops.Alert.Card.{Card}
use dev_llmops.Alert.Send.{
  Posted, responded, request_exception, other_exception, Sent, delivered, gave_up, raised,
  backoff_of, attempts, send_alert,
}

-- `posts` counts the requests of a world: a POST is one more, a sleep is none.
module _ {S : Type 0} (post : String → Card → ℕ → S → Posted × S) (sleep : ℕ → S → S)
    (settings : Settings) (posts : S → ℕ)
    (post_counts : (target : String) (card : Card) (timeout : ℕ) (w : S)
      → posts (post target card timeout w).1 ≡ posts w + 1)
    (sleep_counts : (seconds : ℕ) (w : S) → posts (sleep seconds w) ≡ posts w) where
  -- What `left` attempts do.
  abbrev pub Bounded : ℕ → S → Sent × S → Type 0
  Bounded left w (result, w') =
      (posts w ≤ posts w')
      × (posts w' ≤ posts w + left)
      × (result ≡ gave_up → posts w' ≡ posts w + left)
      × (0 < left → posts w < posts w')

  rest_counts :
      (b : Bool) (seconds : ℕ) (w : S) → posts (if b then sleep seconds w else w) ≡ posts w
  rest_counts true seconds w = sleep_counts seconds w
  rest_counts false seconds w = refl

  -- One more attempt, by what its POST did.
  pick :
      (left : ℕ) (w w' w'' : S) (posted : Posted) (rest : Sent × S)
      → posts w' ≡ posts w + 1
      → posts w'' ≡ posts w'
      → Bounded left w'' rest
      → Bounded (suc left) w (elim posted [
        | responded ↦ (delivered, w')
        | request_exception ↦ rest
        | other_exception ↦ (raised, w')
      ])
  pick left w w' w'' responded rest one same h =
      (omega arith, omega arith, λ e. cc, λ p. omega arith)
  pick left w w' w'' request_exception rest one same (grows, most, all, least) =
      (omega arith, omega arith, λ e. omega (arith, all e), λ p. omega arith)
  pick left w w' w'' other_exception rest one same h =
      (omega arith, omega arith, λ e. cc, λ p. omega arith)

  attempts-Bounded :
      (left attempt : ℕ) (target : String) (card : Card) (w : S)
      → Bounded left w (attempts post sleep settings left attempt target card w)
  unfolding attempts
  attempts-Bounded zero attempt target card w =
      (omega arith, omega arith, λ e. omega arith, λ h. omega arith)
  attempts-Bounded (suc left) attempt target card w =
      let timeout = settings.send_timeout_base * attempt in
      let w' = (post target card timeout w).1 in
      let retry = ltb attempt settings.send_max_attempts in
      let seconds = backoff_of settings.send_retry_backoffs attempt in
      let w'' = if retry then sleep seconds w' else w' in
      let one = post_counts target card timeout w in
      let same = rest_counts retry seconds w' in
      let rest = attempts-Bounded left (attempt + 1) target card w'' in
      pick left w w' w'' (post target card timeout w).0 _ one same rest

  -- Sending a card makes at least one POST, if the settings allow any, and at most
  -- `send_max_attempts`; it gives up only after exactly that many.
  pub send_alert-Bounded :
      (card : Card) (webhook : String) (w : S)
      → let o : Sent × S = send_alert post sleep settings card webhook w in
        (posts w + min 1 settings.send_max_attempts ≤ posts o.1)
        × (posts o.1 ≤ posts w + settings.send_max_attempts)
        × (o.0 ≡ gave_up → posts o.1 ≡ posts w + settings.send_max_attempts)
  unfolding send_alert
  send_alert-Bounded card webhook w =
      let (grows, most, all, least) = attempts-Bounded settings.send_max_attempts 1 _ card w in
      (ground (arith, least), most, all)
