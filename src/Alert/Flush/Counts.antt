-- ===== src/Alert/Flush/Counts.antt =====
-- No alert is lost in a pass beside which no request arrives, but for groups that failed too often.
use dev_llmops.Prelude.{
  ℕ, ◌+◌, ◌<◌, ◌≡◌, refl, ap, ◌∙◌, inl, inr, Bool, true, false, Option, none, List, [], ◌∷◌, arith,
  leb, Bool-cases, All,
}
use dev_llmops.Alert.Types.{Alert, Settings, Key, Group, Buffer, find_group, put_group}
use dev_llmops.Alert.Types.Laws.{
  key_eq_iff, find-put, DistinctKeys, DistinctKeys-put, count, count_group, count_buffer, count-put,
}
use dev_llmops.Alert.Flush.{
  scan, ok_of, Fate, sent, dropped, requeued, fate_of, requeue, settle, Settled, flush_groups,
  flush_pass,
}

count-scan :
    (p : Alert → Bool) (debounce now : ℕ) (b : Buffer)
    → let (ready, kept) = scan debounce now b in
      count_buffer p ready + count_buffer p kept ≡ count_buffer p b
unfolding scan
count-scan p debounce now [] = refl
count-scan p debounce now ((k, g) ∷ b) = elim (Bool-cases (leb (g.first_seen + debounce) now)) [
  | inl due ↦ rw due (omega (arith, count-scan p debounce now b))
  | inr wait ↦ rw wait (omega (arith, count-scan p debounce now b))
]

find-scan :
    (debounce now : ℕ) (j : Key) (b : Buffer)
    → find_group j b ≡ none
    → let (ready, kept) = scan debounce now b in
      (find_group j ready ≡ none) × (find_group j kept ≡ none)
unfolding scan find_group
find-scan debounce now j [] h = (refl, refl)
find-scan debounce now j ((k, g) ∷ b) h = ground (arith, find-scan debounce now j b)

-- Groups that wait for their dispatch have distinct keys, none of which is in the buffer.
abbrev Apart : Buffer → Buffer → Type 0
Apart [] b = Unit
Apart ((k, g) ∷ ready) b = (find_group k b ≡ none) × Apart ready b

Apart-cons :
    (ready b : Buffer) (k : Key) (g : Group)
    → find_group k ready ≡ none
    → Apart ready b
    → Apart ready ((k, g) ∷ b)
unfolding find_group
Apart-cons [] b k g h a = tt
Apart-cons ((j, h') ∷ ready) b k g h (f, a) =
    (ground (arith, key_eq_iff j k, key_eq_iff k j), Apart-cons ready b k g (ground arith) a)

Apart-put :
    (ready b : Buffer) (k : Key) (g : Group)
    → find_group k ready ≡ none
    → Apart ready b
    → Apart ready (put_group k g b)
unfolding find_group
Apart-put [] b k g h a = tt
Apart-put ((j, h') ∷ ready) b k g h (f, a) = (
  ground (arith, key_eq_iff j k, key_eq_iff k j, find-put k j g b),
  Apart-put ready b k g (ground arith) a,
)

scan-Apart :
    (debounce now : ℕ) (b : Buffer)
    → DistinctKeys b
    → let (ready, kept) = scan debounce now b in
      DistinctKeys ready × DistinctKeys kept × Apart ready kept
unfolding scan
scan-Apart debounce now [] d = (tt, tt, tt)
scan-Apart debounce now ((k, g) ∷ b) (fresh, d) =
    let (dr, dk, apart) = scan-Apart debounce now b d in
    let (fr, fk) = find-scan debounce now k b fresh in
    elim (Bool-cases (leb (g.first_seen + debounce) now)) [
      | inl due ↦ rw due ((fr, dr), dk, (fk, apart))
      | inr wait ↦ rw wait (dr, (fk, dk), Apart-cons _ _ k g fr apart)
    ]

-- The alerts of the groups that were sent, and of those that were dropped.
module _ (p : Alert → Bool) where
  abbrev pub count_sent : List Settled → ℕ
  count_sent [] = 0
  count_sent (x ∷ log) = elim x.fate [ sent ↦ count p x.group.alerts | _ ↦ 0 ] + count_sent log

  abbrev pub count_dropped : List Settled → ℕ
  count_dropped [] = 0
  count_dropped (x ∷ log) =
      elim x.fate [ dropped ↦ count p x.group.alerts | _ ↦ 0 ] + count_dropped log

-- A group is dropped only with its retries used up.
abbrev pub DropsLate : Settings → Settled → Type 0
DropsLate settings x =
    x.fate ≡ dropped → settings.send_requeue_max_retries < x.group.requeue_retries + 1

-- Each settled group holds: sent on success, else requeued while it has retries.
fate-DropsLate :
    (settings : Settings) (ok : Bool) (k : Key) (g : Group)
    → DropsLate settings (record { fate = fate_of settings ok g; key = k; group = g })
unfolding fate_of
fate-DropsLate settings true k g h = cc
fate-DropsLate settings false k g h = ground arith

count-settle :
    (p : Alert → Bool) (fate : Fate) (now : ℕ) (k : Key) (g : Group) (b : Buffer)
    → find_group k b ≡ none
    → let x : Settled = record { fate = fate; key = k; group = g } in
      count_buffer p (settle fate now k g b) + count_sent p (x ∷ []) + count_dropped p (x ∷ [])
      ≡ count_buffer p b + count p g.alerts
unfolding settle requeue
count-settle p sent now k g b h = omega arith
count-settle p dropped now k g b h = omega arith
count-settle p requeued now k g b h =
    let g' : Group = record g { first_seen = now; requeue_retries = g.requeue_retries + 1 } in
    let absent : count_group p (find_group k b) ≡ 0 = rw h in
    omega (arith, count-put p k g' b, absent)

DistinctKeys-settle :
    (fate : Fate) (now : ℕ) (k : Key) (g : Group) (b : Buffer)
    → DistinctKeys b
    → DistinctKeys (settle fate now k g b)
unfolding settle requeue
DistinctKeys-settle sent now k g b d = d
DistinctKeys-settle dropped now k g b d = d
DistinctKeys-settle requeued now k g b d = DistinctKeys-put k _ b d

Apart-settle :
    (fate : Fate) (now : ℕ) (ready : Buffer) (k : Key) (g : Group) (b : Buffer)
    → find_group k ready ≡ none
    → Apart ready b
    → Apart ready (settle fate now k g b)
unfolding settle requeue
Apart-settle sent now ready k g b h a = a
Apart-settle dropped now ready k g b h a = a
Apart-settle requeued now ready k g b h a = Apart-put ready b k _ h a

module _ {S : Type 0} (dispatch : Key → List Alert → Buffer × S → Option Bool × (Buffer × S))
    (clock : S → ℕ) (settings : Settings)
    (quiet : (k : Key) (alerts : List Alert) (b : Buffer) (w : S)
      → (dispatch k alerts (b, w)).1.0 ≡ b) where
  -- What a pass leaves of the alerts that were `before`.
  abbrev pub Accounts : ℕ → (Alert → Bool) → (Buffer × S) × List Settled → Type 0
  Accounts before p ((b, w), log) =
      count_buffer p b + count_sent p log + count_dropped p log ≡ before

  flush_groups-Accounts :
      (ready b : Buffer) (w : S)
      → DistinctKeys ready
      → DistinctKeys b
      → Apart ready b
      → ((p : Alert → Bool)
          → Accounts
              (count_buffer p ready + count_buffer p b)
              p
              (flush_groups dispatch clock settings ready (b, w)))
        × DistinctKeys (flush_groups dispatch clock settings ready (b, w)).0.0
        × All (DropsLate settings) (flush_groups dispatch clock settings ready (b, w)).1
  unfolding flush_groups
  flush_groups-Accounts [] b w dr db apart = (λ p. omega arith, db, tt)
  flush_groups-Accounts ((k, g) ∷ ready) b w (fresh, dr) db (absent, apart) =
      let (result, (b', w')) = dispatch k g.alerts (b, w) in
      let fate = fate_of settings (ok_of result) g in
      let same : b' ≡ b = quiet k g.alerts b w in
      let (counted, distinct', late) =
        flush_groups-Accounts ready (settle fate (clock w') k g b') w' dr
          (DistinctKeys-settle fate (clock w') k g b' (rw same db))
          (Apart-settle fate (clock w') ready k g b' fresh (rw same apart)) in
      (
        λ p. omega (
          arith,
          counted p,
          count-settle p fate (clock w') k g b' (rw same absent),
          ap (count_buffer p) same,
        ),
        distinct',
        (fate-DropsLate settings (ok_of result) k g, late),
      )

  -- When no request arrives during the dispatches of a pass, every buffered alert is afterwards in
  -- the buffer, in a group that was sent, or in a group that was dropped, as often as before, counted
  -- by any property of alerts; a group is dropped only when it was requeued
  -- `send_requeue_max_retries` times already; and the keys of the buffer stay distinct.
  pub flush_pass-Accounts :
      (b : Buffer) (w : S)
      → DistinctKeys b
      → ((p : Alert → Bool)
          → Accounts (count_buffer p b) p (flush_pass dispatch clock settings (b, w)))
        × DistinctKeys (flush_pass dispatch clock settings (b, w)).0.0
        × All (DropsLate settings) (flush_pass dispatch clock settings (b, w)).1
  unfolding flush_pass
  flush_pass-Accounts b w d =
      let debounce = settings.debounce_seconds in
      let (ready, kept) = scan debounce (clock w) b in
      let (dr, dk, apart) = scan-Apart debounce (clock w) b d in
      let (counted, distinct', late) = flush_groups-Accounts ready kept w dr dk apart in
      (λ p. counted p ∙ count-scan p debounce (clock w) b, distinct', late)
