-- ===== src/Alert/Flush/Runs.antt =====
-- Requests and the flush thread, interleaved under `_buffer_lock`: what holds of every run, and the
-- alerts that a requeue overwrites.
use mathlib.Core.Option
use dev_llmops.Prelude.{
  ℕ, ◌+◌, ◌≤◌, ◌≡◌, refl, ap, inl, inr, Bool, true, false, String, Option, none, some, List, [],
  ◌∷◌, arith, ltb, leb, Bool-cases,
}
use dev_llmops.Alert.Types.{Alert, Settings, Key, Group, Buffer, key_eq, find_group, put_group}
use dev_llmops.Alert.Types.Laws.{
  key_eq_iff, find-put, DistinctKeys, DistinctKeys-put, count, count_group, count_buffer, count-put,
}
use dev_llmops.Alert.Receive.{enqueue, append_alert, key_of}
use dev_llmops.Alert.Flush.{scan, ok_of, fate_of, requeue, settle, flush_groups}

-- The shared buffer, and the groups that the flush thread took and did not dispatch yet.
pub record Bot : Type 0 where
  pub buffer : Buffer
  pub in_flight : Buffer

-- A request's turn for one alert, the scan, and a dispatch that ended.
pub data Step (settings : Settings) (s : Bot) : Bot → Type 0 where
  arrive :
      (webhook : String) (now : ℕ) (a : Alert)
      → Step settings s (record s { buffer = enqueue webhook now a s.buffer })
  take_due :
      (now : ℕ)
      → s.in_flight ≡ []
      → Step settings s (record {
        buffer = (scan settings.debounce_seconds now s.buffer).1;
        in_flight = (scan settings.debounce_seconds now s.buffer).0;
      })
  finish :
      (result : Option Bool) (now : ℕ) (k : Key) (g : Group) (rest : Buffer)
      → s.in_flight ≡ (k, g) ∷ rest
      → Step settings s (record {
        buffer = settle (fate_of settings (ok_of result) g) now k g s.buffer;
        in_flight = rest;
      })

pub data Reach (settings : Settings) (s : Bot) : Bot → Type 0 where
  here : Reach settings s s
  next : {t u : Bot} → Reach settings s t → Step settings t u → Reach settings s u

abbrev pub Retries : Settings → Buffer → Type 0
Retries settings [] = Unit
Retries settings ((k, g) ∷ b) =
    (g.requeue_retries ≤ settings.send_requeue_max_retries) × Retries settings b

-- The keys of the buffer are distinct, and no group was requeued more often than the settings allow.
pub record IsSound (settings : Settings) (s : Bot) : Type 0 where
  pub keys : DistinctKeys s.buffer
  pub buffered : Retries settings s.buffer
  pub taken : Retries settings s.in_flight

Retries-put :
    (settings : Settings) (k : Key) (g : Group) (b : Buffer)
    → g.requeue_retries ≤ settings.send_requeue_max_retries
    → Retries settings b
    → Retries settings (put_group k g b)
unfolding put_group
Retries-put settings k g [] h r = (h, tt)
Retries-put settings k g ((j, i) ∷ b) h (r, rs) = elim (Bool-cases (key_eq j k)) [
  | inl same ↦ rw same (h, rs)
  | inr other ↦ rw other (r, Retries-put settings k g b h rs)
]

Retries-find :
    (settings : Settings) (k : Key) (b : Buffer) (now : ℕ) (a : Alert)
    → Retries settings b
    → (append_alert now a (find_group k b)).requeue_retries ≤ settings.send_requeue_max_retries
unfolding find_group append_alert
Retries-find settings k [] now a r = omega arith
Retries-find settings k ((j, g) ∷ b) now a (r, rs) = elim (Bool-cases (key_eq j k)) [
  | inl same ↦ rw same r
  | inr other ↦ rw other (Retries-find settings k b now a rs)
]

Retries-scan :
    (settings : Settings) (debounce now : ℕ) (b : Buffer)
    → Retries settings b
    → Retries settings (scan debounce now b).0 × Retries settings (scan debounce now b).1
unfolding scan
Retries-scan settings debounce now [] r = (tt, tt)
Retries-scan settings debounce now ((k, g) ∷ b) (r, rs) =
    let (ready, kept) = Retries-scan settings debounce now b rs in
    elim (Bool-cases (leb (g.first_seen + debounce) now)) [
      | inl due ↦ rw due ((r, ready), kept)
      | inr wait ↦ rw wait (ready, (r, kept))
    ]

find-scan_kept :
    (debounce now : ℕ) (j : Key) (b : Buffer)
    → find_group j b ≡ none
    → find_group j (scan debounce now b).1 ≡ none
unfolding scan find_group
find-scan_kept debounce now j [] h = refl
find-scan_kept debounce now j ((k, g) ∷ b) h = ground (arith, find-scan_kept debounce now j b)

DistinctKeys-scan :
    (debounce now : ℕ) (b : Buffer) → DistinctKeys b → DistinctKeys (scan debounce now b).1
unfolding scan
DistinctKeys-scan debounce now [] d = tt
DistinctKeys-scan debounce now ((k, g) ∷ b) (fresh, d) =
    elim (Bool-cases (leb (g.first_seen + debounce) now)) [
      | inl due ↦ rw due (DistinctKeys-scan debounce now b d)
      | inr wait ↦
          rw wait (find-scan_kept debounce now k b fresh, DistinctKeys-scan debounce now b d)
    ]

settle_sound :
    (settings : Settings) (ok : Bool) (now : ℕ) (k : Key) (g : Group) (b : Buffer)
    → DistinctKeys b
    → Retries settings b
    → let b' : Buffer = settle (fate_of settings ok g) now k g b in
      DistinctKeys b' × Retries settings b'
unfolding settle fate_of requeue
settle_sound settings true now k g b d r = (d, r)
settle_sound settings false now k g b d r =
    elim (Bool-cases (ltb settings.send_requeue_max_retries (g.requeue_retries + 1))) [
      | inl late ↦ rw late (d, r)
      | inr early ↦ rw early (DistinctKeys-put k _ b d, Retries-put settings k _ b (ground arith) r)
    ]

Step-IsSound :
    (settings : Settings) {s t : Bot} → Step settings s t → IsSound settings s → IsSound settings t
unfolding enqueue
Step-IsSound settings {s} (arrive webhook now a) h = record {
  keys = DistinctKeys-put _ _ s.buffer h.keys;
  buffered =
      Retries-put settings (key_of webhook a) _ s.buffer
        (Retries-find settings (key_of webhook a) s.buffer now a h.buffered) h.buffered;
  taken = h.taken;
}
Step-IsSound settings {s} (take_due now e) h =
    let (ready, kept) = Retries-scan settings settings.debounce_seconds now s.buffer h.buffered in
    record {
      keys = DistinctKeys-scan settings.debounce_seconds now s.buffer h.keys;
      buffered = kept;
      taken = ready;
    }
Step-IsSound settings {s} (finish result now k g rest e) h =
    let (keys, buffered) =
      settle_sound settings (ok_of result) now k g s.buffer h.keys h.buffered in
    record { keys = keys; buffered = buffered; taken = (rw e at h.taken).1 }

-- In every run of requests, scans and dispatches from a sound state, in any order, the keys of the
-- buffer stay distinct, and no group, in the buffer or taken from it, counts more requeues than
-- `send_requeue_max_retries`.
pub Reach-IsSound :
    (settings : Settings) {s t : Bot} → IsSound settings s → Reach settings s t → IsSound settings t
Reach-IsSound settings h here = h
Reach-IsSound settings h (next r st) = Step-IsSound settings st (Reach-IsSound settings h r)

requeue-overwrites :
    (now : ℕ) (k : Key) (g newer : Group) (b : Buffer)
    → find_group k b ≡ some newer
    → (Option.map (λ (h : Group). h.alerts) (find_group k (requeue now k g b)) ≡ some g.alerts)
      × ((p : Alert → Bool)
          → count_buffer p (requeue now k g b) + count p newer.alerts
            ≡ count_buffer p b + count p g.alerts)
unfolding requeue
requeue-overwrites now k g newer b found =
    let g' : Group = record g { first_seen = now; requeue_retries = g.requeue_retries + 1 } in
    (
      rw (find-put k k g' b, (key_eq_iff k k).1 refl),
      λ p. omega (arith, count-put p k g' b, ap (count_group p) found),
    )

settle_failed :
    (settings : Settings) (now : ℕ) (k : Key) (g : Group) (b : Buffer)
    → g.requeue_retries + 1 ≤ settings.send_requeue_max_retries
    → settle (fate_of settings false g) now k g b ≡ requeue now k g b
unfolding settle fate_of
settle_failed settings now k g b h = ground arith

-- When a group fails with retries left, and while it was dispatched a request opened a newer group
-- under the same key, the requeue replaces the newer group: afterwards the key holds the failed
-- group's alerts, and the buffer lacks exactly the newer group's alerts, counted by any property.
pub flush_groups-overwrites :
    {S : Type 0} (dispatch : Key → List Alert → Buffer × S → Option Bool × (Buffer × S))
    (clock : S → ℕ) (settings : Settings) (k : Key) (g newer : Group) (b : Buffer) (w : S)
    → ok_of (dispatch k g.alerts (b, w)).0 ≡ false
    → g.requeue_retries + 1 ≤ settings.send_requeue_max_retries
    → find_group k (dispatch k g.alerts (b, w)).1.0 ≡ some newer
    → let b' : Buffer = (flush_groups dispatch clock settings ((k, g) ∷ []) (b, w)).0.0 in
      let during : Buffer = (dispatch k g.alerts (b, w)).1.0 in
      (Option.map (λ (h : Group). h.alerts) (find_group k b') ≡ some g.alerts)
      × ((p : Alert → Bool)
          → count_buffer p b' + count p newer.alerts ≡ count_buffer p during + count p g.alerts)
unfolding flush_groups
flush_groups-overwrites dispatch clock settings k g newer b w failed retries found =
    let during : Buffer = (dispatch k g.alerts (b, w)).1.0 in
    let now = clock (dispatch k g.alerts (b, w)).1.1 in
    rw (failed, settle_failed settings now k g during retries)
      (requeue-overwrites now k g newer during found)
