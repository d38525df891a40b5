-- ===== src/Alert/Flush.antt =====
-- `_flush_loop` of app.py: one pass of its body, and its interleavings with requests.
pub mod Counts
pub mod Runs
use dev_llmops.Prelude.{
  ℕ, zero, suc, ◌+◌, String, Bool, true, false, ◌≡◌, Option, none, some, List, [], ◌∷◌, ◌++◌, ltb,
  leb, if◌then◌else◌,
}
use dev_llmops.Alert.Types.{Alert, Settings, Key, Group, Buffer, find_group, put_group}

-- The scan under the lock: the groups whose wait is over, and the buffer without them.
unfoldable pub scan : ℕ → ℕ → Buffer → Buffer × Buffer
scan debounce now [] = ([], [])
scan debounce now ((key, group) ∷ buffer) =
    let (ready, kept) = scan debounce now buffer in
    if leb (group.first_seen + debounce) now
    then ((key, group) ∷ ready, kept)
    else (ready, (key, group) ∷ kept)

-- An exception in `_dispatch_group` counts as a failure.
unfoldable pub ok_of : Option Bool → Bool
ok_of none = false
ok_of (some ok) = ok

-- What becomes of a group after its dispatch.
pub data Fate : Type 0 where
  sent dropped requeued : Fate

unfoldable pub fate_of : Settings → Bool → Group → Fate
fate_of settings true group = sent
fate_of settings false group =
    if ltb settings.send_requeue_max_retries (group.requeue_retries + 1) then dropped else requeued

unfoldable pub requeue : ℕ → Key → Group → Buffer → Buffer
unfolding put_group
requeue now key group buffer =
    put_group key (record group { first_seen = now; requeue_retries = group.requeue_retries + 1 })
      buffer

-- The buffer once the group has met its fate; `now` is what `time.time()` returns then.
unfoldable pub settle : Fate → ℕ → Key → Group → Buffer → Buffer
unfolding requeue
settle sent now key group buffer = buffer
settle dropped now key group buffer = buffer
settle requeued now key group buffer = requeue now key group buffer

-- What the pass logs of a group.
pub record Settled : Type 0 where
  pub fate : Fate
  pub key : Key
  pub group : Group

-- `dispatch` is `_dispatch_group`, beside which other threads may change the buffer; `clock` is
-- `time.time()`; `S` is the outside world.
module _ {S : Type 0} (dispatch : Key → List Alert → Buffer × S → Option Bool × (Buffer × S))
    (clock : S → ℕ) (settings : Settings) where
  -- `for key, group in ready_groups`, with what it logs.
  unfoldable pub flush_groups : Buffer → Buffer × S → (Buffer × S) × List Settled
  unfolding ok_of fate_of settle
  flush_groups [] s = (s, [])
  flush_groups ((key, group) ∷ ready) s =
      let (result, (buffer, w)) = dispatch key group.alerts s in
      let fate = fate_of settings (ok_of result) group in
      let (s', log) = flush_groups ready (settle fate (clock w) key group buffer, w) in
      (s', record { fate = fate; key = key; group = group } ∷ log)

  -- One turn of `while True`.
  unfoldable pub flush_pass : Buffer × S → (Buffer × S) × List Settled
  unfolding scan flush_groups
  flush_pass (buffer, w) =
      let (ready, kept) = scan settings.debounce_seconds (clock w) buffer in
      flush_groups ready (kept, w)
