-- ===== src/Alert/Receive/Accepts.antt =====
-- A request adds each of its alerts with a known status to the buffer, and nothing else.
use dev_llmops.Prelude.{
  ℕ, String, ◌+◌, ◌≡◌, refl, inl, inr, Bool, true, Option, none, some, List, [], ◌∷◌, arith,
  if◌then◌else◌, length, Bool-cases,
}
use dev_llmops.Alert.Types.{Alert, Group, Buffer, find_group, Settings}
use dev_llmops.Alert.Types.Laws.{
  DistinctKeys, DistinctKeys-put, count, count_group, count_buffer, count-append, count-put,
}
use dev_llmops.Alert.Receive.{
  append_alert, enqueue, enqueue_all, is_known, status_of, key_of, receive_alert, Query, Response,
  accepted, no_alerts,
}

-- The alerts of a request with a known status.
abbrev pub known : List (ℕ × Alert) → List Alert
known [] = []
known ((now, a) ∷ as') = let rest = known as' in if is_known (status_of a) then a ∷ rest else rest

abbrev pub queued : Response → ℕ
queued no_alerts = 0
queued (accepted n) = n

count-append_alert :
    (p : Alert → Bool) (now : ℕ) (a : Alert) (g : Option Group)
    → count p (append_alert now a g).alerts ≡ count_group p g + count p (a ∷ [])
unfolding append_alert
count-append_alert p now a none = omega arith
count-append_alert p now a (some g) = omega (arith, count-append p g.alerts (a ∷ []))

count-enqueue :
    (p : Alert → Bool) (webhook : String) (now : ℕ) (a : Alert) (b : Buffer)
    → count_buffer p (enqueue webhook now a b) ≡ count_buffer p b + count p (a ∷ [])
unfolding enqueue
count-enqueue p webhook now a b =
    let key = key_of webhook a in
    omega (
      arith,
      count-put p key (append_alert now a (find_group key b)) b,
      count-append_alert p now a (find_group key b),
    )

count-enqueue_all :
    (p : Alert → Bool) (webhook : String) (alerts : List (ℕ × Alert)) (b : Buffer) (n : ℕ)
    → let (b', n') = enqueue_all webhook alerts b n in
      (count_buffer p b' ≡ count_buffer p b + count p (known alerts))
      × (n' ≡ n + length (known alerts))
unfolding enqueue_all
count-enqueue_all p webhook [] b n = (omega arith, omega arith)
count-enqueue_all p webhook ((now, a) ∷ alerts) b n = elim (Bool-cases (is_known (status_of a))) [
  | inl yes' ↦
      let (counted, total) = count-enqueue_all p webhook alerts (enqueue webhook now a b) (n + 1) in
      rw yes' (omega (arith, count-enqueue p webhook now a b), omega arith)
  | inr no' ↦ rw no' (count-enqueue_all p webhook alerts b n)
]

DistinctKeys-enqueue_all :
    (webhook : String) (alerts : List (ℕ × Alert)) (b : Buffer) (n : ℕ)
    → DistinctKeys b
    → DistinctKeys (enqueue_all webhook alerts b n).0
unfolding enqueue_all enqueue
DistinctKeys-enqueue_all webhook [] b n d = d
DistinctKeys-enqueue_all webhook ((now, a) ∷ alerts) b n d =
    elim (Bool-cases (is_known (status_of a))) [
      | inl yes' ↦ rw yes' (
          DistinctKeys-enqueue_all webhook alerts (enqueue webhook now a b) (n + 1)
            (DistinctKeys-put _ _ b d))
      | inr no' ↦ rw no' (DistinctKeys-enqueue_all webhook alerts b n d)
    ]

-- A request keeps every buffered alert, adds each of its alerts whose status is "firing" or
-- "resolved" (or missing), as often as it stands in the request, and adds nothing else, counted by
-- any property of alerts; its response counts what was added; and the keys of the buffer stay
-- distinct.
pub receive_alert-accounts :
    (settings : Settings) (q : Query) (alerts : List (ℕ × Alert)) (b : Buffer)
    → DistinctKeys b
    → let (b', response) = receive_alert settings q alerts b in
      ((p : Alert → Bool) → count_buffer p b' ≡ count_buffer p b + count p (known alerts))
      × (queued response ≡ length (known alerts))
      × DistinctKeys b'
unfolding receive_alert
receive_alert-accounts settings q [] b d = (λ p. omega arith, refl, d)
receive_alert-accounts settings q (a ∷ alerts) b d = (
  λ p. (count-enqueue_all p _ (a ∷ alerts) b 0).0,
  omega (arith, (count-enqueue_all (λ _. true) _ (a ∷ alerts) b 0).1),
  DistinctKeys-enqueue_all _ (a ∷ alerts) b 0 d,
)
