-- ===== src/Controllers/StaticSecret/Events/Ends.antt =====
-- How the loop of getEvents ends.
use mathlib.Core.Path.{subst}
use vault_secrets_operator.Base.{
  ℕ, zero, suc, ◌+◌, ◌<◌, ◌≡◌, ◌⊎◌, inl, inr, true, Option, none, some, arith, Bool-cases,
  Option-cases, refl, ◌&&◌, leb,
}
use vault_secrets_operator.Controllers.StaticSecret.Events.{
  Session, context_done, closed, broken, Round, Ending, stopped, requeued, Step, ends, goes_on,
  error_threshold, renew_client, round, get_events,
}

-- Whether the goroutine is told to end in a round.
pub data IsCalledOff (t : Round) : Type 0 where
  cancelled : t.context_done ≡ true → IsCalledOff t
  cut : t.session ≡ closed → IsCalledOff t

-- A context that is done stays done.
unfoldable pub StaysDone : (ℕ → Round) → Type 0
StaysDone rounds =
    (i : ℕ) → (rounds i).session ≡ context_done → (rounds (suc i)).context_done ≡ true

-- The ending of the loop, and when it is for good.
pub data EndsWithin (n : ℕ) (rounds : ℕ → Round) : Option Ending → Type 0 where
  queues : EndsWithin n rounds (some requeued)
  leaves : (i : ℕ) → i < n → IsCalledOff (rounds i) → EndsWithin n rounds (some stopped)

later :
    (n : ℕ) (rounds : ℕ → Round) (e : Option Ending)
    → EndsWithin n (λ i. rounds (suc i)) e
    → EndsWithin (suc n) rounds e
later n rounds _ queues = queues
later n rounds _ (leaves i less off) = leaves (suc i) (omega (arith, less)) off

-- What the loop returns, from the outcome of its first round.
first-ends :
    (n error_count : ℕ) (rounds : ℕ → Round) (ending : Ending)
    → round error_count (rounds 0) ≡ ends ending
    → get_events (suc n) error_count rounds ≡ some ending
unfolding get_events
first-ends n error_count rounds ending e = ground arith

first-goes_on :
    (n error_count count : ℕ) (rounds : ℕ → Round)
    → round error_count (rounds 0) ≡ goes_on count
    → get_events (suc n) error_count rounds ≡ get_events n count (λ i. rounds (suc i))
unfolding get_events
first-goes_on n error_count count rounds e = ground arith

-- How one round ends, or why it goes on.
data Outcome (error_count : ℕ) (t : Round) : Step → Type 0 where
  queued : Outcome error_count t (ends requeued)
  left : IsCalledOff t → Outcome error_count t (ends stopped)
  finishing : t.session ≡ context_done → Outcome error_count t (goes_on error_count)
  retrying : suc error_count < 5 → Outcome error_count t (goes_on (suc error_count))

Session-cases : (x : Session) → (x ≡ context_done) ⊎ ((x ≡ closed) ⊎ (x ≡ broken))
Session-cases context_done = inl refl
Session-cases closed = inr (inl refl)
Session-cases broken = inr (inr refl)

renew_client_cases : (t : Round) → (renew_client t ≡ none) ⊎ (renew_client t ≡ some requeued)
unfolding renew_client
renew_client_cases t = elim (Option-cases t.client) [
  | inl e ↦ inr (ground arith)
  | inr (c, e) ↦ elim (Bool-cases (t.websocket && t.registered)) [
    | inl both ↦ inl (ground arith)
    | inr missing ↦ inr (ground arith)
  ]
]

round-Outcome : (error_count : ℕ) (t : Round) → Outcome error_count t (round error_count t)
unfolding round
round-Outcome error_count t =
    let at = λ (x : Step) (same : x ≡ round error_count t). subst (Outcome error_count t) same in
    elim (Bool-cases t.context_done) [
      | inl off ↦ at (ends stopped) (ground arith) (left (cancelled off))
      | inr on ↦ elim (Bool-cases (leb 1 error_count && t.limit_reached)) [
        | inl limit ↦ at (ends requeued) (ground arith) queued
        | inr below ↦ elim (Session-cases t.session) [
          | inl e ↦ at (goes_on error_count) (ground arith) (finishing e)
          | inr (inl e) ↦ at (ends stopped) (ground arith) (left (cut e))
          | inr (inr e) ↦ elim (Bool-cases (leb error_threshold (suc error_count))) [
            | inl many ↦ at (ends requeued) (ground arith) queued
            | inr few ↦ elim (renew_client_cases t) [
              | inl f ↦ at (goes_on (suc error_count)) (ground arith) (retrying (ground arith))
              | inr f ↦ at (ends requeued) (ground arith) queued
            ]
          ]
        ]
      ]
    ]

done-ends :
    (error_count : ℕ) (t : Round) → t.context_done ≡ true → round error_count t ≡ ends stopped
unfolding round
done-ends error_count t h = ground arith

-- One round, with what the rounds after it give.
step-EndsWithin :
    (n error_count : ℕ) (rounds : ℕ → Round) (step : Step)
    → StaysDone rounds
    → 0 < n
    → (suc error_count < 5
        → EndsWithin n (λ i. rounds (suc i)) (get_events n (suc error_count) (λ i. rounds (suc i))))
    → round error_count (rounds 0) ≡ step
    → Outcome error_count (rounds 0) step
    → EndsWithin (suc n) rounds (get_events (suc n) error_count rounds)
unfolding StaysDone
step-EndsWithin zero error_count rounds step over some_left rest e o = absurd (ground arith)
step-EndsWithin (suc n) error_count rounds step over some_left rest e queued =
    rw (first-ends (suc n) error_count rounds requeued e) queues
step-EndsWithin (suc n) error_count rounds step over some_left rest e (left off) =
    rw (first-ends (suc n) error_count rounds stopped e) (leaves 0 (omega arith) off)
step-EndsWithin (suc n) error_count rounds step over some_left rest e (finishing ended) =
    let tail : ℕ → Round = λ i. rounds (suc i) in
    let gone = over 0 ended in
    rw
      (
        first-goes_on (suc n) error_count error_count rounds e,
        first-ends n error_count tail stopped (done-ends error_count (tail 0) gone),
      )
      (leaves 1 (omega arith) (cancelled gone))
step-EndsWithin (suc n) error_count rounds step over some_left rest e (retrying few) =
    rw (first-goes_on (suc n) error_count (suc error_count) rounds e)
      (later (suc n) rounds _ (rest few))

-- With the errors that the threshold leaves, and one round to find the context done.
get_events_from :
    (n error_count : ℕ) (rounds : ℕ → Round)
    → StaysDone rounds
    → 5 < error_count + n
    → error_count < 5
    → EndsWithin n rounds (get_events n error_count rounds)
get_events_from zero error_count rounds over few less = absurd (omega (arith, few, less))
get_events_from (suc n) error_count rounds over few less =
    let tail : ℕ → Round = λ i. rounds (suc i) in
    let over' : StaysDone tail = unfold StaysDone in (λ i. over (suc i)) in
    step-EndsWithin n error_count rounds (round error_count (rounds 0)) over
      (omega (arith, few, less))
      (λ more. get_events_from n (suc error_count) tail over' (omega (arith, few)) more) refl
      (round-Outcome error_count (rounds 0))

-- While a context that is done stays done, the loop ends within six rounds, whatever happens; it
-- queues the resource, unless the context was done or a connection was closed in one of them.
pub get_events_ends :
    (rounds : ℕ → Round) → StaysDone rounds → EndsWithin 6 rounds (get_events 6 0 rounds)
get_events_ends rounds over = get_events_from 6 0 rounds over (omega arith) (omega arith)
