-- ===== src/Queue/Memory.antt =====
-- MemoryQueueOutboxStore of app/services/runtime/queue/outbox_memory.go, each method under its mutex. A nil
-- pointer among the events is none; a time that is 0 is the zero time, and a token is drawn for each event.
use goravel_mine.Base.{
  ℕ, zero, suc, ◌+◌, ◌≤◌, ◌<◌, ◌≡◌, refl, inl, inr, Bool, true, false, ◌&&◌, ◌||◌, Option, none,
  some, List, [], ◌∷◌, arith, ltb, leb, if◌then◌else◌, ◌==◌, Bool-cases, length,
}
use goravel_mine.Base.Texts.{Text, trim_space}
use goravel_mine.Base.Eq.{nat_eq, list_eq, list_beq}
use goravel_mine.Queue.Outbox.{lease}
use goravel_mine.Queue.Idempotency.{is_expired}

pub data MemoryStatus : Type 0 where
  unset pending processing sent failed : MemoryStatus

pub record MemoryEvent : Type 0 where
  pub id : ℕ
  pub status : MemoryStatus
  pub attempts : ℕ
  pub available_at : ℕ
  pub locked_until : Option ℕ
  pub lock_owner : Text
  pub claim_token : Text
  pub last_error : Text

abbrev pub is_waiting : MemoryStatus → Bool
is_waiting unset = true
is_waiting pending = true
is_waiting _ = false

abbrev pub is_held : MemoryStatus → Bool
is_held processing = true
is_held _ = false

unfoldable pub free : ℕ → MemoryEvent → Bool
free now e =
    (is_waiting e.status || (is_held e.status && is_expired e.locked_until now))
    && leb e.available_at now

abbrev pub held_by : ℕ → Text → Text → MemoryEvent → MemoryEvent
held_by now owner token e = record e {
  status = processing;
  lock_owner = owner;
  claim_token = token;
  locked_until = some (now + lease);
}

abbrev pub claiming :
    MemoryEvent
    → List MemoryEvent × List (Option MemoryEvent)
    → List MemoryEvent × List (Option MemoryEvent)
claiming e (out, events) = (e ∷ out, some e ∷ events)

abbrev pub passing :
    Option MemoryEvent
    → List MemoryEvent × List (Option MemoryEvent)
    → List MemoryEvent × List (Option MemoryEvent)
passing o (out, events) = (out, o ∷ events)

-- The loop of ClaimDue, with how many events may still be claimed; the i-th token that is drawn is `draw i`.
unfoldable pub claim_free :
    ℕ
    → Text
    → (ℕ → Text)
    → ℕ
    → ℕ
    → List (Option MemoryEvent)
    → List MemoryEvent × List (Option MemoryEvent)
claim_free now owner draw i zero events = ([], events)
claim_free now owner draw i (suc n) [] = ([], [])
claim_free now owner draw i (suc n) (none ∷ events) =
    passing none (claim_free now owner draw i (suc n) events)
claim_free now owner draw i (suc n) (some e ∷ events) =
    let claimed = claim_free now owner draw (i + 1) n events in
    let passed = claim_free now owner draw i (suc n) events in
    if free now e then claiming (held_by now owner (draw i) e) claimed else passing (some e) passed

unfoldable pub claim_due :
    ℕ
    → Text
    → (ℕ → Text)
    → ℕ
    → List (Option MemoryEvent)
    → List MemoryEvent × List (Option MemoryEvent)
claim_due now owner draw limit events =
    claim_free now owner draw 0 (if ltb limit 1 then 10 else limit) events

abbrev pub is_claim : ℕ → Text → MemoryEvent → Bool
is_claim id token e = e.id == id && (is_held e.status && list_beq e.claim_token token)

-- A change of the event that findClaim finds: the first that holds the claim.
unfoldable pub at_claim :
    (MemoryEvent → MemoryEvent) → ℕ → Text → List (Option MemoryEvent) → List (Option MemoryEvent)
at_claim f id token [] = []
at_claim f id token (none ∷ events) = none ∷ at_claim f id token events
at_claim f id token (some e ∷ events) =
    let rest = at_claim f id token events in
    if is_claim id token e then some (f e) ∷ events else some e ∷ rest

unfoldable pub mark_sent : ℕ → Text → List (Option MemoryEvent) → List (Option MemoryEvent)
mark_sent id token_text events =
    let token = trim_space token_text in
    if list_beq token []
    then events
    else at_claim
        (λ e. record e {
          status = sent;
          last_error = [];
          locked_until = none;
          lock_owner = [];
          claim_token = [];
        })
        id token events

-- MarkFailed, with the text of the error
unfoldable pub mark_failed : ℕ → Text → Text → List (Option MemoryEvent) → List (Option MemoryEvent)
mark_failed id token_text error events =
    let token = trim_space token_text in
    if list_beq token []
    then events
    else at_claim
        (λ e. record e {
          status = failed;
          last_error = error;
          attempts = e.attempts + 1;
          locked_until = none;
          lock_owner = [];
          claim_token = [];
        })
        id token events

length-claim_free :
    (now : ℕ) (owner : Text) (draw : ℕ → Text) (i n : ℕ) (events : List (Option MemoryEvent))
    → length (claim_free now owner draw i n events).0 ≤ n
unfolding claim_free
length-claim_free now owner draw i zero events = omega arith
length-claim_free now owner draw i (suc n) [] = omega arith
length-claim_free now owner draw i (suc n) (none ∷ events) =
    length-claim_free now owner draw i (suc n) events
length-claim_free now owner draw i (suc n) (some e ∷ events) = elim (Bool-cases (free now e)) [
  | inl h ↦
      rw (claim_free, h)
        (let r = length-claim_free now owner draw (i + 1) n events in omega (arith, r))
  | inr h ↦ rw (claim_free, h) (length-claim_free now owner draw i (suc n) events)
]

-- Whether an event is left that a round may claim.
unfoldable pub free_left : ℕ → List (Option MemoryEvent) → Bool
free_left now [] = false
free_left now (none ∷ events) = free_left now events
free_left now (some e ∷ events) = free now e || free_left now events

held-free :
    (now : ℕ) (owner token : Text) (e : MemoryEvent) → free now (held_by now owner token e) ≡ false
unfolding free
held-free now owner token e = ground arith

claim_free-left :
    (now : ℕ) (owner : Text) (draw : ℕ → Text) (i n : ℕ) (events : List (Option MemoryEvent))
    → length (claim_free now owner draw i n events).0 < n
    → free_left now (claim_free now owner draw i n events).1 ≡ false
unfolding claim_free free_left
claim_free-left now owner draw i zero events h = ground (arith, h)
claim_free-left now owner draw i (suc n) [] h = refl
claim_free-left now owner draw i (suc n) (none ∷ events) h =
    claim_free-left now owner draw i (suc n) events h
claim_free-left now owner draw i (suc n) (some e ∷ events) h = elim (Bool-cases (free now e)) [
  | inl b ↦
      let k : length (claim_free now owner draw (i + 1) n events).0 < n = ground (arith, h, b) in
      rw (claim_free, b)
        (ground (
          arith,
          held-free now owner (draw i) e,
          claim_free-left now owner draw (i + 1) n events k,
        ))
  | inr b ↦
      let k : length (claim_free now owner draw i (suc n) events).0 < suc n =
        ground (arith, h, b) in
      rw (claim_free, b) (ground (arith, b, claim_free-left now owner draw i (suc n) events k))
]

-- A round with a limit from 1 on returns at most that many events, and where it returns fewer it leaves none that
-- it could have claimed.
pub claim_due-drains :
    (now : ℕ) (owner : Text) (draw : ℕ → Text) (limit : ℕ) (events : List (Option MemoryEvent))
    → 1 ≤ limit
    → (length (claim_due now owner draw limit events).0 ≤ limit)
      × (length (claim_due now owner draw limit events).0 < limit
          → free_left now (claim_due now owner draw limit events).1 ≡ false)
unfolding claim_due
claim_due-drains now owner draw limit events h =
    let e : (if ltb limit 1 then 10 else limit) ≡ limit = ground (arith, h) in
    rw e (
      length-claim_free now owner draw 0 limit events,
      claim_free-left now owner draw 0 limit events,
    )
