-- ===== src/Queue/Tests.antt =====
-- The theorems on the queue, app/services/runtime/queue, at concrete inputs.
use goravel_mine.Base.{
  ℕ, ◌*◌, ◌≤◌, ◌≡◌, refl, inl, true, false, Option, none, some, zero, suc, ◌+◌, ◌==◌, if◌then◌else◌,
  select, any, List, [], ◌∷◌, map, arith, length, All,
}
use goravel_mine.Base.Decimal.{numbered}
use goravel_mine.Base.Texts.{trim_left, trim_right, is_space, Text, codes, trim_space}
use goravel_mine.Base.Eq.{nat_eq, list_eq, list_beq}
use goravel_mine.Queue.Retry.{doubled, capped, Failure, outbox_policy, should_retry, second}
use goravel_mine.Queue.Retry.Backoff.{should_retry-exact}
use goravel_mine.Queue.Outbox.{
  Event, pending, processing, sent, claimable, claim, claim_due, owner_name, select_due, first, due,
  claim_rows, mark_sent_row, mark_failed_row,
}
use goravel_mine.Queue.Outbox.Claims.{
  Step, claims, marks_failed, run, run-terminal, sent_within_lease, lost_claim_marks_nothing,
}
use goravel_mine.Queue.Outbox.Attempts.{failures, failures_at_most}
use goravel_mine.Queue.Outbox.Batch.{Claimed, claim_steps, claim_due-Claimed}
use goravel_mine.Queue.Outbox.Unique.{Unique}
use goravel_mine.Queue.Dispatch.{DispatchResult, dispatch_due, dispatch_rows}
use goravel_mine.Queue.Dispatch.Settled.{Token}
use goravel_mine.Queue.Dispatch.Outcome.{Dispatched, dispatch_due-Dispatched}
use goravel_mine.Queue.Idempotency.{
  running, success, Result, Row, Metadata, unpaired, returns, fails, once_with_metadata, create,
  reserve,
}
use goravel_mine.Queue.Idempotency as Idempotency
use goravel_mine.Queue.Idempotency.Once as Once
use goravel_mine.Queue.Memory as Memory

abbrev timeout_error : Failure
timeout_error = record { message = codes "timeout"; retryable = true }

abbrev new_event : Event
new_event = record {
  id = 7;
  payload = codes "{}";
  status = pending;
  attempts = 0;
  available_at = some 1;
  locked_until = none;
  lock_owner = [];
  claim_token = [];
  last_error = none;
  published_at = none;
}

should_retry-exact_example : should_retry outbox_policy (some timeout_error) 3 ≡ some (4 * second)
should_retry-exact_example =
    should_retry-exact outbox_policy timeout_error 3 refl (omega arith) (omega arith)

-- Without delays in the policy it is a second, doubled without a cap.
no_delays :
    should_retry (record outbox_policy { initial_delay = 0; max_delay = 0 }) (some timeout_error) 3
    ≡ some (4 * second)
unfolding should_retry doubled capped
no_delays = refl

abbrev other_worker : List Step
other_worker =
    claims 100 (codes "b") (codes "t2") 7 ∷ marks_failed 200 7 (codes "t2") timeout_error ∷ []

run-terminal_example :
    run other_worker (record new_event { status = sent }) ≡ record new_event { status = sent }
run-terminal_example = run-terminal other_worker (record new_event { status = sent }) (inl refl)

new_event-claimable : claimable 50 new_event ≡ true
unfolding claimable
new_event-claimable = refl

t1_is_not_t2 : list_beq (codes "t1") (codes "t2") ≡ false
unfolding list_beq
t1_is_not_t2 = refl

sent_within_lease_example :
    (mark_sent_row 300 7
      (codes "t1")
      (run other_worker (claim 50 (codes "a") (codes "t1") 7 new_event))).status
    ≡ sent
sent_within_lease_example =
    sent_within_lease 50 300 (codes "a") (codes "t1") new_event other_worker new_event-claimable
      (omega arith, (t1_is_not_t2, tt))

blank_is_not_t1 : list_beq [] (codes "t1") ≡ false
unfolding list_beq
blank_is_not_t1 = refl

t2_is_not_t1 : list_beq (codes "t2") (codes "t1") ≡ false
unfolding list_beq
t2_is_not_t1 = refl

abbrev event_of_t2 : Event
event_of_t2 = record new_event {
  status = processing;
  claim_token = codes "t2";
  locked_until = some 400;
}

lost_claim_marks_nothing_example :
    (mark_sent_row 300 7 (codes "t1") (run other_worker event_of_t2) ≡ run other_worker event_of_t2)
    × (mark_failed_row 300 7 (codes "t1") timeout_error (run other_worker event_of_t2)
        ≡ run other_worker event_of_t2)
lost_claim_marks_nothing_example =
    lost_claim_marks_nothing 300 7 (codes "t1") timeout_error other_worker event_of_t2
      blank_is_not_t1 (t2_is_not_t1, (tt, tt)) t2_is_not_t1

failures_at_most_example :
    (failures other_worker new_event ≤ 4)
    × ((run other_worker new_event).attempts ≡ failures other_worker new_event)
failures_at_most_example = failures_at_most other_worker new_event refl refl

abbrev draws : ℕ → Text
draws i = numbered i []

-- Another worker took the second event after the query.
abbrev seen_events : List Event
seen_events = new_event ∷ record new_event { id = 8 } ∷ []

abbrev met_events : List Event
met_events = new_event ∷ record event_of_t2 { id = 8 } ∷ []

abbrev round : List Event × List Event
round = claim_due 50 (codes "a") 5 draws 0 seen_events met_events

claim_due-Claimed_example :
    (length round.0 ≤ 5)
    × (All (Claimed 50 (owner_name (codes "a")) draws round.1) round.0
        × (round.1
            ≡ map
                (run
                  (claim_steps 50 (owner_name (codes "a")) draws 0 (select_due 50 5 seen_events)))
                met_events))
claim_due-Claimed_example =
    claim_due-Claimed 50 (codes "a") 5 draws 0 seen_events met_events (omega arith)

one_claimed : length round.0 ≡ 1
unfolding claim_due claim_rows claim select_due first due claimable select any
one_claimed = refl

abbrev dispatch_draws : ℕ → Text
dispatch_draws zero = codes "k1"
dispatch_draws (suc n) = codes "k2"

dispatch_tokens : (n : ℕ) → Token (dispatch_draws n)
unfolding trim_space trim_left list_beq
dispatch_tokens zero = (refl, refl)
dispatch_tokens (suc n) = (refl, refl)

-- The first message is sent, the second one fails.
abbrev two_events : List Event
two_events = new_event ∷ record new_event { id = 8 } ∷ []

abbrev second_fails : Event → Option Failure
second_fails e = if e.id == 7 then none else some timeout_error

abbrev ticks : ℕ → ℕ
ticks n = 50 + n

abbrev dispatched : DispatchResult × List Event
dispatched = dispatch_due second_fails ticks (codes "a") 5 dispatch_draws two_events two_events

one_sent_one_failed : dispatched.0 ≡ record { sent = 1; failed = 1 }
unfolding dispatch_due dispatch_rows claim_due claim_rows claim select_due first due claimable
    select any
one_sent_one_failed = refl

two_events-Unique : Unique two_events
unfolding Unique
two_events-Unique = ((refl, tt), (tt, tt))

dispatch_due-Dispatched_example :
    Dispatched second_fails
      (claim_due (ticks 0) (codes "a") 5 dispatch_draws 0 two_events two_events).0
      dispatched.0
      dispatched.1
dispatch_due-Dispatched_example =
    dispatch_due-Dispatched second_fails ticks (codes "a") 5 dispatch_draws two_events two_events
      dispatch_tokens two_events-Unique

abbrev done_row : Row
done_row = record {
  status = success;
  result = codes "ok";
  last_error = none;
  locked_until = none;
  claim_token = [];
}

abbrev busy_row : Row
busy_row = record done_row { status = running; locked_until = some 400; claim_token = codes "t1" }

abbrev late_worker : List Idempotency.Step
late_worker =
    Idempotency.reserves 100 (codes "t2") false none
    ∷ Idempotency.finishes (codes "t2")
        (record { status = success; result = []; duplicate = false })
    ∷ []

run-settled_example : Idempotency.run late_worker (some done_row) ≡ some done_row
run-settled_example = Once.run-settled late_worker done_row refl refl

abbrev no_metadata : Metadata
no_metadata = record { consumer_key = []; idempotency_key = [] }

no_metadata-paired : unpaired no_metadata ≡ false
unfolding list_beq trim_space trim_left trim_right
no_metadata-paired = refl

abbrev ok_result : Result
ok_result = record { status = success; result = codes "ok"; duplicate = false }

key_given : list_beq (trim_space (codes "k")) [] ≡ false
unfolding list_beq trim_space trim_left trim_right is_space
key_given = refl

-- Another worker tries while the handler runs, and later.
abbrev first_call : Idempotency.Run
first_call =
    once_with_metadata 50 (codes "t1") false (codes "k") no_metadata (returns ok_result) late_worker
      none none

called_first : first_call.called ≡ true
unfolding once_with_metadata list_beq trim_space trim_left trim_right is_space reserve create
called_first = refl

late_worker-Foreign : All (Once.Foreign (codes "t1") (50 + Idempotency.lock_time)) late_worker
late_worker-Foreign = (omega arith, (t1_is_not_t2, tt))

once_again_example :
    once_with_metadata 90
      (codes "t3")
      false
      (codes "k")
      no_metadata
      (fails (codes "no"))
      []
      (Idempotency.run late_worker first_call.row)
      (Idempotency.run late_worker (Idempotency.run late_worker first_call.row))
    ≡ Once.done_again ok_result
once_again_example =
    Once.once_again 50 90 (codes "t1") (codes "t3") false false (codes "k") no_metadata no_metadata
      ok_result (fails (codes "no")) late_worker late_worker late_worker [] none none key_given
      no_metadata-paired no_metadata-paired refl refl late_worker-Foreign called_first

abbrev memory_event : Memory.MemoryEvent
memory_event = record {
  id = 1;
  status = Memory.unset;
  attempts = 0;
  available_at = 40;
  locked_until = none;
  lock_owner = [];
  claim_token = [];
  last_error = [];
}

-- The second event is not due, and the first one is given back as failed.
memory_event_fails :
    Memory.mark_failed 1
      (codes "k1")
      (codes "no")
      (Memory.claim_due 50
        (codes "a")
        dispatch_draws
        5
        (none ∷ some memory_event ∷ some (record memory_event { available_at = 60 }) ∷ [])).1
    ≡ none
      ∷ some (record memory_event { status = Memory.failed; attempts = 1; last_error = codes "no" })
      ∷ some (record memory_event { available_at = 60 })
      ∷ []
unfolding Memory.mark_failed Memory.claim_due Memory.claim_free Memory.free Memory.at_claim list_beq
    trim_space trim_left
memory_event_fails = refl
