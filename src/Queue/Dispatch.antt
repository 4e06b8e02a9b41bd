-- ===== src/Queue/Dispatch.antt =====
-- DispatchDue of app/services/runtime/queue/outbox.go, on the store of outbox_db.go.
pub mod Settled
pub mod Outcome
use goravel_mine.Base.{ℕ, ◌+◌, Option, none, some, List, [], ◌∷◌}
use goravel_mine.Base.Texts.{Text}
use goravel_mine.Queue.Retry.{Failure}
use goravel_mine.Queue.Outbox.{Event, claim_due, mark_sent, mark_failed}

pub record DispatchResult : Type 0 where
  pub sent : ℕ
  pub failed : ℕ

abbrev pub nothing_sent : DispatchResult
nothing_sent = record { sent = 0; failed = 0 }

-- The statement that follows a dispatch, by its error.
abbrev pub mark : Option Failure → ℕ → Event → List Event → List Event
mark none now e rows = mark_sent now e.id e.claim_token rows
mark (some err) now e rows = mark_failed now e.id e.claim_token err rows

abbrev pub counted : Option Failure → DispatchResult → DispatchResult
counted none result = record result { sent = result.sent + 1 }
counted (some err) result = record result { failed = result.failed + 1 }

-- The loop over the claimed events; the i-th reading of the clock is `clock i`.
unfoldable pub dispatch_rows :
    (Event → Option Failure)
    → (ℕ → ℕ)
    → ℕ
    → DispatchResult
    → List Event
    → List Event
    → DispatchResult × List Event
dispatch_rows dispatch clock i result [] rows = (result, rows)
dispatch_rows dispatch clock i result (e ∷ events) rows =
    dispatch_rows dispatch clock (i + 1) (counted (dispatch e) result) events
      (mark (dispatch e) (clock i) e rows)

-- DispatchDue: the table that the query of ClaimDue sees, and the one that its updates meet.
unfoldable pub dispatch_due :
    (Event → Option Failure)
    → (ℕ → ℕ)
    → Text
    → ℕ
    → (ℕ → Text)
    → List Event
    → List Event
    → DispatchResult × List Event
dispatch_due dispatch clock owner limit draw seen rows =
    let (events, claimed) = claim_due (clock 0) owner limit draw 0 seen rows in
    dispatch_rows dispatch clock 1 nothing_sent events claimed
