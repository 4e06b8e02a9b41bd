-- ===== src/Queue/Outbox.antt =====
-- The outbox of app/services/runtime/queue/outbox_db.go. The table queue_outbox is the list of its rows;
-- a statement changes the rows that its WHERE names.
pub mod Claims
pub mod Attempts
pub mod Batch
pub mod Unique
use goravel_mine.Base.{
  ℕ, zero, suc, ◌+◌, Bool, true, false, ◌&&◌, ◌||◌, Option, none, some, List, [], ◌∷◌, map, ltb,
  leb, if◌then◌else◌, ◌==◌, select, any,
}
use goravel_mine.Base.Texts.{Text, codes, trim_space}
use goravel_mine.Queue.Retry.{Failure, should_retry, outbox_policy}
use goravel_mine.Base.Eq.{nat_eq, list_eq, list_beq}

pub data Status : Type 0 where
  pending processing sent failed : Status

abbrev pub is_pending : Status → Bool
is_pending pending = true
is_pending _ = false

abbrev pub is_processing : Status → Bool
is_processing processing = true
is_processing _ = false

-- The columns that the statements read or write, and the message by its payload. Times are nanoseconds.
pub record Event : Type 0 where
  pub id : ℕ
  pub payload : Text
  pub status : Status
  pub attempts : ℕ
  pub available_at : Option ℕ
  pub locked_until : Option ℕ
  pub lock_owner : Text
  pub claim_token : Text
  pub last_error : Option Text
  pub published_at : Option ℕ

-- `column IS NULL OR column <= ?`, and `column <= ?`, which NULL does not satisfy
abbrev pub null_or_past : ℕ → Option ℕ → Bool
null_or_past now none = true
null_or_past now (some t) = leb t now

abbrev pub past : ℕ → Option ℕ → Bool
past now none = false
past now (some t) = leb t now

unfoldable pub claimable : ℕ → Event → Bool
claimable now r =
    (is_pending r.status || (is_processing r.status && past now r.locked_until))
    && null_or_past now r.locked_until

unfoldable pub due : ℕ → Event → Bool
due now r = claimable now r && null_or_past now r.available_at

abbrev pub lease : ℕ
lease = 300000000000

-- The update of ClaimDue at one row.
unfoldable pub claim : ℕ → Text → Text → ℕ → Event → Event
claim now owner token id r =
    if r.id == id && claimable now r
    then record r {
      status = processing;
      lock_owner = owner;
      claim_token = token;
      locked_until = some (now + lease);
    }
    else r

-- `Where("id").Where("status", processing).Where("claim_token")`
unfoldable pub holds_claim : ℕ → Text → Event → Bool
holds_claim id token r = r.id == id && (is_processing r.status && list_beq r.claim_token token)

-- The update of MarkSent at one row.
unfoldable pub mark_sent_row : ℕ → ℕ → Text → Event → Event
mark_sent_row now id token r =
    if holds_claim id token r
    then record r {
      status = sent;
      locked_until = none;
      lock_owner = [];
      claim_token = [];
      last_error = none;
      published_at = some now;
    }
    else r

-- The updates of MarkFailed with the delay of ShouldRetry.
unfoldable pub give_back : ℕ → Failure → Option ℕ → Event → Event
give_back now err none r = record r {
  status = failed;
  attempts = r.attempts + 1;
  available_at = some now;
  locked_until = none;
  lock_owner = [];
  claim_token = [];
  last_error = some err.message;
}
give_back now err (some delay) r = record r {
  status = pending;
  attempts = r.attempts + 1;
  available_at = some (now + delay);
  locked_until = none;
  lock_owner = [];
  claim_token = [];
  last_error = some err.message;
}

-- The update of MarkFailed at one row.
unfoldable pub mark_failed_row : ℕ → ℕ → Text → Failure → Event → Event
mark_failed_row now id token err r =
    if holds_claim id token r
    then give_back now err (should_retry outbox_policy (some err) (r.attempts + 1)) r
    else r

-- MarkSent and MarkFailed: nothing happens without a token. The rows of another claim stay.
unfoldable pub mark_sent : ℕ → ℕ → Text → List Event → List Event
mark_sent now id token rows =
    let t = trim_space token in if list_beq t [] then rows else map (mark_sent_row now id t) rows

unfoldable pub mark_failed : ℕ → ℕ → Text → Failure → List Event → List Event
mark_failed now id token err rows =
    let t = trim_space token in
    if list_beq t [] then rows else map (mark_failed_row now id t err) rows

-- `Limit(limit)`
unfoldable pub first : ℕ → List Event → List Event
first zero rows = []
first (suc n) [] = []
first (suc n) (r ∷ rows) = r ∷ first n rows

-- The query of ClaimDue on a table in the order of its ids.
unfoldable pub select_due : ℕ → ℕ → List Event → List Event
select_due now limit rows = first (if ltb limit 1 then 10 else limit) (select (due now) rows)

-- `if result.RowsAffected == 1 { claimed = append(claimed, row) }`
abbrev pub returning : Bool → Event → List Event × List Event → List Event × List Event
returning true c (claimed, rows) = (c ∷ claimed, rows)
returning false c (claimed, rows) = (claimed, rows)

-- The loop of ClaimDue over the selected rows, where the i-th call of randomRunToken returns `draw i`: the
-- claimed rows and the table.
unfoldable pub claim_rows :
    ℕ → Text → (ℕ → Text) → ℕ → List Event → List Event → List Event × List Event
claim_rows now owner draw i [] rows = ([], rows)
claim_rows now owner draw i (r ∷ rs) rows =
    returning (any (λ row. row.id == r.id && claimable now row) rows)
      (claim now owner (draw i) r.id r)
      (claim_rows now owner draw (i + 1) rs (map (claim now owner (draw i) r.id) rows))

abbrev pub owner_name : Text → Text
owner_name owner =
    let name = trim_space owner in if list_beq name [] then codes "queue-worker" else name

-- ClaimDue: the table that its query sees, and the one that its updates meet, which other workers may have
-- changed in between. An id is the primary key, so that an update affects one row or none.
unfoldable pub claim_due :
    ℕ → Text → ℕ → (ℕ → Text) → ℕ → List Event → List Event → List Event × List Event
claim_due now owner limit draw i seen rows =
    claim_rows now (owner_name owner) draw i (select_due now limit seen) rows
