-- ===== src/Queue/Dispatch/Outcome.antt =====
-- What comes of the events of a round of DispatchDue, app/services/runtime/queue/outbox.go, one by one.
use goravel_mine.Base.{
  ℕ, ◌+◌, ◌≡◌, refl, sym, ap, ◌∙◌, subst, Bool, true, false, not, Option, none, some, List, [], ◌∷◌,
  map, arith, if◌then◌else◌, ◌==◌, ==_iff, ==_refl, length, select, All, Memᴰ,
}
use goravel_mine.Base.Texts.{Text}
use goravel_mine.Base.Eq.{nat_eq, list_eq, list_self}
use goravel_mine.Base.Texts.{Text}
use goravel_mine.Base.Eq.{nat_eq, list_eq, list_self}
use goravel_mine.Queue.Retry.{Failure, should_retry, outbox_policy}
use goravel_mine.Queue.Outbox.{
  Event, Status, pending, sent, failed, claim_due, claimable, due, select_due, owner_name,
  mark_sent_row, mark_failed_row, holds_claim, give_back,
}
use goravel_mine.Queue.Outbox.Claims.{unheld_sent, unheld_failed}
use goravel_mine.Queue.Outbox.Batch.{
  Claimed, claim_rows-Claimed, map-Memᴰ, first-All, select-claimable,
}
use goravel_mine.Queue.Dispatch.{
  DispatchResult, nothing_sent, mark, counted, dispatch_rows, dispatch_due,
}
use goravel_mine.Queue.Dispatch.Settled.{
  Token, Tokens, Settled, mark_row, mark-rows, dispatch_rows-Settled, Claimed-Tokens,
}
use goravel_mine.Queue.Outbox.Unique.{
  Unique, Apart, Apart-same, select-Unique, first-Unique, claim_rows-Unique,
}

abbrev pub after_failure : Option ℕ → Status
after_failure none = failed
after_failure (some delay) = pending

-- What a row says after the dispatch of its event: without an error that it was sent; with one the error, and that
-- it waits for another attempt or has failed for good, by the attempts that it counts.
abbrev pub Says : Option Failure → Event → Type 0
Says none row = (row.status ≡ sent) × (row.last_error ≡ none)
Says (some err) row =
    (row.status ≡ after_failure (should_retry outbox_policy (some err) row.attempts))
    × (row.last_error ≡ some err.message)

-- The table has a row of the event that says what came of it.
pub record Delivered (o : Option Failure) (rows : List Event) (e : Event) : Type 0 where
  pub row : Event
  pub listed : Memᴰ row rows
  pub same_id : row.id ≡ e.id
  pub says : Says o row

record Held (rows : List Event) (e : Event) : Type 0 where
  row : Event
  listed : Memᴰ row rows
  same_id : row.id ≡ e.id
  held : holds_claim e.id e.claim_token row ≡ true

give_back-Says :
    (now : ℕ) (err : Failure) (o : Option ℕ) (r : Event)
    → should_retry outbox_policy (some err) (r.attempts + 1) ≡ o
    → Says (some err) (give_back now err o r) × ((give_back now err o r).id ≡ r.id)
unfolding give_back
give_back-Says now err none r h = ((sym (ap after_failure h), refl), refl)
give_back-Says now err (some d) r h = ((sym (ap after_failure h), refl), refl)

mark_row-Says :
    (o : Option Failure) (now id : ℕ) (k : Text) (r : Event)
    → holds_claim id k r ≡ true
    → Says o (mark_row o now id k r) × ((mark_row o now id k r).id ≡ r.id)
unfolding mark_sent_row mark_failed_row
mark_row-Says none now id k r h = rw (mark_sent_row, h) ((refl, refl), refl)
mark_row-Says (some err) now id k r h = rw (mark_failed_row, h) (give_back-Says now err _ r refl)

unheld :
    (o : Option Failure) (now id : ℕ) (k : Text) (r : Event)
    → (r.id == id) ≡ false
    → mark_row o now id k r ≡ r
unfolding holds_claim
unheld none now id k r h = unheld_sent now id k r (ground (arith, h))
unheld (some err) now id k r h = unheld_failed now id k err r (ground (arith, h))

mark-keeps :
    (o : Option Failure) (now : ℕ) (e : Event) (rows : List Event) (x : Event)
    → Token e.claim_token
    → (x.id == e.id) ≡ false
    → Memᴰ x rows
    → Memᴰ x (mark o now e rows)
mark-keeps o now e rows x t n m = rw (mark-rows o now e rows t) (
    subst (λ y. Memᴰ y (map (mark_row o now e.id e.claim_token) rows))
      (unheld o now e.id e.claim_token x n) (map-Memᴰ _ x rows m))

mark-Delivered :
    (o : Option Failure) (now : ℕ) (e : Event) (rows : List Event)
    → Token e.claim_token
    → Held rows e
    → Delivered o (mark o now e rows) e
mark-Delivered o now e rows t h =
    let f = mark_row o now e.id e.claim_token in
    let s = mark_row-Says o now e.id e.claim_token h.row h.held in
    record {
      row = f h.row;
      listed =
          subst (Memᴰ (f h.row)) (sym (mark-rows o now e rows t)) (map-Memᴰ f h.row rows h.listed);
      same_id = s.1 ∙ h.same_id;
      says = s.0;
    }

same_apart : (x e c : Event) → x.id ≡ c.id → (e.id == c.id) ≡ false → (x.id == e.id) ≡ false
same_apart x e c s n = ground (arith, s, n, ==_iff e.id c.id, ==_iff x.id e.id)

mark-Held :
    (o : Option Failure) (now : ℕ) (e : Event) (rows events : List Event)
    → Token e.claim_token
    → Apart e events
    → All (Held rows) events
    → All (Held (mark o now e rows)) events
mark-Held o now e rows [] t a h = tt
mark-Held o now e rows (c ∷ events) t a h = (
  record {
    row = h.0.row;
    listed = mark-keeps o now e rows h.0.row t (same_apart h.0.row e c h.0.same_id a.0) h.0.listed;
    same_id = h.0.same_id;
    held = h.0.held;
  },
  mark-Held o now e rows events t a.1 h.1,
)

dispatch_rows-keeps :
    (dispatch : Event → Option Failure) (clock : ℕ → ℕ) (i : ℕ) (result : DispatchResult)
    (events rows : List Event) (x : Event)
    → Tokens events
    → All (λ e. (x.id == e.id) ≡ false) events
    → Memᴰ x rows
    → Memᴰ x (dispatch_rows dispatch clock i result events rows).1
unfolding dispatch_rows
dispatch_rows-keeps dispatch clock i result [] rows x t a m = m
dispatch_rows-keeps dispatch clock i result (e ∷ events) rows x t a m =
    dispatch_rows-keeps dispatch clock (i + 1) _ events _ x t.1 a.1
      (mark-keeps (dispatch e) (clock i) e rows x t.0 a.0 m)

dispatch_rows-Delivered :
    (dispatch : Event → Option Failure) (clock : ℕ → ℕ) (i : ℕ) (result : DispatchResult)
    (events rows : List Event)
    → Tokens events
    → Unique events
    → All (Held rows) events
    → All
        (λ e. Delivered (dispatch e) (dispatch_rows dispatch clock i result events rows).1 e)
        events
unfolding dispatch_rows Unique
dispatch_rows-Delivered dispatch clock i result [] rows t u h = tt
dispatch_rows-Delivered dispatch clock i result (e ∷ events) rows t u h =
    let d = mark-Delivered (dispatch e) (clock i) e rows t.0 h.0 in
    (
      record {
        row = d.row;
        listed =
            dispatch_rows-keeps dispatch clock (i + 1) _ events _ d.row t.1
              (Apart-same d.row e events d.same_id u.0) d.listed;
        same_id = d.same_id;
        says = d.says;
      },
      dispatch_rows-Delivered dispatch clock (i + 1) _ events _ t.1 u.1
          (mark-Held (dispatch e) (clock i) e rows events t.0 u.0 h.1),
    )

abbrev pub succeeds : Option Failure → Bool
succeeds none = true
succeeds (some err) = false

counted-exact :
    (o : Option Failure) (r : DispatchResult)
    → ((counted o r).sent ≡ r.sent + (if succeeds o then 1 else 0))
      × ((counted o r).failed ≡ r.failed + (if succeeds o then 0 else 1))
counted-exact none r = (omega arith, omega arith)
counted-exact (some err) r = (omega arith, omega arith)

dispatch_rows-counts :
    (dispatch : Event → Option Failure) (clock : ℕ → ℕ) (i : ℕ) (result : DispatchResult)
    (events rows : List Event)
    → ((dispatch_rows dispatch clock i result events rows).0.sent
        ≡ result.sent + length (select (λ e. succeeds (dispatch e)) events))
      × ((dispatch_rows dispatch clock i result events rows).0.failed
          ≡ result.failed + length (select (λ e. not (succeeds (dispatch e))) events))
unfolding dispatch_rows select
dispatch_rows-counts dispatch clock i result [] rows = (omega arith, omega arith)
dispatch_rows-counts dispatch clock i result (e ∷ events) rows =
    let rest =
      dispatch_rows-counts dispatch clock (i + 1) (counted (dispatch e) result) events
        (mark (dispatch e) (clock i) e rows) in
    let c = counted-exact (dispatch e) result in
    (ground (arith, rest.0, c.0), ground (arith, rest.1, c.1))

Claimed-Held :
    (now : ℕ) (owner : Text) (draw : ℕ → Text) (rows events : List Event)
    → All (Claimed now owner draw rows) events
    → All (Held rows) events
unfolding holds_claim
Claimed-Held now owner draw rows [] h = tt
Claimed-Held now owner draw rows (e ∷ events) h = (
  record {
    row = h.0.row;
    listed = h.0.listed;
    same_id = h.0.same_id;
    held = rw (h.0.same_id, h.0.held, h.0.token, ==_refl e.id, list_self e.claim_token) refl;
  },
  Claimed-Held now owner draw rows events h.1,
)

-- What a round of DispatchDue comes to, for the events that it claimed.
pub record Dispatched (dispatch : Event → Option Failure) (events : List Event)
    (result : DispatchResult) (rows : List Event) : Type 0 where
  pub sent_exact : result.sent ≡ length (select (λ e. succeeds (dispatch e)) events)
  pub failed_exact : result.failed ≡ length (select (λ e. not (succeeds (dispatch e))) events)
  pub settled : All (Settled rows) events
  pub delivered : All (λ e. Delivered (dispatch e) rows e) events

-- Where the tokens that are drawn are not empty and have no space around them, and no two rows that the query sees
-- have one id, a round of DispatchDue with no other worker between its claims and its marks counts as sent the claimed
-- events whose dispatch returned no error, and as failed the others. After it no row holds the claim of any, and each
-- has a row that is sent without an error, or has the error of its dispatch and waits for another attempt or failed
-- for good, as the policy decides by the attempts that it counts.
pub dispatch_due-Dispatched :
    (dispatch : Event → Option Failure) (clock : ℕ → ℕ) (owner : Text) (limit : ℕ) (draw : ℕ → Text)
    (seen rows : List Event)
    → ((n : ℕ) → Token (draw n))
    → Unique seen
    → Dispatched dispatch
        (claim_due (clock 0) owner limit draw 0 seen rows).0
        (dispatch_due dispatch clock owner limit draw seen rows).0
        (dispatch_due dispatch clock owner limit draw seen rows).1
unfolding dispatch_due claim_due select_due
dispatch_due-Dispatched dispatch clock owner limit draw seen rows t u =
    let events = claim_due (clock 0) owner limit draw 0 seen rows in
    let held =
      claim_rows-Claimed (clock 0) (owner_name owner) draw 0 (select_due (clock 0) limit seen) rows
        (first-All (λ r. claimable (clock 0) r ≡ true) _ _ (select-claimable (clock 0) seen)) in
    let tokens = Claimed-Tokens (clock 0) (owner_name owner) draw events.1 events.0 t held in
    let unique =
      claim_rows-Unique (clock 0) (owner_name owner) draw 0 (select_due (clock 0) limit seen) rows
        (first-Unique _ _ (select-Unique (due (clock 0)) seen u)) in
    let counts = dispatch_rows-counts dispatch clock 1 nothing_sent events.0 events.1 in
    record {
      sent_exact = ground (arith, counts.0);
      failed_exact = ground (arith, counts.1);
      settled = dispatch_rows-Settled dispatch clock 1 nothing_sent events.0 events.1 tokens;
      delivered =
          dispatch_rows-Delivered dispatch clock 1 nothing_sent events.0 events.1 tokens unique
            (Claimed-Held (clock 0) (owner_name owner) draw events.1 events.0 held);
    }
