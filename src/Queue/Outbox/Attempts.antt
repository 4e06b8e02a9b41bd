-- ===== src/Queue/Outbox/Attempts.antt =====
-- The attempts of the outbox, app/services/runtime/queue/outbox_db.go: how often a message can fail.
use goravel_mine.Base.{
  ℕ, ◌+◌, ◌≤◌, ◌<◌, ◌≡◌, refl, sym, subst, ◌⊎◌, inl, inr, Bool, true, ◌&&◌, ◌||◌, Option, none,
  some, List, [], ◌∷◌, arith, ltb, if◌then◌else◌, ltb→lt, ◌==◌, Bool-cases, &&-eq_true,
}
use goravel_mine.Base.Texts.{Text}
use goravel_mine.Base.Eq.{nat_eq, list_eq}
use goravel_mine.Queue.Retry.{Failure, should_retry, outbox_policy}
use goravel_mine.Queue.Retry.Backoff.{should_retry-attempts}
use goravel_mine.Queue.Outbox.{
  Event, Status, pending, processing, sent, failed, claimable, claim, holds_claim, mark_sent_row,
  mark_failed_row, give_back, is_processing, is_pending,
}
use goravel_mine.Queue.Outbox.Claims.{Step, claims, marks_sent, marks_failed, apply, run}

-- The attempts of a row that may still be delivered, and of one that is settled.
abbrev pub Within : Status → ℕ → Type 0
Within pending n = n < 4
Within processing n = n < 4
Within sent n = n < 4
Within failed n = n ≤ 4

open_attempts :
    (st : Status) (b : Bool) (n : ℕ)
    → (is_pending st || (is_processing st && b)) ≡ true
    → Within st n
    → n < 4
open_attempts pending b n h w = w
open_attempts processing b n h w = w
open_attempts sent b n h w = w
open_attempts failed b n h w = cc

claimable-attempts :
    (now : ℕ) (r : Event) → claimable now r ≡ true → Within r.status r.attempts → r.attempts < 4
unfolding claimable
claimable-attempts now r h w = open_attempts r.status _ r.attempts (&&-eq_true _ _ h).0 w

held-attempts :
    (id : ℕ) (k : Text) (r : Event)
    → holds_claim id k r ≡ true
    → Within r.status r.attempts
    → r.attempts < 4
unfolding holds_claim
held-attempts id k r h w =
    open_attempts r.status true r.attempts (held_open r.status _ (&&-eq_true _ _ h).1) w
  where
    held_open :
        (st : Status) (b : Bool)
        → (is_processing st && b) ≡ true
        → (is_pending st || (is_processing st && true)) ≡ true
    held_open pending b e = refl
    held_open processing b e = refl
    held_open sent b e = e
    held_open failed b e = e

claim-Within :
    (now id : ℕ) (owner token : Text) (r : Event)
    → Within r.status r.attempts
    → Within (claim now owner token id r).status (claim now owner token id r).attempts
unfolding claim
claim-Within now id owner token r w = elim (Bool-cases (r.id == id && claimable now r)) [
  | inl e ↦ rw (claim, e) (claimable-attempts now r (&&-eq_true _ _ e).1 w)
  | inr e ↦ rw (claim, e) w
]

mark_sent-Within :
    (now id : ℕ) (k : Text) (r : Event)
    → Within r.status r.attempts
    → Within (mark_sent_row now id k r).status (mark_sent_row now id k r).attempts
unfolding mark_sent_row
mark_sent-Within now id k r w = elim (Bool-cases (holds_claim id k r)) [
  | inl e ↦ rw (mark_sent_row, e) (held-attempts id k r e w)
  | inr e ↦ rw (mark_sent_row, e) w
]

lt_or_ge : (m n : ℕ) → (m < n) ⊎ (n ≤ m)
lt_or_ge m n = elim (Bool-cases (ltb m n)) [
  | inl e ↦ inl (ltb→lt m n e)
  | inr e ↦ inr (ground (arith, e))
]

none-not-some : {d : ℕ} → ¬ (none ≡ some d)
none-not-some h = cc

give_back-Within :
    (now : ℕ) (err : Failure) (delay : Option ℕ) (r : Event)
    → r.attempts < 4
    → (4 ≤ r.attempts + 1 → delay ≡ none)
    → Within (give_back now err delay r).status (give_back now err delay r).attempts
unfolding give_back
give_back-Within now err none r h last = omega (arith, h)
give_back-Within now err (some d) r h last = elim (lt_or_ge (r.attempts + 1) 4) [
  | inl lt ↦ lt
  | inr ge ↦ absurd (none-not-some (sym (last ge)))
]

mark_failed-Within :
    (now id : ℕ) (k : Text) (err : Failure) (r : Event)
    → Within r.status r.attempts
    → Within (mark_failed_row now id k err r).status (mark_failed_row now id k err r).attempts
unfolding mark_failed_row
mark_failed-Within now id k err r w = elim (Bool-cases (holds_claim id k r)) [
  | inl e ↦
      rw (mark_failed_row, e)
        (give_back-Within now err (should_retry outbox_policy (some err) (r.attempts + 1)) r
          (held-attempts id k r e w) (should_retry-attempts outbox_policy err (r.attempts + 1)))
  | inr e ↦ rw (mark_failed_row, e) w
]

apply-Within :
    (s : Step) (r : Event)
    → Within r.status r.attempts
    → Within (apply s r).status (apply s r).attempts
unfolding apply
apply-Within (claims now owner k id) r w = claim-Within now id owner k r w
apply-Within (marks_sent now id k) r w = mark_sent-Within now id k r w
apply-Within (marks_failed now id k err) r w = mark_failed-Within now id k err r w

run-Within :
    (steps : List Step) (r : Event)
    → Within r.status r.attempts
    → Within (run steps r).status (run steps r).attempts
unfolding run
run-Within [] r w = w
run-Within (s ∷ steps) r w = run-Within steps (apply s r) (apply-Within s r w)

-- How often a worker fails with the message: the marks that hold the claim of the row they meet.
unfoldable pub failure_of : Step → Event → ℕ
failure_of (claims now owner k id) r = 0
failure_of (marks_sent now id k) r = 0
failure_of (marks_failed now id k err) r = if holds_claim id k r then 1 else 0

unfoldable pub failures : List Step → Event → ℕ
failures [] r = 0
failures (s ∷ steps) r = failure_of s r + failures steps (apply s r)

give_back-attempts :
    (now : ℕ) (err : Failure) (delay : Option ℕ) (r : Event)
    → (give_back now err delay r).attempts ≡ r.attempts + 1
unfolding give_back
give_back-attempts now err none r = refl
give_back-attempts now err (some d) r = refl

apply-attempts : (s : Step) (r : Event) → (apply s r).attempts ≡ r.attempts + failure_of s r
unfolding apply failure_of claim mark_sent_row mark_failed_row
apply-attempts (claims now owner k id) r = elim (Bool-cases (r.id == id && claimable now r)) [
  | inl e ↦ rw (claim, e) (omega arith)
  | inr e ↦ rw (claim, e) (omega arith)
]
apply-attempts (marks_sent now id k) r = elim (Bool-cases (holds_claim id k r)) [
  | inl e ↦ rw (mark_sent_row, e) (omega arith)
  | inr e ↦ rw (mark_sent_row, e) (omega arith)
]
apply-attempts (marks_failed now id k err) r = elim (Bool-cases (holds_claim id k r)) [
  | inl e ↦
      rw (mark_failed_row, e)
        (give_back-attempts now err (should_retry outbox_policy (some err) (r.attempts + 1)) r)
  | inr e ↦ rw (mark_failed_row, e) (omega arith)
]

run-attempts :
    (steps : List Step) (r : Event) → (run steps r).attempts ≡ r.attempts + failures steps r
unfolding run failures
run-attempts [] r = omega arith
run-attempts (s ∷ steps) r = omega (arith, run-attempts steps (apply s r), apply-attempts s r)

Within-bound : (st : Status) (n : ℕ) → Within st n → n ≤ 4
Within-bound pending n w = omega (arith, w)
Within-bound processing n w = omega (arith, w)
Within-bound sent n w = omega (arith, w)
Within-bound failed n w = w

-- Under every sequence of statements the workers fail at most four times with a message that is new: the
-- column of its attempts counts the failures, and never exceeds four.
pub failures_at_most :
    (steps : List Step) (r : Event)
    → r.status ≡ pending
    → r.attempts ≡ 0
    → (failures steps r ≤ 4) × ((run steps r).attempts ≡ failures steps r)
failures_at_most steps r p a =
    let start : Within r.status r.attempts =
      subst (λ st. Within st r.attempts) (sym p) (omega (arith, a)) in
    let bound = Within-bound _ _ (run-Within steps r start) in
    (omega (arith, a, bound, run-attempts steps r), omega (arith, a, run-attempts steps r))
