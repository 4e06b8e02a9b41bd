-- ===== src/Queue/Outbox/Claims.antt =====
-- Claims of the outbox, app/services/runtime/queue/outbox_db.go, over every order of the statements of
-- any number of workers. A statement changes rows one by one, so that a row is followed alone.
use goravel_mine.Base.{
  ℕ, ◌+◌, ◌<◌, ◌≡◌, refl, sym, ap, subst, ◌⊎◌, inl, inr, true, false, ◌&&◌, Option, none, some,
  List, [], ◌∷◌, arith, ◌==◌, ==_refl, Bool-cases, All,
}
use goravel_mine.Base.Texts.{Text}
use goravel_mine.Base.Eq.{nat_eq, list_eq, list_beq, list_self}
use goravel_mine.Queue.Retry.{Failure, should_retry, outbox_policy}
use goravel_mine.Queue.Outbox.{
  Event, processing, sent, failed, claimable, claim, lease, holds_claim, mark_sent_row,
  mark_failed_row, give_back,
}

-- One statement of a worker at a time, with the id and the token of its WHERE.
pub data Step : Type 0 where
  claims : ℕ → Text → Text → ℕ → Step
  marks_sent : ℕ → ℕ → Text → Step
  marks_failed : ℕ → ℕ → Text → Failure → Step

unfoldable pub apply : Step → Event → Event
apply (claims now owner token id) r = claim now owner token id r
apply (marks_sent now id token) r = mark_sent_row now id token r
apply (marks_failed now id token err) r = mark_failed_row now id token err r

unfoldable pub run : List Step → Event → Event
run [] r = r
run (s ∷ steps) r = run steps (apply s r)

-- A claim before the deadline, or a mark under another token.
abbrev pub Foreign : Text → ℕ → Step → Type 0
Foreign token until (claims now owner k id) = now < until
Foreign token until (marks_sent now id k) = list_beq token k ≡ false
Foreign token until (marks_failed now id k err) = list_beq token k ≡ false

-- No claim draws the token.
abbrev pub Undrawn : Text → Step → Type 0
Undrawn token (claims now owner k id) = list_beq k token ≡ false
Undrawn token (marks_sent now id k) = Unit
Undrawn token (marks_failed now id k err) = Unit

-- A mark that does not hold the claim changes nothing.
pub unheld_sent :
    (now id : ℕ) (k : Text) (r : Event) → holds_claim id k r ≡ false → mark_sent_row now id k r ≡ r
unfolding mark_sent_row
unheld_sent now id k r h = rw (mark_sent_row, h) refl

pub unheld_failed :
    (now id : ℕ) (k : Text) (err : Failure) (r : Event)
    → holds_claim id k r ≡ false
    → mark_failed_row now id k err r ≡ r
unfolding mark_failed_row
unheld_failed now id k err r h = rw (mark_failed_row, h) refl

other_token :
    (id : ℕ) (k : Text) (r : Event) → list_beq r.claim_token k ≡ false → holds_claim id k r ≡ false
unfolding holds_claim
other_token id k r h = ground (arith, h)

settled_unheld :
    (id : ℕ) (k : Text) (r : Event)
    → (r.status ≡ sent) ⊎ (r.status ≡ failed)
    → holds_claim id k r ≡ false
unfolding holds_claim
settled_unheld id k r (inl p) = ground (arith, p)
settled_unheld id k r (inr p) = ground (arith, p)

apply-Foreign :
    (token : Text) (until : ℕ) (s : Step) (r : Event)
    → r.status ≡ processing
    → r.claim_token ≡ token
    → r.locked_until ≡ some until
    → Foreign token until s
    → apply s r ≡ r
unfolding apply claim claimable
apply-Foreign token until (claims now owner k id) r p t l f = ground (arith, p, t, l, f)
apply-Foreign token until (marks_sent now id k) r p t l f =
    unheld_sent now id k r (other_token id k r (subst (λ x. list_beq x k ≡ false) (sym t) f))
apply-Foreign token until (marks_failed now id k err) r p t l f =
    unheld_failed now id k err r (other_token id k r (subst (λ x. list_beq x k ≡ false) (sym t) f))

apply-terminal : (s : Step) (r : Event) → (r.status ≡ sent) ⊎ (r.status ≡ failed) → apply s r ≡ r
unfolding apply claim claimable
apply-terminal (claims now owner k id) r (inl p) = ground (arith, p)
apply-terminal (claims now owner k id) r (inr p) = ground (arith, p)
apply-terminal (marks_sent now id k) r h = unheld_sent now id k r (settled_unheld id k r h)
apply-terminal (marks_failed now id k err) r h =
    unheld_failed now id k err r (settled_unheld id k r h)

-- A row that is sent, or failed for good, stays as it is under every sequence of statements.
pub run-terminal :
    (steps : List Step) (r : Event) → (r.status ≡ sent) ⊎ (r.status ≡ failed) → run steps r ≡ r
unfolding run
run-terminal [] r h = refl
run-terminal (s ∷ steps) r h = rw (run, apply-terminal s r h) (run-terminal steps r h)

-- While the lease of a claim lasts, no statement of other workers changes the row: claims until the
-- deadline find it taken, and marks under other tokens do not reach it.
pub run-Foreign :
    (token : Text) (until : ℕ) (steps : List Step) (r : Event)
    → r.status ≡ processing
    → r.claim_token ≡ token
    → r.locked_until ≡ some until
    → All (Foreign token until) steps
    → run steps r ≡ r
unfolding run
run-Foreign token until [] r p t l f = refl
run-Foreign token until (s ∷ steps) r p t l f =
    rw (run, apply-Foreign token until s r p t l f.0) (run-Foreign token until steps r p t l f.1)

pub claim-fields :
    (now : ℕ) (owner token : Text) (r : Event)
    → claimable now r ≡ true
    → claim now owner token r.id r ≡ record r {
      status = processing;
      lock_owner = owner;
      claim_token = token;
      locked_until = some (now + lease);
    }
unfolding claim
claim-fields now owner token r c = ground (arith, c)

-- A worker that claimed a row and marks it as sent under its token succeeds, whatever other workers did
-- since, if their claims came before the end of the lease and their marks carried other tokens.
pub sent_within_lease :
    (now later : ℕ) (owner token : Text) (r : Event) (steps : List Step)
    → claimable now r ≡ true
    → All (Foreign token (now + lease)) steps
    → (mark_sent_row later r.id token (run steps (claim now owner token r.id r))).status ≡ sent
unfolding mark_sent_row holds_claim
sent_within_lease now later owner token r steps c f =
    let e = claim-fields now owner token r c in
    let kept =
      run-Foreign token (now + lease) steps (claim now owner token r.id r) (ap (λ x. x.status) e)
        (ap (λ x. x.claim_token) e) (ap (λ x. x.locked_until) e) f in
    rw (kept, e, ==_refl r.id, list_self token) refl

mark_sent-token :
    (now id : ℕ) (k token : Text) (r : Event)
    → list_beq [] token ≡ false
    → list_beq r.claim_token token ≡ false
    → list_beq (mark_sent_row now id k r).claim_token token ≡ false
unfolding mark_sent_row
mark_sent-token now id k token r n h = elim (Bool-cases (holds_claim id k r)) [
  | inl e ↦ rw (mark_sent_row, e) n
  | inr e ↦ rw (mark_sent_row, e) h
]

give_back-token :
    (now : ℕ) (err : Failure) (delay : Option ℕ) (r : Event)
    → (give_back now err delay r).claim_token ≡ []
unfolding give_back
give_back-token now err none r = refl
give_back-token now err (some d) r = refl

mark_failed-token :
    (now id : ℕ) (k token : Text) (err : Failure) (r : Event)
    → list_beq [] token ≡ false
    → list_beq r.claim_token token ≡ false
    → list_beq (mark_failed_row now id k err r).claim_token token ≡ false
unfolding mark_failed_row
mark_failed-token now id k token err r n h = elim (Bool-cases (holds_claim id k r)) [
  | inl e ↦
      rw
        (
          mark_failed_row,
          e,
          give_back-token now err (should_retry outbox_policy (some err) (r.attempts + 1)) r,
        )
        n
  | inr e ↦ rw (mark_failed_row, e) h
]

claim-token :
    (now id : ℕ) (owner k token : Text) (r : Event)
    → list_beq k token ≡ false
    → list_beq r.claim_token token ≡ false
    → list_beq (claim now owner k id r).claim_token token ≡ false
unfolding claim
claim-token now id owner k token r n h = elim (Bool-cases (r.id == id && claimable now r)) [
  | inl e ↦ rw (claim, e) n
  | inr e ↦ rw (claim, e) h
]

apply-Undrawn :
    (token : Text) (s : Step) (r : Event)
    → list_beq [] token ≡ false
    → Undrawn token s
    → list_beq r.claim_token token ≡ false
    → list_beq (apply s r).claim_token token ≡ false
unfolding apply
apply-Undrawn token (claims now owner k id) r n u h = claim-token now id owner k token r u h
apply-Undrawn token (marks_sent now id k) r n u h = mark_sent-token now id k token r n h
apply-Undrawn token (marks_failed now id k err) r n u h = mark_failed-token now id k token err r n h

run-Undrawn :
    (token : Text) (steps : List Step) (r : Event)
    → list_beq [] token ≡ false
    → All (Undrawn token) steps
    → list_beq r.claim_token token ≡ false
    → list_beq (run steps r).claim_token token ≡ false
unfolding run
run-Undrawn token [] r n u h = h
run-Undrawn token (s ∷ steps) r n u h =
    run-Undrawn token steps (apply s r) n u.1 (apply-Undrawn token s r n u.0 h)

-- A worker that lost its claim cannot settle the row any more: once the row carries another token, and no
-- claim draws the lost one again, marks under the lost token change nothing, at any later time.
pub lost_claim_marks_nothing :
    (now id : ℕ) (token : Text) (err : Failure) (steps : List Step) (r : Event)
    → list_beq [] token ≡ false
    → All (Undrawn token) steps
    → list_beq r.claim_token token ≡ false
    → (mark_sent_row now id token (run steps r) ≡ run steps r)
      × (mark_failed_row now id token err (run steps r) ≡ run steps r)
lost_claim_marks_nothing now id token err steps r n u h =
    let lost = other_token id token (run steps r) (run-Undrawn token steps r n u h) in
    (unheld_sent now id token (run steps r) lost, unheld_failed now id token err (run steps r) lost)
