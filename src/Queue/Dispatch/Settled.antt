-- ===== src/Queue/Dispatch/Settled.antt =====
-- What a round of DispatchDue leaves, app/services/runtime/queue/outbox.go.
use goravel_mine.Base.{
  ℕ, ◌+◌, ◌≡◌, refl, sym, subst, inl, inr, Bool, true, false, not, ◌&&◌, Option, none, some, List,
  [], ◌∷◌, map, arith, Bool-cases, any, All,
}
use goravel_mine.Base.Texts.{Text, trim_space}
use goravel_mine.Base.Eq.{nat_eq, list_eq, list_beq}
use goravel_mine.Base.Texts.{Text, trim_space}
use goravel_mine.Base.Eq.{nat_eq, list_eq, list_beq}
use goravel_mine.Queue.Retry.{Failure}
use goravel_mine.Queue.Outbox.{
  Event, mark_sent, mark_failed, mark_sent_row, mark_failed_row, holds_claim, give_back,
  is_processing,
}
use goravel_mine.Queue.Outbox.Batch.{Claimed}
use goravel_mine.Queue.Dispatch.{DispatchResult, mark, dispatch_rows}

-- A token that trimming leaves as it is, and that is not empty.
abbrev pub Token : Text → Type 0
Token t = (trim_space t ≡ t) × (list_beq t [] ≡ false)

-- No row holds the claim of the event.
abbrev pub Settled : List Event → Event → Type 0
Settled rows e = any (holds_claim e.id e.claim_token) rows ≡ false

-- A change of rows that ends a claim and no other.
abbrev Ends : ℕ → Text → (Event → Event) → Type 0
Ends id k f =
    (i : ℕ) (j : Text) (r : Event)
    → holds_claim i j (f r) ≡ (holds_claim i j r && not (holds_claim id k r))

closed_row :
    (b c : Bool) (r r' : Event) (i : ℕ) (j : Text)
    → is_processing r'.status ≡ false
    → b ≡ true
    → holds_claim i j r' ≡ (holds_claim i j r && not b)
unfolding holds_claim
closed_row b c r r' i j h e = ground (arith, h, e)

mark_sent_row-Ends : (now id : ℕ) (k : Text) → Ends id k (mark_sent_row now id k)
unfolding mark_sent_row
mark_sent_row-Ends now id k i j r = elim (Bool-cases (holds_claim id k r)) [
  | inl e ↦ rw (mark_sent_row, e) (closed_row true true r _ i j refl refl)
  | inr e ↦ rw (mark_sent_row, e) (ground (arith, e))
]

give_back-closed :
    (now : ℕ) (err : Failure) (o : Option ℕ) (r : Event)
    → is_processing (give_back now err o r).status ≡ false
unfolding give_back
give_back-closed now err none r = refl
give_back-closed now err (some d) r = refl

mark_failed_row-Ends :
    (now id : ℕ) (k : Text) (err : Failure) → Ends id k (mark_failed_row now id k err)
unfolding mark_failed_row
mark_failed_row-Ends now id k err i j r = elim (Bool-cases (holds_claim id k r)) [
  | inl e ↦
      rw (mark_failed_row, e) (closed_row true true r _ i j (give_back-closed now err _ r) refl)
  | inr e ↦ rw (mark_failed_row, e) (ground (arith, e))
]

Ends-own :
    (id : ℕ) (k : Text) (f : Event → Event) (rows : List Event)
    → Ends id k f
    → any (holds_claim id k) (map f rows) ≡ false
unfolding any
Ends-own id k f [] h = refl
Ends-own id k f (r ∷ rows) h = ground (arith, h id k r, Ends-own id k f rows h)

Ends-other :
    (id : ℕ) (k : Text) (f : Event → Event) (i : ℕ) (j : Text) (rows : List Event)
    → Ends id k f
    → any (holds_claim i j) rows ≡ false
    → any (holds_claim i j) (map f rows) ≡ false
unfolding any
Ends-other id k f i j [] h n = refl
Ends-other id k f i j (r ∷ rows) h n = ground (arith, n, h i j r, Ends-other id k f i j rows h)

-- The statement of a mark, at a token that it does not trim.
abbrev pub mark_row : Option Failure → ℕ → ℕ → Text → Event → Event
mark_row none now id k = mark_sent_row now id k
mark_row (some err) now id k = mark_failed_row now id k err

mark_row-Ends : (o : Option Failure) (now id : ℕ) (k : Text) → Ends id k (mark_row o now id k)
mark_row-Ends none now id k = mark_sent_row-Ends now id k
mark_row-Ends (some err) now id k = mark_failed_row-Ends now id k err

pub mark-rows :
    (o : Option Failure) (now : ℕ) (e : Event) (rows : List Event)
    → Token e.claim_token
    → mark o now e rows ≡ map (mark_row o now e.id e.claim_token) rows
unfolding mark_sent mark_failed
mark-rows none now e rows (trimmed, filled) = rw (trimmed, filled) refl
mark-rows (some err) now e rows (trimmed, filled) = rw (trimmed, filled) refl

mark-own :
    (o : Option Failure) (now : ℕ) (e : Event) (rows : List Event)
    → Token e.claim_token
    → Settled (mark o now e rows) e
mark-own o now e rows t =
    rw (mark-rows o now e rows t)
      (Ends-own e.id e.claim_token _ rows (mark_row-Ends o now e.id e.claim_token))

mark-other :
    (o : Option Failure) (now : ℕ) (e : Event) (rows : List Event) (c : Event)
    → Token e.claim_token
    → Settled rows c
    → Settled (mark o now e rows) c
mark-other o now e rows c t s = rw (mark-rows o now e rows t) (
    Ends-other e.id e.claim_token _ c.id c.claim_token rows (mark_row-Ends o now e.id e.claim_token)
      s)

abbrev pub Tokens : List Event → Type 0
Tokens = All (λ e. Token e.claim_token)

dispatch_rows-other :
    (dispatch : Event → Option Failure) (clock : ℕ → ℕ) (i : ℕ) (result : DispatchResult)
    (events rows : List Event) (c : Event)
    → Tokens events
    → Settled rows c
    → Settled (dispatch_rows dispatch clock i result events rows).1 c
unfolding dispatch_rows
dispatch_rows-other dispatch clock i result [] rows c t s = s
dispatch_rows-other dispatch clock i result (e ∷ events) rows c t s =
    dispatch_rows-other dispatch clock (i + 1) _ events _ c t.1
      (mark-other (dispatch e) (clock i) e rows c t.0 s)

pub dispatch_rows-Settled :
    (dispatch : Event → Option Failure) (clock : ℕ → ℕ) (i : ℕ) (result : DispatchResult)
    (events rows : List Event)
    → Tokens events
    → All (Settled (dispatch_rows dispatch clock i result events rows).1) events
unfolding dispatch_rows
dispatch_rows-Settled dispatch clock i result [] rows t = tt
dispatch_rows-Settled dispatch clock i result (e ∷ events) rows t = (
  dispatch_rows-other dispatch clock (i + 1) _ events _ e t.1
      (mark-own (dispatch e) (clock i) e rows t.0),
  dispatch_rows-Settled dispatch clock (i + 1) _ events _ t.1,
)

pub Claimed-Tokens :
    (now : ℕ) (owner : Text) (draw : ℕ → Text) (rows events : List Event)
    → ((n : ℕ) → Token (draw n))
    → All (Claimed now owner draw rows) events
    → Tokens events
Claimed-Tokens now owner draw rows [] t h = tt
Claimed-Tokens now owner draw rows (e ∷ events) t h =
    (subst Token (sym h.0.drawn) (t h.0.index), Claimed-Tokens now owner draw rows events t h.1)
