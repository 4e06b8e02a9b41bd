-- ===== src/Queue/Outbox/Unique.antt =====
-- The ids of the events that ClaimDue returns, app/services/runtime/queue/outbox_db.go: no two are the same where those
-- of the rows that it sees are not.
use goravel_mine.Base.{
  ℕ, zero, suc, ◌+◌, ◌≡◌, inl, inr, Bool, true, false, List, [], ◌∷◌, arith, ◌==◌, ==_iff,
  Bool-cases, select, All,
}
use goravel_mine.Base.Texts.{Text}
use goravel_mine.Base.Eq.{nat_eq, list_eq}
use goravel_mine.Base.Texts.{Text}
use goravel_mine.Base.Eq.{nat_eq, list_eq}
use goravel_mine.Queue.Outbox.{Event, claim_rows, claim, first, returning}
use goravel_mine.Queue.Outbox.Batch.{returning-All, first-All}

-- No two events with one id.
unfoldable pub Unique : List Event → Type 0
Unique [] = Unit
Unique (e ∷ events) = All (λ x. (e.id == x.id) ≡ false) events × Unique events

abbrev pub Apart : Event → List Event → Type 0
Apart e events = All (λ x. (e.id == x.id) ≡ false) events

pub Apart-same : (x e : Event) (events : List Event) → x.id ≡ e.id → Apart e events → Apart x events
Apart-same x e [] s a = tt
Apart-same x e (c ∷ events) s a =
    (ground (arith, s, a.0, ==_iff e.id c.id, ==_iff x.id c.id), Apart-same x e events s a.1)

All-select :
    (P : Event → Type 0) (p : Event → Bool) (rows : List Event) → All P rows → All P (select p rows)
unfolding select
All-select P p [] h = tt
All-select P p (r ∷ rows) h = elim (Bool-cases (p r)) [
  | inl e ↦ rw (select, e) (h.0, All-select P p rows h.1)
  | inr e ↦ rw (select, e) (All-select P p rows h.1)
]

pub select-Unique : (p : Event → Bool) (rows : List Event) → Unique rows → Unique (select p rows)
unfolding select Unique
select-Unique p [] u = tt
select-Unique p (r ∷ rows) u = elim (Bool-cases (p r)) [
  | inl e ↦ rw (select, e) (All-select _ p rows u.0, select-Unique p rows u.1)
  | inr e ↦ rw (select, e) (select-Unique p rows u.1)
]

pub first-Unique : (n : ℕ) (rows : List Event) → Unique rows → Unique (first n rows)
unfolding first Unique
first-Unique zero rows u = tt
first-Unique (suc n) [] u = tt
first-Unique (suc n) (r ∷ rows) u = (first-All _ n rows u.0, first-Unique n rows u.1)

claim-id :
    (now : ℕ) (owner token : Text) (id : ℕ) (r : Event) → (claim now owner token id r).id ≡ r.id
unfolding claim
claim-id now owner token id r = ground arith

claim_rows-Apart :
    (now : ℕ) (owner : Text) (draw : ℕ → Text) (i : ℕ) (rs rows : List Event) (e : Event)
    → Apart e rs
    → Apart e (claim_rows now owner draw i rs rows).0
unfolding claim_rows
claim_rows-Apart now owner draw i [] rows e a = tt
claim_rows-Apart now owner draw i (r ∷ rs) rows e a =
    returning-All (λ x. (e.id == x.id) ≡ false) _ (claim now owner (draw i) r.id r) _
      (rw (claim-id now owner (draw i) r.id r) a.0)
      (claim_rows-Apart now owner draw (i + 1) rs _ e a.1)

returning-Unique :
    (b : Bool) (c : Event) (x : List Event × List Event)
    → Apart c x.0
    → Unique x.0
    → Unique (returning b c x).0
unfolding Unique
returning-Unique true c (cs, rows) a u = (a, u)
returning-Unique false c (cs, rows) a u = u

pub claim_rows-Unique :
    (now : ℕ) (owner : Text) (draw : ℕ → Text) (i : ℕ) (rs rows : List Event)
    → Unique rs
    → Unique (claim_rows now owner draw i rs rows).0
unfolding claim_rows Unique
claim_rows-Unique now owner draw i [] rows u = tt
claim_rows-Unique now owner draw i (r ∷ rs) rows u =
    returning-Unique _ (claim now owner (draw i) r.id r) _
      (Apart-same (claim now owner (draw i) r.id r) r _ (claim-id now owner (draw i) r.id r)
        (claim_rows-Apart now owner draw (i + 1) rs _ r u.0))
      (claim_rows-Unique now owner draw (i + 1) rs _ u.1)
