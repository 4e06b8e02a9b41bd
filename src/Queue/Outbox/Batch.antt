-- ===== src/Queue/Outbox/Batch.antt =====
-- ClaimDue of app/services/runtime/queue/outbox_db.go as a sequence of claims, and what it returns.
use goravel_mine.Base.{
  ℕ, zero, suc, ◌+◌, ◌≤◌, ◌≡◌, refl, sym, ap, ◌∙◌, subst, inl, inr, Bool, true, false, ◌&&◌, some,
  List, [], ◌∷◌, map, Memᴰ, head, tail, arith, ltb, if◌then◌else◌, ◌==◌, Bool-cases, &&-eq_true,
  length, select, any, All,
}
use goravel_mine.Base.Texts.{Text}
use goravel_mine.Base.Eq.{nat_eq, list_eq}
use goravel_mine.Queue.Outbox.{
  Event, processing, claimable, due, claim, lease, first, select_due, returning, claim_rows,
  claim_due, owner_name,
}
use goravel_mine.Queue.Outbox.Claims.{Step, claims, apply, run, claim-fields}

-- The claims of ClaimDue, in its order.
unfoldable pub claim_steps : ℕ → Text → (ℕ → Text) → ℕ → List Event → List Step
claim_steps now owner draw i [] = []
claim_steps now owner draw i (r ∷ rs) =
    claims now owner (draw i) r.id ∷ claim_steps now owner draw (i + 1) rs

map-run :
    (s : Step) (steps : List Step) (rows : List Event)
    → map (run steps) (map (apply s) rows) ≡ map (run (s ∷ steps)) rows
unfolding run
map-run s steps [] = refl
map-run s steps (r ∷ rows) = ap (λ x. run steps (apply s r) ∷ x) (map-run s steps rows)

map-id : (rows : List Event) → rows ≡ map (run []) rows
unfolding run
map-id [] = refl
map-id (r ∷ rows) = ap (λ x. r ∷ x) (map-id rows)

returning-rows : (b : Bool) (c : Event) (x : List Event × List Event) → (returning b c x).1 ≡ x.1
returning-rows true c (cs, rows) = refl
returning-rows false c (cs, rows) = refl

due-claimable : (now : ℕ) (r : Event) → due now r ≡ true → claimable now r ≡ true
unfolding due
due-claimable now r h = (&&-eq_true _ _ h).0

claim_rows-run :
    (now : ℕ) (owner : Text) (draw : ℕ → Text) (i : ℕ) (rs rows : List Event)
    → (claim_rows now owner draw i rs rows).1 ≡ map (run (claim_steps now owner draw i rs)) rows
unfolding claim_rows claim_steps claim apply
claim_rows-run now owner draw i [] rows = map-id rows
claim_rows-run now owner draw i (r ∷ rs) rows =
    (returning-rows (any (λ row. row.id == r.id && claimable now row) rows) _ _
      ∙ claim_rows-run now owner draw (i + 1) rs (map (claim now owner (draw i) r.id) rows))
    ∙ map-run (claims now owner (draw i) r.id) (claim_steps now owner draw (i + 1) rs) rows

-- An event that was returned: the table has its row, held by the worker under the event's token, which the round
-- drew, until the end of the lease.
pub record Claimed (now : ℕ) (owner : Text) (draw : ℕ → Text) (rows : List Event) (c : Event)
    : Type 0 where
  pub row : Event
  pub listed : Memᴰ row rows
  pub same_id : row.id ≡ c.id
  pub token : row.claim_token ≡ c.claim_token
  pub index : ℕ
  pub drawn : c.claim_token ≡ draw index
  pub held : row.status ≡ processing
  pub deadline : row.locked_until ≡ some (now + lease)
  pub by : row.lock_owner ≡ owner

any-found :
    (p : Event → Bool) (rows : List Event)
    → any p rows ≡ true
    → (x : Event) × Memᴰ x rows × (p x ≡ true)
unfolding any
any-found p [] h = cc
any-found p (x ∷ rows) h = elim (Bool-cases (p x)) [
  | inl e ↦ (x, head refl, e)
  | inr e ↦ let (y, m, q) = any-found p rows (ground (arith, h, e)) in (y, tail m, q)
]

pub map-Memᴰ :
    (f : Event → Event) (x : Event) (rows : List Event) → Memᴰ x rows → Memᴰ (f x) (map f rows)
map-Memᴰ f x [] m = elim m [ ]
map-Memᴰ f x (y ∷ rows) (head e) = head (ap f e)
map-Memᴰ f x (y ∷ rows) (tail m) = tail (map-Memᴰ f x rows m)

claim-changes :
    (now : ℕ) (owner token : Text) (id : ℕ) (x : Event)
    → (x.id == id && claimable now x) ≡ true
    → claim now owner token id x ≡ record x {
      status = processing;
      lock_owner = owner;
      claim_token = token;
      locked_until = some (now + lease);
    }
unfolding claim
claim-changes now owner token id x h = rw (claim, h) refl

-- A row that is held is not claimed again in the same moment.
claim-held :
    (now : ℕ) (owner token : Text) (id : ℕ) (x : Event)
    → x.status ≡ processing
    → x.locked_until ≡ some (now + lease)
    → claim now owner token id x ≡ x
unfolding claim claimable
claim-held now owner token id x p l =
    let c : claimable now x ≡ false = rw (claimable, p, l) (ground arith) in ground (arith, c)

claim_rows-keeps :
    (now : ℕ) (owner : Text) (draw : ℕ → Text) (i : ℕ) (rs rows : List Event) (x : Event)
    → x.status ≡ processing
    → x.locked_until ≡ some (now + lease)
    → Memᴰ x rows
    → Memᴰ x (claim_rows now owner draw i rs rows).1
unfolding claim_rows
claim_rows-keeps now owner draw i [] rows x p l m = m
claim_rows-keeps now owner draw i (r ∷ rs) rows x p l m =
    let f = claim now owner (draw i) r.id in
    let kept : Memᴰ x (map f rows) =
      subst (λ y. Memᴰ y (map f rows)) (claim-held now owner (draw i) r.id x p l)
        (map-Memᴰ f x rows m) in
    subst (Memᴰ x)
      (sym (returning-rows (any (λ row. row.id == r.id && claimable now row) rows) _ _))
      (claim_rows-keeps now owner draw (i + 1) rs (map f rows) x p l kept)

pub returning-All :
    (P : Event → Type 0) (b : Bool) (c : Event) (x : List Event × List Event)
    → P c
    → All P x.0
    → All P (returning b c x).0
returning-All P true c (cs, rows) h hs = (h, hs)
returning-All P false c (cs, rows) h hs = hs

returning-held :
    (P : List Event → Event → Type 0) (b : Bool) (c : Event) (x : List Event × List Event)
    → (b ≡ true → P x.1 c)
    → All (P x.1) x.0
    → All (P (returning b c x).1) (returning b c x).0
returning-held P true c (cs, rows) h hs = (h refl, hs)
returning-held P false c (cs, rows) h hs = hs

pub claim_rows-Claimed :
    (now : ℕ) (owner : Text) (draw : ℕ → Text) (i : ℕ) (rs rows : List Event)
    → All (λ r. claimable now r ≡ true) rs
    → All
        (Claimed now owner draw (claim_rows now owner draw i rs rows).1)
        (claim_rows now owner draw i rs rows).0
unfolding claim_rows
claim_rows-Claimed now owner draw i [] rows h = tt
claim_rows-Claimed now owner draw i (r ∷ rs) rows h =
    returning-held (Claimed now owner draw) (any (λ row. row.id == r.id && claimable now row) rows)
      (claim now owner (draw i) r.id r) _ (λ b. own b (any-found _ rows b))
      (claim_rows-Claimed now owner draw (i + 1) rs (map (claim now owner (draw i) r.id) rows) h.1)
  where
    own :
        any (λ row. row.id == r.id && claimable now row) rows ≡ true
        → ((x : Event) × Memᴰ x rows × ((x.id == r.id && claimable now x) ≡ true))
        → Claimed now owner draw
            (claim_rows now owner draw (i + 1) rs (map (claim now owner (draw i) r.id) rows)).1
            (claim now owner (draw i) r.id r)
    own b (x, m, q) =
        let e = claim-changes now owner (draw i) r.id x q in
        let c = claim-fields now owner (draw i) r h.0 in
        let f = claim now owner (draw i) r.id in
        let same : x.id ≡ r.id = ground (arith, q) in
        record {
          row = f x;
          listed =
              claim_rows-keeps now owner draw (i + 1) rs (map f rows) (f x) (ap (λ y. y.status) e)
                (ap (λ y. y.locked_until) e) (map-Memᴰ f x rows m);
          same_id = ap (λ y. y.id) e ∙ (same ∙ sym (ap (λ y. y.id) c));
          token = ap (λ y. y.claim_token) e ∙ sym (ap (λ y. y.claim_token) c);
          index = i;
          drawn = ap (λ y. y.claim_token) c;
          held = ap (λ y. y.status) e;
          deadline = ap (λ y. y.locked_until) e;
          by = ap (λ y. y.lock_owner) e;
        }

length-returning :
    (n : ℕ) (b : Bool) (c : Event) (x : List Event × List Event)
    → length x.0 ≤ n
    → length (returning b c x).0 ≤ suc n
length-returning n true c (cs, rows) h = omega (arith, h)
length-returning n false c (cs, rows) h = omega (arith, h)

claim_rows-length :
    (now : ℕ) (owner : Text) (draw : ℕ → Text) (i : ℕ) (rs rows : List Event)
    → length (claim_rows now owner draw i rs rows).0 ≤ length rs
unfolding claim_rows
claim_rows-length now owner draw i [] rows = omega arith
claim_rows-length now owner draw i (r ∷ rs) rows =
    length-returning (length rs) (any (λ row. row.id == r.id && claimable now row) rows) _ _
      (claim_rows-length now owner draw (i + 1) rs (map (claim now owner (draw i) r.id) rows))

length-first : (n : ℕ) (rows : List Event) → length (first n rows) ≤ n
unfolding first
length-first zero rows = omega arith
length-first (suc n) [] = omega arith
length-first (suc n) (r ∷ rows) = omega (arith, length-first n rows)

pub first-All : (P : Event → Type 0) (n : ℕ) (rows : List Event) → All P rows → All P (first n rows)
unfolding first
first-All P zero rows h = tt
first-All P (suc n) [] h = tt
first-All P (suc n) (r ∷ rows) h = (h.0, first-All P n rows h.1)

pub select-claimable :
    (now : ℕ) (rows : List Event) → All (λ r. claimable now r ≡ true) (select (due now) rows)
unfolding select due
select-claimable now [] = tt
select-claimable now (r ∷ rows) = elim (Bool-cases (due now r)) [
  | inl e ↦ rw (select, e) (due-claimable now r e, select-claimable now rows)
  | inr e ↦ rw (select, e) (select-claimable now rows)
]

-- A round of ClaimDue with a limit from 1 on, whatever other workers did between its query and its updates, returns
-- at most that many events. For each of them the table has its row, held by the worker until five minutes later under
-- the token of the event, which the round drew. The table changes by a sequence of claims and in no other way.
pub claim_due-Claimed :
    (now : ℕ) (owner : Text) (limit : ℕ) (draw : ℕ → Text) (i : ℕ) (seen rows : List Event)
    → 1 ≤ limit
    → (length (claim_due now owner limit draw i seen rows).0 ≤ limit)
      × (All
            (Claimed now (owner_name owner) draw (claim_due now owner limit draw i seen rows).1)
            (claim_due now owner limit draw i seen rows).0
          × ((claim_due now owner limit draw i seen rows).1
              ≡ map
                  (run (claim_steps now (owner_name owner) draw i (select_due now limit seen)))
                  rows))
unfolding claim_due select_due
claim_due-Claimed now owner limit draw i seen rows h =
    let limited : (if ltb limit 1 then 10 else limit) ≡ limit = ground (arith, h) in
    let count = claim_rows-length now (owner_name owner) draw i (select_due now limit seen) rows in
    let bound = length-first (if ltb limit 1 then 10 else limit) (select (due now) seen) in
    (
      omega (arith, count, bound, limited),
      (
        claim_rows-Claimed now (owner_name owner) draw i (select_due now limit seen) rows
            (first-All (λ r. claimable now r ≡ true) _ _ (select-claimable now seen)),
        claim_rows-run now (owner_name owner) draw i (select_due now limit seen) rows,
      ),
    )
