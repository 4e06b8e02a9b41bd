-- ===== src/Tasks/Active.antt =====
-- registerScheduledTaskRun of app/services/runtime/scheduledtask/policy.go: the runs of tasks whose policy
-- is to replace the run before. A run stands by the address of its entry.
use goravel_mine.Base.{
  ℕ, ◌≡◌, sym, ap, ◌∙◌, subst, ◌⊎◌, inl, inr, true, false, Option, none, some, List, [], ◌∷◌, arith,
  if◌then◌else◌, ◌==◌, ==_iff, ==_refl, Bool-cases, All,
}
use goravel_mine.Base.Eq.{nat_eq, list_eq}
use goravel_mine.Base.Members.{member}
use goravel_mine.Base.Dict.{Dict, get, put, get-put}
use goravel_mine.Base.{Memᴰ, head, tail, by_cases, by_option}
use goravel_mine.Base.Dict.{get-put_self, remove, get-remove}

-- The map of active runs, and the runs whose context is cancelled.
pub record Active : Type 0 where
  pub entries : Dict ℕ ℕ
  pub cancelled : List ℕ

abbrev pub cancel : ℕ → Active → Active
cancel run a = record a { cancelled = run ∷ a.cancelled }

abbrev pub cancel_previous : Option ℕ → Active → Active
cancel_previous none a = a
cancel_previous (some previous) a = cancel previous a

-- registerScheduledTaskRun, for a task whose concurrency policy is to replace
unfoldable pub register : ℕ → ℕ → Active → Active
register task run a =
    let a' = cancel_previous (get a.entries task) a in
    record a' { entries = put a.entries task run }

abbrev pub unregister : ℕ → ℕ → Active → Active
unregister task run a = elim (get a.entries task) [
  | none ↦ a
  | some current ↦ if current == run then record a { entries = remove a.entries task } else a
]

-- The function that it returns, which ends the run
unfoldable pub finish : ℕ → ℕ → Active → Active
finish task run a = unregister task run (cancel run a)

pub data Event : Type 0 where
  started finished : ℕ → ℕ → Event

-- The state, and the runs that were started, each with its task.
pub record Runs : Type 0 where
  pub active : Active
  pub all : List (ℕ × ℕ)

unfoldable pub step : Event → Runs → Runs
step (started task run) r = record {
  active = register task run r.active;
  all = (task, run) ∷ r.all;
}
step (finished task run) r = record r { active = finish task run r.active }

unfoldable pub steps : List Event → Runs → Runs
steps [] r = r
steps (e ∷ events) r = steps events (step e r)

-- A run that was not cancelled is the entry of its task.
abbrev pub Current : Active → ℕ × ℕ → Type 0
Current a (task, run) = (member run a.cancelled ≡ true) ⊎ (get a.entries task ≡ some run)

cancel_previous-keeps :
    (o : Option ℕ) (a : Active) (run : ℕ)
    → member run a.cancelled ≡ true
    → member run (cancel_previous o a).cancelled ≡ true
unfolding member
cancel_previous-keeps none a run h = h
cancel_previous-keeps (some p) a run h = ground (arith, h)

cancel_previous-cancels :
    (o : Option ℕ) (a : Active) (run : ℕ)
    → o ≡ some run
    → member run (cancel_previous o a).cancelled ≡ true
unfolding member
cancel_previous-cancels none a run h = cc
cancel_previous-cancels (some p) a run h = ground (arith, h, ==_iff p run)

register-Current :
    (task run : ℕ) (a : Active) (t : ℕ × ℕ) → Current a t → Current (register task run a) t
unfolding register
register-Current task run a (u, r) (inl h) = inl (cancel_previous-keeps (get a.entries task) a r h)
register-Current task run a (u, r) (inr h) = elim (Bool-cases (task == u)) [
  | inl e ↦
      let same : task ≡ u = ground (arith, e) in
      inl (cancel_previous-cancels (get a.entries task) a r (ap (get a.entries) same ∙ h))
  | inr e ↦ inr (ground (arith, e, h, get-put a.entries task run u))
]

started-Current : (task run : ℕ) (a : Active) → Current (register task run a) (task, run)
unfolding register
started-Current task run a = inr (get-put_self a.entries task run)

cancel-keeps :
    (run : ℕ) (a : Active) (r : ℕ)
    → member r a.cancelled ≡ true
    → member r (cancel run a).cancelled ≡ true
unfolding member
cancel-keeps run a r h = ground (arith, h)

cancel-cancels : (run : ℕ) (a : Active) → member run (cancel run a).cancelled ≡ true
unfolding member
cancel-cancels run a = ground (arith, ==_refl run)

finish-Current :
    (task run : ℕ) (a : Active) (t : ℕ × ℕ) → Current a t → Current (finish task run a) t
unfolding finish
finish-Current task run a (u, r) (inl h) =
    let k = cancel-keeps run a r h in
    by_option (λ (x : Active). Current x (u, r)) (get a.entries task) (λ _. inl k)
      (λ c _. by_cases (λ (x : Active). Current x (u, r)) (c == run) (λ _. inl k) (λ _. inl k))
finish-Current task run a (u, r) (inr h) = elim (Bool-cases (r == run)) [
  | inl q ↦
      let same : run ≡ r = ground (arith, q) in
      let k = subst (λ x. member x (cancel run a).cancelled ≡ true) same (cancel-cancels run a) in
      by_option (λ (x : Active). Current x (u, r)) (get a.entries task) (λ _. inl k)
        (λ c _. by_cases (λ (x : Active). Current x (u, r)) (c == run) (λ _. inl k) (λ _. inl k))
  | inr q ↦
      by_option (λ (x : Active). Current x (u, r)) (get a.entries task) (λ _. inr h)
        (λ c e.
          by_cases (λ (x : Active). Current x (u, r)) (c == run) (λ o. inr (kept c e o q))
            (λ _. inr h))
]
  where
    kept :
        (c : ℕ)
        → get a.entries task ≡ some c
        → (c == run) ≡ true
        → (r == run) ≡ false
        → get (remove a.entries task) u ≡ some r
    kept c e o q = ground (
      arith,
      get-remove a.entries task u,
      h,
      e,
      o,
      q,
      ==_iff task u,
      ==_iff c run,
      ==_iff r run,
      ap (get a.entries) {x = task} {y = u},
    )

abbrev AllCurrent : Runs → Type 0
AllCurrent r = All (Current r.active) r.all

All-carried :
    (a b : Active) (runs : List (ℕ × ℕ))
    → ((t : ℕ × ℕ) → Current a t → Current b t)
    → All (Current a) runs
    → All (Current b) runs
All-carried a b [] f h = tt
All-carried a b (t ∷ runs) f h = (f t h.0, All-carried a b runs f h.1)

step-AllCurrent : (e : Event) (r : Runs) → AllCurrent r → AllCurrent (step e r)
unfolding step
step-AllCurrent (started task run) r h = (
  started-Current task run r.active,
  All-carried r.active _ r.all (register-Current task run r.active) h,
)
step-AllCurrent (finished task run) r h =
    All-carried r.active _ r.all (finish-Current task run r.active) h

steps-AllCurrent : (events : List Event) (r : Runs) → AllCurrent r → AllCurrent (steps events r)
unfolding steps
steps-AllCurrent [] r h = h
steps-AllCurrent (e ∷ events) r h = steps-AllCurrent events (step e r) (step-AllCurrent e r h)

abbrev pub no_runs : Runs
no_runs = record { active = record { entries = []; cancelled = [] }; all = [] }

All-at :
    (a : Active) (runs : List (ℕ × ℕ)) (t : ℕ × ℕ)
    → All (Current a) runs
    → Memᴰ t runs
    → Current a t
All-at a [] t h i = elim i [ ]
All-at a (x ∷ runs) t h (head e) = subst (Current a) (sym e) h.0
All-at a (x ∷ runs) t h (tail i) = All-at a runs t h.1 i

Current-unique :
    (a : Active) (task r s : ℕ)
    → Current a (task, r)
    → Current a (task, s)
    → member r a.cancelled ≡ false
    → member s a.cancelled ≡ false
    → r ≡ s
Current-unique a task r s (inl h) c n m = cc
Current-unique a task r s (inr h) (inl k) n m = cc
Current-unique a task r s (inr h) (inr k) n m = cc

-- Whatever runs are started and ended in whatever order, of those of a task that replace each other at most one
-- is not cancelled.
pub steps-one_run :
    (events : List Event) (task r s : ℕ)
    → Memᴰ (task, r) (steps events no_runs).all
    → Memᴰ (task, s) (steps events no_runs).all
    → member r (steps events no_runs).active.cancelled ≡ false
    → member s (steps events no_runs).active.cancelled ≡ false
    → r ≡ s
steps-one_run events task r s i j n m =
    let runs = steps events no_runs in
    let h = steps-AllCurrent events no_runs tt in
    Current-unique runs.active task r s (All-at runs.active runs.all (task, r) h i)
      (All-at runs.active runs.all (task, s) h j) n m
