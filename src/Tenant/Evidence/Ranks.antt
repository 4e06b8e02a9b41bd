-- ===== src/Tenant/Evidence/Ranks.antt =====
-- The way of a run through its statuses, app/services/application/tenant.go.
use goravel_mine.Base.{
  ℕ, ◌+◌, ◌<◌, ◌≡◌, refl, ap, ◌∙◌, ◌⊎◌, inl, inr, Bool, true, not, ◌||◌, Option, none, some, List,
  [], ◌∷◌, ◌++◌, arith, if◌then◌else◌, ◌==◌, Bool-cases, &&-eq_true,
}
use goravel_mine.Base.Texts.{Text, trim_space}
use goravel_mine.Base.Eq.{nat_eq, list_eq, list_beq}
use goravel_mine.Base.{by_cases, by_option}
use goravel_mine.Tenant.Runs.{
  Status, pending, running, awaiting_evidence, artifact_written, completed, failed, stale,
  same_status, Run, Tables, RunError, transition_allowed, update_runs, at_status, moved, transition,
  awaiting, await_retention, first_run, finish_plan, NewRun, run_of, create_or_get, valid_input,
  affected,
}
use goravel_mine.Tenant.Evidence.{
  EvidenceInput, written, attach_evidence, mark_stale, invalid_evidence, evidence_count,
}

-- A statement of the repository.
pub data Op : Type 0 where
  create : NewRun → Op
  move : ℕ → Status → Status → Text → Op
  await : ℕ → Text → Op
  finish : Text → Status → Text → Op
  attach : Run → EvidenceInput → Op
  expire : Op

unfoldable pub apply : ℕ → Op → Tables → Tables
apply now (create input) db = (create_or_get input now db).1
apply now (move id from to message) db = (transition id from to message now db).1
apply now (await id plan) db = (await_retention id plan now db).1
apply now (finish plan status message) db = (finish_plan plan status message now db).1
apply now (attach run input) db = (attach_evidence run input now db).1
apply now expire db = mark_stale now db

abbrev pub rank : Status → ℕ
rank pending = 1
rank running = 2
rank awaiting_evidence = 3
rank artifact_written = 3
rank completed = 4
rank failed = 5
rank stale = 5

abbrev pub rank_of : Option Status → ℕ
rank_of none = 0
rank_of (some s) = rank s

-- The status of the row of an id.
unfoldable pub status_of : ℕ → List Run → Option Status
status_of id [] = none
status_of id (r ∷ runs) = if r.id == id then some r.status else status_of id runs

-- The status is the same, or its rank grew.
abbrev pub Forward : Option Status → Option Status → Type 0
Forward a b = (a ≡ b) ⊎ (rank_of a < rank_of b)

-- A change of rows that keeps their ids and raises their ranks.
abbrev Onward : (Run → Bool) → (Run → Run) → Type 0
Onward p f = (r : Run) → p r ≡ true → ((f r).id ≡ r.id) × (rank r.status < rank (f r).status)

one-Forward :
    (id : ℕ) (r t : Run) (a b : Option Status)
    → t.id ≡ r.id
    → Forward (some r.status) (some t.status)
    → Forward a b
    → Forward (if r.id == id then some r.status else a) (if t.id == id then some t.status else b)
one-Forward id r t a b q h g = elim (Bool-cases (r.id == id)) [
  | inl e ↦ rw (ap (λ i. i == id) q ∙ e, e) h
  | inr e ↦ rw (ap (λ i. i == id) q ∙ e, e) g
]

update_runs-Forward :
    (id : ℕ) (p : Run → Bool) (f : Run → Run) (runs : List Run)
    → Onward p f
    → Forward (status_of id runs) (status_of id (update_runs p f runs))
unfolding status_of update_runs
update_runs-Forward id p f [] o = inl refl
update_runs-Forward id p f (r ∷ runs) o = elim (Bool-cases (p r)) [
  | inl e ↦ rw e (
      one-Forward id r (f r) (status_of id runs) (status_of id (update_runs p f runs)) (o r e).0
        (inr (o r e).1) (update_runs-Forward id p f runs o))
  | inr e ↦ rw e (
      one-Forward id r r (status_of id runs) (status_of id (update_runs p f runs)) refl (inl refl)
        (update_runs-Forward id p f runs o))
]

rank-positive : (s : Status) → 0 < rank s
rank-positive s = ground arith

append-Forward :
    (id : ℕ) (runs : List Run) (r : Run)
    → Forward (status_of id runs) (status_of id (runs ++ r ∷ []))
unfolding status_of
append-Forward id [] r = elim (Bool-cases (r.id == id)) [
  | inl e ↦ inr (rw e (rank-positive r.status))
  | inr e ↦ inl (rw e refl)
]
append-Forward id (x ∷ runs) r = elim (Bool-cases (x.id == id)) [
  | inl e ↦ inl (rw e refl)
  | inr e ↦ rw e (append-Forward id runs r)
]

allowed-rank : (from to : Status) → transition_allowed from to ≡ true → rank from < rank to
unfolding transition_allowed
allowed-rank from to h = ground (arith, h)

same_status-eq : (a b : Status) → same_status a b ≡ true → a ≡ b
unfolding same_status
same_status-eq a b h = ground (arith, h)

-- The changes of the statements raise the rank.
at_status-Onward :
    (id : ℕ) (from to : Status) (q : Run → Bool) (f : Run → Run)
    → rank from < rank to
    → ((r : Run) → q r ≡ true → at_status id from r ≡ true)
    → ((r : Run) → ((f r).id ≡ r.id) × ((f r).status ≡ to))
    → Onward q f
at_status-Onward id from to q f l h g r e =
    let from_r = same_status-eq r.status from (&&-eq_true _ _ (h r e)).1 in
    ((g r).0, rank-lt (ap rank from_r) (ap rank (g r).1) l)
  where
    rank-lt : {a b c d : ℕ} → a ≡ c → b ≡ d → c < d → a < b
    rank-lt p q l = omega (arith, p, q, l)

abbrev Moves : ℕ → Tables → Option RunError × Tables → Type 0
Moves id db o = Forward (status_of id db.runs) (status_of id o.1.runs)

transition-Forward :
    (id run : ℕ) (from to : Status) (message : Text) (now : ℕ) (db : Tables)
    → Forward (status_of id db.runs) (status_of id (transition run from to message now db).1.runs)
unfolding transition
transition-Forward id run from to message now db =
    elim (Bool-cases ((run == 0) || not (transition_allowed from to))) [
      | inl e ↦ rw e (inl refl)
      | inr e ↦ rw e (
          update_runs-Forward id _ _ db.runs (
            at_status-Onward run from to (at_status run from) (moved to message now)
              (allowed-rank from to (ground (arith, e))) (λ r h. h) (λ r. (refl, refl))))
    ]

await_retention-Forward :
    (id run : ℕ) (plan : Text) (now : ℕ) (db : Tables)
    → Forward (status_of id db.runs) (status_of id (await_retention run plan now db).1.runs)
unfolding await_retention
await_retention-Forward id run plan now db =
    elim (Bool-cases ((run == 0) || list_beq (trim_space plan) [])) [
      | inl e ↦ rw e (inl refl)
      | inr e ↦ rw e (
          update_runs-Forward id _ _ db.runs (
            at_status-Onward run running awaiting_evidence _ (awaiting (trim_space plan) now)
              (omega arith) (λ r h. (&&-eq_true _ _ h).0) (λ r. (refl, refl))))
    ]

finish_plan-Forward :
    (id : ℕ) (plan : Text) (status : Status) (message : Text) (now : ℕ) (db : Tables)
    → Forward (status_of id db.runs) (status_of id (finish_plan plan status message now db).1.runs)
unfolding finish_plan
finish_plan-Forward id plan status message now db =
    by_cases (Moves id db) (list_beq (trim_space plan) [] || _) (λ _. inl refl)
      (λ _.
        by_option (Moves id db) (first_run _ db.runs) (λ _. inl refl)
          (λ r _.
            by_cases (Moves id db) (r.id == 0) (λ _. inl refl)
              (λ _. transition-Forward id r.id awaiting_evidence status message now db)))

attach_evidence-Forward :
    (id : ℕ) (run : Run) (input : EvidenceInput) (now : ℕ) (db : Tables)
    → Forward (status_of id db.runs) (status_of id (attach_evidence run input now db).1.runs)
unfolding attach_evidence
attach_evidence-Forward id run input now db =
    by_cases (Moves id db) (invalid_evidence run input) (λ _. inl refl)
      (λ _.
        by_cases (Moves id db) (not (evidence_count run.id db.evidence == 0)) (λ _. inl refl)
          (λ _.
            by_cases (Moves id db) (affected (at_status run.id running) db.runs == 1)
              (λ _. update_runs-Forward id _ _ db.runs (
                at_status-Onward run.id running artifact_written (at_status run.id running)
                  (written now) (omega arith) (λ r h. h) (λ r. (refl, refl))))
              (λ _. inl refl)))

mark_stale-Forward :
    (id now : ℕ) (db : Tables)
    → Forward (status_of id db.runs) (status_of id (mark_stale now db).runs)
unfolding mark_stale
mark_stale-Forward id now db =
    update_runs-Forward id _ _ db.runs (λ r h. (refl, stale-rank r.status (&&-eq_true _ _ h).0))
  where
    stale-rank : (s : Status) → same_status s completed ≡ true → rank s < rank stale
    stale-rank s h = ground (arith, h, same_status-eq s completed)

create-Forward :
    (id : ℕ) (input : NewRun) (now : ℕ) (db : Tables)
    → Forward (status_of id db.runs) (status_of id (create_or_get input now db).1.runs)
unfolding create_or_get
create-Forward id input now db =
    by_cases
      (λ (o : (RunError ⊎ Run × Bool) × Tables).
        Forward (status_of id db.runs) (status_of id o.1.runs))
      (not (valid_input input)) (λ _. inl refl)
      (λ _.
        by_option
          (λ (o : (RunError ⊎ Run × Bool) × Tables).
            Forward (status_of id db.runs) (status_of id o.1.runs))
          (first_run _ db.runs) (λ _. append-Forward id db.runs (run_of input (db.last_id + 1) now))
          (λ r _. inl refl))

pub apply-Forward :
    (id now : ℕ) (op : Op) (db : Tables)
    → Forward (status_of id db.runs) (status_of id (apply now op db).runs)
unfolding apply
apply-Forward id now (create input) db = create-Forward id input now db
apply-Forward id now (move run from to message) db =
    transition-Forward id run from to message now db
apply-Forward id now (await run plan) db = await_retention-Forward id run plan now db
apply-Forward id now (finish plan status message) db =
    finish_plan-Forward id plan status message now db
apply-Forward id now (attach run input) db = attach_evidence-Forward id run input now db
apply-Forward id now expire db = mark_stale-Forward id now db
