-- ===== src/Tenant/Evidence/Once.antt =====
-- The evidence of a run, app/services/application/tenant.go.
use goravel_mine.Base.{
  ℕ, ◌+◌, ◌≤◌, ◌<◌, ◌≡◌, refl, sym, ap, ◌∙◌, subst, ◌≢◌, ◌⊎◌, Bool, not, ◌||◌, Option, none, some,
  List, [], ◌∷◌, ◌++◌, map, arith, leb, if◌then◌else◌, ◌==◌, ==_refl, select,
}
use goravel_mine.Base.Texts.{Text, trim_space}
use goravel_mine.Base.Eq.{nat_eq, list_eq, list_beq}
use goravel_mine.Base.{by_cases, by_option}
use goravel_mine.Tenant.Runs.{
  Status, running, Run, Evidence, Tables, RunError, at_status, transition, await_retention,
  finish_plan, first_run, create_or_get, valid_input, affected, transition_allowed,
  awaiting_evidence,
}
use goravel_mine.Tenant.Evidence.{
  EvidenceInput, evidence_of, evidence_count, invalid_evidence, attach_evidence, with_stale,
  mark_stale,
}
use goravel_mine.Tenant.Evidence.Ranks.{Op, create, move, await, finish, attach, expire, apply}

evidence_count-cons :
    (id : ℕ) (e : Evidence) (evidence : List Evidence)
    → evidence_count id (e ∷ evidence)
      ≡ (if e.run_id == id then 1 else 0) + evidence_count id evidence
unfolding evidence_count select
evidence_count-cons id e evidence = ground arith

evidence_count-snoc :
    (id : ℕ) (evidence : List Evidence) (e : Evidence)
    → evidence_count id (evidence ++ e ∷ [])
      ≡ evidence_count id evidence + (if e.run_id == id then 1 else 0)
unfolding evidence_count select
evidence_count-snoc id [] e = ground arith
evidence_count-snoc id (x ∷ evidence) e = ground (arith, evidence_count-snoc id evidence e)

with_stale-run : (now : ℕ) (e : Evidence) → (with_stale now e).run_id ≡ e.run_id
with_stale-run now e =
    by_option (λ (x : Evidence). x.run_id ≡ e.run_id) e.stale_at
      (λ _.
        by_cases (λ (x : Evidence). x.run_id ≡ e.run_id) (leb e.expires_at now) (λ _. refl)
          (λ _. refl))
      (λ t _. refl)

evidence_count-stale :
    (id now : ℕ) (evidence : List Evidence)
    → evidence_count id (map (with_stale now) evidence) ≡ evidence_count id evidence
unfolding evidence_count select
evidence_count-stale id now [] = refl
evidence_count-stale id now (e ∷ evidence) =
    evidence_count-cons id (with_stale now e) (map (with_stale now) evidence)
    ∙ (omega (
      arith,
      evidence_count-stale id now evidence,
      ap {B = ℕ} (λ i. if i == id then 1 else 0) (with_stale-run now e),
    )
        ∙ sym (evidence_count-cons id e evidence))

abbrev Keeps : ℕ → Tables → Option RunError × Tables → Type 0
Keeps id db o = evidence_count id db.evidence ≤ evidence_count id o.1.evidence

transition-Keeps :
    (id run : ℕ) (from to : Status) (message : Text) (now : ℕ) (db : Tables)
    → Keeps id db (transition run from to message now db)
unfolding transition
transition-Keeps id run from to message now db =
    by_cases (Keeps id db) ((run == 0) || not (transition_allowed from to)) (λ _. omega arith)
      (λ _. omega arith)

-- No statement takes evidence away.
apply-count :
    (id now : ℕ) (op : Op) (db : Tables)
    → evidence_count id db.evidence ≤ evidence_count id (apply now op db).evidence
unfolding apply await_retention finish_plan attach_evidence mark_stale create_or_get
apply-count id now (create input) db =
    by_cases
      (λ (o : (RunError ⊎ Run × Bool) × Tables).
        evidence_count id db.evidence ≤ evidence_count id o.1.evidence)
      (not (valid_input input)) (λ _. omega arith)
      (λ _.
        by_option
          (λ (o : (RunError ⊎ Run × Bool) × Tables).
            evidence_count id db.evidence ≤ evidence_count id o.1.evidence)
          (first_run _ db.runs) (λ _. omega arith) (λ r _. omega arith))
apply-count id now (move run from to message) db = transition-Keeps id run from to message now db
apply-count id now (await run plan) db =
    by_cases (Keeps id db) ((run == 0) || list_beq (trim_space plan) []) (λ _. omega arith)
      (λ _. omega arith)
apply-count id now (finish plan status message) db =
    by_cases (Keeps id db) (list_beq (trim_space plan) [] || _) (λ _. omega arith)
      (λ _.
        by_option (Keeps id db) (first_run _ db.runs) (λ _. omega arith)
          (λ r _.
            by_cases (Keeps id db) (r.id == 0) (λ _. omega arith)
              (λ _. transition-Keeps id r.id awaiting_evidence status message now db)))
apply-count id now (attach run input) db =
    by_cases (Keeps id db) (invalid_evidence run input) (λ _. omega arith)
      (λ _.
        by_cases (Keeps id db) (not (evidence_count run.id db.evidence == 0)) (λ _. omega arith)
          (λ _.
            by_cases (Keeps id db) (affected (at_status run.id running) db.runs == 1)
              (λ _. omega (arith, evidence_count-snoc id db.evidence (evidence_of run input)))
              (λ _. omega arith)))
apply-count id now expire db = omega (arith, evidence_count-stale id now db.evidence)

-- The tables after statements at given times.
unfoldable pub apply_all : List (ℕ × Op) → Tables → Tables
apply_all [] db = db
apply_all ((now, op) ∷ ops) db = apply_all ops (apply now op db)

apply_all-count :
    (id : ℕ) (ops : List (ℕ × Op)) (db : Tables)
    → evidence_count id db.evidence ≤ evidence_count id (apply_all ops db).evidence
unfolding apply_all
apply_all-count id [] db = omega arith
apply_all-count id ((now, op) ∷ ops) db =
    omega (arith, apply-count id now op db, apply_all-count id ops (apply now op db))

abbrev Attached : Run → Option RunError × Tables → Type 0
Attached run o = o.0 ≡ none → 0 < evidence_count run.id o.1.evidence

abbrev Refused : Option RunError × Tables → Type 0
Refused o = o.0 ≢ none

some-none : {e : RunError} → ◌≡◌ {A = Option RunError} (some e) none → ⊥
some-none h = cc

-- Evidence that is attached is counted.
attached-count :
    (run : Run) (input : EvidenceInput) (now : ℕ) (db : Tables)
    → (attach_evidence run input now db).0 ≡ none
    → 0 < evidence_count run.id (attach_evidence run input now db).1.evidence
unfolding attach_evidence
attached-count run input now db h =
    by_cases (Attached run) (invalid_evidence run input) (λ _ q. absurd (some-none q))
      (λ _.
        by_cases (Attached run) (not (evidence_count run.id db.evidence == 0))
          (λ _ q. absurd (some-none q))
          (λ _.
            by_cases (Attached run) (affected (at_status run.id running) db.runs == 1)
              (λ _ q. ground (
                arith,
                evidence_count-snoc run.id db.evidence (evidence_of run input),
                ==_refl run.id,
              ))
              (λ _ q. absurd (some-none q))))
      h

refused-again :
    (run : Run) (input : EvidenceInput) (now : ℕ) (db : Tables)
    → 0 < evidence_count run.id db.evidence
    → (attach_evidence run input now db).0 ≢ none
unfolding attach_evidence
refused-again run input now db c =
    by_cases Refused (invalid_evidence run input) (λ _. some-none)
      (λ _.
        by_cases Refused (not (evidence_count run.id db.evidence == 0)) (λ _. some-none)
          (λ e. absurd (ground (arith, c, e))))

-- Once evidence was attached to a run, none is attached to it again, whatever statements come between.
pub attach_evidence-once :
    (run : Run) (input : EvidenceInput) (now : ℕ) (db : Tables) (ops : List (ℕ × Op)) (again : Run)
    (other : EvidenceInput) (later : ℕ)
    → (attach_evidence run input now db).0 ≡ none
    → again.id ≡ run.id
    → (attach_evidence again other later (apply_all ops (attach_evidence run input now db).1)).0
      ≢ none
attach_evidence-once run input now db ops again other later h q =
    let db' = (attach_evidence run input now db).1 in
    refused-again again other later (apply_all ops db') (
      subst (λ i. 0 < evidence_count i (apply_all ops db').evidence) (sym q)
        (omega (arith, attached-count run input now db h, apply_all-count run.id ops db')))
