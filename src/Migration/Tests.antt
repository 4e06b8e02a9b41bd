-- ===== src/Migration/Tests.antt =====
-- The migration lock on a database at hand, in which another session has the key 7.
use goravel_mine.Base.{
  ltb, ◌&&◌, ℕ, ◌+◌, ◌-◌, ◌≤◌, ◌≡◌, refl, inr, Bool, true, false, some, [], ◌∷◌, arith,
  if◌then◌else◌, ◌==◌, length,
}
use goravel_mine.Base.Texts.{Text, codes, trim_space}
use goravel_mine.Base.Eq.{nat_eq, list_eq, list_beq}
use goravel_mine.Base.Texts.{trim_left, trim_right, is_space, to_lower}
use goravel_mine.Migration.Keys.{
  Overlap, lock_keys, lock_keys-Overlap, sorted_keys, valid_scope, all_scope, tenants_scope,
  parse_scope,
}
use goravel_mine.Migration.Lock.{
  Host, Attempt, locked, busy, acquired, Acquired, try_keys, unlock_all, acquire_rounds,
  acquire_all,
}
use goravel_mine.Migration.Lock.Ends.{Clock, IsSome, acquire_all-IsSome}
use goravel_mine.Migration.Lock.Held.{Advisory, fault_of, times}
use goravel_mine.Migration.Lock.Rounds.{Kept, acquire_all-Kept}
use goravel_mine.Migration.Lock.Service.{
  Service, lock_wait, lock_acquired, MigrationLock, Called, acquire,
}

-- The time, and how often the session holds each key.
abbrev World : Type 0
World = ℕ × (ℕ → ℕ)

-- An attempt takes a step of time if the key is free.
abbrev attempt : Bool → World → ℕ → Attempt × World
attempt true w k = (busy, w)
attempt false w k = (locked, (w.0 + 1, λ j. (if k == j then 1 else 0) + w.1 j))

abbrev database : Host World
database = record {
  open_session = λ w. (true, w);
  identity = λ w. (some (codes "app"), w);
  try_lock = λ w k. attempt (k == 7) w k;
  unlock = λ w k. (true, (w.0, λ j. w.1 j - (if k == j then 1 else 0)));
  close = λ w. (true, (w.0, λ j. 0));
  now = λ w. (w.0, w);
  wait = λ w d. (true, (w.0 + d, w.1));
}

attempt-later : (b : Bool) (w : World) (k : ℕ) → w.0 ≤ (attempt b w k).1.0
attempt-later true w k = omega arith
attempt-later false w k = omega arith

database-Clock : Clock database
database-Clock = record {
  time = λ w. w.0;
  try_later = λ w k. attempt-later (k == 7) w k;
  unlock_later = λ w k. ground arith;
  now_from = λ w. ground arith;
  now_until = λ w. ground arith;
  wait_over = λ w d e. ground arith;
}

abbrev idle : World
idle = (10, λ j. 0)

acquire_all-IsSome_example : IsSome (acquire_all database 50 100 (3 ∷ 7 ∷ []) idle)
acquire_all-IsSome_example =
    acquire_all-IsSome database database-Clock 50 100 (3 ∷ 7 ∷ []) idle (omega arith)

abbrev taken : Acquired World
taken = record {
  outcome = acquired;
  waited = 2;
  world = (12, λ j. (if 5 == j then 1 else 0) + ((if 3 == j then 1 else 0) + 0));
}

all_taken : acquire_all database 50 100 (3 ∷ 5 ∷ []) idle ≡ some taken
unfolding acquire_all acquire_rounds try_keys
all_taken = refl

-- A session whose releases fail: it holds what it took, and the key 7 is free from the time 5 on.
pub record Session : Type 0 where
  pub time : ℕ
  pub held : ℕ → ℕ
  pub errors : ℕ

abbrev attempt_at : Bool → Session → ℕ → Attempt × Session
attempt_at true s k = (busy, s)
attempt_at false s k =
    (locked, record s { time = s.time + 1; held = λ j. (if k == j then 1 else 0) + s.held j })

abbrev failing : Host Session
failing = record {
  open_session = λ s. (true, s);
  identity = λ s. (some (codes "app"), s);
  try_lock = λ s k. attempt_at ((k == 7) && ltb s.time 5) s k;
  unlock = λ s k. (false, record s { errors = 1 + s.errors });
  close = λ s. (true, s);
  now = λ s. (s.time, s);
  wait = λ s d. (true, record s { time = s.time + d });
}

attempt_at-granted :
    (b : Bool) (s : Session) (k j : ℕ)
    → (attempt_at b s k).0 ≡ locked
    → (attempt_at b s k).1.held j ≡ (if k == j then 1 else 0) + s.held j
attempt_at-granted true s k j e = cc
attempt_at-granted false s k j e = refl

attempt_at-refused :
    (b : Bool) (s : Session) (k j : ℕ)
    → (attempt_at b s k).0 ≡ busy
    → (attempt_at b s k).1.held j ≡ s.held j
attempt_at-refused true s k j e = refl
attempt_at-refused false s k j e = cc

attempt_at-errors :
    (b : Bool) (s : Session) (k : ℕ)
    → (attempt_at b s k).1.errors ≡ fault_of (attempt_at b s k).0 + s.errors
attempt_at-errors true s k = omega arith
attempt_at-errors false s k = omega arith

no_release : {A : Type 0} → ◌≡◌ {A = Bool} false true → A
no_release e = cc

abbrev failing_locks : Advisory failing
failing_locks = record {
  holds = λ s j. s.held j;
  faults = λ s. s.errors;
  granted = λ s k j e. attempt_at-granted ((k == 7) && ltb s.time 5) s k j e;
  not_granted = λ s k j e. attempt_at-refused ((k == 7) && ltb s.time 5) s k j e;
  returned = λ s k j e. no_release e;
  try_faults = λ s k. attempt_at-errors ((k == 7) && ltb s.time 5) s k;
  unlock_faults = λ s k. refl;
  clock_keeps = λ s j. refl;
  clock_faults = λ s. refl;
  timer_keeps = λ s d j. refl;
  timer_faults = λ s d. refl;
}

abbrev new_session : Session
new_session = record { time = 0; held = λ j. 0; errors = 0 }

-- The first round takes the key 3, is refused 7, and cannot give 3 back.
abbrev taken_at_last : Acquired Session
taken_at_last = record {
  outcome = acquired;
  waited = 53;
  world = record {
    time = 53;
    held = λ j.
        (if 7 == j then 1 else 0) + ((if 3 == j then 1 else 0) + ((if 3 == j then 1 else 0) + 0));
    errors = 1;
  };
}

second_round_takes : acquire_all failing 50 100 (3 ∷ 7 ∷ []) new_session ≡ some taken_at_last
unfolding acquire_all acquire_rounds try_keys unlock_all
second_round_takes = refl

acquire_all-Kept_example :
    Kept failing failing_locks 0 (λ j. 0) (λ j. times j (3 ∷ 7 ∷ [])) acquired taken_at_last.world
acquire_all-Kept_example =
    acquire_all-Kept failing failing_locks 50 100 (3 ∷ 7 ∷ []) new_session taken_at_last
      second_round_takes

-- A hash that tells the two scopes apart.
abbrev hash : Text → ℕ
hash text = length text

abbrev fresh : Service World
fresh = record {
  world = idle;
  metrics = record { acquired_total = 0; released_total = 0; timeout_total = 0; failure_total = 0 };
  events = [];
}

both_keys : lock_keys hash (codes "app") all_scope ≡ some (34 ∷ 35 ∷ [])
unfolding lock_keys sorted_keys valid_scope list_beq trim_space trim_left trim_right is_space
both_keys = refl

tenant_keys : lock_keys hash (codes "app") tenants_scope ≡ some (34 ∷ [])
unfolding lock_keys sorted_keys valid_scope list_beq trim_space trim_left trim_right is_space
tenant_keys = refl

lock_keys-Overlap_example : Overlap (34 ∷ 35 ∷ []) (34 ∷ [])
lock_keys-Overlap_example =
    lock_keys-Overlap hash (codes "app") tenants_scope (34 ∷ 35 ∷ []) (34 ∷ []) both_keys
      tenant_keys

abbrev called : Called World
called = record {
  result = inr (record { keys = 34 ∷ []; acquired_at = 11; released = false });
  service = record {
    world = (11, λ j. (if 34 == j then 1 else 0) + 0);
    metrics = record {
      acquired_total = 1;
      released_total = 0;
      timeout_total = 0;
      failure_total = 0;
    };
    events = lock_wait ∷ lock_acquired ∷ [];
  };
}

tenants_called : acquire database hash 50 tenants_scope 100 fresh ≡ some called
unfolding acquire acquire_all acquire_rounds try_keys lock_keys sorted_keys valid_scope list_beq
    trim_space trim_left trim_right is_space
tenants_called = refl

tenants-valid : valid_scope tenants_scope ≡ true
unfolding valid_scope list_beq
tenants-valid = refl

abbrev lock : MigrationLock
lock = record { keys = 34 ∷ []; acquired_at = 11; released = false }

parses : parse_scope (codes " ALL ") ≡ some all_scope
unfolding parse_scope to_lower valid_scope list_beq trim_space trim_left trim_right is_space
parses = refl
