-- ===== src/Tasks/Tests.antt =====
-- Scheduled tasks at hand.
use goravel_mine.Base.{ℕ, ◌*◌, ◌≡◌, refl, true, false, List, [], ◌∷◌}
use goravel_mine.Base.Eq.{nat_eq, list_eq}
use goravel_mine.Base.Members.{member}
use goravel_mine.Base.Dict.{get, put}
use goravel_mine.Base.{Memᴰ, head}
use goravel_mine.Queue.Retry.{second, doubled, capped}
use goravel_mine.Tasks.Delay.{delay}
use goravel_mine.Tasks.Ids.{compact_unique, unique, insert_id, sort_ids}
use goravel_mine.Tasks.Active.{
  Event, started, finished, step, steps, no_runs, register, finish, steps-one_run,
}

-- Run 11 of task 1 is replaced by run 12; task 2 has a run of its own.
abbrev history : List Event
history = started 1 11 ∷ started 2 21 ∷ started 1 12 ∷ finished 1 11 ∷ []

run_listed : Memᴰ (1, 12) (steps history no_runs).all
unfolding steps step
run_listed = head refl

run_live : member 12 (steps history no_runs).active.cancelled ≡ false
unfolding steps step register finish member get put
run_live = refl

replaced_run_cancelled : member 11 (steps history no_runs).active.cancelled ≡ true
unfolding steps step register finish member get put
replaced_run_cancelled = refl

steps-one_run_example : ◌≡◌ {A = ℕ} 12 12
steps-one_run_example = steps-one_run history 1 12 12 run_listed run_listed run_live run_live

ids_compacted : compact_unique (7 ∷ 0 ∷ 3 ∷ 7 ∷ []) ≡ 3 ∷ 7 ∷ []
unfolding compact_unique unique insert_id sort_ids member
ids_compacted = refl

third_delay :
    delay (record { max_attempts = 5; initial_delay = second; max_delay = 30 * second }) 3
    ≡ 4 * second
unfolding delay doubled capped
third_delay = refl
