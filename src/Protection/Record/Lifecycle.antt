-- ===== src/Protection/Record/Lifecycle.antt =====
-- The life of one circuit: probes close it, a failed probe and a full window open it.
use goravel_mine.Base.{ℕ, ◌+◌, ◌<◌, ◌≡◌, refl, true, false, List, [], ◌∷◌, ◌++◌, arith, length}
use goravel_mine.Protection.Rule.{Rule}
use goravel_mine.Protection.State.{
  half_open, open_state, Circuit, open_circuit, close_circuit, new_circuit,
}
use goravel_mine.Protection.Record.{settle, after_probe}

-- `n` successful calls in a row, each at its own time and with its own duration.
unfoldable pub successes : Rule → List (ℕ × ℕ) → Circuit → Circuit
successes rule [] c = c
successes rule ((now, duration) ∷ calls) c =
    successes rule calls (settle c.state now rule duration false c)

-- A half-open circuit that has seen `c.successes` successful probes stays half-open for as long as
-- the rule asks for more, and closes, its counters and samples cleared, with the last one.
probes_counted :
    (rule : Rule) (calls : List (ℕ × ℕ)) (c : Circuit)
    → c.state ≡ half_open
    → c.successes + length calls < rule.half_open_successes
    → ((successes rule calls c).state ≡ half_open)
      × ((successes rule calls c).successes ≡ c.successes + length calls)
unfolding successes settle after_probe
probes_counted rule [] c h lt = ground arith
probes_counted rule ((now, duration) ∷ calls) c h lt =
    ground (arith, probes_counted rule calls (settle c.state now rule duration false c))

successes-snoc :
    (rule : Rule) (calls : List (ℕ × ℕ)) (now duration : ℕ) (c : Circuit)
    → successes rule (calls ++ (now, duration) ∷ []) c
      ≡ (let c' = successes rule calls c in settle c'.state now rule duration false c')
unfolding successes
successes-snoc rule [] now duration c = refl
successes-snoc rule ((t, d) ∷ calls) now duration c = successes-snoc rule calls now duration _

-- A circuit that has just turned half-open closes with exactly the number of successful probes in a
-- row that its rule asks for: before the last one it is half-open, after it a new closed circuit.
pub probes_close :
    (rule : Rule) (calls : List (ℕ × ℕ)) (now duration : ℕ) (c : Circuit)
    → c.state ≡ half_open
    → c.successes ≡ 0
    → length calls + 1 ≡ rule.half_open_successes
    → ((successes rule calls c).state ≡ half_open)
      × (successes rule (calls ++ (now, duration) ∷ []) c ≡ new_circuit)
unfolding settle after_probe close_circuit
probes_close rule calls now duration c h zero_yet enough =
    let (still, counted) = probes_counted rule calls c h (omega arith) in
    (
      still,
      rw (successes-snoc rule calls now duration c) (rw (still, settle) (ground (arith, counted))),
    )

-- One failed probe opens the circuit again, whatever the rule counts, and clears the probes.
pub failed_probe_opens :
    (rule : Rule) (now duration : ℕ) (c : Circuit)
    → c.state ≡ half_open
    → settle c.state now rule duration true c
      ≡ record c { state = open_state; opened_at = now; in_flight = 0; successes = 0 }
unfolding settle after_probe open_circuit
failed_probe_opens rule now duration c h = rw h refl
