-- ===== src/Protection/Evaluate/Loops.antt =====
-- Rules of proof for the loops of Evaluate: an invariant of the runs that go on, and what the runs
-- that were refused satisfy.
use goravel_mine.Base.{List, [], ◌∷◌, All}
use goravel_mine.Protection.Rule.{Rule}
use goravel_mine.Protection.Evaluate.{Run, Outcome, pass, reject, each, ◌>>=◌}

abbrev pub Holds {ℓ} : (Run → Type ℓ) → (Run → Type ℓ) → Outcome → Type ℓ
Holds P Q (pass r) = P r
Holds P Q (reject x s r) = Q r

module _ {ℓ} (P Q : Run → Type ℓ) where
  pub bind-Holds :
      (o : Outcome) (g : Run → Outcome)
      → Holds P Q o
      → ((r : Run) → P r → Holds P Q (g r))
      → Holds P Q (o >>= g)
  bind-Holds (pass r) g h k = k r h
  bind-Holds (reject x s r) g h k = h

  pub each-Holds :
      (f : Rule → Run → Outcome) (rules : List Rule)
      → ((rule : Rule) (r : Run) → P r → Holds P Q (f rule r))
      → (r : Run) → P r
      → Holds P Q (each f rules r)
  unfolding each
  each-Holds f [] step r h = h
  each-Holds f (x ∷ xs) step r h =
      bind-Holds (f x r) (each f xs) (step x r h) (each-Holds f xs step)

  -- The same where the rules of the list satisfy a condition.
  pub each-All-Holds {κ} :
      (C : Rule → Type κ) (f : Rule → Run → Outcome) (rules : List Rule)
      → ((rule : Rule) (r : Run) → C rule → P r → Holds P Q (f rule r))
      → All C rules
      → (r : Run) → P r
      → Holds P Q (each f rules r)
  unfolding each
  each-All-Holds C f [] step all r h = h
  each-All-Holds C f (x ∷ xs) step all r h =
      bind-Holds (f x r) (each f xs) (step x r all.0 h) (each-All-Holds C f xs step all.1)
