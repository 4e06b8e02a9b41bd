-- ===== src/Migration/Lock/Held.antt =====
-- What a session of app/services/runtime/migrationlock/service.go holds, by the calls of acquireAll.
use goravel_mine.Base.{
  ℕ, ◌+◌, ◌≤◌, ◌<◌, ◌⊎◌, ◌≡◌, refl, ◌∙◌, ◌≢◌, inl, inr, true, List, [], ◌∷◌, arith, if◌then◌else◌,
  ◌==◌, Bool-cases,
}
use goravel_mine.Base.Eq.{nat_eq, list_eq}
use goravel_mine.Migration.Lock.{Host, Attempt, locked, busy, broken, unlock_all}

-- How often a key is in a list.
unfoldable pub times : ℕ → List ℕ → ℕ
times k [] = 0
times k (j ∷ keys) = (if j == k then 1 else 0) + times k keys

abbrev pub fault_of : Attempt → ℕ
fault_of broken = 1
fault_of _ = 0

-- The advisory locks of a session, as PostgreSQL documents them: a lock that is granted is held once more, one that is
-- refused is not taken, and one whose release is reported was held and is held once less. Of a call that returns an
-- error nothing is assumed but that it counts among the faults of the session.
pub record Advisory {W : Type 0} (h : Host W) : Type 0 where
  pub holds : W → ℕ → ℕ
  pub faults : W → ℕ
  pub granted :
      (w : W) (k j : ℕ)
      → (h.try_lock w k).0 ≡ locked
      → holds (h.try_lock w k).1 j ≡ (if k == j then 1 else 0) + holds w j
  pub not_granted :
      (w : W) (k j : ℕ) → (h.try_lock w k).0 ≡ busy → holds (h.try_lock w k).1 j ≡ holds w j
  pub returned :
      (w : W) (k j : ℕ)
      → (h.unlock w k).0 ≡ true
      → holds w j ≡ (if k == j then 1 else 0) + holds (h.unlock w k).1 j
  pub try_faults :
      (w : W) (k : ℕ) → faults (h.try_lock w k).1 ≡ fault_of (h.try_lock w k).0 + faults w
  pub unlock_faults :
      (w : W) (k : ℕ) → faults (h.unlock w k).1 ≡ (if (h.unlock w k).0 then 0 else 1) + faults w
  pub clock_keeps : (w : W) (j : ℕ) → holds (h.now w).1 j ≡ holds w j
  pub clock_faults : (w : W) → faults (h.now w).1 ≡ faults w
  pub timer_keeps : (w : W) (d j : ℕ) → holds (h.wait w d).1 j ≡ holds w j
  pub timer_faults : (w : W) (d : ℕ) → faults (h.wait w d).1 ≡ faults w

Attempt-cases : (x : Attempt) → (x ≡ locked) ⊎ ((x ≡ busy) ⊎ (x ≡ broken))
Attempt-cases locked = inl refl
Attempt-cases busy = inr (inl refl)
Attempt-cases broken = inr (inr refl)

module _ {W : Type 0} (h : Host W) (a : Advisory h) where
  -- A call returned an error, or the session holds what it should.
  abbrev pub Exact : ℕ → (ℕ → ℕ) → W → Type 0
  Exact f0 m w = (f0 < a.faults w) ⊎ ((j : ℕ) → a.holds w j ≡ m j)

  abbrev pub Track : ℕ → (ℕ → ℕ) → W → Type 0
  Track f0 m w = (f0 ≤ a.faults w) × Exact f0 m w

  -- A step of the world that changes neither the locks nor the faults.
  pub moved-Track :
      (f0 : ℕ) (m : ℕ → ℕ) (w w' : W)
      → a.faults w' ≡ a.faults w
      → ((j : ℕ) → a.holds w' j ≡ a.holds w j)
      → Track f0 m w
      → Track f0 m w'
  moved-Track f0 m w w' f e (b, inl k) = (omega (arith, f, b), inl (omega (arith, f, k)))
  moved-Track f0 m w w' f e (b, inr k) = (omega (arith, f, b), inr (λ j. e j ∙ k j))

  pub now-Track : (f0 : ℕ) (m : ℕ → ℕ) (w : W) → Track f0 m w → Track f0 m (h.now w).1
  now-Track f0 m w = moved-Track f0 m w (h.now w).1 (a.clock_faults w) (a.clock_keeps w)

  unlock-Track :
      (f0 : ℕ) (m : ℕ → ℕ) (w : W) (k : ℕ)
      → Track f0 (λ j. (if k == j then 1 else 0) + m j) w
      → Track f0 m (h.unlock w k).1
  unlock-Track f0 m w k (b, inl e) =
      let f = a.unlock_faults w k in (omega (arith, f, b), inl (omega (arith, f, e)))
  unlock-Track f0 m w k (b, inr e) = elim (Bool-cases (h.unlock w k).0) [
    | inl u ↦ (
      ground (arith, a.unlock_faults w k, b, u),
      inr (λ j. omega (arith, a.returned w k j u, e j)),
    )
    | inr u ↦
        (ground (arith, a.unlock_faults w k, b, u), inl (ground (arith, a.unlock_faults w k, b, u)))
  ]

  pub unlock_all-Track :
      (held : List ℕ) (f0 : ℕ) (before : ℕ → ℕ) (w : W)
      → Track f0 (λ j. times j held + before j) w
      → Track f0 before (unlock_all h w held)
  unfolding unlock_all times
  unlock_all-Track [] f0 before w (b, inl e) = (b, inl e)
  unlock_all-Track [] f0 before w (b, inr e) = (b, inr (λ j. omega (arith, e j)))
  unlock_all-Track (k ∷ held) f0 before w (b, e) =
      unlock_all-Track held f0 before (h.unlock w k).1
        (unlock-Track f0 (λ j. times j held + before j) w k (b, again e))
    where
      again :
          Exact f0 (λ j. times j (k ∷ held) + before j) w
          → Exact f0 (λ j. (if k == j then 1 else 0) + (times j held + before j)) w
      again (inl f) = inl f
      again (inr f) = inr (λ j. omega (arith, f j))

  -- An attempt that is not granted.
  pub refused-Track :
      (f0 : ℕ) (m : ℕ → ℕ) (w : W) (k : ℕ)
      → Track f0 m w
      → (h.try_lock w k).0 ≢ locked
      → Track f0 m (h.try_lock w k).1
  refused-Track f0 m w k (b, e) n = elim (Attempt-cases (h.try_lock w k).0) [
    | inl x ↦ absurd (n x)
    | inr (inl x) ↦
        let g : a.faults (h.try_lock w k).1 ≡ 0 + a.faults w = rw x at (a.try_faults w k) in
        let f : a.faults (h.try_lock w k).1 ≡ a.faults w = omega (arith, g) in
        moved-Track f0 m w (h.try_lock w k).1 f (λ j. a.not_granted w k j x) (b, e)
    | inr (inr x) ↦
        let f : a.faults (h.try_lock w k).1 ≡ 1 + a.faults w = rw x at (a.try_faults w k) in
        (omega (arith, f, b), inl (omega (arith, f, b)))
  ]

  pub granted-Track :
      (f0 : ℕ) (m m' : ℕ → ℕ) (w : W) (k : ℕ)
      → ((j : ℕ) → m' j ≡ (if k == j then 1 else 0) + m j)
      → (h.try_lock w k).0 ≡ locked
      → Track f0 m w
      → Track f0 m' (h.try_lock w k).1
  granted-Track f0 m m' w k q y (b, inl e) =
      let f = a.try_faults w k in (omega (arith, f, b), inl (omega (arith, f, e)))
  granted-Track f0 m m' w k q y (b, inr e) = (
    let f = a.try_faults w k in omega (arith, f, b),
    inr (λ j. omega (arith, a.granted w k j y, e j, q j)),
  )
