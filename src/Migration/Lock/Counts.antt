-- ===== src/Migration/Lock/Counts.antt =====
-- The counters of Acquire and Release, app/services/runtime/migrationlock/service.go.
use goravel_mine.Base.{
  ℕ, ◌+◌, ◌≡◌, refl, sym, ap, ◌∙◌, subst, ◌⊎◌, inl, inr, Bool, true, false, Option, none, some,
  List, [], ◌∷◌, ◌++◌, arith, if◌then◌else◌, Bool-cases,
}
use goravel_mine.Base.Texts.{Text}
use goravel_mine.Base.Eq.{nat_eq, list_eq}
use goravel_mine.Migration.Keys.{valid_scope, lock_keys}
use goravel_mine.Migration.Lock.{Host, Acquired, Outcome, acquired, timed_out, errored, acquire_all}
use goravel_mine.Migration.Lock.Service.{
  Metrics, lock_wait, Service, Refusal, bad_scope, lock_timed_out, MigrationLock, Called,
  after_acquire, called_after, after_keys, after_identity, after_session, acquire, recorded,
  release,
}

-- What a call counts: a lock as acquired, a timeout as such, and any other error as a failure.
abbrev added : Refusal ⊎ MigrationLock → ℕ × ℕ × ℕ
added (inr l) = (1, 0, 0)
added (inl lock_timed_out) = (0, 1, 0)
added (inl e) = (0, 0, 1)

pub record Counted {W : Type 0} (before : Metrics) (r : Called W) : Type 0 where
  pub acquired : r.service.metrics.acquired_total ≡ before.acquired_total + (added r.result).0
  pub timeouts : r.service.metrics.timeout_total ≡ before.timeout_total + (added r.result).1
  pub failures : r.service.metrics.failure_total ≡ before.failure_total + (added r.result).2
  pub released : r.service.metrics.released_total ≡ before.released_total

-- The same for a call that ends.
unfoldable CountedBy : {W : Type 0} → Metrics → Option (Called W) → Type 0
CountedBy m none = Unit
CountedBy m (some r) = Counted m r

module _ {W : Type 0} (h : Host W) where
  called_after-CountedBy :
      (keys : List ℕ) (s : Service W) (a : Option (Acquired W))
      → CountedBy s.metrics (called_after h keys s a)
  unfolding CountedBy
  called_after-CountedBy keys s none = tt
  called_after-CountedBy keys s (some a) = of_outcome a.outcome
    where
      of_outcome :
          (o : Outcome) → Counted s.metrics (after_acquire h keys (record s { world = a.world }) o)
      of_outcome acquired = record {
        acquired = refl;
        timeouts = omega arith;
        failures = omega arith;
        released = refl;
      }
      of_outcome timed_out = record {
        acquired = omega arith;
        timeouts = refl;
        failures = omega arith;
        released = refl;
      }
      of_outcome errored = record {
        acquired = omega arith;
        timeouts = omega arith;
        failures = refl;
        released = refl;
      }

  after_keys-CountedBy :
      (interval timeout : ℕ) (s : Service W) (keys : Option (List ℕ))
      → CountedBy s.metrics (after_keys h interval timeout s keys)
  unfolding CountedBy
  after_keys-CountedBy interval timeout s none = record {
    acquired = omega arith;
    timeouts = omega arith;
    failures = refl;
    released = refl;
  }
  after_keys-CountedBy interval timeout s (some keys) =
      called_after-CountedBy keys (record s { events = s.events ++ lock_wait ∷ [] })
        (acquire_all h interval timeout keys s.world)

  after_identity-CountedBy :
      (fnv : Text → ℕ) (interval : ℕ) (scope : Text) (timeout : ℕ) (s : Service W)
      (i : Option Text × W)
      → CountedBy s.metrics (after_identity h fnv interval scope timeout s i)
  unfolding CountedBy
  after_identity-CountedBy fnv interval scope timeout s (none, w) = record {
    acquired = omega arith;
    timeouts = omega arith;
    failures = refl;
    released = refl;
  }
  after_identity-CountedBy fnv interval scope timeout s (some database, w) =
      after_keys-CountedBy interval timeout (record s { world = w }) (lock_keys fnv database scope)

  after_session-CountedBy :
      (fnv : Text → ℕ) (interval : ℕ) (scope : Text) (timeout : ℕ) (s : Service W) (b : Bool × W)
      → CountedBy s.metrics (after_session h fnv interval scope timeout s b)
  unfolding CountedBy
  after_session-CountedBy fnv interval scope timeout s (false, w) = record {
    acquired = omega arith;
    timeouts = omega arith;
    failures = refl;
    released = refl;
  }
  after_session-CountedBy fnv interval scope timeout s (true, w) =
      after_identity-CountedBy fnv interval scope timeout (record s { world = w }) (h.identity w)

  -- A call of Acquire with a valid scope is counted once: as acquired, as a timeout or as a failure.
  pub acquire-Counted :
      (fnv : Text → ℕ) (interval : ℕ) (scope : Text) (timeout : ℕ) (s : Service W) (r : Called W)
      → valid_scope scope ≡ true
      → acquire h fnv interval scope timeout s ≡ some r
      → Counted s.metrics r
  unfolding acquire CountedBy
  acquire-Counted fnv interval scope timeout s r v e =
      subst (CountedBy s.metrics)
        (sym (
            ap
              (λ b.
                if b
                then after_session h fnv interval scope timeout s (h.open_session s.world)
                else some (record { result = inl bad_scope; service = s }))
              v)
          ∙ e)
        (after_session-CountedBy fnv interval scope timeout s (h.open_session s.world))

  released-keeps :
      (l : MigrationLock) (s : Service W) → l.released ≡ true → release h l s ≡ (true, l, s)
  unfolding release
  released-keeps l s e = rw e refl

  release-marks : (l : MigrationLock) (s : Service W) → (release h l s).1.released ≡ true
  unfolding release
  release-marks l s = elim (Bool-cases l.released) [ inl e ↦ rw e refl | inr e ↦ rw e refl ]

  recorded-count :
      (b : Bool) (w : W) (s : Service W)
      → (recorded h b w s).metrics.released_total + (recorded h b w s).metrics.failure_total
        ≡ s.metrics.released_total + s.metrics.failure_total + 1
  recorded-count true w s = omega arith
  recorded-count false w s = omega arith

  release-count :
      (l : MigrationLock) (s : Service W)
      → l.released ≡ false
      → (release h l s).2.metrics.released_total + (release h l s).2.metrics.failure_total
        ≡ s.metrics.released_total + s.metrics.failure_total + 1
  unfolding release
  release-count l s e = rw e (recorded-count _ _ s)

  -- Release unlocks and is counted once: the first call counts one release or one failure, and whatever
  -- comes of it a further call changes nothing and reports success.
  pub release-once :
      (l : MigrationLock) (s : Service W)
      → l.released ≡ false
      → ((release h l s).2.metrics.released_total + (release h l s).2.metrics.failure_total
          ≡ s.metrics.released_total + s.metrics.failure_total + 1)
        × (release h (release h l s).1 (release h l s).2
            ≡ (true, (release h l s).1, (release h l s).2))
  release-once l s e =
      (release-count l s e, released-keeps (release h l s).1 (release h l s).2 (release-marks l s))
