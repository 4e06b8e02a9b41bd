-- ===== src/Lifecycle/Store/Leases.antt =====
-- The leases of MemoryLifecycleStore, app/modulecatalog/lifecycle_memory_store.go.
use goravel_mine.Base.{
  ℕ, ◌<◌, ◌≡◌, sym, ap, ◌∙◌, ◌⊎◌, inl, inr, true, false, not, ◌||◌, Option, none, some, List, [],
  ◌∷◌, arith, ltb, if◌then◌else◌, lt→ltb, Bool-cases, All,
}
use goravel_mine.Base.Texts.{Text, trim_space}
use goravel_mine.Base.Eq.{nat_eq, list_eq, list_beq, list_beq_iff}
use goravel_mine.Base.Dict.{get, put, get-put}
use goravel_mine.Base.{by_cases, by_option}
use goravel_mine.Base.Dict.{get-remove}
use goravel_mine.Lifecycle.Store.{
  Lock, Store, LockError, new_lock, renewed, holder, acquire, is_own, renew, release,
}

pub data LockOp : Type 0 where
  try_acquire : Text → Text → Text → ℕ → LockOp
  try_renew : Lock → ℕ → LockOp
  try_release : Lock → LockOp

unfoldable pub apply : ℕ → LockOp → Store → Store
apply now (try_acquire key owner run_key ttl) s = (acquire key owner run_key ttl now s).1
apply now (try_renew lock ttl) s = (renew lock ttl now s).1
apply now (try_release lock) s = release lock s

unfoldable pub apply_all : List (ℕ × LockOp) → Store → Store
apply_all [] s = s
apply_all ((now, op) ∷ ops) s = apply_all ops (apply now op s)

-- What others do before a lease is over: they do not renew or release under its owner and run.
abbrev pub Foreign : Lock → ℕ × LockOp → Type 0
Foreign l (now, try_acquire key owner run_key ttl) = now < l.expires_at
Foreign l (now, try_renew lock ttl) = is_own l lock ≡ false
Foreign l (now, try_release lock) = is_own l lock ≡ false

abbrev Has : Lock → Store → Type 0
Has l s = get s.locks l.key ≡ some l

abbrev valid_at : ℕ → Lock → Option Lock
valid_at now l = if ltb now l.expires_at then some l else none

-- A key that a lease holds has its holder.
held-holder :
    (l : Lock) (s : Store) (key : Text) (now : ℕ)
    → Has l s
    → now < l.expires_at
    → list_beq key l.key ≡ true
    → holder s.locks key now ≡ some l
unfolding holder
held-holder l s key now h t e =
    ap {A = Option Lock} (λ o. elim o [ none ↦ none | some x ↦ valid_at now x ])
      (ap (get s.locks) ((list_beq_iff key l.key).0 e) ∙ h)
    ∙ ap {B = Option Lock} (λ b. if b then some l else none) (lt→ltb now l.expires_at t)

other_key :
    (l : Lock) (s : Store) (k : Text) (v : Lock)
    → Has l s
    → list_beq k l.key ≡ false
    → get (put s.locks k v) l.key ≡ some l
other_key l s k v h n = ground (arith, get-put s.locks k v l.key, h, n)

some_eq : {x y : Lock} → ◌≡◌ {A = Option Lock} (some x) (some y) → x ≡ y
some_eq h = cc

-- The lock of the same key is the lease.
own-key :
    (l c : Lock) (s : Store) (lock : Lock)
    → Has l s
    → is_own l lock ≡ false
    → get s.locks lock.key ≡ some c
    → is_own c lock ≡ true
    → list_beq lock.key l.key ≡ false
own-key l c s lock h f e o = elim (Bool-cases (list_beq lock.key l.key)) [
  | inr n ↦ n
  | inl q ↦
      let same : l ≡ c =
        some_eq (sym h ∙ (ap (get s.locks) (sym ((list_beq_iff lock.key l.key).0 q)) ∙ e)) in
      let o' = ap (λ x. is_own x lock) same ∙ o in absurd cc
]

some-none : {x : Lock} → ◌≡◌ {A = Option Lock} (some x) none → ⊥
some-none h = cc

acquire-Has :
    (l : Lock) (s : Store) (key owner run_key : Text) (ttl now : ℕ)
    → Has l s
    → now < l.expires_at
    → Has l (acquire key owner run_key ttl now s).1
unfolding acquire
acquire-Has l s key owner run_key ttl now h t =
    by_cases (λ (o : (LockError ⊎ Lock) × Store). Has l o.1)
      (list_beq (trim_space key) [] || list_beq (trim_space owner) []) (λ _. h)
      (λ _.
        by_option (λ (o : (LockError ⊎ Lock) × Store). Has l o.1)
          (holder s.locks (trim_space key) now)
          (λ e. elim (Bool-cases (list_beq (trim_space key) l.key)) [
            | inl q ↦ absurd (some-none (sym (held-holder l s (trim_space key) now h t q) ∙ e))
            | inr n ↦
                other_key l s (trim_space key)
                  (new_lock (trim_space key) (trim_space owner) run_key ttl now) h n
          ])
          (λ x _. h))

renew-Has :
    (l : Lock) (s : Store) (lock : Lock) (ttl now : ℕ)
    → Has l s
    → is_own l lock ≡ false
    → Has l (renew lock ttl now s).1
unfolding renew
renew-Has l s lock ttl now h f =
    by_cases (λ (o : (LockError ⊎ Lock) × Store). Has l o.1) (not lock.acquired) (λ _. h)
      (λ _.
        by_option (λ (o : (LockError ⊎ Lock) × Store). Has l o.1) (get s.locks lock.key) (λ _. h)
          (λ c e.
            by_cases (λ (o : (LockError ⊎ Lock) × Store). Has l o.1) (is_own c lock)
              (λ o. other_key l s lock.key (renewed lock ttl now) h (own-key l c s lock h f e o))
              (λ _. h)))

release-Has :
    (l : Lock) (s : Store) (lock : Lock) → Has l s → is_own l lock ≡ false → Has l (release lock s)
unfolding release
release-Has l s lock h f =
    by_cases (Has l) (not lock.acquired) (λ _. h)
      (λ _.
        by_option (Has l) (get s.locks lock.key) (λ _. h)
          (λ c e.
            by_cases (Has l) (is_own c lock)
              (λ o.
                ground (arith, get-remove s.locks lock.key l.key, h, own-key l c s lock h f e o))
              (λ _. h)))

apply-Has :
    (l : Lock) (s : Store) (step : ℕ × LockOp)
    → Has l s
    → Foreign l step
    → Has l (apply step.0 step.1 s)
unfolding apply
apply-Has l s (now, try_acquire key owner run_key ttl) h f =
    acquire-Has l s key owner run_key ttl now h f
apply-Has l s (now, try_renew lock ttl) h f = renew-Has l s lock ttl now h f
apply-Has l s (now, try_release lock) h f = release-Has l s lock h f

apply_all-Has :
    (l : Lock) (ops : List (ℕ × LockOp)) (s : Store)
    → Has l s
    → All (Foreign l) ops
    → Has l (apply_all ops s)
unfolding apply_all
apply_all-Has l [] s h f = h
apply_all-Has l (op ∷ ops) s h f =
    apply_all-Has l ops (apply op.0 op.1 s) (apply-Has l s op h f.0) f.1

abbrev Answers : Lock → Store → (LockError ⊎ Lock) × Store → Type 0
Answers l s o = o ≡ (inr (record l { acquired = false }), s)

acquire-refused :
    (l : Lock) (s : Store) (key owner run_key : Text) (ttl now : ℕ)
    → Has l s
    → now < l.expires_at
    → trim_space key ≡ l.key
    → list_beq l.key [] ≡ false
    → list_beq (trim_space owner) [] ≡ false
    → acquire key owner run_key ttl now s ≡ (inr (record l { acquired = false }), s)
unfolding acquire
acquire-refused l s key owner run_key ttl now h t k n w =
    let found =
      held-holder l s (trim_space key) now h t ((list_beq_iff (trim_space key) l.key).1 k) in
    by_cases (Answers l s) (list_beq (trim_space key) [] || list_beq (trim_space owner) [])
      (λ e. absurd (ground (arith, e, w, n, ap (λ x. list_beq x []) k)))
      (λ _.
        by_option (Answers l s) (holder s.locks (trim_space key) now)
          (λ e. absurd (some-none (sym found ∙ e)))
          (λ x e.
            ap {B = (LockError ⊎ Lock) × Store}
              (λ y. (inr (record y { key = trim_space key; acquired = false }), s))
              (some_eq (sym e ∙ found))
            ∙ ap {B = (LockError ⊎ Lock) × Store}
                (λ y. (inr (record l { key = y; acquired = false }), s)) k))

-- Until a lease is over nobody else gets its key: whatever others acquire before that, and renew or release under
-- another owner or run, the lease stays, and a further call of Acquire for the key, by an owner that is given,
-- reports its holder and changes nothing.
pub lease-held :
    (l : Lock) (s : Store) (ops : List (ℕ × LockOp)) (key owner run_key : Text) (ttl now : ℕ)
    → get s.locks l.key ≡ some l
    → All (Foreign l) ops
    → now < l.expires_at
    → trim_space key ≡ l.key
    → list_beq l.key [] ≡ false
    → list_beq (trim_space owner) [] ≡ false
    → (get (apply_all ops s).locks l.key ≡ some l)
      × (acquire key owner run_key ttl now (apply_all ops s)
          ≡ (inr (record l { acquired = false }), apply_all ops s))
lease-held l s ops key owner run_key ttl now h f t k n w =
    let h' = apply_all-Has l ops s h f in
    (h', acquire-refused l (apply_all ops s) key owner run_key ttl now h' t k n w)
