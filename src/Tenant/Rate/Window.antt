-- ===== src/Tenant/Rate/Window.antt =====
-- How many calls the limiter of app/services/tenancy/tenant/rate_limiter.go lets through in a window.
use goravel_mine.Base.{
  ℕ, ◌+◌, ◌*◌, ◌≤◌, ◌≡◌, refl, sym, ap, ◌∙◌, inl, inr, Bool, true, false, not, List, [], ◌∷◌, ◌++◌,
  arith, ltb, leb, if◌then◌else◌, Bool-cases, length, select, All, length-append, All-++,
}
use goravel_mine.Base.Eq.{nat_eq, list_eq}
use goravel_mine.Base.{by_cases}
use goravel_mine.Queue.Retry.{int64_positive}
use goravel_mine.Tenant.Rate.{
  second, truncated, Bucket, cached, recent, recent_hits, Answer, allowed, quota_exceeded,
  cache_error, increment, allow,
}

-- A call: its time, whether it obtains the lock and whether the cache takes its value.
pub record Call : Type 0 where
  pub time : ℕ
  pub obtained : Bool
  pub stored : Bool

-- The bucket, and the truncated times of the calls that were let through.
pub record Seen : Type 0 where
  pub bucket : Bucket
  pub log : List ℕ

abbrev noted : Answer × Bucket → ℕ → List ℕ → Seen
noted (allowed, b) now log = record { bucket = b; log = log ++ now ∷ [] }
noted (quota_exceeded, b) now log = record { bucket = b; log = log }
noted (cache_error, b) now log = record { bucket = b; log = log }

abbrev pub call : ℕ → Call → Seen → Seen
call limit c s = noted (allow limit c.time c.obtained c.stored s.bucket) (truncated c.time) s.log

-- Calls in the order of their times.
unfoldable pub calls : ℕ → List Call → Seen → Seen
calls limit [] s = s
calls limit (c ∷ cs) s = calls limit cs (call limit c s)

-- The calls are in the order of their times, from one time to another.
unfoldable pub InOrder : ℕ → List Call → ℕ → Type 0
InOrder t [] u = t ≤ u
InOrder t (c ∷ cs) u = (t ≤ c.time) × InOrder c.time cs u

-- From a time on, the recent hits of the bucket are those of the log.
record Tracks (t : ℕ) (s : Seen) : Type 0 where
  window :
      (u : ℕ)
      → t ≤ u
      → recent_hits (truncated u) (cached u s.bucket) ≡ recent_hits (truncated u) s.log
  past : All (λ x. x ≤ t) s.log

truncated-le : (t u : ℕ) → t ≤ u → truncated t ≤ truncated u
truncated-le t u h = omega (arith, h)

-- A later window has no hit that an earlier one has not.
recent_hits-twice :
    (now soon : ℕ) (hits : List ℕ)
    → now ≤ soon
    → recent_hits soon (recent_hits now hits) ≡ recent_hits soon hits
unfolding recent_hits select
recent_hits-twice now soon [] h = refl
recent_hits-twice now soon (x ∷ hits) h = ground (arith, h, recent_hits-twice now soon hits h)

recent_hits-++ :
    (now : ℕ) (xs ys : List ℕ)
    → recent_hits now (xs ++ ys) ≡ recent_hits now xs ++ recent_hits now ys
unfolding recent_hits select
recent_hits-++ now [] ys = refl
recent_hits-++ now (x ∷ xs) ys = elim (Bool-cases (recent now x)) [
  | inl e ↦ rw e (ap (λ zs. x ∷ zs) (recent_hits-++ now xs ys))
  | inr e ↦ rw e (recent_hits-++ now xs ys)
]

-- Hits are not recent two minutes later.
recent_hits-past :
    (t u : ℕ) (hits : List ℕ)
    → All (λ x. x ≤ t) hits
    → t + 120 * second ≤ u
    → recent_hits (truncated u) hits ≡ []
unfolding recent_hits select
recent_hits-past t u [] h l = refl
recent_hits-past t u (x ∷ hits) h l = ground (arith, h.0, l, recent_hits-past t u hits h.1 l)

All-le : (t u : ℕ) (xs : List ℕ) → t ≤ u → All (λ x. x ≤ t) xs → All (λ x. x ≤ u) xs
All-le t u [] h a = tt
All-le t u (x ∷ xs) h a = (omega (arith, h, a.0), All-le t u xs h a.1)

later-Tracks : (t u : ℕ) (s : Seen) → t ≤ u → Tracks t s → Tracks u s
later-Tracks t u s h k = record {
  window = λ v g. k.window v (omega (arith, h, g));
  past = All-le t u s.log h k.past;
}

truncated-past : (t : ℕ) → truncated t ≤ t
truncated-past t = omega arith

-- The bucket after a call that is let through.
noted-Tracks :
    (t : ℕ) (s : Seen)
    → Tracks t s
    → Tracks t (record {
      bucket = record {
        hits = recent_hits (truncated t) (cached t s.bucket) ++ truncated t ∷ [];
        put_at = t;
      };
      log = s.log ++ truncated t ∷ [];
    })
noted-Tracks t s k =
    let past = All-++ _ s.log (truncated t ∷ []) k.past (truncated-past t, tt) in
    record {
      window = λ u h. elim (Bool-cases (ltb u (t + 120 * second))) [
        | inl e ↦ rw e (
            recent_hits-++ (truncated u) (recent_hits (truncated t) (cached t s.bucket))
              (truncated t ∷ [])
            ∙ (ap
                  (λ xs.
                    recent_hits (truncated u) xs ++ recent_hits (truncated u) (truncated t ∷ []))
                  (k.window t (omega arith))
                ∙ (ap (λ xs. xs ++ recent_hits (truncated u) (truncated t ∷ []))
                      (recent_hits-twice (truncated t) (truncated u) s.log (truncated-le t u h))
                    ∙ sym (recent_hits-++ (truncated u) s.log (truncated t ∷ [])))))
        | inr e ↦ rw e (
            recent_hits-past t u [] tt (ground (arith, e))
            ∙ sym (recent_hits-past t u (s.log ++ truncated t ∷ []) past (ground (arith, e))))
      ];
      past = past;
    }

abbrev Noted : ℕ → Seen → Answer × Bucket → Type 0
Noted t s o = Tracks t (noted o (truncated t) s.log)

-- Less hits than the limit are not more than it with one added.
no_excess :
    (limit : ℕ) (hits : List ℕ) (x : ℕ)
    → leb limit (length hits) ≡ false
    → ltb limit (length (hits ++ x ∷ [])) ≡ false
no_excess limit hits x e = ground (arith, e, length-append hits (x ∷ []))

more_is_not_less : (a b : ℕ) → leb a b ≡ true → ltb b a ≡ false
more_is_not_less a b h = ground arith

less_is_not_more : (a b : ℕ) → leb a b ≡ false → ltb b a ≡ true
less_is_not_more a b h = ground arith

increment-Noted :
    (limit t : ℕ) (stored : Bool) (s : Seen)
    → Tracks t s
    → Noted t s (increment limit t stored s.bucket)
unfolding increment
increment-Noted limit t stored s k =
    by_cases (Noted t s) (leb limit (length (recent_hits (truncated t) (cached t s.bucket))))
      (λ _. k)
      (λ e.
        by_cases (Noted t s) stored
          (λ _.
            rw (no_excess limit (recent_hits (truncated t) (cached t s.bucket)) (truncated t) e)
              (noted-Tracks t s k))
          (λ _. k))

call-Tracks :
    (limit t : ℕ) (c : Call) (s : Seen)
    → int64_positive limit ≡ true
    → t ≤ c.time
    → Tracks t s
    → Tracks c.time (call limit c s)
unfolding allow
call-Tracks limit t c s p h k =
    let k' = later-Tracks t c.time s h k in
    by_cases (Noted c.time s) (not (int64_positive limit)) (λ e. absurd cc)
      (λ _.
        by_cases (Noted c.time s) (not c.obtained) (λ _. k')
          (λ _. increment-Noted limit c.time c.stored s k'))

calls-Tracks :
    (limit t u : ℕ) (cs : List Call) (s : Seen)
    → int64_positive limit ≡ true
    → InOrder t cs u
    → Tracks t s
    → Tracks u (calls limit cs s)
unfolding calls InOrder
calls-Tracks limit t u [] s p o k = later-Tracks t u s o k
calls-Tracks limit t u (c ∷ cs) s p o k =
    calls-Tracks limit c.time u cs (call limit c s) p o.1 (call-Tracks limit t c s p o.0 k)

-- No call was seen.
abbrev pub unseen : Seen
unseen = record { bucket = record { hits = []; put_at = 0 }; log = [] }

unseen-Tracks : Tracks 0 unseen
unfolding recent_hits select
unseen-Tracks = record {
  window = λ u h.
      by_cases (λ xs. recent_hits (truncated u) xs ≡ []) (ltb u (120 * second)) (λ _. refl)
        (λ _. refl);
  past = tt;
}

increment-answer :
    (limit t : ℕ) (b : Bucket)
    → (increment limit t true b).0 ≡ (
        if ltb (length (recent_hits (truncated t) (cached t b))) limit
        then allowed
        else quota_exceeded)
unfolding increment
increment-answer limit t b =
    let hits = recent_hits (truncated t) (cached t b) in
    elim (Bool-cases (leb limit (length hits))) [
      | inl e ↦ rw (e, more_is_not_less limit (length hits) e) refl
      | inr e ↦
          rw (e, less_is_not_more limit (length hits) e, no_excess limit hits (truncated t) e) refl
    ]

-- Under a positive limit, and after any calls in the order of their times, whether a further call is let through that
-- obtains the lock and can
-- store its hit is decided by the calls let through in the window of 60 seconds before it: they have to be less
-- than the limit.
pub allow-exact :
    (limit t : ℕ) (cs : List Call)
    → int64_positive limit ≡ true
    → InOrder 0 cs t
    → (allow limit t true true (calls limit cs unseen).bucket).0 ≡ (
        if ltb (length (recent_hits (truncated t) (calls limit cs unseen).log)) limit
        then allowed
        else quota_exceeded)
unfolding allow increment
allow-exact limit t cs p o =
    let s = calls limit cs unseen in
    let w = (calls-Tracks limit 0 t cs unseen p o unseen-Tracks).window t (omega arith) in
    rw p (increment-answer limit t s.bucket)
    ∙ ap (λ xs. if ltb (length xs) limit then allowed else quota_exceeded) w
