-- ===== src/Sso/Tokens/Fuel.antt =====
-- Progress of the tokenizer of app/services/access/sso/condition_tokenizer.go: each token takes a byte
-- at least, so that the length of the input is enough fuel.
use goravel_mine.Base.{
  ℕ, zero, suc, ◌+◌, ◌-◌, ◌≤◌, ◌<◌, ◌≡◌, refl, subst, ◌≢◌, inl, inr, Bool, true, false, Option,
  none, some, List, [], ◌∷◌, arith, if◌then◌else◌, ◌==◌, Bool-cases, Option-cases, length, All,
}
use goravel_mine.Base.Texts.{Text, codes, strip_prefix}
use goravel_mine.Base.Eq.{nat_eq, list_eq}
use goravel_mine.Sso.Tokens.{
  before, quoted_body, quoted_token, array_body, array_token, until_braces, trimmed, variable_body,
  variable_token, word_operators, symbol_operators, word_token, symbol_token, or_else,
  operator_token, is_identifier_byte, identifier, nonempty, next_token, Scan, out_of_fuel, bad,
  done, with_token, is_blank, scan,
}

-- A rest of fewer than n bytes, if there is a token.
unfoldable pub Shorter : ℕ → Option (Text × Text) → Type 0
Shorter n none = Unit
Shorter n (some (t, rest)) = length rest < n

none-Shorter : (n : ℕ) → Shorter n none
unfolding Shorter
none-Shorter n = tt

some-Shorter : (n : ℕ) (t rest : Text) → length rest < n → Shorter n (some (t, rest))
unfolding Shorter
some-Shorter n t rest h = h

before-Shorter :
    (n m : ℕ) (bytes : Text) (r : Option (Text × Text))
    → m ≤ n
    → Shorter m r
    → Shorter n (before bytes r)
unfolding Shorter
before-Shorter n m bytes none h s = tt
before-Shorter n m bytes (some (t, rest)) h s = omega (arith, h, s)

or_else-Shorter :
    (n : ℕ) (a b : Option (Text × Text)) → Shorter n a → Shorter n b → Shorter n (or_else a b)
unfolding Shorter
or_else-Shorter n none b s t = t
or_else-Shorter n (some a) b s t = s

if-Shorter :
    (n : ℕ) (c : Bool) (a b : Option (Text × Text))
    → Shorter n a
    → Shorter n b
    → Shorter n (if c then a else b)
if-Shorter n true a b s t = s
if-Shorter n false a b s t = t

length_of_Shorter : (n : ℕ) (x : Text × Text) → Shorter n (some x) → length x.1 < n
unfolding Shorter
length_of_Shorter n (t, rest) s = s

quoted_body-Shorter : (quote : ℕ) (s : Text) → Shorter (length s) (quoted_body quote s)
unfolding quoted_body
quoted_body-Shorter quote [] = (none-Shorter _)
quoted_body-Shorter quote (c ∷ []) =
    if-Shorter _ _ _ _ (none-Shorter _)
      (if-Shorter _ _ _ _ (some-Shorter _ _ _ (omega arith)) (none-Shorter _))
quoted_body-Shorter quote (c ∷ d ∷ s) =
    if-Shorter _ _ _ _
      (before-Shorter _ (length s) (c ∷ d ∷ []) _ (omega arith) (quoted_body-Shorter quote s))
      (if-Shorter _ _ _ _ (some-Shorter _ (c ∷ []) (d ∷ s) (omega arith)) (
        before-Shorter _ (length (d ∷ s)) (c ∷ []) _ (omega arith)
          (quoted_body-Shorter quote (d ∷ s))))

quoted_token-Shorter : (s : Text) → Shorter (length s) (quoted_token s)
unfolding quoted_token
quoted_token-Shorter [] = (none-Shorter _)
quoted_token-Shorter (c ∷ s) =
    if-Shorter _ _ _ _
      (before-Shorter _ (length s) (c ∷ []) _ (omega arith) (quoted_body-Shorter c s))
      (none-Shorter _)

array_step-Shorter :
    (c : ℕ) (s : Text) (last : Bool) (deeper shallower same : Option (Text × Text))
    → Shorter (length (c ∷ s)) deeper
    → Shorter (length (c ∷ s)) shallower
    → Shorter (length (c ∷ s)) same
    → Shorter (length (c ∷ s)) (
        if c == b'['
        then deeper
        else if c == b']'
        then (if last then some (c ∷ [], s) else shallower)
        else same)
array_step-Shorter c s last deeper shallower same p q r = if-Shorter _ (c == b'[') _ _ p (
    if-Shorter _ (c == b']') _ _ (if-Shorter _ last _ _ (some-Shorter _ (c ∷ []) s (omega arith)) q)
      r)

before_one-Shorter :
    (c : ℕ) (s : Text) (r : Option (Text × Text))
    → Shorter (length s) r
    → Shorter (length (c ∷ s)) (before (c ∷ []) r)
before_one-Shorter c s r h = before-Shorter _ (length s) (c ∷ []) r (omega arith) h

array_body-Shorter : (fuel depth : ℕ) (s : Text) → Shorter (length s) (array_body fuel depth s)
unfolding array_body
array_body-Shorter zero depth s = none-Shorter _
array_body-Shorter (suc fuel) depth [] = none-Shorter _
array_body-Shorter (suc fuel) depth (c ∷ s) = elim (Option-cases (quoted_token (c ∷ s))) [
  | inr (x, e) ↦
      let q =
        length_of_Shorter _ x (subst (Shorter (length (c ∷ s))) e (quoted_token-Shorter (c ∷ s))) in
      rw (array_body, e)
        (before-Shorter (length (c ∷ s)) (length x.1) x.0 _ (omega (arith, q))
          (array_body-Shorter fuel depth x.1))
  | inl e ↦
      rw (array_body, e)
        (array_step-Shorter c s (depth - 1 == 0) _ _ _
          (before_one-Shorter c s _ (array_body-Shorter fuel (depth + 1) s))
          (before_one-Shorter c s _ (array_body-Shorter fuel (depth - 1) s))
          (before_one-Shorter c s _ (array_body-Shorter fuel depth s)))
]

-- A round more than the input has bytes makes no difference.
array_body-enough :
    (fuel depth : ℕ) (s : Text)
    → length s ≤ fuel
    → array_body (suc fuel) depth s ≡ array_body fuel depth s
unfolding array_body
array_body-enough zero depth [] h = refl
array_body-enough zero depth (c ∷ s) h = absurd (omega (arith, h))
array_body-enough (suc fuel) depth [] h = refl
array_body-enough (suc fuel) depth (c ∷ s) h =
    let rest : (k : ℕ) → array_body (suc fuel) k s ≡ array_body fuel k s =
      λ k. array_body-enough fuel k s (omega (arith, h)) in
    elim (Option-cases (quoted_token (c ∷ s))) [
      | inl e ↦ rw (array_body, e, rest depth, rest (depth + 1), rest (depth - 1)) refl
      | inr (x, e) ↦
          let q =
            length_of_Shorter _ x
              (subst (Shorter (length (c ∷ s))) e (quoted_token-Shorter (c ∷ s))) in
          rw (array_body, e, array_body-enough fuel depth x.1 (omega (arith, h, q))) refl
    ]

array_token-Shorter : (s : Text) → Shorter (length s) (array_token s)
unfolding array_token
array_token-Shorter [] = (none-Shorter _)
array_token-Shorter (c ∷ s) = if-Shorter _ _ _ _ (array_body-Shorter _ 0 (c ∷ s)) (none-Shorter _)

until_braces-Shorter : (s : Text) → Shorter (length s) (until_braces s)
unfolding until_braces
until_braces-Shorter [] = (none-Shorter _)
until_braces-Shorter (c ∷ []) = (none-Shorter _)
until_braces-Shorter (c ∷ d ∷ s) =
    if-Shorter _ _ _ _ (some-Shorter _ [] s (omega arith))
      (before-Shorter _ (length (d ∷ s)) (c ∷ []) _ (omega arith) (until_braces-Shorter (d ∷ s)))

length-strip_prefix :
    (p s : Text) {rest : Text} → strip_prefix p s ≡ some rest → length s ≡ length p + length rest
unfolding strip_prefix
length-strip_prefix [] s h = ground (arith, h)
length-strip_prefix (c ∷ p) [] h = cc
length-strip_prefix (c ∷ p) (d ∷ s) {rest} h = elim (Bool-cases (c == d)) [
  | inl e ↦
      let g : strip_prefix p s ≡ some rest = ground (arith, h, e) in
      omega (arith, length-strip_prefix p s g)
  | inr e ↦ ground (arith, h, e)
]

trimmed-Shorter : (n : ℕ) (r : Option (Text × Text)) → Shorter n r → Shorter n (trimmed r)
unfolding Shorter trimmed
trimmed-Shorter n none s = s
trimmed-Shorter n (some (t, rest)) s = s

Shorter-le : (m n : ℕ) (r : Option (Text × Text)) → m ≤ n → Shorter m r → Shorter n r
unfolding Shorter
Shorter-le m n none h s = tt
Shorter-le m n (some (t, rest)) h s = omega (arith, h, s)

variable_token-Shorter : (s : Text) → Shorter (length s) (variable_token s)
unfolding variable_token variable_body
variable_token-Shorter s = elim (Option-cases (strip_prefix (codes "{{") s)) [
  | inl e ↦ rw (variable_token, e) (none-Shorter _)
  | inr (rest, e) ↦
      rw (variable_token, e)
        (Shorter-le (length rest) _ _ (omega (arith, length-strip_prefix _ s e))
          (trimmed-Shorter _ _ (until_braces-Shorter rest)))
]

word_token-Shorter :
    (ops : List Text) (s : Text)
    → All (λ op. 1 ≤ length op) ops
    → Shorter (length s) (word_token ops s)
unfolding word_token
word_token-Shorter [] s h = none-Shorter _
word_token-Shorter (op ∷ ops) s h = elim (Option-cases (strip_prefix op s)) [
  | inl e ↦ rw (word_token, e) (word_token-Shorter ops s h.1)
  | inr (rest, e) ↦
      rw (word_token, e)
        (if-Shorter _ _ _ _ (word_token-Shorter ops s h.1)
          (some-Shorter _ op rest (omega (arith, h.0, length-strip_prefix op s e))))
]

symbol_token-Shorter :
    (ops : List Text) (s : Text)
    → All (λ op. 1 ≤ length op) ops
    → Shorter (length s) (symbol_token ops s)
unfolding symbol_token
symbol_token-Shorter [] s h = none-Shorter _
symbol_token-Shorter (op ∷ ops) s h = elim (Option-cases (strip_prefix op s)) [
  | inl e ↦ rw (symbol_token, e) (symbol_token-Shorter ops s h.1)
  | inr (rest, e) ↦
      rw (symbol_token, e) (some-Shorter _ op rest (omega (arith, h.0, length-strip_prefix op s e)))
]

operator_token-Shorter : (s : Text) → Shorter (length s) (operator_token s)
unfolding operator_token
operator_token-Shorter s =
    or_else-Shorter _ _ _ (word_token-Shorter word_operators s (omega arith))
      (symbol_token-Shorter symbol_operators s (omega arith))

identifier-length : (s : Text) → length (identifier s).0 + length (identifier s).1 ≡ length s
unfolding identifier
identifier-length [] = refl
identifier-length (c ∷ s) = elim (Bool-cases (is_identifier_byte c)) [
  | inl e ↦ rw (identifier, e) (omega (arith, identifier-length s))
  | inr e ↦ rw (identifier, e) (omega arith)
]

nonempty-Shorter : (n : ℕ) (x : Text × Text) → length x.0 + length x.1 ≡ n → Shorter n (nonempty x)
nonempty-Shorter n ([], rest) h = none-Shorter _
nonempty-Shorter n (c ∷ name, rest) h = some-Shorter _ (c ∷ name) rest (omega (arith, h))

next_token-Shorter : (s : Text) → Shorter (length s) (next_token s)
unfolding next_token
next_token-Shorter s = or_else-Shorter _ _ _ (quoted_token-Shorter s) (
    or_else-Shorter _ _ _ (array_token-Shorter s) (
      or_else-Shorter _ _ _ (variable_token-Shorter s) (
        or_else-Shorter _ _ _ (operator_token-Shorter s)
          (nonempty-Shorter _ (identifier s) (identifier-length s)))))

with_token-Ends : (t : Text) (r : Scan) → r ≢ out_of_fuel → with_token t r ≢ out_of_fuel
with_token-Ends t out_of_fuel h = h
with_token-Ends t bad h = cc
with_token-Ends t (done ts) h = cc

-- The loop of the tokenizer ends within as many rounds as the input has bytes, and one more.
scan-Ends : (fuel : ℕ) (s : Text) → length s < fuel → scan fuel s ≢ out_of_fuel
unfolding scan
scan-Ends zero s h = omega arith
scan-Ends (suc fuel) [] h = cc
scan-Ends (suc fuel) (c ∷ s) h = elim (Bool-cases (is_blank c)) [
  | inl b ↦ rw (scan, b) (scan-Ends fuel s (omega (arith, h)))
  | inr b ↦ elim (Option-cases (next_token (c ∷ s))) [
    | inl e ↦ rw (scan, b, e) cc
    | inr (x, e) ↦
        let q =
          length_of_Shorter _ x (subst (Shorter (length (c ∷ s))) e (next_token-Shorter (c ∷ s))) in
        rw (scan, b, e) (with_token-Ends x.0 _ (scan-Ends fuel x.1 (omega (arith, h, q))))
  ]
]
