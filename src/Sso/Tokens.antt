-- ===== src/Sso/Tokens.antt =====
-- app/services/access/sso/condition_tokenizer.go. The functions look at the input from an index on,
-- and here at what is left of it; each returns its token and the rest.
pub mod Fuel
use goravel_mine.Base.{
  ℕ, zero, suc, ◌+◌, ◌-◌, ◌<◌, ◌≡◌, refl, Bool, false, ◌&&◌, ◌||◌, Option, none, some, List, [],
  ◌∷◌, ◌++◌, leb, if◌then◌else◌, ◌==◌, length,
}
use goravel_mine.Base.Texts.{Text, codes, trim_space, strip_prefix, contains}
use goravel_mine.Base.Eq.{nat_eq}

unfoldable pub is_quote : ℕ → Bool
is_quote c = c == b'\'' || c == b'"'

abbrev pub backslash : ℕ
backslash = 92

unfoldable pub is_identifier_byte : ℕ → Bool
is_identifier_byte c =
    c == b'_'
    || (c == b'.'
        || (c == b'-'
            || ((leb b'A' c && leb c b'Z')
                || ((leb b'a' c && leb c b'z') || (leb b'0' c && leb c b'9')))))

-- The bytes before the rest of a token.
abbrev pub before : Text → Option (Text × Text) → Option (Text × Text)
before bytes none = none
before bytes (some (token, rest)) = some (bytes ++ token, rest)

-- The loop of quotedConditionToken behind the opening quote.
unfoldable pub quoted_body : ℕ → Text → Option (Text × Text)
quoted_body quote [] = none
quoted_body quote (c ∷ []) =
    if c == backslash then none else if c == quote then some (c ∷ [], []) else none
quoted_body quote (c ∷ d ∷ s) =
    let escaped = before (c ∷ d ∷ []) (quoted_body quote s) in
    let plain = before (c ∷ []) (quoted_body quote (d ∷ s)) in
    if c == backslash then escaped else if c == quote then some (c ∷ [], d ∷ s) else plain

unfoldable pub quoted_token : Text → Option (Text × Text)
unfolding is_quote
quoted_token [] = none
quoted_token (c ∷ s) = if is_quote c then before (c ∷ []) (quoted_body c s) else none

-- The loop of arrayConditionToken; each round reads a byte at least, so the length is enough fuel.
unfoldable pub array_body : ℕ → ℕ → Text → Option (Text × Text)
array_body zero depth s = none
array_body (suc fuel) depth [] = none
array_body (suc fuel) depth (c ∷ s) = elim (quoted_token (c ∷ s)) [
  | some (token, rest) ↦ before token (array_body fuel depth rest)
  | none ↦
      let deeper = before (c ∷ []) (array_body fuel (depth + 1) s) in
      let shallower = before (c ∷ []) (array_body fuel (depth - 1) s) in
      let same = before (c ∷ []) (array_body fuel depth s) in
      if c == b'['
      then deeper
      else if c == b']'
      then (if depth - 1 == 0 then some (c ∷ [], s) else shallower)
      else same
]

unfoldable pub array_token : Text → Option (Text × Text)
array_token [] = none
array_token (c ∷ s) = if c == b'[' then array_body (length (c ∷ s)) 0 (c ∷ s) else none

-- strings.Index(s, "}}"): what stands before it, and behind it.
unfoldable pub until_braces : Text → Option (Text × Text)
until_braces [] = none
until_braces (c ∷ []) = none
until_braces (c ∷ d ∷ s) =
    let later = before (c ∷ []) (until_braces (d ∷ s)) in
    if c == b'}' && d == b'}' then some ([], s) else later

abbrev pub trimmed : Option (Text × Text) → Option (Text × Text)
unfolding trim_space
trimmed none = none
trimmed (some (name, rest)) = some (trim_space name, rest)

abbrev pub variable_body : Option Text → Option (Text × Text)
unfolding trimmed
variable_body none = none
variable_body (some s) = trimmed (until_braces s)

unfoldable pub variable_token : Text → Option (Text × Text)
unfolding variable_body
variable_token s = variable_body (strip_prefix (codes "{{") s)

abbrev pub word_operators : List Text
word_operators =
    codes "not_matches"
    ∷ codes "starts_with"
    ∷ codes "ends_with"
    ∷ codes "not_in"
    ∷ codes "contains"
    ∷ codes "matches"
    ∷ codes "in"
    ∷ []

abbrev pub symbol_operators : List Text
symbol_operators =
    codes "&&"
    ∷ codes "||"
    ∷ codes ">="
    ∷ codes "<="
    ∷ codes "=="
    ∷ codes "!="
    ∷ codes ">"
    ∷ codes "<"
    ∷ codes "!"
    ∷ codes "("
    ∷ codes ")"
    ∷ []

-- `end < len(input) && isConditionIdentifierByte(input[end])`
unfoldable pub goes_on : Text → Bool
goes_on [] = false
goes_on (c ∷ s) = is_identifier_byte c

unfoldable pub word_token : List Text → Text → Option (Text × Text)
word_token [] s = none
word_token (op ∷ ops) s =
    let others = word_token ops s in
    elim (strip_prefix op s) [
      | none ↦ others
      | some rest ↦ if goes_on rest then others else some (op, rest)
    ]

unfoldable pub symbol_token : List Text → Text → Option (Text × Text)
symbol_token [] s = none
symbol_token (op ∷ ops) s =
    let others = symbol_token ops s in
    elim (strip_prefix op s) [ none ↦ others | some rest ↦ some (op, rest) ]

abbrev pub or_else : Option (Text × Text) → Option (Text × Text) → Option (Text × Text)
or_else none b = b
or_else (some a) b = some a

unfoldable pub operator_token : Text → Option (Text × Text)
operator_token s = or_else (word_token word_operators s) (symbol_token symbol_operators s)

-- The bytes of an identifier, and the rest.
unfoldable pub identifier : Text → Text × Text
identifier [] = ([], [])
identifier (c ∷ s) =
    let (name, rest) = identifier s in
    if is_identifier_byte c then (c ∷ name, rest) else ([], c ∷ s)

abbrev pub nonempty : Text × Text → Option (Text × Text)
nonempty ([], rest) = none
nonempty (c ∷ name, rest) = some (c ∷ name, rest)

-- One token: the attempts in the order of the loop.
unfoldable pub next_token : Text → Option (Text × Text)
next_token s = or_else (quoted_token s) (
    or_else (array_token s)
      (or_else (variable_token s) (or_else (operator_token s) (nonempty (identifier s)))))

-- What the loop comes to: fuel used up, a byte that begins no token (the code returns nil), tokens.
pub data Scan : Type 0 where
  out_of_fuel bad : Scan
  done : List Text → Scan

abbrev pub with_token : Text → Scan → Scan
with_token t out_of_fuel = out_of_fuel
with_token t bad = bad
with_token t (done ts) = done (t ∷ ts)

unfoldable pub is_blank : ℕ → Bool
is_blank c = c == 32 || (c == 9 || (c == 10 || c == 13))

-- The loop of tokenizeCondition.
unfoldable pub scan : ℕ → Text → Scan
scan zero s = out_of_fuel
scan (suc fuel) [] = done []
scan (suc fuel) (c ∷ s) =
    let skip = scan fuel s in
    let token : Scan = elim (next_token (c ∷ s)) [
      | none ↦ bad
      | some (t, rest) ↦ with_token t (scan fuel rest)
    ] in
    if is_blank c then skip else token

abbrev pub tokens_of : Scan → List Text
tokens_of (done ts) = ts
tokens_of _ = []

-- tokenizeCondition; the nil of the code is the empty list.
unfoldable pub tokenize : Text → List Text
tokenize s = tokens_of (scan (length s + 1) s)

tokenize_runs :
    tokenize (codes "!(groups contains 'a b' && age>=18)")
    ≡ codes "!"
      ∷ codes "("
      ∷ codes "groups"
      ∷ codes "contains"
      ∷ codes "'a b'"
      ∷ codes "&&"
      ∷ codes "age"
      ∷ codes ">="
      ∷ codes "18"
      ∷ codes ")"
      ∷ []
unfolding tokenize scan next_token quoted_token quoted_body array_token variable_token strip_prefix
    until_braces trim_space operator_token word_token symbol_token goes_on identifier
    is_identifier_byte is_blank
tokenize_runs = refl
