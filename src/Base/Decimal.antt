-- ===== src/Base/Decimal.antt =====
-- fmt.Sprintf("%d:%s", id, name), the shape of the keys of several maps: the number in decimal, a
-- colon, the text. A number and a text are read back from it, so no two pairs share a key.
use mathlib.Core.List.{◌++◌}
use goravel_mine.Base.Texts.{Text, codes, strip_prefix, has_prefix}
use goravel_mine.Base.Tests.{ltb, ◌==◌, if◌then◌else◌}
use goravel_mine.Base.Eq.{list_beq, list_beq_iff, nat_eq}
use goravel_mine.Base.Lists.{All, All-++}
use Prim.Native.Nat.{ℕ, zero, suc, ◌+◌, ◌-◌, ◌*◌, ◌/◌, ◌%◌, ◌≤◌, ◌<◌}
use mathlib.Core.Path.{◌≡◌, refl, sym, ap, ◌∙◌}
use mathlib.Core.Option.{none, some}
use mathlib.Core.List.{[], ◌∷◌}
use native.Mathlib.Omega.{arith}

-- Division by ten with fuel; `decimal` gives more than the number of digits.
digits_fuel : ℕ → ℕ → Text
digits_fuel zero n = []
digits_fuel (suc f) n =
    let high = digits_fuel f (n / 10) in
    if ltb n 10 then (b'0' + n) ∷ [] else high ++ (b'0' + n % 10) ∷ []

unfoldable pub decimal : ℕ → Text
unfolding digits_fuel
decimal n = digits_fuel (n + 1) n

unfoldable pub numbered : ℕ → Text → Text
unfolding decimal
numbered id name = decimal id ++ b':' ∷ name

value_from : ℕ → Text → ℕ
value_from acc [] = acc
value_from acc (c ∷ s) = value_from (acc * 10 + (c - b'0')) s

value_from-snoc :
    (s : Text) (acc c : ℕ) → value_from acc (s ++ c ∷ []) ≡ value_from acc s * 10 + (c - b'0')
unfolding value_from
value_from-snoc [] acc c = refl
value_from-snoc (d ∷ s) acc c = value_from-snoc s (acc * 10 + (d - b'0')) c

value-digits_fuel : (f n : ℕ) → n < f → value_from 0 (digits_fuel f n) ≡ n
unfolding digits_fuel value_from
value-digits_fuel zero n h = absurd (omega arith)
value-digits_fuel (suc f) n h = ground (
  arith,
  value_from-snoc (digits_fuel f (n / 10)) 0 (b'0' + n % 10),
  value-digits_fuel f (n / 10),
)

abbrev IsDigit : ℕ → Type 0
IsDigit c = (b'0' ≤ c) × (c ≤ b'9')

digits_fuel-IsDigit : (f n : ℕ) → All IsDigit (digits_fuel f n)
unfolding digits_fuel
digits_fuel-IsDigit zero n = tt
digits_fuel-IsDigit (suc f) n = ground (
  arith,
  All-++ IsDigit (digits_fuel f (n / 10)) ((b'0' + n % 10) ∷ []) (digits_fuel-IsDigit f (n / 10)),
)

value-decimal : (n : ℕ) → value_from 0 (decimal n) ≡ n
unfolding decimal
value-decimal n = value-digits_fuel (n + 1) n (omega arith)

pub decimal-injective : (m n : ℕ) → decimal m ≡ decimal n → m ≡ n
decimal-injective m n h = sym (value-decimal m) ∙ ap (value_from 0) h ∙ value-decimal n

-- Reading the number back off: up to the first colon nothing but digits stands.
strip_prefix-colon :
    (s t rest : Text)
    → All IsDigit s
    → All IsDigit t
    → strip_prefix (s ++ b':' ∷ []) (t ++ b':' ∷ rest) ≡ (if list_beq s t then some rest else none)
unfolding strip_prefix list_beq
strip_prefix-colon [] [] rest hs ht = ground arith
strip_prefix-colon [] (c ∷ t) rest hs ht = ground arith
strip_prefix-colon (c ∷ s) [] rest hs ht = ground arith
strip_prefix-colon (c ∷ s) (d ∷ t) rest hs ht =
    ground (arith, strip_prefix-colon s t rest hs.1 ht.1)

-- The keys with the prefix "a:" are those that were numbered `a`.
pub has_prefix-numbered :
    (a b : ℕ) (rest : Text) → has_prefix (numbered b rest) (numbered a []) ≡ (a == b)
unfolding has_prefix numbered
has_prefix-numbered a b rest = ground (
  arith,
  strip_prefix-colon (decimal a) (decimal b) rest (digits_fuel-IsDigit (a + 1) a)
      (digits_fuel-IsDigit (b + 1) b),
  list_beq_iff (decimal a) (decimal b),
  decimal-injective a b,
  ap decimal,
)

numbered_runs : numbered 120 (codes "CONCURRENCY") ≡ codes "120:CONCURRENCY"
unfolding numbered
numbered_runs = refl

strip_prefix-numbered :
    (a b : ℕ) (rest : Text)
    → strip_prefix (decimal a ++ b':' ∷ []) (numbered b rest) ≡ (if a == b then some rest else none)
unfolding numbered
strip_prefix-numbered a b rest = ground (
  arith,
  strip_prefix-colon (decimal a) (decimal b) rest (digits_fuel-IsDigit (a + 1) a)
      (digits_fuel-IsDigit (b + 1) b),
  list_beq_iff (decimal a) (decimal b),
  decimal-injective a b,
  ap decimal,
)

-- No two pairs of a number and a text share a key.
pub numbered-injective : (a b : ℕ) (s t : Text) → numbered a s ≡ numbered b t → (a ≡ b) × (s ≡ t)
numbered-injective a b s t h = ground (
  arith,
  strip_prefix-numbered a a s,
  strip_prefix-numbered a b t,
  ap (strip_prefix (decimal a ++ b':' ∷ [])) h,
)
