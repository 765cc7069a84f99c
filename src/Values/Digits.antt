-- ===== src/Values/Digits.antt =====
-- Decimal numbers in text: what the scan of the digits makes of them.
use amy.Prelude.{
  ℕ, zero, suc, ◌+◌, ◌/◌, ◌%◌, ◌≡◌, ◌≤◌, ◌<◌, refl, Bool, true, false, [], ◌∷◌, ◌∙◌, arith, ltb,
  if◌then◌else◌,
}
use amy.Prelude.Int.{ℤ, pos, negsuc}
use amy.Client.{Bytes}
use amy.Values.{is_digit, skip_spaces, read_sign, magnitude}

-- The decimal digits of n before `out`, with fuel above n.
unfoldable pub emit : ℕ → ℕ → Bytes → Bytes
emit zero n out = out
emit (suc fuel) n out =
    let out' = (b'0' + n % 10) ∷ out in
    let more = emit fuel (n / 10) out' in if ltb n 10 then out' else more

-- The text that a server sends for an integer, before `rest`.
unfoldable pub print_nat : ℕ → Bytes → Bytes
unfolding emit
print_nat n rest = emit (suc n) n rest

unfoldable pub print : ℤ → Bytes → Bytes
unfolding print_nat
print (pos n) rest = print_nat n rest
print (negsuc n) rest = b'-' ∷ print_nat (suc n) rest

-- No digit follows.
abbrev pub DigitsEnd : Bytes → Type 0
DigitsEnd [] = Unit {0}
DigitsEnd (c ∷ s) = is_digit c ≡ false

magnitude_digit :
    (n : ℕ) (out : Bytes) → magnitude (n / 10) ((b'0' + n % 10) ∷ out) ≡ magnitude n out
unfolding magnitude
magnitude_digit n out = ground arith

magnitude-emit :
    (fuel n : ℕ) (out : Bytes) → n < fuel → magnitude 0 (emit fuel n out) ≡ magnitude n out
unfolding emit
magnitude-emit zero n out h = absurd (omega arith)
magnitude-emit (suc fuel) n out h =
    ground (arith, magnitude_digit n out, magnitude-emit fuel (n / 10) ((b'0' + n % 10) ∷ out))

magnitude_end : (n : ℕ) (rest : Bytes) → DigitsEnd rest → magnitude n rest ≡ n
unfolding magnitude
magnitude_end n [] h = refl
magnitude_end n (c ∷ s) h = rw h

pub magnitude-print_nat :
    (n : ℕ) (rest : Bytes) → DigitsEnd rest → magnitude 0 (print_nat n rest) ≡ n
unfolding print_nat
magnitude-print_nat n rest h = magnitude-emit (suc n) n rest (omega arith) ∙ magnitude_end n rest h

-- A text that begins with a digit is read with no space skipped and no sign.
abbrev StartsWithDigit : Bytes → Type 0
StartsWithDigit [] = ⊥
StartsWithDigit (c ∷ s) = (b'0' ≤ c) × (c ≤ b'9')

either-StartsWithDigit :
    (b : Bool) (s t : Bytes)
    → StartsWithDigit s
    → StartsWithDigit t
    → StartsWithDigit (if b then s else t)
either-StartsWithDigit true s t h k = h
either-StartsWithDigit false s t h k = k

emit-StartsWithDigit :
    (fuel n : ℕ) (out : Bytes) → StartsWithDigit out → StartsWithDigit (emit fuel n out)
unfolding emit
emit-StartsWithDigit zero n out h = h
emit-StartsWithDigit (suc fuel) n out h =
    let out' = (b'0' + n % 10) ∷ out in
    either-StartsWithDigit (ltb n 10) out' (emit fuel (n / 10) out') (omega arith)
      (emit-StartsWithDigit fuel (n / 10) out' (omega arith))

print_nat-StartsWithDigit : (n : ℕ) (rest : Bytes) → StartsWithDigit (print_nat n rest)
unfolding print_nat emit
print_nat-StartsWithDigit n rest =
    let out = (b'0' + n % 10) ∷ rest in
    either-StartsWithDigit (ltb n 10) out (emit n (n / 10) out) (omega arith)
      (emit-StartsWithDigit n (n / 10) out (omega arith))

subject_digit : (s : Bytes) → StartsWithDigit s → read_sign (skip_spaces s) ≡ (false, s)
unfolding read_sign skip_spaces
subject_digit [] h = absurd h
subject_digit (c ∷ s) h = ground arith

pub subject-print_nat :
    (n : ℕ) (rest : Bytes) → read_sign (skip_spaces (print_nat n rest)) ≡ (false, print_nat n rest)
subject-print_nat n rest = subject_digit (print_nat n rest) (print_nat-StartsWithDigit n rest)

pub subject_minus : (s : Bytes) → read_sign (skip_spaces (b'-' ∷ s)) ≡ (true, s)
unfolding read_sign skip_spaces
subject_minus s = refl
