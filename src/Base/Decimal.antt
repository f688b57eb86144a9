-- ===== src/Base/Decimal.antt =====
-- Reading the decimal numbers that printf writes.
use Prim.Native.Nat.{ℕ, zero, suc, ◌+◌, ◌-◌, ◌*◌, ◌/◌, ◌%◌, ◌<◌}
use mathlib.Core.Path.{◌≡◌, refl, ap, ◌∙◌}
use mathlib.Core.Logic.{inl, inr}
use mathlib.Core.Bool.{Bool, true, false, ◌&&◌}
use mathlib.Core.Option.{Option, none, some}
use mathlib.Core.List.{[], ◌∷◌, ◌++◌}
use native.Mathlib.Omega.{arith}
use libpreludedb.Base.Test.{ltb, leb, if◌then◌else◌, Bool-cases, ltb→lt}
use libpreludedb.Base.Text.{Bytes, digits, print_nat}

abbrev pub is_digit : ℕ → Bool
is_digit c = leb 48 c && leb c 57

abbrev pub starts_number : Bytes → Bool
starts_number [] = false
starts_number (c ∷ s) = is_digit c

-- the digits at the head of a text, behind a number that was read
unfoldable pub read_from : ℕ → Bytes → ℕ × Bytes
read_from n [] = (n, [])
read_from n (c ∷ s) = if is_digit c then read_from (n * 10 + (c - 48)) s else (n, c ∷ s)

-- A decimal number at the head of a text, and what follows.
unfoldable pub read_number : Bytes → Option (ℕ × Bytes)
read_number s = if starts_number s then some (read_from 0 s) else none

digits-append : (f n : ℕ) (acc rest : Bytes) → digits f n acc ++ rest ≡ digits f n (acc ++ rest)
unfolding digits
digits-append zero n acc rest = refl
digits-append (suc f) n acc rest = elim (Bool-cases (ltb n 10)) [
  | inl h ↦ rw h
  | inr h ↦ rw h (digits-append f (n / 10) ((48 + n % 10) ∷ acc) rest)
]

starts_number-digits : (f n : ℕ) (acc : Bytes) → n < f → starts_number (digits f n acc) ≡ true
unfolding digits
starts_number-digits zero n acc h = elim h [ ]
starts_number-digits (suc f) n acc h = elim (Bool-cases (ltb n 10)) [
  | inl e ↦ rw e (ground arith)
  | inr e ↦ rw e (starts_number-digits f (n / 10) ((48 + n % 10) ∷ acc) (ground arith))
]

read_digit :
    (n d : ℕ) (acc : Bytes) → d < 10 → read_from n ((48 + d) ∷ acc) ≡ read_from (n * 10 + d) acc
unfolding read_from
read_digit n d acc h =
    let digit : is_digit (48 + d) ≡ true = ground arith in
    let value : 48 + d - 48 ≡ d = omega arith in rw digit (rw value)

read_from-digits : (f n : ℕ) (acc : Bytes) → n < f → read_from 0 (digits f n acc) ≡ read_from n acc
unfolding digits
read_from-digits zero n acc h = elim h [ ]
read_from-digits (suc f) n acc h = elim (Bool-cases (ltb n 10)) [
  | inl e ↦ rw e (
      read_digit 0 (n % 10) acc (omega arith)
      ∙ ap (λ k. read_from k acc) (omega (arith, ltb→lt n 10 e)))
  | inr e ↦ rw e (
      read_from-digits f (n / 10) ((48 + n % 10) ∷ acc) (ground arith)
      ∙ read_digit (n / 10) (n % 10) acc (omega arith)
      ∙ ap (λ k. read_from k acc) (omega arith))
]

stop : (n : ℕ) (rest : Bytes) → starts_number rest ≡ false → read_from n rest ≡ (n, rest)
unfolding read_from
stop n [] h = refl
stop n (c ∷ rest) h = rw h

-- A number that is printed is read back, where no digit follows.
pub read_number-print_nat :
    (n : ℕ) (rest : Bytes)
    → starts_number rest ≡ false
    → read_number (print_nat n ++ rest) ≡ some (n, rest)
unfolding read_number print_nat
read_number-print_nat n rest h = rw (digits-append (suc n) n [] rest) (
    rw (starts_number-digits (suc n) n rest (omega arith))
      (ap some (read_from-digits (suc n) n rest (omega arith) ∙ stop n rest h)))

pub starts_number-print_nat : (n : ℕ) (rest : Bytes) → starts_number (print_nat n ++ rest) ≡ true
unfolding print_nat
starts_number-print_nat n rest =
    rw (digits-append (suc n) n [] rest) (starts_number-digits (suc n) n rest (omega arith))
