-- ===== src/Base/Text.antt =====
-- C strings as lists of bytes, and what printf makes of numbers.
use Prim.Native.Nat.{ℕ, zero, suc, ◌+◌, ◌/◌, ◌%◌}
use Prim.Native.Char.{code}
use Prim.Native.String.{String}
use mathlib.Core.List.{List, [], ◌∷◌, ◌++◌}
use mathlib.Core.Bool.{Bool, true, false}
use libpreludedb.Base.Test.{ltb, if◌then◌else◌}

-- The bytes before the terminating NUL.
abbrev pub Bytes : Type 0
Bytes = List ℕ

abbrev pub is_empty : Bytes → Bool
is_empty [] = true
is_empty (_ ∷ _) = false

abbrev pub backslash : ℕ
backslash = 92

-- A string literal of the source. It is shut: a statement about the pieces of a query does not
-- look into them.
unfoldable pub text : String → Bytes
text String.[] = []
text (String.◌∷◌ c s) = code c ∷ text s

-- The decimal digits of a number, on fuel: each round divides by ten.
unfoldable pub digits : ℕ → ℕ → Bytes → Bytes
digits zero n acc = acc
digits (suc f) n acc =
    let rest = digits f (n / 10) ((48 + n % 10) ∷ acc) in
    if ltb n 10 then (48 + n % 10) ∷ acc else rest

-- printf's "%u" and, on values that are not negative, "%d".
unfoldable pub print_nat : ℕ → Bytes
unfolding digits
print_nat n = digits (suc n) n []

-- Texts with AND between them, and before the first one if something is there.
unfoldable pub conjunction : Bool → List Bytes → Bytes
conjunction prev [] = []
conjunction prev (x ∷ xs) = (if prev then text " AND " else []) ++ (x ++ conjunction true xs)
