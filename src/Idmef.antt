-- ===== src/Idmef.antt =====
-- What libpreludedb takes of libprelude's IDMEF tree and strings: parameters, since that code is
-- not in the repository.
use libpreludedb.Base.{
  ltb, print_nat, if◌then◌else◌, ◌∷◌, ◌+◌, ◌-◌, ◌%◌, ◌^◌, ℕ, ◌≡◌, ◌++◌, Bytes, Result, ok, err,
}

-- The types of IDMEF values that the library tells apart.
pub data ValueType : Type 0 where
  string_value time_value uint32_value : ValueType
  other_value : ℕ → ValueType

-- A C `int`; `negsuc n` is -(n + 1).
pub data ℤ : Type 0 where
  pos : ℕ → ℤ
  negsuc : ℕ → ℤ

-- The string buffers of prelude-string.h: a text is appended, or the call fails.
pub record StringLib : Type 0 where
  pub cat : Bytes → Bytes → Result Bytes

-- memory for every append
abbrev pub IsAmple : StringLib → Type 0
IsAmple lib = (out s : Bytes) → lib.cat out s ≡ ok (out ++ s)

-- A `prelude_string_` call whose result is ignored: a failure leaves the string as it was.
abbrev pub cat_unchecked : StringLib → Bytes → Bytes → Bytes
cat_unchecked lib out s = elim (lib.cat out s) [ ok out' ↦ out' | err _ ↦ out ]

abbrev pub uint32_mod : ℕ
uint32_mod = 2 ^ 32

-- printf's "%d"
unfoldable pub print_int : ℤ → Bytes
print_int (pos n) = print_nat n
print_int (negsuc n) = b'-' ∷ print_nat (n + 1)

-- printf's "%d" of an unsigned 32-bit number: from 2 ^ 31 on it is read as a negative one.
abbrev pub print_signed : ℕ → Bytes
print_signed n =
    if ltb (n % uint32_mod) (2 ^ 31)
    then print_nat (n % uint32_mod)
    else b'-' ∷ print_nat (uint32_mod - n % uint32_mod)
