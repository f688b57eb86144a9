-- ===== src/SqlPlugins/Binary.antt =====
-- src/preludedb-plugin-sql.c: the escaping of strings and of binary data, by the plugin's
-- function or, without one, in hexadecimal.
use libpreludedb.Base.{
  ℕ, ◌+◌, ◌-◌, ◌*◌, ◌/◌, ◌%◌, ◌^◌, ◌<◌, ◌≡◌, refl, ap, false, ltb, leb, ◌==◌, ◌&&◌, if◌then◌else◌,
  Option, none, some, [], ◌∷◌, ◌++◌, All, length, Bytes, text, Result, ok, err, generic, arith,
}

-- a `size_t`
abbrev size_mod : ℕ
size_mod = 2 ^ 64

-- the entries of the table `hex`
abbrev hex_digit : ℕ → ℕ
hex_digit n = if ltb n 10 then b'0' + n else b'A' + (n - 10)

unfoldable pub bin2hex : Bytes → Bytes
bin2hex [] = []
bin2hex (c ∷ s) = hex_digit (c / 16) ∷ hex_digit (c % 16) ∷ bin2hex s

abbrev pub Escaping : Type 0 → Type 0
Escaping Session = Bytes → Session → Result Bytes × Session

module _ {Session : Type 0} where
  -- `_preludedb_plugin_sql_escape_binary`, for the plugin's function, if it has one
  unfoldable pub plugin_escape_binary : Option (Escaping Session) → Escaping Session
  unfolding bin2hex
  plugin_escape_binary (some escape_binary) input s = escape_binary input s
  plugin_escape_binary none input s =
      if leb ((length input * 2 + 4) % size_mod) (length input)
      then (err generic, s)
      else (ok (text "X'" ++ (bin2hex input ++ text "'")), s)

  -- `_preludedb_plugin_sql_escape`
  unfoldable pub plugin_escape :
      Option (Escaping Session) → Option (Escaping Session) → Escaping Session
  unfolding plugin_escape_binary
  plugin_escape none escape_binary input s = plugin_escape_binary escape_binary input s
  plugin_escape (some escape) escape_binary input s = escape input s

abbrev quote : ℕ
quote = 39

-- How a database reads a hexadecimal literal: pairs of digits up to the quote.
abbrev digit_value : ℕ → Option ℕ
digit_value c =
    if leb b'0' c && leb c b'9'
    then some (c - b'0')
    else if leb b'A' c && leb c b'F'
    then some (c - b'A' + 10)
    else none

abbrev pair_value : Option ℕ → Option ℕ → Option ℕ
pair_value (some h) (some l) = some (h * 16 + l)
pair_value none _ = none
pair_value (some h) none = none

abbrev in_front : Option ℕ → Option Bytes → Option Bytes
in_front (some c) (some s) = some (c ∷ s)
in_front none _ = none
in_front (some c) none = none

unfoldable pub read_pairs : Bytes → Option Bytes
read_pairs [] = none
read_pairs (c ∷ []) = if c == quote then some [] else none
read_pairs (c ∷ d ∷ s) = in_front (pair_value (digit_value c) (digit_value d)) (read_pairs s)

unfoldable pub read_literal : Bytes → Option Bytes
unfolding read_pairs
read_literal (c ∷ d ∷ s) = if c == b'X' && d == quote then read_pairs s else none
read_literal _ = none

digit_value-hex_digit : (n : ℕ) → n < 16 → digit_value (hex_digit n) ≡ some n
digit_value-hex_digit n h = ground arith

-- an `unsigned char`
abbrev pub IsByte : ℕ → Type 0
IsByte c = c < 256

read_pairs-bin2hex : (s : Bytes) → All IsByte s → read_pairs (bin2hex s ++ quote ∷ []) ≡ some s
unfolding read_pairs bin2hex
read_pairs-bin2hex [] h = refl
read_pairs-bin2hex (c ∷ s) h =
    rw
      (
        digit_value-hex_digit (c / 16) (omega arith),
        digit_value-hex_digit (c % 16) (omega arith),
        read_pairs-bin2hex s h.1,
      )
      (ap (λ x. some (x ∷ s)) (omega arith))

-- Without a function of the plugin, binary data whose escaped size fits a size_t of 64 bits is
-- written as a literal that reads back as the data.
pub read_literal-plugin_escape_binary :
    {Session : Type 0} (input : Bytes) (s : Session)
    → All IsByte input
    → length input * 2 + 4 < size_mod
    → (out : Bytes) × (plugin_escape_binary none input s ≡ (ok out, s))
      × (read_literal out ≡ some input)
unfolding plugin_escape_binary read_literal text
read_literal-plugin_escape_binary input s h small =
    let fits : leb ((length input * 2 + 4) % size_mod) (length input) ≡ false = ground arith in
    (text "X'" ++ (bin2hex input ++ text "'"), rw fits refl, read_pairs-bin2hex input h)
