-- ===== src/Settings.antt =====
-- src/preludedb-sql-settings.c: the connection settings, a table of names and values that is read
-- from a string such as `host=localhost pass='s e'`. The table is libprelude's hash, a parameter.
mod Scan
pub mod RoundTrip
pub mod Quoted
pub mod Total
mod Tests
use libpreludedb.Base.{
  backslash, ℕ, zero, suc, ◌≡◌, refl, Bool, true, false, ◌&&◌, ◌||◌, Option, none, some, List, [],
  ◌∷◌, ◌++◌, Bytes, length, Result, ok, err, Error, invalid_settings_string, leb, ◌==◌,
  if◌then◌else◌, ◌=ₛ◌,
}

-- libprelude's hash table from strings to strings. An insertion may fail; one that does not makes
-- the table answer the new value under its key, and what it answered before under the others.
pub record HashLib : Type 1 where
  pub Hash : Type 0
  pub hash_set : Hash → Bytes → Bytes → Result Hash
  pub hash_get : Hash → Bytes → Option Bytes
  pub get-set :
      (h h' : Hash) (key value : Bytes)
      → hash_set h key value ≡ ok h'
      → (name : Bytes) → hash_get h' name ≡ (if key =ₛ name then some value else hash_get h name)

abbrev pub quote : ℕ
quote = 39

abbrev pub double_quote : ℕ
double_quote = 34

-- isspace and isalnum in the C locale
abbrev pub is_space : ℕ → Bool
is_space c = c == 32 || leb 9 c && leb c 13

abbrev pub is_name_char : ℕ → Bool
is_name_char c =
    leb b'a' c && leb c b'z' || leb b'A' c && leb c b'Z' || leb b'0' c && leb c b'9' || c == b'_'

unfoldable pub skip_spaces : Bytes → Bytes
skip_spaces [] = []
skip_spaces (c ∷ str) = elim (is_space c) [ true ↦ skip_spaces str | false ↦ c ∷ str ]

-- What `get_name` returns: 0 at the end of the string, the name with what follows its `=`, or an
-- error.
pub data Name : Type 0 where
  at_end : Name
  found : Bytes → Bytes → Name
  bad_name : Name

abbrev nonempty_name : Bytes → Bytes → Name
nonempty_name [] str = bad_name
nonempty_name (c ∷ name) str = found (c ∷ name) str

-- the loop of `get_name`; the characters read so far are `name`
unfoldable pub scan_name : Bytes → Bytes → Name
scan_name name [] = bad_name
scan_name name (c ∷ str) = elim (is_name_char c) [
  | true ↦ scan_name (name ++ c ∷ []) str
  | false ↦ if c == b'=' then nonempty_name name str else bad_name
]

abbrev start_name : Bytes → Name
start_name [] = at_end
start_name (c ∷ str) = scan_name [] (c ∷ str)

unfoldable pub get_name : Bytes → Name
unfolding skip_spaces scan_name
get_name str = start_name (skip_spaces str)

-- The loop of `get_value`, with the value read so far; it stops behind the closing character, or
-- at the end of the string.
unfoldable pub scan_value : ℕ → Bool → Bytes → Bytes → Bytes × Bytes
scan_value end_of_string escaped value [] = (value, [])
scan_value end_of_string true value (c ∷ str) = scan_value end_of_string false (value ++ c ∷ []) str
scan_value end_of_string false value (c ∷ str) = elim (c == backslash) [
  | true ↦ scan_value end_of_string true value str
  | false ↦ elim (c == end_of_string) [
    | true ↦ (value, str)
    | false ↦ scan_value end_of_string false (value ++ c ∷ []) str
  ]
]

abbrev check_closed : ℕ → Bytes × Bytes → Result (Bytes × Bytes)
check_closed end_of_string (value, []) =
    if end_of_string == quote || end_of_string == double_quote
    then err invalid_settings_string
    else ok (value, [])
check_closed end_of_string (value, c ∷ str) = ok (value, c ∷ str)

-- The value at the head of the string, and what is left of it.
unfoldable pub get_value : Bytes → Result (Bytes × Bytes)
unfolding scan_value
get_value [] = check_closed b' ' (scan_value b' ' false [] [])
get_value (c ∷ str) =
    if c == quote || c == double_quote
    then check_closed c (scan_value c false [] str)
    else check_closed b' ' (scan_value b' ' false [] (c ∷ str))

module _ (lib : HashLib) where
  open lib use {Hash, hash_set, hash_get}

  -- The loop of `preludedb_sql_settings_set_from_string`. The table keeps the settings that were
  -- stored before an error. `none`: the fuel ran out, which has no counterpart in the program.
  unfoldable pub read_settings : ℕ → Hash → Bytes → Option (Result (Unit {0}) × Hash)
  read_settings zero h str = none
  read_settings (suc f) h str = elim (get_name str) [
    | at_end ↦ some (ok tt, h)
    | bad_name ↦ some (err invalid_settings_string, h)
    | found name rest ↦ elim (get_value rest) [
      | err e ↦ some (err e, h)
      | ok (value, rest') ↦ elim (hash_set h name value) [
        | err e ↦ some (err e, h)
        | ok h' ↦ read_settings f h' rest'
      ]
    ]
  ]

  -- `preludedb_sql_settings_set_from_string`: a round reads two characters at least.
  unfoldable pub set_from_string : Hash → Bytes → Option (Result (Unit {0}) × Hash)
  unfolding read_settings
  set_from_string h str = read_settings (suc (length str)) h str

  pub set_from_string_lem :
      (h : Hash) (str : Bytes) → set_from_string h str ≡ read_settings (suc (length str)) h str
  unfolding set_from_string
  set_from_string_lem h str = refl

  -- `preludedb_sql_settings_set` and `preludedb_sql_settings_get`
  pub settings_set : Hash → Bytes → Bytes → Result Hash
  settings_set h name value = hash_set h name value

  pub settings_get : Hash → Bytes → Option Bytes
  settings_get h name = hash_get h name
