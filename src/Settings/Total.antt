-- ===== src/Settings/Total.antt =====
-- The loop of src/preludedb-sql-settings.c ends on every string.
use libpreludedb.Base.{
  ℕ, zero, suc, ◌≤◌, ◌<◌, ◌≡◌, ◌≢◌, refl, Bool, true, false, ◌||◌, some, none, [], ◌∷◌, ◌++◌, Bytes,
  arith, length, Result, ok, err, invalid_settings_string, ◌==◌, Bool-cases, Result-cases, inl, inr,
}
use libpreludedb.Settings.{
  HashLib, quote, double_quote, is_name_char, skip_spaces, Name, start_name, at_end, found,
  bad_name, scan_name, get_name, scan_value, get_value, check_closed, read_settings,
  set_from_string, set_from_string_lem,
}

-- What is left behind a name is shorter than `n`.
abbrev LeavesLess : ℕ → Name → Type 0
LeavesLess n (found name rest) = length rest < n
LeavesLess n _ = Unit

abbrev LeavesAtMost : ℕ → Result (Bytes × Bytes) → Type 0
LeavesAtMost n (ok (value, rest)) = length rest ≤ n
LeavesAtMost n (err e) = Unit

length-skip_spaces : (str : Bytes) → length (skip_spaces str) ≤ length str
unfolding skip_spaces
length-skip_spaces [] = omega arith
length-skip_spaces (c ∷ str) = ground (arith, length-skip_spaces str)

scan_name-LeavesLess :
    (n : ℕ) (read str : Bytes) → length str ≤ n → LeavesLess n (scan_name read str)
unfolding scan_name
scan_name-LeavesLess n read [] h = tt
scan_name-LeavesLess n read (c ∷ str) h = elim (Bool-cases (is_name_char c)) [
  | inl e ↦ rw (e, scan_name) (scan_name-LeavesLess n (read ++ c ∷ []) str (omega arith))
  | inr e ↦
      rw (e, scan_name)
        (elim (Bool-cases (c == b'=')) [ inl e' ↦ rw e' (close read) | inr e' ↦ rw e' tt ])
]
  where
    close : (read : Bytes) → LeavesLess n (scan_name read (b'=' ∷ str))
    close [] = tt
    close (d ∷ read) = omega arith

get_name-LeavesLess : (str : Bytes) → LeavesLess (length str) (get_name str)
unfolding get_name
get_name-LeavesLess str = start (skip_spaces str) (length-skip_spaces str)
  where
    start : (rest : Bytes) → length rest ≤ length str → LeavesLess (length str) (start_name rest)
    start [] h = tt
    start (c ∷ rest) h = scan_name-LeavesLess (length str) [] (c ∷ rest) h

length-scan_value :
    (end_of_string : ℕ) (escaped : Bool) (value str : Bytes)
    → length (scan_value end_of_string escaped value str).1 ≤ length str
unfolding scan_value
length-scan_value end_of_string escaped value [] = omega arith
length-scan_value end_of_string true value (c ∷ str) =
    omega (arith, length-scan_value end_of_string false (value ++ c ∷ []) str)
length-scan_value end_of_string false value (c ∷ str) = ground (
  arith,
  length-scan_value end_of_string true value str,
  length-scan_value end_of_string false (value ++ c ∷ []) str,
)

check_closed-LeavesAtMost :
    (end_of_string n : ℕ) (r : Bytes × Bytes)
    → length r.1 ≤ n
    → LeavesAtMost n (check_closed end_of_string r)
check_closed-LeavesAtMost end_of_string n (value, c ∷ rest) h = h
check_closed-LeavesAtMost end_of_string n (value, []) h =
    elim (Bool-cases (end_of_string == quote || end_of_string == double_quote)) [
      | inl e ↦ rw e tt
      | inr e ↦ rw e h
    ]

get_value-LeavesAtMost : (str : Bytes) → LeavesAtMost (length str) (get_value str)
unfolding get_value
get_value-LeavesAtMost [] = omega arith
get_value-LeavesAtMost (c ∷ str) = elim (Bool-cases (c == quote || c == double_quote)) [
  | inl e ↦ rw e (
      check_closed-LeavesAtMost c (suc (length str)) (scan_value c false [] str)
        (omega (arith, length-scan_value c false [] str)))
  | inr e ↦ rw e (
      check_closed-LeavesAtMost b' ' (suc (length str)) (scan_value b' ' false [] (c ∷ str))
        (length-scan_value b' ' false [] (c ∷ str)))
]

module _ (lib : HashLib) where
  open lib use {Hash, hash_set}

  -- A round of the loop stops, or goes on from a shorter string.
  data Round (f : ℕ) (h : Hash) (str : Bytes) : Type 0 where
    stops :
        (r : Result (Unit {0}) × Hash) → read_settings lib (suc f) h str ≡ some r → Round f h str
    goes_on :
        (h' : Hash) (rest : Bytes)
        → length rest < length str
        → read_settings lib (suc f) h str ≡ read_settings lib f h' rest
        → Round f h str

  -- the round, from what `get_name`, `get_value` and the table return
  stored-Round :
      (f : ℕ) (h : Hash) (str : Bytes) {name rest value rest' : Bytes}
      → get_name str ≡ found name rest
      → get_value rest ≡ ok (value, rest')
      → length rest' < length str
      → Round f h str
  unfolding read_settings
  stored-Round f h str {name} {rest} {value} {rest'} p q less =
      elim (Result-cases (hash_set h name value)) [
        | inl (h', s) ↦ goes_on h' rest' less (rw (p, q, s, read_settings))
        | inr (e, s) ↦ stops (err e, h) (rw (p, q, s, read_settings))
      ]

  value-Round :
      (f : ℕ) (h : Hash) (str : Bytes) {name rest : Bytes}
      → get_name str ≡ found name rest
      → length rest < length str
      → Round f h str
  unfolding read_settings
  value-Round f h str {name} {rest} p less = elim (Result-cases (get_value rest)) [
    | inr (e, q) ↦ stops (err e, h) (rw (p, q, read_settings))
    | inl ((value, rest'), q) ↦
        let at_most : length rest' ≤ length rest = rw q at (get_value-LeavesAtMost rest) in
        stored-Round f h str p q (omega arith)
  ]

  round : (f : ℕ) (h : Hash) (str : Bytes) → Round f h str
  unfolding read_settings
  round f h str = go (get_name str) refl
    where
      go : (n : Name) → get_name str ≡ n → Round f h str
      go at_end p = stops (ok tt, h) (rw (p, read_settings))
      go bad_name p = stops (err invalid_settings_string, h) (rw (p, read_settings))
      go (found name rest) p = value-Round f h str p (rw p at (get_name-LeavesLess str))

  read_settings_total :
      (f : ℕ) (h : Hash) (str : Bytes) → length str < f → read_settings lib f h str ≢ none
  read_settings_total zero h str p = elim p [ ]
  read_settings_total (suc f) h str p = go (round f h str) (read_settings_total f)
    where
      go :
          Round f h str
          → ((h' : Hash) (rest : Bytes) → length rest < f → read_settings lib f h' rest ≢ none)
          → read_settings lib (suc f) h str ≢ none
      go (stops r e) ih = rw e (cc)
      go (goes_on h' rest less e) ih = rw e (ih h' rest (omega arith))

  -- The loop ends on every string and every table: one round for each character and one more are
  -- enough, so the reader stores the settings or reports an error.
  pub set_from_string_total : (h : Hash) (str : Bytes) → set_from_string lib h str ≢ none
  set_from_string_total h str =
      rw (set_from_string_lem lib h str)
        (read_settings_total (suc (length str)) h str (omega arith))
