-- ===== src/Settings/Scan.antt =====
-- The scanners of src/preludedb-sql-settings.c on a setting that is written out.
use libpreludedb.Base.{
  ℕ, ◌≡◌, ◌≢◌, sym, refl, ◌∙◌, true, false, ◌||◌, [], ◌∷◌, ◌++◌, Bytes, append_assoc, append-nil,
  All, arith, ok, err, invalid_settings_string, ◌==◌, if◌then◌else◌, Bool-cases, inl, inr,
}
use libpreludedb.Settings.{
  backslash, quote, is_space, is_name_char, skip_spaces, found, scan_name, get_name, scan_value,
  get_value,
}

-- A name that the reader accepts: letters, digits and underscores, one at least.
abbrev pub IsName : Bytes → Type 0
IsName [] = ⊥
IsName (c ∷ name) = All (λ d. is_name_char d ≡ true) (c ∷ name)

-- A value between single quotes: a quote or a backslash in it is preceded by a backslash.
unfoldable pub escape : Bytes → Bytes
escape [] = []
escape (c ∷ value) =
    if c == backslash || c == quote then backslash ∷ c ∷ escape value else c ∷ escape value

name_char-not_space : (c : ℕ) → is_name_char c ≡ true → is_space c ≡ false
name_char-not_space c h = ground arith

scan_name-char :
    (read : Bytes) (c : ℕ) (str : Bytes)
    → is_name_char c ≡ true
    → scan_name read (c ∷ str) ≡ scan_name (read ++ c ∷ []) str
unfolding scan_name
scan_name-char read c str h = rw (h, scan_name)

scan_name-equal_sign : (read str : Bytes) → read ≢ [] → scan_name read (b'=' ∷ str) ≡ found read str
unfolding scan_name
scan_name-equal_sign [] str ne = absurd (ne refl)
scan_name-equal_sign (c ∷ read) str ne = refl

scan_name-All :
    (read name rest : Bytes)
    → All (λ d. is_name_char d ≡ true) name
    → read ++ name ≢ []
    → scan_name read (name ++ b'=' ∷ rest) ≡ found (read ++ name) rest
scan_name-All read [] rest h ne =
    rw append-nil (scan_name-equal_sign read rest (λ e. ne (append-nil read ∙ e)))
scan_name-All read (c ∷ name) rest h ne =
    scan_name-char read c (name ++ b'=' ∷ rest) h.0
    ∙ rw (← append_assoc read (c ∷ []) name) (
        scan_name-All (read ++ c ∷ []) name rest h.1
          (λ e. ne (sym (append_assoc read (c ∷ []) name) ∙ e)))

pub skip_spaces-name_char :
    (c : ℕ) (str : Bytes) → is_name_char c ≡ true → skip_spaces (c ∷ str) ≡ c ∷ str
unfolding skip_spaces
skip_spaces-name_char c str h = rw (name_char-not_space c h, skip_spaces)

pub get_name-append :
    (name rest : Bytes) → IsName name → get_name (name ++ b'=' ∷ rest) ≡ found name rest
unfolding get_name
get_name-append [] rest h = absurd h
get_name-append (c ∷ name) rest h =
    rw (skip_spaces-name_char c (name ++ b'=' ∷ rest) h.0, get_name)
      (scan_name-All [] (c ∷ name) rest h (cc))

module _ (end_of_string : ℕ) (read : Bytes) (c : ℕ) (str : Bytes) where
  pub scan_value-escaped :
      scan_value end_of_string false read (backslash ∷ c ∷ str)
      ≡ scan_value end_of_string false (read ++ c ∷ []) str
  unfolding scan_value
  scan_value-escaped = refl

  pub scan_value-plain :
      (c == backslash) ≡ false
      → (c == end_of_string) ≡ false
      → scan_value end_of_string false read (c ∷ str)
        ≡ scan_value end_of_string false (read ++ c ∷ []) str
  unfolding scan_value
  scan_value-plain p q = ground arith

  pub scan_value-close :
      (c == backslash) ≡ false
      → (c == end_of_string) ≡ true
      → scan_value end_of_string false read (c ∷ str) ≡ (read, str)
  unfolding scan_value
  scan_value-close p q = ground arith

pub scan_value-escape :
    (read value rest : Bytes)
    → scan_value quote false read (escape value ++ quote ∷ rest) ≡ (read ++ value, rest)
unfolding escape
scan_value-escape read [] rest = rw append-nil (scan_value-close quote read quote rest refl refl)
scan_value-escape read (c ∷ value) rest =
    let more : scan_value quote false (read ++ c ∷ []) (escape value ++ quote ∷ rest)
        ≡ (read ++ c ∷ value, rest) =
      rw (← append_assoc read (c ∷ []) value) (scan_value-escape (read ++ c ∷ []) value rest) in
    let tail = escape value ++ quote ∷ rest in
    elim (Bool-cases (c == backslash || c == quote)) [
      | inl e ↦ rw e (scan_value-escaped quote read c tail ∙ more)
      | inr e ↦ rw e (scan_value-plain quote read c tail (ground arith) (ground arith) ∙ more)
    ]

pub get_value-escape :
    (value : Bytes) (c : ℕ) (rest : Bytes)
    → get_value (quote ∷ (escape value ++ quote ∷ c ∷ rest)) ≡ ok (value, c ∷ rest)
unfolding get_value
get_value-escape value c rest = rw (scan_value-escape [] value (c ∷ rest), get_value)

pub get_value-escape_last :
    (value : Bytes) → get_value (quote ∷ (escape value ++ quote ∷ [])) ≡ err invalid_settings_string
unfolding get_value
get_value-escape_last value = rw (scan_value-escape [] value [], get_value)
