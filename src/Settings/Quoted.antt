-- ===== src/Settings/Quoted.antt =====
-- How src/preludedb-sql-settings.c reads the last setting of a string, which no space follows.
use libpreludedb.Base.{
  ℕ, zero, suc, ◌-◌, ◌<◌, length-append, ◌≡◌, refl, ◌∙◌, false, some, List, [], ◌∷◌, ◌++◌, Bytes,
  append_assoc, append-nil, All, arith, length, ok, err, Error, invalid_settings_string, ◌==◌,
}
use libpreludedb.Settings.{
  HashLib, found, backslash, quote, double_quote, get_name, scan_value, get_value, read_settings,
  set_from_string, set_from_string_lem,
}
use libpreludedb.Settings.Scan.{
  IsName, escape, get_name-append, get_value-escape_last, scan_value-plain,
}
use libpreludedb.Settings.RoundTrip.{
  render, HasNames, store_all, go_on, read_settings-render, length-render,
}

abbrev pub IsPlainChar : ℕ → Type 0
IsPlainChar c = ((c == backslash) ≡ false) × ((c == b' ') ≡ false)

-- A value that needs no quotes: no space and no backslash in it, and no quote at its head.
abbrev pub IsPlain : Bytes → Type 0
IsPlain [] = Unit
IsPlain (c ∷ value) =
    ((c == quote) ≡ false) × ((c == double_quote) ≡ false) × All IsPlainChar (c ∷ value)

scan_value-All :
    (read value : Bytes)
    → All IsPlainChar value
    → scan_value b' ' false read value ≡ (read ++ value, [])
unfolding scan_value
scan_value-All read [] h = rw append-nil refl
scan_value-All read (c ∷ value) h =
    scan_value-plain b' ' read c value h.0.0 h.0.1
    ∙ rw (← append_assoc read (c ∷ []) value) (scan_value-All (read ++ c ∷ []) value h.1)

get_value-IsPlain : (value : Bytes) → IsPlain value → get_value value ≡ ok (value, [])
unfolding get_value
get_value-IsPlain [] h = refl
get_value-IsPlain (c ∷ value) h = rw (h.0, h.1, scan_value-All [] (c ∷ value) h.2, get_value)

module _ (lib : HashLib) where
  open lib use {Hash, hash_set}

  read_settings-nil : (f : ℕ) (h : Hash) → 0 < f → read_settings lib f h [] ≡ some (ok tt, h)
  unfolding read_settings get_name
  read_settings-nil zero h p = elim p [ ]
  read_settings-nil (suc f) h p = refl

  module _ (f : ℕ) (h : Hash) (str : Bytes) {name rest : Bytes}
      (e : get_name str ≡ found name rest) where
    read_settings-bad_value :
        {error : Error}
        → get_value rest ≡ err error
        → read_settings lib (suc f) h str ≡ some (err error, h)
    unfolding read_settings
    read_settings-bad_value bad = rw (e, bad, read_settings)

    read_settings-stored :
        {value rest' : Bytes} {h' : Hash}
        → get_value rest ≡ ok (value, rest')
        → hash_set h name value ≡ ok h'
        → read_settings lib (suc f) h str ≡ read_settings lib f h' rest'
    unfolding read_settings
    read_settings-stored good stored = rw (e, good, stored, read_settings)

  -- What a string made of written settings and one more text comes to.
  set_from_string-go_on :
      (h : Hash) (settings : List (Bytes × Bytes)) (rest : Bytes)
      → HasNames settings
      → set_from_string lib h (render settings rest)
        ≡ go_on lib
            (suc (length (render settings rest) - length settings))
            (store_all lib h settings)
            rest
  set_from_string-go_on h settings rest n =
      set_from_string_lem lib h (render settings rest)
      ∙ read_settings-render lib settings (suc (length (render settings rest)))
          (suc (length (render settings rest) - length settings)) h rest n
          (omega (arith, length-render settings rest))

  -- A quoted value that ends the string is refused, although its quotes are closed: whatever the
  -- settings, the name and the value, the string `name='value'` with nothing behind it is an
  -- error, and the table keeps the settings before it.
  pub set_from_string-quoted_end :
      (h h' : Hash) (settings : List (Bytes × Bytes)) (name value : Bytes)
      → HasNames settings
      → IsName name
      → store_all lib h settings ≡ (ok tt, h')
      → set_from_string lib h
          (render settings (name ++ b'=' ∷ quote ∷ (escape value ++ quote ∷ [])))
        ≡ some (err invalid_settings_string, h')
  set_from_string-quoted_end h h' settings name value n is_name stored =
      set_from_string-go_on h settings (name ++ b'=' ∷ quote ∷ (escape value ++ quote ∷ [])) n
      ∙ rw stored (
          read_settings-bad_value _ h' _
            (get_name-append name (quote ∷ (escape value ++ quote ∷ [])) is_name)
            (get_value-escape_last value))

  -- A value without quotes, spaces and backslashes may end the string: it is stored under its
  -- name, behind the settings before it.
  pub set_from_string-plain_end :
      (h h₁ h₂ : Hash) (settings : List (Bytes × Bytes)) (name value : Bytes)
      → HasNames settings
      → IsName name
      → IsPlain value
      → store_all lib h settings ≡ (ok tt, h₁)
      → hash_set h₁ name value ≡ ok h₂
      → set_from_string lib h (render settings (name ++ b'=' ∷ value)) ≡ some (ok tt, h₂)
  set_from_string-plain_end h h₁ h₂ settings name value n is_name plain stored stored' =
      set_from_string-go_on h settings (name ++ b'=' ∷ value) n
      ∙ rw stored (
          read_settings-stored _ h₁ _ (get_name-append name value is_name)
            (get_value-IsPlain value plain) stored')
      ∙ (read_settings-nil (length (render settings (name ++ b'=' ∷ value)) - length settings) h₂ (
          omega (
            arith,
            length-render settings (name ++ b'=' ∷ value),
            length-append name (b'=' ∷ value),
          )))
