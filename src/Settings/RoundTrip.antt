-- ===== src/Settings/RoundTrip.antt =====
-- A settings string that is written from names and values is read back by
-- src/preludedb-sql-settings.c.
use libpreludedb.Base.{
  ◌-◌, ℕ, zero, suc, ◌+◌, ◌≤◌, ◌≡◌, refl, ◌∙◌, ap, Option, some, List, [], ◌∷◌, ◌++◌, Bytes,
  length-append, All, arith, length, Result, ok, err, if◌then◌else◌, ◌=ₛ◌, Result-cases, sym, inl,
  inr,
}
use libpreludedb.Settings.{
  HashLib, quote, get_name, read_settings, set_from_string, set_from_string_lem, settings_get,
}
use libpreludedb.Settings.Scan.{IsName, escape, get_name-append, get_value-escape}

-- The text of one setting: name='value' and a space.
unfoldable pub render_setting : Bytes → Bytes → Bytes → Bytes
unfolding escape
render_setting name value rest = name ++ b'=' ∷ quote ∷ (escape value ++ quote ∷ b' ' ∷ rest)

unfoldable pub render : List (Bytes × Bytes) → Bytes → Bytes
unfolding render_setting
render [] rest = rest
render ((name, value) ∷ settings) rest = render_setting name value (render settings rest)

-- What the settings say of a name: the last value that they give it, or `before`.
pub last_value : Bytes → Option Bytes → List (Bytes × Bytes) → Option Bytes
last_value name before [] = before
last_value name before ((key, value) ∷ settings) =
    last_value name (if key =ₛ name then some value else before) settings

abbrev pub HasNames : List (Bytes × Bytes) → Type 0
HasNames settings = All (λ s. IsName s.0) settings

pub length-render :
    (settings : List (Bytes × Bytes)) (rest : Bytes)
    → length settings + length rest ≤ length (render settings rest)
unfolding render render_setting
length-render [] rest = omega arith
length-render ((name, value) ∷ settings) rest = omega (
  arith,
  length-append name (b'=' ∷ quote ∷ (escape value ++ quote ∷ b' ' ∷ render settings rest)),
  length-append (escape value) (quote ∷ b' ' ∷ render settings rest),
  length-render settings rest,
)

module _ (lib : HashLib) where
  open lib use {Hash, hash_set, hash_get, get-set}

  -- The settings stored one by one, up to the first that the table refuses.
  unfoldable pub store_all : Hash → List (Bytes × Bytes) → Result (Unit {0}) × Hash
  store_all h [] = (ok tt, h)
  store_all h ((name, value) ∷ settings) = elim (hash_set h name value) [
    | err e ↦ (err e, h)
    | ok h' ↦ store_all h' settings
  ]

  -- Reading goes on with `rest` if all were stored.
  abbrev pub go_on : ℕ → Result (Unit {0}) × Hash → Bytes → Option (Result (Unit {0}) × Hash)
  go_on f (ok _, h) rest = read_settings lib f h rest
  go_on f (err e, h) rest = some (err e, h)

  pub read_settings-render_setting :
      (f : ℕ) (h : Hash) (name value rest : Bytes) (c : ℕ)
      → IsName name
      → read_settings lib (suc f) h (name ++ b'=' ∷ quote ∷ (escape value ++ quote ∷ c ∷ rest))
        ≡ elim (hash_set h name value) [
          | err e ↦ some (err e, h)
          | ok h' ↦ read_settings lib f h' (c ∷ rest)
        ]
  unfolding read_settings
  read_settings-render_setting f h name value rest c n = rw (
    get_name-append name (quote ∷ (escape value ++ quote ∷ c ∷ rest)) n,
    get_value-escape value c rest,
    read_settings,
  )

  read_settings-space :
      (f : ℕ) (h : Hash) (rest : Bytes)
      → read_settings lib f h (b' ' ∷ rest) ≡ read_settings lib f h rest
  unfolding read_settings get_name
  read_settings-space zero h rest = refl
  read_settings-space (suc f) h rest = refl

  -- Each setting takes one round, and leaves the fuel `f` for what follows.
  pub read_settings-render :
      (settings : List (Bytes × Bytes)) (fuel f : ℕ) (h : Hash) (rest : Bytes)
      → HasNames settings
      → fuel ≡ length settings + f
      → read_settings lib fuel h (render settings rest) ≡ go_on f (store_all h settings) rest
  unfolding render store_all
  read_settings-render [] fuel f h rest n e =
      let e' : fuel ≡ f = omega arith in ap (λ k. read_settings lib k h rest) e'
  read_settings-render ((name, value) ∷ settings) zero f h rest n e = absurd (omega arith)
  read_settings-render ((name, value) ∷ settings) (suc fuel) f h rest n e =
      read_settings-render_setting fuel h name value (render settings rest) b' ' n.0
      ∙ next (hash_set h name value)
          (λ h'. read_settings-render settings fuel f h' rest n.1 (omega arith))
    where
      next :
          (stored : Result Hash)
          → ((h' : Hash)
              → read_settings lib fuel h' (render settings rest)
                ≡ go_on f (store_all h' settings) rest)
          → (elim stored [
            | err e ↦ some (err e, h)
            | ok h' ↦ read_settings lib fuel h' (b' ' ∷ render settings rest)
          ])
            ≡ go_on f (elim stored [ err e ↦ (err e, h) | ok h' ↦ store_all h' settings ]) rest
      next (err e) ih = refl
      next (ok h') ih = read_settings-space fuel h' (render settings rest) ∙ ih h'

  -- The settings of `render`, stored in a table that takes them, are answered by it.
  store_all-get :
      (h h' : Hash) (settings : List (Bytes × Bytes)) (name : Bytes)
      → store_all h settings ≡ (ok tt, h')
      → settings_get lib h' name ≡ last_value name (settings_get lib h name) settings
  unfolding store_all settings_get last_value
  store_all-get h h' [] name e = ap (λ (r : Result (Unit {0}) × Hash). hash_get r.1 name) (sym e)
  store_all-get h h' ((key, value) ∷ settings) name e = elim (Result-cases (hash_set h key value)) [
    | inr (_, failed) ↦ cc (rw (failed, store_all) at e)
    | inl (h₁, stored) ↦
        rw (← get-set h h₁ key value stored name)
          (store_all-get h₁ h' settings name (rw (stored, store_all) at e))
  ]

  go_on-nil : (f : ℕ) (r : Result (Unit {0}) × Hash) → go_on (suc f) r [] ≡ some r
  unfolding read_settings get_name
  go_on-nil f (ok tt, h) = refl
  go_on-nil f (err e, h) = refl

  -- A string written from names and quoted values, with a space behind every value, the last one
  -- too, is read back: the settings are stored one by one, in order, up to the first that the table
  -- refuses.
  pub set_from_string-render :
      (h : Hash) (settings : List (Bytes × Bytes))
      → HasNames settings
      → set_from_string lib h (render settings []) ≡ some (store_all h settings)
  set_from_string-render h settings n =
      set_from_string_lem lib h (render settings [])
      ∙ read_settings-render settings (suc str) (suc (str - length settings)) h [] n
          (omega (arith, length-render settings []))
      ∙ go_on-nil (str - length settings) (store_all h settings)
    where
      str : ℕ
      str = length (render settings [])

  -- After a string written from names and quoted values, with a space behind every value, the last
  -- one too, was read without an error, the table answers for every name the last
  -- value that the settings give it, and what it answered before if they do not name it.
  pub get-set_from_string :
      (h h' : Hash) (settings : List (Bytes × Bytes)) (name : Bytes)
      → HasNames settings
      → set_from_string lib h (render settings []) ≡ some (ok tt, h')
      → settings_get lib h' name ≡ last_value name (settings_get lib h name) settings
  get-set_from_string h h' settings name n e =
      store_all-get h h' settings name (cc (set_from_string-render h settings n))
