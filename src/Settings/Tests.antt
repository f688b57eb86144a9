-- ===== src/Settings/Tests.antt =====
-- Runs of src/preludedb-sql-settings.c, and its theorems at concrete strings.
use libpreludedb.Base.{
  ◌≡◌, ◌≢◌, refl, Option, none, some, List, [], ◌∷◌, ◌++◌, Bytes, Result, ok, err,
  invalid_settings_string, ◌=ₛ◌, if◌then◌else◌,
}
use libpreludedb.Settings.{
  HashLib, backslash, quote, set_from_string, get_name, get_value, settings_get,
}
use libpreludedb.Settings.Scan.{IsName}
use libpreludedb.Settings.RoundTrip.{
  render, HasNames, store_all, last_value, set_from_string-render, get-set_from_string,
}
use libpreludedb.Settings.Total.{set_from_string_total}

-- a hash table as an association list
abbrev Assoc : Type 0
Assoc = List (Bytes × Bytes)

assoc_get : Assoc → Bytes → Option Bytes
assoc_get [] name = none
assoc_get ((key, value) ∷ h) name = if key =ₛ name then some value else assoc_get h name

get-set_assoc :
    (h h' : Assoc) (key value : Bytes)
    → ◌≡◌ {A = Result Assoc} (ok ((key, value) ∷ h)) (ok h')
    → (name : Bytes) → assoc_get h' name ≡ (if key =ₛ name then some value else assoc_get h name)
unfolding assoc_get
get-set_assoc h h' key value e name = let e' : h' ≡ (key, value) ∷ h = cc in rw e'

abbrev assoc_lib : HashLib
assoc_lib = record {
  Hash = Assoc;
  hash_set = λ h key value. ok ((key, value) ∷ h);
  hash_get = assoc_get;
  get-set = get-set_assoc;
}

-- host, pass and two values, one with a space and one with a quote and a backslash
abbrev host : Bytes
host = b'h' ∷ b'o' ∷ b's' ∷ b't' ∷ []

abbrev pass : Bytes
pass = b'p' ∷ b'a' ∷ b's' ∷ b's' ∷ []

abbrev spaced : Bytes
spaced = b's' ∷ b' ' ∷ b'e' ∷ []

abbrev quoted : Bytes
quoted = b's' ∷ quote ∷ backslash ∷ b'e' ∷ []

abbrev settings : List (Bytes × Bytes)
settings = (host, spaced) ∷ (pass, quoted) ∷ (host, pass) ∷ []

host-IsName : IsName host
host-IsName = (refl, (refl, (refl, (refl, tt))))

settings-HasNames : HasNames settings
settings-HasNames = (host-IsName, ((refl, (refl, (refl, (refl, tt)))), (host-IsName, tt)))

abbrev stored : Assoc
stored = (host, pass) ∷ (pass, quoted) ∷ (host, spaced) ∷ []

store_all_runs : store_all assoc_lib [] settings ≡ (ok tt, stored)
unfolding store_all
store_all_runs = refl

render_reads : set_from_string assoc_lib [] (render settings []) ≡ some (ok tt, stored)
unfolding render set_from_string get_name get_value
render_reads = refl

-- a quoted value that a space follows, and one at the end of the string
quoted_then_space :
    set_from_string assoc_lib [] (host ++ b'=' ∷ quote ∷ b'a' ∷ quote ∷ b' ' ∷ [])
    ≡ some (ok tt, (host, b'a' ∷ []) ∷ [])
unfolding set_from_string get_name get_value
quoted_then_space = refl

quoted_then_end :
    set_from_string assoc_lib [] (host ++ b'=' ∷ quote ∷ b'a' ∷ quote ∷ [])
    ≡ some (err invalid_settings_string, [])
unfolding set_from_string get_name get_value
quoted_then_end = refl

no_equal_sign :
    set_from_string assoc_lib [] (host ++ b' ' ∷ []) ≡ some (err invalid_settings_string, [])
unfolding set_from_string get_name get_value
no_equal_sign = refl

set_from_string-render_example :
    set_from_string assoc_lib [] (render settings []) ≡ some (store_all assoc_lib [] settings)
set_from_string-render_example = set_from_string-render assoc_lib [] settings settings-HasNames

get-set_from_string_example :
    settings_get assoc_lib stored host ≡ last_value host (settings_get assoc_lib [] host) settings
get-set_from_string_example =
    get-set_from_string assoc_lib [] stored settings host settings-HasNames render_reads

set_from_string_total_example : set_from_string assoc_lib [] quoted ≢ none
set_from_string_total_example = set_from_string_total assoc_lib [] quoted
