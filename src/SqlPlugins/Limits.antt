-- ===== src/SqlPlugins/Limits.antt =====
-- The LIMIT clauses that the SQL plugins write, read in the dialects of the databases.
use mathlib.Core.Option
use libpreludedb.Base.{
  ℕ, zero, suc, ◌<◌, ◌≤◌, ◌^◌, ◌≡◌, refl, ap, ◌∙◌, sym, Bool, true, false, Option, none, some, List,
  [], ◌∷◌, ◌++◌, Bytes, Result, ok, text, ◌==◌, if◌then◌else◌, length, arith, print_nat,
  read_number, read_number-print_nat, starts_number, starts_number-print_nat, is_digit, append-nil,
}
use libpreludedb.Idmef.{ℤ, pos, negsuc, StringLib, IsAmple, print_int}
use libpreludedb.SqlPlugins.Sqlite3
use libpreludedb.SqlPlugins.Pgsql
use libpreludedb.SqlPlugins.Mysql
use libpreludedb.SqlPlugins.Mysql.{uint64_max}

-- The rows that a statement returns: so many are skipped, and so many are kept, or all.
pub record Window : Type 0 where
  pub skip : ℕ
  pub keep : Option ℕ

abbrev pub drop {ℓ} : {A : Type ℓ} → ℕ → List A → List A
drop zero xs = xs
drop (suc n) [] = []
drop (suc n) (x ∷ xs) = drop n xs

abbrev pub take {ℓ} : {A : Type ℓ} → ℕ → List A → List A
take zero xs = []
take (suc n) [] = []
take (suc n) (x ∷ xs) = x ∷ take n xs

abbrev keep_rows {ℓ} : {A : Type ℓ} → Option ℕ → List A → List A
keep_rows none xs = xs
keep_rows (some n) xs = take n xs

abbrev pub rows_in {ℓ} : {A : Type ℓ} → Window → List A → List A
rows_in w xs = keep_rows w.keep (drop w.skip xs)

-- What a limit and an offset ask for: a negative one is disabled.
abbrev limited : ℤ → Option ℕ
limited (pos n) = some n
limited (negsuc n) = none

abbrev skipped : ℤ → ℕ
skipped (pos n) = n
skipped (negsuc n) = 0

abbrev pub window : ℤ → ℤ → Window
window limit offset = record { skip = skipped offset; keep = limited limit }

-- a text behind another one
abbrev strip : Bytes → Bytes → Option Bytes
strip [] s = some s
strip (c ∷ p) [] = none
strip (c ∷ p) (d ∷ s) = if c == d then strip p s else none

abbrev only : Window → Bytes → Option Window
only w [] = some w
only w (c ∷ s) = none

abbrev count_only : ℕ → Option (ℕ × Bytes) → Option Window
count_only skip none = none
count_only skip (some (n, s)) = only (record { skip = skip; keep = some n }) s

-- a count; in SQLite -1 stands for all rows
abbrev counted : Bool → ℕ → Bytes → Option Bytes → Option Window
counted minus skip s none = count_only skip (read_number s)
counted minus skip s (some t) = if minus then only (record { skip = skip; keep = none }) t else none

-- what follows the word LIMIT in SQLite and MySQL: `count`, or `skip, count`
abbrev behind_comma : Bool → ℕ → Option Bytes → Option Window
behind_comma minus skip none = none
behind_comma minus skip (some s) = counted minus skip s (strip (text "-1") s)

abbrev behind_first : Bool → Option (ℕ × Bytes) → Option Window
behind_first minus none = none
behind_first minus (some (n, [])) = some (record { skip = 0; keep = some n })
behind_first minus (some (n, c ∷ s)) = behind_comma minus n (strip (text ", ") (c ∷ s))

abbrev all_rows : Window
all_rows = record { skip = 0; keep = none }

abbrev behind_limit : (Bytes → Option Window) → Bytes → Option Window
behind_limit rest [] = some all_rows
behind_limit rest (c ∷ s) = elim (strip (text " LIMIT ") (c ∷ s)) [ none ↦ none | some t ↦ rest t ]

pub read_sqlite3 : Bytes → Option Window
read_sqlite3 = behind_limit (λ s. behind_first true (read_number s))

pub read_mysql : Bytes → Option Window
read_mysql = behind_limit (λ s. behind_first false (read_number s))

-- in PostgreSQL: `count` or ALL, and then OFFSET `skip`
abbrev skip_only : Option ℕ → Option (ℕ × Bytes) → Option Window
skip_only keep none = none
skip_only keep (some (n, s)) = only (record { skip = n; keep = keep }) s

abbrev behind_keep : Option ℕ → Bytes → Option Window
behind_keep keep [] = some (record { skip = 0; keep = keep })
behind_keep keep (c ∷ s) = elim (strip (text " OFFSET ") (c ∷ s)) [
  | none ↦ none
  | some t ↦ skip_only keep (read_number t)
]

abbrev behind_count : Option (ℕ × Bytes) → Option Window
behind_count none = none
behind_count (some (n, s)) = behind_keep (some n) s

abbrev kept : Bytes → Option Bytes → Option Window
kept s none = behind_count (read_number s)
kept s (some t) = behind_keep none t

pub read_pgsql : Bytes → Option Window
read_pgsql = behind_limit (λ s. kept s (strip (text "ALL") s))

-- A clause is written behind a text, and the database that reads it keeps the rows that the limit
-- and the offset ask for.
abbrev pub Keeps {ℓ} :
    {A : Type ℓ}
    → (ℤ → ℤ → Bytes → Result Bytes)
    → (Bytes → Option Window)
    → ℤ
    → ℤ
    → Bytes
    → List A
    → Type ℓ
Keeps build read limit offset out rows =
    (clause : Bytes) × (build limit offset out ≡ ok (out ++ clause))
    × (Option.map (λ w. rows_in w rows) (read clause) ≡ some (rows_in (window limit offset) rows))

take_all {ℓ} : {A : Type ℓ} (n : ℕ) (xs : List A) → length xs ≤ n → take n xs ≡ xs
take_all zero [] h = refl
take_all zero (x ∷ xs) h = absurd (omega arith)
take_all (suc n) [] h = refl
take_all (suc n) (x ∷ xs) h = ap (λ ys. x ∷ ys) (take_all n xs (omega arith))

length-drop {ℓ} : {A : Type ℓ} (n : ℕ) (xs : List A) → length (drop n xs) ≤ length xs
length-drop zero xs = omega arith
length-drop (suc n) [] = omega arith
length-drop (suc n) (x ∷ xs) = omega (arith, length-drop n xs)

-- what begins with a digit does not begin with another byte
strip_number :
    (c : ℕ) (p s : Bytes) → is_digit c ≡ false → starts_number s ≡ true → strip (c ∷ p) s ≡ none
strip_number c p [] h d = refl
strip_number c p (e ∷ s) h d = ground arith

read_last : (n : ℕ) → read_number (print_nat n) ≡ some (n, [])
read_last n = ap read_number (sym (append-nil (print_nat n))) ∙ read_number-print_nat n [] refl

starts_last : (n : ℕ) → starts_number (print_nat n) ≡ true
starts_last n = ap starts_number (sym (append-nil (print_nat n))) ∙ starts_number-print_nat n []

-- `skip, count`, read
read_pair :
    (minus : Bool) (skip count : ℕ)
    → behind_first minus (read_number (print_nat skip ++ (text ", " ++ print_nat count)))
      ≡ some (record { skip = skip; keep = some count })
unfolding text
read_pair minus skip count = rw (read_number-print_nat skip (text ", " ++ print_nat count) refl) (
    ap (counted minus skip (print_nat count))
      (strip_number 45 (text "1") (print_nat count) refl (starts_last count))
    ∙ ap (count_only skip) (read_last count))

read_one :
    (minus : Bool) (count : ℕ)
    → behind_first minus (read_number (print_nat count))
      ≡ some (record { skip = 0; keep = some count })
read_one minus count = rw (read_last count)

module _ (lib : StringLib) (ample : IsAmple lib) where
  sqlite3-Keeps {ℓ} :
      {A : Type ℓ} (limit offset : ℤ) (out : Bytes) (rows : List A)
      → Keeps (Sqlite3.build_limit_offset_string lib) read_sqlite3 limit offset out rows
  unfolding Sqlite3.build_limit_offset_string read_sqlite3 text print_int
  sqlite3-Keeps (pos limit) (pos offset) out rows =
      (_, ample out _, ap (Option.map (λ w. rows_in w rows)) (read_pair true offset limit))
  sqlite3-Keeps (pos limit) (negsuc n) out rows =
      (_, ample out _, ap (Option.map (λ w. rows_in w rows)) (read_one true limit))
  sqlite3-Keeps (negsuc n) (pos offset) out rows =
      (_, ample out _, rw (read_number-print_nat offset (text ", -1") refl))
  sqlite3-Keeps (negsuc n) (negsuc m) out rows = ([], ap ok (sym (append-nil out)), refl)

  mysql-Keeps {ℓ} :
      {A : Type ℓ} (limit offset : ℤ) (out : Bytes) (rows : List A)
      → length rows < 2 ^ 64
      → Keeps (Mysql.build_limit_offset_string lib) read_mysql limit offset out rows
  unfolding Mysql.build_limit_offset_string read_mysql text print_int
  mysql-Keeps (pos limit) (pos offset) out rows h =
      (_, ample out _, ap (Option.map (λ w. rows_in w rows)) (read_pair false offset limit))
  mysql-Keeps (pos limit) (negsuc n) out rows h =
      (_, ample out _, ap (Option.map (λ w. rows_in w rows)) (read_one false limit))
  mysql-Keeps (negsuc n) (pos offset) out rows h = (
    _,
    ample out _,
    ap (Option.map (λ w. rows_in w rows)) (read_pair false offset uint64_max)
        ∙ ap some (take_all uint64_max (drop offset rows) (omega (arith, length-drop offset rows))),
  )
  mysql-Keeps (negsuc n) (negsuc m) out rows h = ([], ap ok (sym (append-nil out)), refl)

  pgsql-Keeps {ℓ} :
      {A : Type ℓ} (limit offset : ℤ) (out : Bytes) (rows : List A)
      → Keeps (Pgsql.build_limit_offset_string lib) read_pgsql limit offset out rows
  unfolding Pgsql.build_limit_offset_string read_pgsql text print_int
  pgsql-Keeps (pos limit) (pos offset) out rows =
      let rest = text " OFFSET " ++ print_nat offset in
      let s = print_nat limit ++ rest in
      (
        _,
        ample out _,
        ap (Option.map (λ w. rows_in w rows)) (
            ap (kept s) (strip_number 65 (text "LL") s refl (starts_number-print_nat limit rest))
            ∙ ap behind_count (read_number-print_nat limit rest refl)
            ∙ ap (skip_only (some limit)) (read_last offset)),
      )
  pgsql-Keeps (pos limit) (negsuc n) out rows = (
    _,
    ample out _,
    ap (Option.map (λ w. rows_in w rows)) (
        ap (kept (print_nat limit))
          (strip_number 65 (text "LL") (print_nat limit) refl (starts_last limit))
        ∙ ap behind_count (read_last limit)),
  )
  pgsql-Keeps (negsuc n) (pos offset) out rows = (_, ample out _, rw (read_last offset))
  pgsql-Keeps (negsuc n) (negsuc m) out rows = ([], ap ok (sym (append-nil out)), refl)

  -- Where memory suffices, each of the three plugins writes a clause for a limit and an offset, that
  -- its database reads as these: so many rows are skipped, and so many of the others are kept, or
  -- all; a negative number asks for nothing. There are fewer rows than 2 ^ 64.
  pub limit_offset-Keeps {ℓ} :
      {A : Type ℓ} (limit offset : ℤ) (out : Bytes) (rows : List A)
      → length rows < 2 ^ 64
      → Keeps (Sqlite3.build_limit_offset_string lib) read_sqlite3 limit offset out rows
        × Keeps (Pgsql.build_limit_offset_string lib) read_pgsql limit offset out rows
        × Keeps (Mysql.build_limit_offset_string lib) read_mysql limit offset out rows
  limit_offset-Keeps limit offset out rows h = (
    sqlite3-Keeps limit offset out rows,
    pgsql-Keeps limit offset out rows,
    mysql-Keeps limit offset out rows h,
  )
