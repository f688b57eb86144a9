-- ===== src/SqlPlugins/Operators.antt =====
-- The operators that the SQL plugins write, found in their tables.
use libpreludedb.Base.{
  ℕ, zero, suc, ◌≡◌, ◌≢◌, refl, ap, sym, Bool, true, false, some, List, [], ◌∷◌, ◌++◌, map, Bytes,
  text, ◌==◌, get_elem?, All, AreDistinct, All-get_elem?, some_same, arith, ◌||◌, ◌&&◌, not,
  Bool-cases, inl, inr,
}
use libpreludedb.SqlPlugins.{OperatorCodes, search_operator}
use libpreludedb.SqlPlugins.Mysql

abbrev codes_of : List (ℕ × Bytes) → List ℕ
codes_of tbl = map (λ entry. entry.0) tbl

-- An entry of a table is found by its operator, if no operator is there twice, and none is 0.
search_operator-at :
    (tbl : List (ℕ × Bytes)) (i : ℕ) {code : ℕ} {name : Bytes}
    → All (λ c. (0 == c) ≡ false) (codes_of tbl)
    → AreDistinct (codes_of tbl)
    → get_elem? tbl i ≡ some (code, name)
    → search_operator code tbl ≡ some name
unfolding search_operator
search_operator-at [] i z d e = absurd (cc)
search_operator-at ((c, s) ∷ tbl) zero {code} {name} z d e =
    let code_same : c ≡ code = ap (λ x. x.0) (some_same e) in
    let name_same : s ≡ name = ap (λ x. x.1) (some_same e) in
    rw (sym code_same, sym name_same) (ground arith)
search_operator-at ((c, s) ∷ tbl) (suc i) {code} z d e =
    let other : (c == code) ≡ false =
      All-get_elem? (λ y. (c == y) ≡ false) (λ x. x.0) tbl i d.0 e in
    let rest = search_operator-at tbl i z.1 d.1 e in ground arith

abbrev is_among : ℕ → List ℕ → Bool
is_among x [] = false
is_among x (y ∷ ys) = x == y || is_among x ys

abbrev are_distinct : List ℕ → Bool
are_distinct [] = true
are_distinct (x ∷ xs) = not (is_among x xs) && are_distinct xs

All-is_among : (x : ℕ) (xs : List ℕ) → is_among x xs ≡ false → All (λ y. (x == y) ≡ false) xs
All-is_among x [] h = tt
All-is_among x (y ∷ ys) h = elim (Bool-cases (x == y)) [
  | inl e ↦ absurd (cc (h, ap (λ b. b || is_among x ys) e))
  | inr e ↦ (e, All-is_among x ys (rw e at h))
]

AreDistinct-are_distinct : (xs : List ℕ) → are_distinct xs ≡ true → AreDistinct xs
AreDistinct-are_distinct [] h = tt
AreDistinct-are_distinct (x ∷ xs) h = elim (Bool-cases (is_among x xs)) [
  | inl e ↦ absurd (cc (h, ap (λ b. not b && are_distinct xs) e))
  | inr e ↦ (All-is_among x xs e, AreDistinct-are_distinct xs (rw e at h))
]

-- The codes of MySQL's table differ from each other and from 0.
abbrev pub HaveCodes : OperatorCodes → Type 0
HaveCodes codes = are_distinct (0 ∷ codes_of (Mysql.operator_table codes)) ≡ true

mysql-at :
    (codes : OperatorCodes) (i : ℕ) {code : ℕ} {name : Bytes}
    → HaveCodes codes
    → get_elem? (Mysql.operator_table codes) i ≡ some (code, name)
    → Mysql.get_operator_string codes code ≡ some name
unfolding Mysql.get_operator_string
mysql-at codes i h e =
    let distinct = AreDistinct-are_distinct (0 ∷ codes_of (Mysql.operator_table codes)) h in
    search_operator-at (Mysql.operator_table codes) i distinct.0 distinct.1 e

-- The names of the negated operators on patterns are the word NOT and the name of an operator. With
-- LIKE it is the one that is negated, up to a blank; with regular expressions the two that respect
-- and ignore the case are exchanged: MySQL is asked for a match without regard to the case where the
-- negation that respects it is meant, and conversely.
pub mysql_not_regex :
    (codes : OperatorCodes)
    → HaveCodes codes
    → (like like_nocase regex regex_nocase : Bytes) × (Mysql.get_operator_string codes codes.substr
        ≡ some like)
      × (Mysql.get_operator_string codes codes.not_substr ≡ some (text "NOT " ++ like))
      × (Mysql.get_operator_string codes codes.substr_nocase ≡ some like_nocase)
      × (Mysql.get_operator_string codes codes.not_substr_nocase
          ≡ some (text "NOT " ++ (like_nocase ++ text " ")))
      × (Mysql.get_operator_string codes codes.regex ≡ some regex)
      × (Mysql.get_operator_string codes codes.regex_nocase ≡ some regex_nocase)
      × (Mysql.get_operator_string codes codes.not_regex ≡ some (text "NOT " ++ regex_nocase))
      × (Mysql.get_operator_string codes codes.not_regex_nocase ≡ some (text "NOT " ++ regex))
      × (regex ≢ regex_nocase)
unfolding text
mysql_not_regex codes h = (
  text "LIKE BINARY",
  text "LIKE",
  text "REGEXP BINARY",
  text "REGEXP",
  mysql-at codes 8 h refl,
  mysql-at codes 10 h refl,
  mysql-at codes 9 h refl,
  mysql-at codes 11 h refl,
  mysql-at codes 12 h refl,
  mysql-at codes 13 h refl,
  mysql-at codes 14 h refl,
  mysql-at codes 15 h refl,
  λ e. cc e,
)
