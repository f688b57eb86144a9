-- ===== src/Criteria/Like.antt =====
-- The patterns of src/preludedb-sql.c: an IDMEF pattern, where `*` stands for any text, is turned
-- into a pattern of SQL's LIKE, where `%` does and `_` stands for any character. In the IDMEF
-- pattern a backslash takes the meaning from the character behind it; in LIKE it does so in MySQL
-- and PostgreSQL, but not in SQLite, whose LIKE has no escape unless the statement names one.
use libpreludedb.Base.{
  backslash, ℕ, ◌≡◌, refl, ap, ◌∙◌, sym, Bool, true, false, not, ◌&&◌, some, List, [], ◌∷◌, ◌++◌,
  Bytes, ok, text, ◌==◌, if◌then◌else◌, arith, append_assoc, append-nil, map, All, Bool-cases, inl,
  inr,
}
use libpreludedb.Idmef.{StringLib, IsAmple, cat_unchecked}
use libpreludedb.Criteria.{like_round, like_loop, like_value}

-- What a pattern consists of.
pub data Piece : Type 0 where
  any_string any_char : Piece
  literal : ℕ → Piece

abbrev pub glob_piece : ℕ → Piece
glob_piece c = if c == b'*' then any_string else literal c

abbrev pub sql_piece : ℕ → Piece
sql_piece c = if c == b'%' then any_string else (if c == b'_' then any_char else literal c)

-- The pieces of a pattern, where `piece` is what a character means that is not escaped.
unfoldable pub pieces : (ℕ → Piece) → Bool → Bytes → List Piece
pieces piece true [] = literal backslash ∷ []
pieces piece false [] = []
pieces piece true (c ∷ pattern) = literal c ∷ pieces piece false pattern
pieces piece false (c ∷ pattern) = elim (c == backslash) [
  | true ↦ pieces piece true pattern
  | false ↦ piece c ∷ pieces piece false pattern
]

-- Patterns in which no `%` is escaped, and every `_` is.
abbrev pub IsPortable : Bool → Bytes → Type 0
IsPortable escaped [] = Unit
IsPortable true (c ∷ pattern) = ((c == b'%') ≡ false) × IsPortable false pattern
IsPortable false (c ∷ pattern) = ((c == b'_') ≡ false) × IsPortable (c == backslash) pattern

-- A pattern of LIKE in a database where the backslash escapes, or where it does not.
abbrev pub like_pieces : Bool → Bytes → List Piece
like_pieces true pattern = pieces sql_piece false pattern
like_pieces false pattern = map sql_piece pattern

-- a character that means itself everywhere, or `*`
abbrev pub IsPlain : ℕ → Type 0
IsPlain c = ((c == b'%') ≡ false) × ((c == b'_') ≡ false) × ((c == backslash) ≡ false)

-- Patterns that such a database can read: without an escape, those of plain characters and `*`.
abbrev pub IsPortableTo : Bool → Bytes → Type 0
IsPortableTo true input = IsPortable false input
IsPortableTo false input = All IsPlain input

-- one character of the pattern
unfoldable pub like_piece : Bool → ℕ → Bytes
like_piece escape_next c =
    if c == b'%' then text "\\%" else (if c == b'*' && not escape_next then text "%" else c ∷ [])

unfoldable pub like_text : Bool → Bytes → Bytes
like_text escape_next [] = []
like_text escape_next (c ∷ input) =
    like_piece escape_next c ++ like_text (not escape_next && c == backslash) input

module _ (lib : StringLib) (ample : IsAmple lib) where
  cat_unchecked_lem : (out s : Bytes) → cat_unchecked lib out s ≡ out ++ s
  cat_unchecked_lem out s = rw (ample out s, cat_unchecked)

  like_round_lem : (e : Bool) (c : ℕ) (out : Bytes) → like_round lib e c out ≡ out ++ like_piece e c
  unfolding like_piece
  like_round_lem e c out = elim (Bool-cases (c == b'%')) [
    | inl h ↦ rw h (cat_unchecked_lem out (text "\\%"))
    | inr h ↦ elim (Bool-cases (c == b'*' && not e)) [
      | inl k ↦ rw (h, k) (cat_unchecked_lem out (text "%"))
      | inr k ↦ rw (h, k) (cat_unchecked_lem out (c ∷ []))
    ]
  ]

  like_loop_lem :
      (e : Bool) (input out : Bytes) → like_loop lib e input out ≡ out ++ like_text e input
  unfolding like_loop like_text
  like_loop_lem e [] out = sym (append-nil out)
  like_loop_lem e (c ∷ input) out =
      ap (like_loop lib (not e && c == backslash) input) (like_round_lem e c out)
      ∙ like_loop_lem (not e && c == backslash) input (out ++ like_piece e c)
      ∙ append_assoc out (like_piece e c) (like_text (not e && c == backslash) input)

pieces-like_text :
    (e : Bool) (input : Bytes)
    → IsPortable e input
    → pieces sql_piece e (like_text e input) ≡ pieces glob_piece e input
unfolding pieces like_text like_piece text
pieces-like_text true [] h = refl
pieces-like_text false [] h = refl
pieces-like_text true (c ∷ input) h = ground (arith, pieces-like_text false input h.1)
pieces-like_text false (c ∷ input) h =
    ground (arith, pieces-like_text true input, pieces-like_text false input)

plain-like_text :
    (input : Bytes)
    → All IsPlain input
    → map sql_piece (like_text false input) ≡ pieces glob_piece false input
unfolding pieces like_text like_piece text
plain-like_text [] h = refl
plain-like_text (c ∷ input) h = ground (arith, plain-like_text input h.1, h.0)

portable-like_text :
    (backslash_escapes : Bool) (input : Bytes)
    → IsPortableTo backslash_escapes input
    → like_pieces backslash_escapes (like_text false input) ≡ pieces glob_piece false input
portable-like_text true input h = pieces-like_text false input h
portable-like_text false input h = plain-like_text input h

module _ (lib : StringLib) (ample : IsAmple lib) where
  -- Where memory suffices, a pattern is turned into a pattern of LIKE that consists of the same
  -- pieces: in a database where the backslash escapes, if no `%` in it is escaped and every `_` is;
  -- in one where it does not, if it has no `%`, no `_` and no backslash.
  pub like_value_portable :
      (backslash_escapes : Bool) (input : Bytes)
      → IsPortableTo backslash_escapes input
      → (out : Bytes) × (like_value lib (some input) ≡ ok out)
        × (like_pieces backslash_escapes out ≡ pieces glob_piece false input)
  unfolding like_value
  like_value_portable backslash_escapes input h = (
    like_text false input,
    ap ok (like_loop_lem lib ample false input []),
    portable-like_text backslash_escapes input h,
  )

  -- A database where the backslash does not escape: where memory suffices, a `%` is turned into a
  -- pattern of LIKE that begins with a backslash and any text, though it stands for itself.
  pub like_value_percent :
      (input : Bytes)
      → (pieces glob_piece false (b'%' ∷ input) ≡ literal b'%' ∷ pieces glob_piece false input)
        × ((out : Bytes) × (like_value lib (some (b'%' ∷ input)) ≡ ok out)
            × (like_pieces false out
                ≡ literal backslash ∷ any_string ∷ like_pieces false (like_text false input)))
  unfolding like_value pieces like_text like_piece text
  like_value_percent input = (
    refl,
    (like_text false (b'%' ∷ input), ap ok (like_loop_lem lib ample false (b'%' ∷ input) []), refl),
  )

  -- An escaped `%` is escaped again: where memory suffices, `\%` is turned into a pattern of LIKE
  -- that begins with a backslash and any text, though it stands for a `%`.
  pub like_value_escaped_percent :
      (input : Bytes)
      → (pieces glob_piece false (text "\\%" ++ input)
          ≡ literal b'%' ∷ pieces glob_piece false input)
        × ((out : Bytes) × (like_value lib (some (text "\\%" ++ input)) ≡ ok out)
            × (pieces sql_piece false out
                ≡ literal backslash ∷ any_string ∷ pieces sql_piece false (like_text false input)))
  unfolding like_value pieces like_text like_piece text
  like_value_escaped_percent input = (
    refl,
    (
      like_text false (text "\\%" ++ input),
      ap ok (like_loop_lem lib ample false (text "\\%" ++ input) []),
      refl,
    ),
  )
