-- ===== src/ClassicCriteria/Reading.antt =====
-- How SQL reads a condition, and what the criteria of a client mean: the independent description of
-- the text that plugins/format/classic/classic-path-resolve.c writes.
use libpreludedb.Base.{◌≡◌, refl, List, [], ◌∷◌, ◌++◌, Bytes, text, Option, none, some}
use libpreludedb.ClassicCriteria.{Criteria, absent, criteria}

-- SQL's truth values, with the NULL of a comparison that has no answer
pub data Truth : Type 0 where
  no yes unknown : Truth

infixl 35 ◌and_also◌
abbrev pub ◌and_also◌ : Truth → Truth → Truth
no and_also b = no
yes and_also b = b
unknown and_also no = no
unknown and_also yes = unknown
unknown and_also unknown = unknown

infixl 30 ◌or_else◌
abbrev pub ◌or_else◌ : Truth → Truth → Truth
no or_else b = b
yes or_else b = yes
unknown or_else no = unknown
unknown or_else yes = yes
unknown or_else unknown = unknown

pub and_also_yes : (a : Truth) → a and_also yes ≡ a
and_also_yes no = refl
and_also_yes yes = refl
and_also_yes unknown = refl

pub or_else_no : (a : Truth) → a or_else no ≡ a
or_else_no no = refl
or_else_no yes = refl
or_else_no unknown = refl

pub and_also_assoc : (a b c : Truth) → a and_also b and_also c ≡ a and_also (b and_also c)
and_also_assoc no b c = refl
and_also_assoc yes b c = refl
and_also_assoc unknown no c = refl
and_also_assoc unknown yes c = refl
and_also_assoc unknown unknown no = refl
and_also_assoc unknown unknown yes = refl
and_also_assoc unknown unknown unknown = refl

-- The pieces of a condition; the tests of single columns are not looked into.
pub data Token : Type 0 where
  test : Bytes → Token
  and_word or_word opening closing : Token

abbrev pub spelling : Token → Bytes
spelling (test t) = t
spelling and_word = text " AND "
spelling or_word = text " OR "
spelling opening = text "("
spelling closing = text ")"

unfoldable pub print : List Token → Bytes
print [] = []
print (t ∷ ts) = spelling t ++ print ts

-- What is read of a group: the disjuncts that are complete, and the conjuncts of the next one.
pub record Frame : Type 0 where
  pub either : Truth
  pub both : Truth

abbrev pub fresh : Frame
fresh = record { either = no; both = yes }

-- SQL's reading of a condition, AND before OR, at the tests of columns that are true under `v`. The
-- first function stands where a test or a group is due, the second one behind it; the groups that
-- are open wait in a list.
unfoldable mutual
  pub operand : (Bytes → Truth) → List Token → List Frame → Frame → Option Truth
  operand v [] groups f = none
  operand v (test t ∷ ts) groups f = operator v ts groups (record f { both = f.both and_also v t })
  operand v (opening ∷ ts) groups f = operand v ts (f ∷ groups) fresh
  operand v (closing ∷ ts) groups f = none
  operand v (and_word ∷ ts) groups f = none
  operand v (or_word ∷ ts) groups f = none

  pub operator : (Bytes → Truth) → List Token → List Frame → Frame → Option Truth
  operator v [] [] f = some (f.either or_else f.both)
  operator v [] (g ∷ groups) f = none
  operator v (and_word ∷ ts) groups f = operand v ts groups f
  operator v (or_word ∷ ts) groups f =
      operand v ts groups (record { either = f.either or_else f.both; both = yes })
  operator v (closing ∷ ts) [] f = none
  operator v (closing ∷ ts) (g ∷ groups) f =
      operator v ts groups (record g { both = g.both and_also (f.either or_else f.both) })
  operator v (opening ∷ ts) groups f = none
  operator v (test t ∷ ts) groups f = none

-- The value of a condition; `none` is a text that is no condition.
unfoldable pub read : (Bytes → Truth) → List Token → Option Truth
unfolding operand operator
read v ts = operand v ts [] fresh

-- the value of what AND joins, if there is something
abbrev pub all_of : Criteria Bytes → Truth → Truth
all_of absent value = yes
all_of (criteria c or and) value = value

-- What criteria mean, if their tests have the values of `v`: the criterion and what AND joins to
-- it, or else what OR joins to it.
unfoldable pub meaning : (Bytes → Truth) → Criteria Bytes → Truth
meaning v absent = no
meaning v (criteria c or and) = (v c and_also all_of and (meaning v and)) or_else meaning v or

abbrev pub conjuncts : Criteria Bytes → List Token → List Token
conjuncts absent ts = []
conjuncts (criteria c or and) ts = and_word ∷ ts

abbrev pub disjuncts : Criteria Bytes → List Token → List Token → List Token
disjuncts absent body ts = body
disjuncts (criteria c or and) body ts =
    opening
    ∷ (opening ∷ (body ++ (closing ∷ (or_word ∷ (opening ∷ (ts ++ (closing ∷ (closing ∷ []))))))))

-- The tokens of a condition as the code groups it.
unfoldable pub tokens : Criteria Bytes → List Token
tokens absent = []
tokens (criteria c or and) = disjuncts or (test c ∷ conjuncts and (tokens and)) (tokens or)
