-- ===== src/Insert/Steps.antt =====
-- plugins/format/classic/classic-insert.c: what the insertion of a part of a message does to the
-- database: it escapes values, and inserts rows that carry the ident of the message, in tables that
-- are allowed.
pub mod Subject
pub mod Service
pub mod File
pub mod Ends
pub mod Details
pub mod Assessment
pub mod Kind
use libpreludedb.Base.{
  ℕ, ◌+◌, ◌≡◌, refl, Option, none, some, List, [], ◌∷◌, Bytes, Result, ok, err, Error, arith,
}
use libpreludedb.Insert.Call.{Action, bound, ◌>>=◌, ◌>>◌, done, fail, failing_as, unchecked, caught}
use libpreludedb.Insert.Classes.{StringRef, Time, Data, byte_string, char_string, character, other}
use libpreludedb.Insert.Row.{
  Index, at, last, MessageRow, Database, escape_string, insert_row, get_data, if_given, insert_each,
  insert_last, insert_from, insert_all,
}

-- `Allowed` says of a table and a parent type whether such rows may be inserted; `ident` is the
-- message's.
pub data Steps {St : Type 0} (db : Database St) (Allowed : Bytes → Option ℕ → Type 0) (ident : ℕ)
    (start : St) : St → Type 0 where
  stay : Steps db Allowed ident start start
  escaped :
      {s : St} (v : Option Bytes)
      → Steps db Allowed ident start s
      → Steps db Allowed ident start (db.escape v s).1
  escaped_binary :
      {s : St} (v : Bytes)
      → Steps db Allowed ident start s
      → Steps db Allowed ident start (db.escape_binary v s).1
  timed :
      {s : St} (t : Option Time)
      → Steps db Allowed ident start s
      → Steps db Allowed ident start (db.time_to_timestamp t s).1
  inserted :
      {s : St} (row : MessageRow)
      → row.message_ident ≡ ident
      → Allowed row.table row.parent_type
      → Steps db Allowed ident start s
      → Steps db Allowed ident start (insert_row db row s).1

module _ {St : Type 0} (db : Database St) (Allowed : Bytes → Option ℕ → Type 0) (ident : ℕ) where
  -- an action that makes such steps only, whatever its result
  unfoldable pub Inserts : {A : Type 0} → Action St A → Type 0
  Inserts m = (start s : St) → Steps db Allowed ident start s → Steps db Allowed ident start (m s).1

  bound-Steps :
      {A B : Type 0} (f : A → Action St B) (start : St) (r : Result A × St)
      → ((a : A) → Inserts (f a))
      → Steps db Allowed ident start r.1
      → Steps db Allowed ident start (bound f r).1
  unfolding Inserts
  bound-Steps f start (err e, s) h r = r
  bound-Steps f start (ok a, s) h r = h a start s r

  pub >>=-Inserts :
      {A B : Type 0} (m : Action St A) (f : A → Action St B)
      → Inserts m
      → ((a : A) → Inserts (f a))
      → Inserts (m >>= f)
  unfolding Inserts ◌>>=◌
  >>=-Inserts m f hm hf start s r = bound-Steps f start (m s) hf (hm start s r)

  pub >>-Inserts :
      {A B : Type 0} (m : Action St A) (k : Action St B) → Inserts m → Inserts k → Inserts (m >> k)
  unfolding ◌>>◌
  >>-Inserts m k hm hk = >>=-Inserts m (λ _. k) hm (λ _. hk)

  pub done-Inserts : Inserts done
  unfolding Inserts done
  done-Inserts start s r = r

  pub fail-Inserts : (e : Error) → Inserts (fail e)
  unfolding Inserts fail
  fail-Inserts e start s r = r

  pub failing_as-Inserts :
      {A : Type 0} (e : Error) (m : Action St A) → Inserts m → Inserts (failing_as e m)
  unfolding Inserts failing_as
  failing_as-Inserts e m h start s r = ground (arith, h start s r)

  pub unchecked-Inserts : (m : Action St (Unit {0})) → Inserts m → Inserts (unchecked m)
  unfolding Inserts unchecked
  unchecked-Inserts m h start s r = h start s r

  pub caught-Inserts : (m : Action St (Unit {0})) → Inserts m → Inserts (caught m)
  unfolding Inserts caught
  caught-Inserts m h start s r = h start s r

  pub escape-Inserts : (v : Option Bytes) → Inserts (db.escape v)
  unfolding Inserts
  escape-Inserts v start s r = escaped v r

  pub escape_string-Inserts : (v : StringRef) → Inserts (escape_string db v)
  unfolding escape_string
  escape_string-Inserts v = escape-Inserts _

  escape_binary-Inserts : (v : Bytes) → Inserts (db.escape_binary v)
  unfolding Inserts
  escape_binary-Inserts v start s r = escaped_binary v r

  pub get_data-Inserts : (v : Data) → Inserts (get_data db v)
  unfolding get_data Inserts
  get_data-Inserts (byte_string s) = escape_binary-Inserts s
  get_data-Inserts (char_string s) = escape_binary-Inserts s
  get_data-Inserts (character c) = escape_binary-Inserts (c ∷ [])
  get_data-Inserts (other (err e)) = λ start s r. r
  get_data-Inserts (other (ok s)) = escape_binary-Inserts s

  pub time_to_timestamp-Inserts : (t : Option Time) → Inserts (db.time_to_timestamp t)
  unfolding Inserts
  time_to_timestamp-Inserts t start s r = timed t r

  pub insert_row-Inserts :
      (row : MessageRow)
      → row.message_ident ≡ ident
      → Allowed row.table row.parent_type
      → Inserts (insert_row db row)
  unfolding Inserts
  insert_row-Inserts row e h start s r = inserted row e h r

  pub if_given-Inserts :
      {A : Type 0} (f : A → Action St (Unit {0})) (a : Option A)
      → ((x : A) → Inserts (f x))
      → Inserts (if_given f a)
  unfolding if_given
  if_given-Inserts f none h = done-Inserts
  if_given-Inserts f (some a) h = h a

  pub insert_each-Inserts :
      {A : Type 0} (f : Index → A → Action St (Unit {0})) (i : ℕ) (xs : List A)
      → ((j : Index) (x : A) → Inserts (f j x))
      → Inserts (insert_each f i xs)
  unfolding insert_each
  insert_each-Inserts f i [] h = done-Inserts
  insert_each-Inserts f i (x ∷ xs) h =
      >>-Inserts _ _ (h (at i) x) (insert_each-Inserts f (i + 1) xs h)

  insert_from-Inserts :
      {A : Type 0} (f : Index → A → Action St (Unit {0})) (i : ℕ) (previous : Option A)
      (xs : List A)
      → ((j : Index) (x : A) → Inserts (f j x))
      → Inserts (insert_from f i previous xs)
  unfolding insert_from insert_last
  insert_from-Inserts f i none [] h = done-Inserts
  insert_from-Inserts f i (some x) [] h = h last x
  insert_from-Inserts f i previous (x ∷ xs) h =
      >>-Inserts _ _ (h (at i) x) (insert_from-Inserts f (i + 1) (some x) xs h)

  pub insert_all-Inserts :
      {A : Type 0} (f : Index → A → Action St (Unit {0})) (xs : List A)
      → ((j : Index) (x : A) → Inserts (f j x))
      → Inserts (insert_all f xs)
  unfolding insert_all
  insert_all-Inserts f xs h = insert_from-Inserts f 0 none xs h

pub ruleset insertion = (
  >>=-Inserts, >>-Inserts, done-Inserts, fail-Inserts, failing_as-Inserts, unchecked-Inserts,
  caught-Inserts, escape-Inserts, escape_string-Inserts, get_data-Inserts,
  time_to_timestamp-Inserts, insert_row-Inserts, if_given-Inserts, insert_each-Inserts,
  insert_all-Inserts, refl,
)
