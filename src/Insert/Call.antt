-- ===== src/Insert/Call.antt =====
-- plugins/format/classic/classic-insert.c: calls that change a state and may fail, and their
-- order.
use libpreludedb.Base.{Result, ok, err, Error}

abbrev pub Action : Type 0 → Type 0 → Type 0
Action St A = St → Result A × St

module _ {St : Type 0} where
  infixl 5 ◌>>=◌ ◌>>◌
  abbrev pub bound : {A B : Type 0} → (A → Action St B) → Result A × St → Result B × St
  bound f (err e, s) = (err e, s)
  bound f (ok a, s) = f a s

  -- `if ( ret < 0 ) return ret;`
  unfoldable pub ◌>>=◌ : {A B : Type 0} → Action St A → (A → Action St B) → Action St B
  ◌>>=◌ m f s = bound f (m s)

  unfoldable pub ◌>>◌ : {A B : Type 0} → Action St A → Action St B → Action St B
  unfolding ◌>>=◌
  m >> k = m >>= λ _. k

  unfoldable pub done : Action St (Unit {0})
  done s = (ok tt, s)

  unfoldable pub fail : Error → Action St (Unit {0})
  fail e s = (err e, s)

  abbrev replaced : {A : Type 0} → Error → Result A × St → Result A × St
  replaced e (err _, s) = (err e, s)
  replaced e (ok a, s) = (ok a, s)

  -- a failure that is returned as a bare number
  unfoldable pub failing_as : {A : Type 0} → Error → Action St A → Action St A
  failing_as e m s = replaced e (m s)

  -- a call whose result is overwritten
  unfoldable pub unchecked : Action St (Unit {0}) → Action St (Unit {0})
  unchecked m s = (ok tt, (m s).1)

  -- a call whose result is kept, whatever it is
  unfoldable pub caught : Action St (Unit {0}) → Action St (Result (Unit {0}))
  caught m s = (ok (m s).0, (m s).1)
