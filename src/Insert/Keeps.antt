-- ===== src/Insert/Keeps.antt =====
-- plugins/format/classic/classic-insert.c: what every call of a chain keeps, the chain keeps.
use libpreludedb.Base.{Option, none, some, Result, ok, err, Error}
use libpreludedb.Insert.Call.{Action, bound, ◌>>=◌, ◌>>◌, done, fail}
use libpreludedb.Insert.Row.{if_given}

module _ {St : Type 0} (I : St → Type 0) where
  unfoldable pub Keeps : {A : Type 0} → Action St A → Type 0
  Keeps m = (s : St) → I s → I (m s).1

  bound-Keeps :
      {A B : Type 0} (f : A → Action St B) (r : Result A × St)
      → ((a : A) → Keeps (f a))
      → I r.1
      → I (bound f r).1
  unfolding Keeps
  bound-Keeps f (err e, s) h i = i
  bound-Keeps f (ok a, s) h i = h a s i

  pub >>=-Keeps :
      {A B : Type 0} (m : Action St A) (f : A → Action St B)
      → Keeps m
      → ((a : A) → Keeps (f a))
      → Keeps (m >>= f)
  unfolding Keeps ◌>>=◌
  >>=-Keeps m f hm hf s i = bound-Keeps f (m s) hf (hm s i)

  pub >>-Keeps :
      {A B : Type 0} (m : Action St A) (k : Action St B) → Keeps m → Keeps k → Keeps (m >> k)
  unfolding ◌>>◌
  >>-Keeps m k hm hk = >>=-Keeps m (λ _. k) hm (λ _. hk)

  pub if_given-Keeps :
      {A : Type 0} (f : A → Action St (Unit {0})) (a : Option A)
      → ((x : A) → Keeps (f x))
      → Keeps (if_given f a)
  unfolding Keeps if_given done
  if_given-Keeps f none h s i = i
  if_given-Keeps f (some a) h s i = h a s i

  pub fail-Keeps : (e : Error) → Keeps (fail e)
  unfolding Keeps fail
  fail-Keeps e s i = i
