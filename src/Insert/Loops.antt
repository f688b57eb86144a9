-- ===== src/Insert/Loops.antt =====
-- plugins/format/classic/classic-insert.c: which children the loops insert, and with which indexes.
use libpreludedb.Base.{ℕ, ◌+◌, ◌≡◌, refl, some, List, [], ◌∷◌, ◌++◌, Result, ok, err}
use libpreludedb.Insert.Call.{Action, bound, ◌>>=◌, ◌>>◌, done}
use libpreludedb.Insert.Row.{Index, at, last, insert_last, insert_from, insert_all}

module _ {A : Type 0} where
  -- the children, numbered from `i` on
  unfoldable pub numbered : ℕ → List A → List (Index × A)
  numbered i [] = []
  numbered i (x ∷ xs) = (at i, x) ∷ numbered (i + 1) xs

  -- the last child, if there is one, with the index -1
  unfoldable pub last_copy : List A → List (Index × A)
  last_copy [] = []
  last_copy (x ∷ []) = (last, x) ∷ []
  last_copy (x ∷ y ∷ xs) = last_copy (y ∷ xs)

module _ {St A : Type 0} (f : Index → A → Action St (Unit {0})) where
  -- one insertion after the other, up to the first that fails
  unfoldable pub insert_listed : List (Index × A) → Action St (Unit {0})
  unfolding done ◌>>◌
  insert_listed [] = done
  insert_listed ((i, x) ∷ children) = f i x >> insert_listed children

  bound-ext :
      (r : Result (Unit {0}) × St) (g h : Action St (Unit {0}))
      → ((s : St) → g s ≡ h s)
      → bound (λ _. g) r ≡ bound (λ _. h) r
  bound-ext (err e, s) g h eq = refl
  bound-ext (ok _, s) g h eq = eq s

  insert_one : (x : A) (s : St) → f last x s ≡ insert_listed ((last, x) ∷ []) s
  unfolding insert_listed ◌>>◌ ◌>>=◌ done
  insert_one x s = go (f last x s)
    where
      go : (r : Result (Unit {0}) × St) → r ≡ bound (λ _ s. (ok tt, s)) r
      go (err e, s) = refl
      go (ok tt, s) = refl

  insert_from_lem :
      (i : ℕ) (x : A) (xs : List A) (s : St)
      → insert_from f i (some x) xs s ≡ insert_listed (numbered i xs ++ last_copy (x ∷ xs)) s
  unfolding insert_from insert_last insert_listed numbered last_copy ◌>>◌ ◌>>=◌
  insert_from_lem i x [] s = insert_one x s
  insert_from_lem i x (y ∷ xs) s = bound-ext (f (at i) y s) _ _ (insert_from_lem (i + 1) y xs)

  -- A loop over children inserts each with its number, from 0 on, and then the last one again,
  -- with the index -1; without children it inserts nothing. It stops at the first failure.
  pub insert_all_lem :
      (xs : List A) (s : St) → insert_all f xs s ≡ insert_listed (numbered 0 xs ++ last_copy xs) s
  unfolding insert_all insert_from insert_last insert_listed numbered last_copy ◌>>◌ ◌>>=◌
  insert_all_lem [] s = refl
  insert_all_lem (x ∷ xs) s = bound-ext (f (at 0) x s) _ _ (insert_from_lem 1 x xs)
