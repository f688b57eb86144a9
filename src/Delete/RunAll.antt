-- ===== src/Delete/RunAll.antt =====
-- A sequence of statements run on a database, the specification of a deletion.
use libpreludedb.Base.{
  ◌≡◌, refl, ap, Result-cases, inl, inr, Option, List, [], ◌∷◌, Bytes, Result, ok, err,
}
use libpreludedb.Sql.{Plugin}

module _ (plugin : Plugin) where
  open plugin use {Session, Table, run}

  -- The statements run one after the other on a connected database, up to the first that fails.
  unfoldable pub run_all : List Bytes → Session → Result (Unit {0}) × Session
  run_all [] s = (ok tt, s)
  run_all (q ∷ queries) s =
      let (r, s') = run q s in elim r [ err e ↦ (err e, s') | ok _ ↦ run_all queries s' ]

  pub run_all-ok :
      (q : Bytes) (queries : List Bytes) (s s' : Session) (t : Option Table)
      → run q s ≡ (ok t, s')
      → run_all (q ∷ queries) s ≡ run_all queries s'
  unfolding run_all
  run_all-ok q queries s s' t e =
      rw (ap (λ (r : Result (Option Table) × Session). r.0) e, run_all)
        (ap (λ (r : Result (Option Table) × Session). run_all queries r.1) e)

  pub run_all-nil : (s : Session) → run_all [] s ≡ (ok tt, s)
  unfolding run_all
  run_all-nil s = refl

  -- The statements behind one that has answered `r`.
  abbrev pub run_from : Result (Option Table) → List Bytes → Session → Result (Unit {0}) × Session
  run_from (err e) queries s = (err e, s)
  run_from (ok _) queries s = run_all queries s

  pub run_all-cons :
      (q : Bytes) (queries : List Bytes) (s : Session)
      → run_all (q ∷ queries) s ≡ run_from (run q s).0 queries (run q s).1
  unfolding run_all
  run_all-cons q queries s = elim (Result-cases (run q s).0) [
    | inl (t, e) ↦ rw (e, run_all)
    | inr (e', e) ↦ rw (e, run_all)
  ]
