-- ===== src/Insert/Unchecked.antt =====
-- The rows of plugins/format/classic/classic-insert.c whose failure is not reported.
use libpreludedb.Base.{ℕ, ◌+◌, ◌≡◌, refl, Option, List, [], ◌∷◌, Bytes, Result, ok, err, arith}
use libpreludedb.Insert.Call.{Action, bound, ◌>>=◌, ◌>>◌, done, unchecked, caught, failing_as}
use libpreludedb.Insert.Classes.{Classification, WebService, ToolAlert, Alertident}
use libpreludedb.Insert.Row.{
  Index, at, Database, escape_string, insert_each, insert_last, insert_from, insert_all,
}
use libpreludedb.Insert.Service.{insert_given_web_service}
use libpreludedb.Insert.Details.{insert_classification}
use libpreludedb.Insert.Kind.{insert_alertident, insert_tool_alertidents, insert_tool_alert}

module _ {St : Type 0} where
  unfoldable pub Succeeds : {A : Type 0} → Action St A → Type 0
  Succeeds {A} m = (s : St) → (a : A) × ((m s).0 ≡ ok a)

  >>=-Succeeds :
      {A B : Type 0} (m : Action St A) (f : A → Action St B)
      → Succeeds m
      → ((a : A) → Succeeds (f a))
      → Succeeds (m >>= f)
  unfolding Succeeds ◌>>=◌
  >>=-Succeeds m f hm hf s = go (m s) (hm s)
    where
      go : (r : Result _ × St) → (a : _) × (r.0 ≡ ok a) → (b : _) × ((bound f r).0 ≡ ok b)
      go (err e, s') (a, h) = absurd (cc)
      go (ok a', s') h = hf a' s'

  >>-Succeeds :
      {A B : Type 0} (m : Action St A) (k : Action St B)
      → Succeeds m
      → Succeeds k
      → Succeeds (m >> k)
  unfolding ◌>>◌
  >>-Succeeds m k hm hk = >>=-Succeeds m (λ _. k) hm (λ _. hk)

  failing_as-Succeeds :
      {A : Type 0} (e : _) (m : Action St A) → Succeeds m → Succeeds (failing_as e m)
  unfolding Succeeds failing_as
  failing_as-Succeeds e m h s = ((h s).0, ground (arith, (h s).1))

  insert_each-Succeeds :
      {A : Type 0} (f : Index → A → Action St (Unit {0})) (i : ℕ) (xs : List A)
      → ((j : Index) (x : A) → Succeeds (f j x))
      → Succeeds (insert_each f i xs)
  unfolding Succeeds done insert_each
  insert_each-Succeeds f i [] h = λ s. (tt, refl)
  insert_each-Succeeds f i (x ∷ xs) h =
      >>-Succeeds (f (at i) x) _ (h (at i) x) (insert_each-Succeeds f (i + 1) xs h)

  unchecked-Succeeds : (m : Action St (Unit {0})) → Succeeds (unchecked m)
  unfolding Succeeds unchecked
  unchecked-Succeeds m s = (tt, refl)

  caught-Succeeds : (m : Action St (Unit {0})) → Succeeds (caught m)
  unfolding Succeeds caught
  caught-Succeeds m s = (_, refl)

  insert_all-Succeeds :
      {A : Type 0} (f : Index → A → Action St (Unit {0})) (xs : List A)
      → xs ≡ []
      → Succeeds (insert_all f xs)
  unfolding Succeeds done insert_all insert_from insert_last
  insert_all-Succeeds f [] e = λ s. (tt, refl)
  insert_all-Succeeds f (x ∷ xs) e = absurd (cc)

ruleset success =
    (>>=-Succeeds, >>-Succeeds, failing_as-Succeeds, unchecked-Succeeds, caught-Succeeds)

module _ {St : Type 0} (db : Database St)
    (escapes : (v : Option Bytes) → Succeeds (db.escape v)) where
  classification-Succeeds :
      (c : Classification) (ident : ℕ)
      → c.references ≡ []
      → Succeeds (insert_classification db ident c)
  unfolding insert_classification escape_string
  classification-Succeeds c ident e = search (success, escapes, insert_all-Succeeds _ _ e) depth 10

  web_service-Succeeds :
      (w : WebService) (p ident : ℕ) (i : Index)
      → w.args ≡ []
      → Succeeds (insert_given_web_service db p ident i w)
  unfolding insert_given_web_service escape_string
  web_service-Succeeds w p ident i e = search (success, escapes, insert_all-Succeeds _ _ e) depth 10

  alertidents-Succeeds :
      (x : Alertident) (xs ys : List Alertident) (ident : ℕ) (r : Result (Unit {0}))
      → ys ≡ x ∷ xs
      → ((i : Index) (a : Alertident) → Succeeds (insert_alertident db b'T' ident i a))
      → Succeeds (insert_tool_alertidents db ident ys r)
  unfolding insert_tool_alertidents
  alertidents-Succeeds x xs [] ident r e h = absurd (cc)
  alertidents-Succeeds x xs (y ∷ ys) ident r e h = insert_each-Succeeds _ 0 (y ∷ ys) h

  tool_alert-Succeeds :
      (t : ToolAlert) (x : Alertident) (xs : List Alertident) (ident : ℕ)
      → t.alertidents ≡ x ∷ xs
      → ((i : Index) (a : Alertident) → Succeeds (insert_alertident db b'T' ident i a))
      → Succeeds (insert_tool_alert db ident t)
  unfolding insert_tool_alert escape_string
  tool_alert-Succeeds t x xs ident e h =
      search (success, escapes, alertidents-Succeeds x xs t.alertidents ident _ e h) depth 10

  -- Where escaping succeeds, the insertions of a classification without references and of a web
  -- service without arguments succeed whatever the database answers to their rows, and so does that
  -- of a tool alert with alertidents, if those succeed: a failure of the row is not reported.
  pub failed_rows_unreported :
      (c : Classification) (w : WebService) (t : ToolAlert) (x : Alertident) (xs : List Alertident)
      (p ident : ℕ) (i : Index) (s : St)
      → c.references ≡ []
      → w.args ≡ []
      → t.alertidents ≡ x ∷ xs
      → ((j : Index) (a : Alertident) → Succeeds (insert_alertident db b'T' ident j a))
      → ((insert_classification db ident c s).0 ≡ ok tt)
        × ((insert_given_web_service db p ident i w s).0 ≡ ok tt)
        × ((insert_tool_alert db ident t s).0 ≡ ok tt)
  unfolding Succeeds
  failed_rows_unreported c w t x xs p ident i s ec ew et h = (
    (classification-Succeeds c ident ec s).1,
    (web_service-Succeeds w p ident i ew s).1,
    (tool_alert-Succeeds t x xs ident et h s).1,
  )
