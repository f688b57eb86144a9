-- ===== src/Base/Append.antt =====
-- Functions that write behind the text that they are given, and their chains.
use mathlib.Core.Path.{◌≡◌, refl, sym, ap, ◌∙◌}
use mathlib.Core.List.{[], ◌++◌, append_assoc, append-nil}
use libpreludedb.Base.Text.{Bytes}
use libpreludedb.Base.Errors.{Error, Result, ok, err, ◌>>=◌}

-- A value and the state that it leaves; an error ends the chain.
abbrev pub chain : {S A B : Type 0} → Result A × S → (A → S → Result B × S) → Result B × S
chain (err e, s) f = (err e, s)
chain (ok a, s) f = f a s

pub chain_assoc :
    {S A B C : Type 0} (r : Result A × S) (f : A → S → Result B × S) (g : B → S → Result C × S)
    → chain (chain r f) g ≡ chain r (λ a s. chain (f a s) g)
chain_assoc (err e, s) f g = refl
chain_assoc (ok a, s) f g = refl

pub chain-ext :
    {S A B : Type 0} (r : Result A × S) (f g : A → S → Result B × S)
    → ((a : A) (s : S) → f a s ≡ g a s)
    → chain r f ≡ chain r g
chain-ext (err e, s) f g h = refl
chain-ext (ok a, s) f g h = h a s

-- A chain that succeeds, taken apart.
pub chain-eq-ok :
    {S A B : Type 0} (r : Result A × S) (f : A → S → Result B × S) {b : B} {s' : S}
    → chain r f ≡ (ok b, s')
    → (a : A) × (s : S) × (r ≡ (ok a, s)) × (f a s ≡ (ok b, s'))
chain-eq-ok (err e, s) f h = absurd (cc)
chain-eq-ok (ok a, s) f h = (a, s, refl, h)

-- the value, if there is one
abbrev pub Ensures : {S A : Type 0} → (A → Type 0) → Result A × S → Type 0
Ensures P (err e, s) = Unit
Ensures P (ok a, s) = P a

pub chain-Ensures :
    {S A B : Type 0} (P : B → Type 0) (r : Result A × S) (f : A → S → Result B × S)
    → ((a : A) (s : S) → Ensures P (f a s))
    → Ensures P (chain r f)
chain-Ensures P (err e, s) f h = tt
chain-Ensures P (ok a, s) f h = h a s

pub chain-Ensures_from :
    {S A B : Type 0} (P : A → Type 0) (Q : B → Type 0) (r : Result A × S) (f : A → S → Result B × S)
    → Ensures P r
    → ((a : A) (s : S) → P a → Ensures Q (f a s))
    → Ensures Q (chain r f)
chain-Ensures_from P Q (err e, s) f p h = tt
chain-Ensures_from P Q (ok a, s) f p h = h a s p

-- as above, where something is known of the value
pub chain-ext-Ensures :
    {S A B : Type 0} (P : A → Type 0) (r : Result A × S) (f g : A → S → Result B × S)
    → Ensures P r
    → ((a : A) (s : S) → P a → f a s ≡ g a s)
    → chain r f ≡ chain r g
chain-ext-Ensures P (err e, s) f g p h = refl
chain-ext-Ensures P (ok a, s) f g p h = h a s p

-- what is written, behind a text
abbrev pub behind : Bytes → Result Bytes → Result Bytes
behind out (err e) = err e
behind out (ok s) = ok (out ++ s)

abbrev pub behind_with : {S : Type 0} → Bytes → Result Bytes × S → Result Bytes × S
behind_with out (r, s) = (behind out r, s)

abbrev pub IsAppending : (Bytes → Result Bytes) → Type 0
IsAppending f = (out : Bytes) → f out ≡ behind out (f [])

abbrev pub IsAppendingWith : {S : Type 0} → (Bytes → S → Result Bytes × S) → Type 0
IsAppendingWith {S} f = (out : Bytes) (s : S) → f out s ≡ behind_with out (f [] s)

pub behind_assoc :
    (out s : Bytes) (r : Result Bytes) → behind (out ++ s) r ≡ behind out (behind s r)
behind_assoc out s (err e) = refl
behind_assoc out s (ok t) = ap ok (append_assoc out s t)

pub behind-nil : (r : Result Bytes) → behind [] r ≡ r
behind-nil (err e) = refl
behind-nil (ok s) = refl

pub ok-IsAppending : IsAppending ok
ok-IsAppending out = ap ok (sym (append-nil out))

pub err-IsAppending : (e : Error) → IsAppending (λ _. err e)
err-IsAppending e out = refl

next-IsAppending :
    (out : Bytes) (r : Result Bytes) (g : Bytes → Result Bytes)
    → IsAppending g
    → (behind out r >>= g) ≡ behind out (r >>= g)
next-IsAppending out (err e) g h = refl
next-IsAppending out (ok s) g h =
    h (out ++ s) ∙ behind_assoc out s (g []) ∙ ap (behind out) (sym (h s))

-- A chain of writers is a writer.
pub >>=-IsAppending :
    (f g : Bytes → Result Bytes) → IsAppending f → IsAppending g → IsAppending (λ out. f out >>= g)
>>=-IsAppending f g hf hg out = rw (hf out) (next-IsAppending out (f []) g hg)

-- a value that is computed first, before a writer
pub after-IsAppending :
    {A : Type 0} (r : Result A) (g : A → Bytes → Result Bytes)
    → ((a : A) → IsAppending (g a))
    → IsAppending (λ out. r >>= λ a. g a out)
after-IsAppending (err e) g h out = refl
after-IsAppending (ok a) g h out = h a out

module _ {S : Type 0} where
  pub chain-behind_with :
      {A : Type 0} (out : Bytes) (r : Result Bytes × S) (f : Bytes → S → Result A × S)
      → chain (behind_with out r) f ≡ chain r (λ t s. f (out ++ t) s)
  chain-behind_with out (err e, s) f = refl
  chain-behind_with out (ok t, s) f = refl

  next_with :
      (out : Bytes) (r : Result Bytes × S) (g : Bytes → S → Result Bytes × S)
      → IsAppendingWith g
      → chain (behind_with out r) g ≡ behind_with out (chain r g)
  next_with out (err e, s) g h = refl
  next_with out (ok t, s) g h =
      h (out ++ t) s
      ∙ ap (λ r. (r, (g [] s).1)) (behind_assoc out t (g [] s).0)
      ∙ ap (behind_with out) (sym (h t s))

  pub chain-IsAppendingWith :
      (f g : Bytes → S → Result Bytes × S)
      → IsAppendingWith f
      → IsAppendingWith g
      → IsAppendingWith (λ out s. chain (f out s) g)
  chain-IsAppendingWith f g hf hg out s = rw (hf out s) (next_with out (f [] s) g hg)

  -- a writer that needs no state
  pub pure-IsAppendingWith :
      (f : Bytes → Result Bytes) → IsAppending f → IsAppendingWith {S = S} (λ out s. (f out, s))
  pure-IsAppendingWith f h out s = ap (λ r. (r, s)) (h out)

  after_case :
      {A : Type 0} (r : Result A × S) (g : A → Bytes → S → Result Bytes × S)
      → ((a : A) → IsAppendingWith (g a))
      → (out : Bytes) → chain r (λ a. g a out) ≡ behind_with out (chain r (λ a. g a []))
  after_case (err e, s) g h out = refl
  after_case (ok a, s) g h out = h a out s

  -- a step that writes nothing, before a writer
  pub after-IsAppendingWith :
      {A : Type 0} (m : S → Result A × S) (g : A → Bytes → S → Result Bytes × S)
      → ((a : A) → IsAppendingWith (g a))
      → IsAppendingWith (λ out s. chain (m s) (λ a. g a out))
  after-IsAppendingWith m g h out s = after_case (m s) g h out
