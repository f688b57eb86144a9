-- ===== src/ClassicCriteria/Writing.antt =====
-- The condition that plugins/format/classic/classic-path-resolve.c writes for criteria, token by
-- token.
use libpreludedb.Base.{
  ◌≡◌, refl, ap, ◌∙◌, sym, List, [], ◌∷◌, ◌++◌, Bytes, Result, ok, text, append_assoc, append-nil,
  chain, chain_assoc, chain-ext, Ensures, chain-Ensures, chain-Ensures_from, chain-ext-Ensures,
  chain-behind_with, IsAppendingWith,
}
use libpreludedb.Idmef.{StringLib, IsAmple}
use libpreludedb.ClassicCriteria.{
  Criteria, absent, criteria, open_or, with_and, with_or, resolve_tree,
}
use libpreludedb.ClassicCriteria.Reading.{Token, test, spelling, print, conjuncts, tokens}

print-append : (xs ys : List Token) → print (xs ++ ys) ≡ print xs ++ print ys
unfolding print
print-append [] ys = refl
print-append (x ∷ xs) ys =
    ap (λ s. spelling x ++ s) (print-append xs ys) ∙ sym (append_assoc (spelling x) _ _)

abbrev pub IsThere : Criteria Bytes → Type 0
IsThere absent = ⊥
IsThere (criteria c or and) = Unit

-- there is a tree, or there is none, in both
abbrev Alike : {A : Type 0} → Criteria A → Criteria Bytes → Type 0
Alike absent absent = Unit
Alike absent (criteria c or and) = ⊥
Alike (criteria c or and) absent = ⊥
Alike (criteria c or and) (criteria c' or' and') = Unit

-- a tree with an alternative, or without one, as `or` is
abbrev AlikeOr : {A : Type 0} → Criteria A → Criteria Bytes → Type 0
AlikeOr or absent = ⊥
AlikeOr or (criteria c or' and') = Alike or or'

-- what stands before the criterion
abbrev lead : {A : Type 0} → Criteria A → Bytes
lead absent = []
lead (criteria c or and) = text "(("

-- what stands behind the conjuncts
abbrev alternative : Criteria Bytes → Bytes
alternative absent = []
alternative (criteria c or and) = text ") OR (" ++ (print (tokens (criteria c or and)) ++ text "))")

-- a criterion, its conjuncts and the alternative
abbrev inner : Criteria Bytes → Bytes
inner absent = []
inner (criteria c or and) = print (test c ∷ conjuncts and (tokens and)) ++ alternative or

inner_lem :
    {A : Type 0} (or : Criteria A) (texts : Criteria Bytes)
    → AlikeOr or texts
    → lead or ++ inner texts ≡ print (tokens texts)
unfolding tokens print text
inner_lem or absent p = absurd p
inner_lem absent (criteria t absent and) p = append-nil _
inner_lem absent (criteria t (criteria o or' and') and) p = absurd p
inner_lem (criteria c or and₀) (criteria t absent and) p = absurd p
inner_lem (criteria c or and₀) (criteria t (criteria o or' and') and) p =
    simp (print-append, append_assoc)

-- The texts of the tests of a tree, written one after the other in the order of the code.
module _ {St A : Type 0} (resolve : A → Bytes → St → Result Bytes × St) where
  unfoldable pub test_texts : Criteria A → St → Result (Criteria Bytes) × St
  test_texts absent s = (ok absent, s)
  test_texts (criteria c or and) s =
      let and_texts = test_texts and in
      let or_texts = test_texts or in
      chain (resolve c [] s) (λ t s₁.
        chain (and_texts s₁)
          (λ and' s₂. chain (or_texts s₂) (λ or' s₃. (ok (criteria t or' and'), s₃))))

  test_texts-Alike : (t : Criteria A) (s : St) → Ensures (Alike t) (test_texts t s)
  unfolding test_texts
  test_texts-Alike absent s = tt
  test_texts-Alike (criteria c or and) s =
      chain-Ensures (Alike (criteria c or and)) (resolve c [] s) _ (λ t s₁.
        chain-Ensures (Alike (criteria c or and)) (test_texts and s₁) _ (λ and' s₂.
          chain-Ensures (Alike (criteria c or and)) (test_texts or s₂) _ (λ or' s₃. tt)))

  test_texts_step :
      (c : A) (or and : Criteria A) (s : St)
      → test_texts (criteria c or and) s
        ≡ chain (resolve c [] s) (λ t s₁.
          chain
            (test_texts and s₁)
            (λ and' s₂. chain (test_texts or s₂) (λ or' s₃. (ok (criteria t or' and'), s₃))))
  unfolding test_texts
  test_texts_step c or and s = refl

  test_texts-AlikeOr :
      (c : A) (or and : Criteria A) (s : St)
      → Ensures (AlikeOr or) (test_texts (criteria c or and) s)
  test_texts-AlikeOr c or and s = rw (test_texts_step c or and s) (
      chain-Ensures (AlikeOr or) (resolve c [] s) _ (λ t s₁.
        chain-Ensures (AlikeOr or) (test_texts and s₁) _ (λ and' s₂.
          chain-Ensures_from (Alike or) (AlikeOr or) (test_texts or s₂) _ (test_texts-Alike or s₂)
            (λ or' s₃ p. p))))

  Alike-IsThere :
      (c : A) (or and : Criteria A) (texts : Criteria Bytes)
      → Alike (criteria c or and) texts
      → IsThere texts
  Alike-IsThere c or and absent p = absurd p
  Alike-IsThere c or and (criteria t o a) p = tt

  pub test_texts-IsThere :
      (c : A) (or and : Criteria A) (s : St) {s' : St} {texts : Criteria Bytes}
      → test_texts (criteria c or and) s ≡ (ok texts, s')
      → IsThere texts
  test_texts-IsThere c or and s {s'} {texts} eq =
      Alike-IsThere c or and texts (rw eq at (test_texts-Alike (criteria c or and) s))

  module _ (lib : StringLib) (ample : IsAmple lib)
      (appends : (c : A) → IsAppendingWith (resolve c)) where
    -- a tree is written behind a text as its tokens
    abbrev Writes : Criteria A → Type 0
    Writes absent = Unit
    Writes (criteria c or and) =
        (out : Bytes) (s : St)
        → resolve_tree lib resolve (criteria c or and) out s
          ≡ chain (test_texts (criteria c or and) s)
              (λ texts s'. (ok (out ++ print (tokens texts)), s'))

    and_text :
        (c : A) (or and : Criteria A) (out : Bytes) (texts : Criteria Bytes)
        → Alike (criteria c or and) texts
        → (out ++ text " AND ") ++ print (tokens texts)
          ≡ out ++ print (conjuncts texts (tokens texts))
    unfolding print
    and_text c or and out absent p = absurd p
    and_text c or and out (criteria t or' and') p = append_assoc out (text " AND ") _

    write_and :
        (and : Criteria A)
        → Writes and
        → (out : Bytes) (s : St)
        → with_and lib and (resolve_tree lib resolve and) out s
          ≡ chain
              (test_texts and s)
              (λ and' s'. (ok (out ++ print (conjuncts and' (tokens and'))), s'))
    write_and absent h out s = unfold test_texts print in ap (λ o. (ok o, s)) (sym (append-nil out))
    write_and (criteria c or and) h out s = rw (ample out (text " AND ")) (
        h (out ++ text " AND ") s
        ∙ chain-ext-Ensures (Alike (criteria c or and)) (test_texts (criteria c or and) s) _ _
            (test_texts-Alike (criteria c or and) s)
            (λ texts s' p. ap (λ o. (ok o, s')) (and_text c or and out texts p)))

    or_text :
        (c : A) (or and : Criteria A) (out : Bytes) (texts : Criteria Bytes) (s : St)
        → Alike (criteria c or and) texts
        → ◌≡◌ {A = Result Bytes × St}
            (lib.cat ((out ++ text ") OR (") ++ print (tokens texts)) (text "))"), s)
            (ok (out ++ alternative texts), s)
    or_text c or and out absent s p = absurd p
    or_text c or and out (criteria t or' and') s p =
        ap (λ r. (r, s)) (ample _ (text "))") ∙ ap ok (simp append_assoc))

    abbrev close : Bytes → St → Result Bytes × St
    close out s = (lib.cat out (text "))"), s)

    write_or :
        (or : Criteria A)
        → Writes or
        → (out : Bytes) (s : St)
        → with_or lib or (resolve_tree lib resolve or) out s
          ≡ chain (test_texts or s) (λ or' s'. (ok (out ++ alternative or'), s'))
    write_or absent h out s = unfold test_texts in ap (λ o. (ok o, s)) (sym (append-nil out))
    write_or (criteria c or and) h out s = rw (ample out (text ") OR (")) (
        ap (λ r. chain r close) (h (out ++ text ") OR (") s)
        ∙ chain_assoc (test_texts (criteria c or and) s)
            (λ texts s'. (ok ((out ++ text ") OR (") ++ print (tokens texts)), s')) close
        ∙ chain-ext-Ensures (Alike (criteria c or and)) (test_texts (criteria c or and) s) _ _
            (test_texts-Alike (criteria c or and) s)
            (λ texts s' p. or_text c or and out texts s' p))

    inner_text :
        (out t conj alt : Bytes) → ((out ++ t) ++ conj) ++ alt ≡ out ++ ((t ++ conj) ++ alt)
    inner_text out t conj alt = simp append_assoc

    -- the criterion, its conjuncts and the alternative, behind a text
    write_inner :
        (c : A) (or and : Criteria A)
        → Writes or
        → Writes and
        → (out : Bytes) (s : St)
        → chain (resolve c out s) (λ out₂ s₂.
          chain
            (with_and lib and (resolve_tree lib resolve and) out₂ s₂)
            (with_or lib or (resolve_tree lib resolve or)))
          ≡ chain (test_texts (criteria c or and) s) (λ texts s'. (ok (out ++ inner texts), s'))
    unfolding print
    write_inner c or and ho ha out s =
        let rest_or = with_or lib or (resolve_tree lib resolve or) in
        let put : Criteria Bytes → St → Result Bytes × St =
          λ texts s'. (ok (out ++ inner texts), s') in
        let build = λ (t : Bytes) (s₁ : St). chain (test_texts and s₁) (λ and' s₂.
          chain (test_texts or s₂)
            (λ (or' : Criteria Bytes) (s₃ : St). (ok (criteria t or' and'), s₃))) in
        rw (appends c out s, test_texts_step c or and s)
          (chain-behind_with out (resolve c [] s) _
            ∙ chain-ext (resolve c [] s) _ _ (λ t s₁.
              ap (λ r. chain r rest_or) (write_and and ha (out ++ t) s₁)
              ∙ chain_assoc (test_texts and s₁) _ rest_or
              ∙ chain-ext (test_texts and s₁) _ _ (λ and' s₂.
                write_or or ho _ s₂
                ∙ chain-ext (test_texts or s₂) _ _ (λ or' s₃.
                  ap (λ o. (ok o, s₃))
                    (inner_text out t (print (conjuncts and' (tokens and'))) (alternative or')))
                ∙ sym
                    (chain_assoc (test_texts or s₂) (λ or' s₃. (ok (criteria t or' and'), s₃)) put))
              ∙ sym (chain_assoc (test_texts and s₁) _ put))
            ∙ sym (chain_assoc (resolve c [] s) build put))

    open_or_lem : (or : Criteria A) (out : Bytes) → open_or lib or out ≡ ok (out ++ lead or)
    open_or_lem absent out = ap ok (sym (append-nil out))
    open_or_lem (criteria c or and) out = ample out (text "((")

    outer_text :
        (or : Criteria A) (out : Bytes) (texts : Criteria Bytes)
        → AlikeOr or texts
        → (out ++ lead or) ++ inner texts ≡ out ++ print (tokens texts)
    outer_text or out texts p =
        append_assoc out (lead or) _ ∙ ap (λ s. out ++ s) (inner_lem or texts p)

    write_outer :
        (c : A) (or and : Criteria A) → Writes or → Writes and → Writes (criteria c or and)
    write_outer c or and ho ha out s =
        unfold resolve_tree in
        rw (open_or_lem or out) (
          write_inner c or and ho ha (out ++ lead or) s
          ∙ chain-ext-Ensures (AlikeOr or) (test_texts (criteria c or and) s) _ _
              (test_texts-AlikeOr c or and s)
              (λ texts s' p. ap (λ o. (ok o, s')) (outer_text or out texts p)))

    writes : (t : Criteria A) → Writes t
    writes absent = tt
    writes (criteria c or and) = write_outer c or and (writes or) (writes and)

    -- Criteria that are there are written behind a text as the tokens of their tests, or fail as
    -- one of the tests does.
    pub resolve_tree_lem :
        (c : A) (or and : Criteria A) (out : Bytes) (s : St)
        → resolve_tree lib resolve (criteria c or and) out s
          ≡ chain
              (test_texts (criteria c or and) s)
              (λ texts s'. (ok (out ++ print (tokens texts)), s'))
    resolve_tree_lem c or and = writes (criteria c or and)
