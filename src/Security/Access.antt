-- ===== src/Security/Access.antt =====
-- Who is let through by the access lists.
use rmw_axon.Prelude.{
  ℕ, ◌≡◌, refl, sym, ap, ◌∙◌, inl, inr, ◌||◌, none, some, List, [], ◌∷◌, ◌++◌, append_assoc,
  append-nil, Option-cases,
}
use rmw_axon.Security.{
  Direction, publish, subscribe, Glob, AclEngine, any, is_empty, new_engine, patterns_of,
  push_pattern, add_rule, add_rules, check,
}

-- The rules that are patterns.
abbrev pub parsed {ℓ} : {Pattern : Type ℓ} → Glob Pattern → List (List ℕ) → List Pattern
parsed g [] = []
parsed g (rule ∷ rules) =
    let rest = parsed g rules in elim (g.parse rule) [ none ↦ rest | some p ↦ p ∷ rest ]

patterns_of-push_pattern {ℓ} :
    {Pattern : Type ℓ} (d : Direction) (p : Pattern) (e : AclEngine Pattern)
    → patterns_of d (push_pattern d p e) ≡ patterns_of d e ++ p ∷ []
patterns_of-push_pattern publish p e = refl
patterns_of-push_pattern subscribe p e = refl

patterns_of-add_rules {ℓ} :
    {Pattern : Type ℓ} (g : Glob Pattern) (e : AclEngine Pattern) (d : Direction)
    (rules : List (List ℕ))
    → patterns_of d (add_rules g e d rules) ≡ patterns_of d e ++ parsed g rules
unfolding add_rules add_rule
patterns_of-add_rules g e d [] = sym (append-nil (patterns_of d e))
patterns_of-add_rules g e d (rule ∷ rules) = elim (Option-cases (g.parse rule)) [
  | inl bad ↦ rw (bad, add_rule, parsed) (patterns_of-add_rules g e d rules)
  | inr (p, good) ↦
      rw (good, add_rule, parsed)
        (patterns_of-add_rules g (push_pattern d p e) d rules
          ∙ ap (λ ps. ps ++ parsed g rules) (patterns_of-push_pattern d p e)
          ∙ append_assoc (patterns_of d e) (p ∷ []) (parsed g rules))
]

patterns_of-new_engine {ℓ} :
    {Pattern : Type ℓ} (d : Direction) → patterns_of {Pattern = Pattern} d new_engine ≡ []
unfolding new_engine
patterns_of-new_engine publish = refl
patterns_of-new_engine subscribe = refl

-- An engine that was given rules for a direction lets a topic through if it matches one of those that
-- are patterns, or if none of them is one: a list of nothing but mistaken rules lets everything through.
pub check-add_rules {ℓ} :
    {Pattern : Type ℓ} (g : Glob Pattern) (d : Direction) (rules : List (List ℕ)) (topic : List ℕ)
    → check g (add_rules g new_engine d rules) d topic
      ≡ (is_empty (parsed g rules) || any (λ p. g.matches p topic) (parsed g rules))
unfolding check
check-add_rules g d rules topic =
    ap (λ ps. is_empty ps || any (λ p. g.matches p topic) ps)
      (patterns_of-add_rules g new_engine d rules
        ∙ ap (λ ps. ps ++ parsed g rules) (patterns_of-new_engine d))
