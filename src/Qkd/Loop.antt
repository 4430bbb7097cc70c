-- ===== src/Qkd/Loop.antt =====
-- The loop of `claim_message_key`, turn by turn.
use rmw_axon.Prelude.{ℕ, zero, suc, ◌≡◌, refl, sym, ap, ◌∙◌, ◌⊎◌, inl, inr, Bool, some, List, subst}
use rmw_axon.Prelude.Results.{ok}
use rmw_axon.Qkd.Store.{
  QkdKeyStore, turn, Turn, returned, again, after_turn, Claim, claimed, claim_loop,
}
use rmw_axon.Qkd.Turns.{Claimed, turn-Claimed, Emptied, turn-Emptied}

some-inj {ℓ} : {A : Type ℓ} {a b : A} → some a ≡ some b → a ≡ b
some-inj e = cc

pub turn_cases : (t : Turn) → ((c : Claim) × (t ≡ returned c)) ⊎ ((s : QkdKeyStore) × (t ≡ again s))
turn_cases (returned c) = inl (c, refl)
turn_cases (again s) = inr (s, refl)

module _ (is_alive : ℕ → Bool) (sender_sae_id key_id : List ℕ) where
  abbrev pub turn_of : ℕ → QkdKeyStore → Turn
  turn_of pid s = turn is_alive pid s sender_sae_id key_id

  pub loop-returned :
      (fuel pid : ℕ) (s : QkdKeyStore) (c : Claim)
      → turn_of pid s ≡ returned c
      → claim_loop is_alive (suc fuel) pid s sender_sae_id key_id ≡ some c
  unfolding claim_loop
  loop-returned fuel pid s c e =
      ap (λ t. after_turn t (λ s'. claim_loop is_alive fuel pid s' sender_sae_id key_id)) e

  pub loop-again :
      (fuel pid : ℕ) (s s' : QkdKeyStore)
      → turn_of pid s ≡ again s'
      → claim_loop is_alive (suc fuel) pid s sender_sae_id key_id
        ≡ claim_loop is_alive fuel pid s' sender_sae_id key_id
  unfolding claim_loop
  loop-again fuel pid s s' e =
      ap (λ t. after_turn t (λ s'. claim_loop is_alive fuel pid s' sender_sae_id key_id)) e

  -- What holds at the start of a loop that claims also holds at the turn that claims.
  pub loop-Claimed :
      (Q : QkdKeyStore → Type 0)
      → ((s s' : QkdKeyStore) → Emptied is_alive sender_sae_id key_id s s' → Q s → Q s')
      → (fuel pid : ℕ) (s s' : QkdKeyStore) → Q s
      → claim_loop is_alive fuel pid s sender_sae_id key_id ≡ some (ok claimed, s')
      → (s0 : QkdKeyStore) × Q s0 × Claimed is_alive sender_sae_id key_id pid s0 s'
  unfolding claim_loop
  loop-Claimed Q keeps zero pid s s' q h = cc
  loop-Claimed Q keeps (suc fuel) pid s s' q h = elim (turn_cases (turn_of pid s)) [
    | inl (c, e) ↦
        let same : some c ≡ some (ok claimed, s') = sym (loop-returned fuel pid s c e) ∙ h in
        (
          s,
          q,
          turn-Claimed is_alive sender_sae_id key_id pid s s' (e ∙ ap returned (some-inj same)),
        )
    | inr (s1, e) ↦
        let on = sym (loop-again fuel pid s s1 e) ∙ h in
        elim (turn-Emptied is_alive sender_sae_id key_id pid s s1 e) [
          | inl (same, _, _) ↦ loop-Claimed Q keeps fuel pid s1 s' (subst Q (sym same) q) on
          | inr emptied ↦ loop-Claimed Q keeps fuel pid s1 s' (keeps s s1 emptied q) on
        ]
  ]
