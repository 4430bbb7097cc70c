-- ===== src/Qkd/Evict.antt =====
-- Which entry `claim_message_key` takes when none of its pass is free.
use rmw_axon.Prelude.{
  ℕ, ◌≤◌, ◌≡◌, refl, ap, ◌∙◌, inl, inr, Bool, true, Option, none, some, List, [], ◌∷◌, arith, ltb,
  ◌==◌, ==_iff, Bool-cases, Option-cases, subst,
}
use rmw_axon.Prelude.Results.{ok}
use rmw_axon.Qkd.{max_sae_id_len, max_key_id_len, IsName}
use rmw_axon.Qkd.Store.{
  QkdKeyStore, entry_at, Visit, pass_pending, pass_ready, busy, recover, take_empty, clear_stale,
  found_pending, found_ready, older, reached_end, end_pass, claimed, initialize_message_entry,
  claim_message_key,
}
use rmw_axon.Qkd.Probe.{contains, oldest_on, oldest_step}
use rmw_axon.Qkd.Turns.{path_of, probe_of, visit_at, turn-probe-none}
use rmw_axon.Qkd.Loop.{loop-returned}
use rmw_axon.Qkd.Entry.{claim-checked}

-- Of two keys, the older.
abbrev AtMost : Option (ℕ × ℕ) → ℕ → Type 0
AtMost none g = ⊥
AtMost (some r) g = r.1 ≤ g

older-le : (o : Option (ℕ × ℕ)) (i g : ℕ) → AtMost (older o i g) g
older-le none i g = omega arith
older-le (some (j, h)) i g = ground arith

older-keeps : (o : Option (ℕ × ℕ)) (i g b : ℕ) → AtMost o b → AtMost (older o i g) b
older-keeps none i g b h = absurd h
older-keeps (some (j, k)) i g b h = ground arith

oldest_step-keeps :
    (v : Visit) (o : Option (ℕ × ℕ)) (i g b : ℕ) → AtMost o b → AtMost (oldest_step v o i g) b
oldest_step-keeps pass_ready o i g b h = older-keeps o i g b h
oldest_step-keeps pass_pending o i g b h = h
oldest_step-keeps busy o i g b h = h
oldest_step-keeps recover o i g b h = h
oldest_step-keeps take_empty o i g b h = h
oldest_step-keeps clear_stale o i g b h = h
oldest_step-keeps found_pending o i g b h = h
oldest_step-keeps found_ready o i g b h = h

module _ (is_alive : ℕ → Bool) (sender_sae_id key_id : List ℕ) (s : QkdKeyStore) where
  -- The entry of a pair holds a key of another message, of that generation.
  abbrev IsReady : ℕ × ℕ → Type 0
  IsReady r =
      (visit_at is_alive sender_sae_id key_id s r.0 ≡ pass_ready)
      × ((entry_at s r.0).generation ≡ r.1)

  abbrev AllReady : Option (ℕ × ℕ) → Type 0
  AllReady none = Unit
  AllReady (some r) = IsReady r

  AllReady-older :
      (o : Option (ℕ × ℕ)) (i : ℕ)
      → visit_at is_alive sender_sae_id key_id s i ≡ pass_ready
      → AllReady o
      → AllReady (older o i (entry_at s i).generation)
  AllReady-older none i v h = (v, refl)
  AllReady-older (some (j, k)) i v h = elim (Bool-cases (ltb (entry_at s i).generation k)) [
    | inl e ↦ rw e (v, refl)
    | inr e ↦ rw e h
  ]

  AllReady-step :
      (v : Visit) (o : Option (ℕ × ℕ)) (i : ℕ)
      → visit_at is_alive sender_sae_id key_id s i ≡ v
      → AllReady o
      → AllReady (oldest_step v o i (entry_at s i).generation)
  AllReady-step pass_ready o i e h = AllReady-older o i e h
  AllReady-step pass_pending o i e h = h
  AllReady-step busy o i e h = h
  AllReady-step recover o i e h = h
  AllReady-step take_empty o i e h = h
  AllReady-step clear_stale o i e h = h
  AllReady-step found_pending o i e h = h
  AllReady-step found_ready o i e h = h

  AllReady-oldest_on :
      (path : List ℕ) (o : Option (ℕ × ℕ))
      → AllReady o
      → AllReady (oldest_on is_alive sender_sae_id key_id s path o)
  unfolding oldest_on
  AllReady-oldest_on [] o h = h
  AllReady-oldest_on (i ∷ is) o h = AllReady-oldest_on is _ (AllReady-step _ o i refl h)

  keeps-oldest_on :
      (path : List ℕ) (o : Option (ℕ × ℕ)) (b : ℕ)
      → AtMost o b
      → AtMost (oldest_on is_alive sender_sae_id key_id s path o) b
  unfolding oldest_on
  keeps-oldest_on [] o b h = h
  keeps-oldest_on (i ∷ is) o b h = keeps-oldest_on is _ b (oldest_step-keeps _ o i _ b h)

  least-oldest_on :
      (path : List ℕ) (o : Option (ℕ × ℕ)) (j : ℕ)
      → contains j path ≡ true
      → visit_at is_alive sender_sae_id key_id s j ≡ pass_ready
      → AtMost (oldest_on is_alive sender_sae_id key_id s path o) (entry_at s j).generation
  unfolding oldest_on
  least-oldest_on [] o j c v = cc
  least-oldest_on (i ∷ is) o j c v = elim (Bool-cases (i == j)) [
    | inl e ↦
        let same : i ≡ j = (==_iff i j).0 e in
        keeps-oldest_on is _ _ (rw same (rw v (older-le o j (entry_at s j).generation)))
    | inr e ↦ least-oldest_on is _ j (ground (arith, e, c)) v
  ]

  -- For valid identifiers, when the pass of a call comes to its end, so that it meets no empty entry,
  -- none of its message, none that is being written and none that a dead process left, but a key of
  -- another message, the call takes the entry of a key that no key on the pass is older than.
  pub claim-oldest :
      (pid k : ℕ)
      → IsName max_sae_id_len sender_sae_id
      → IsName max_key_id_len key_id
      → probe_of is_alive sender_sae_id key_id s ≡ none
      → contains k (path_of is_alive sender_sae_id key_id s) ≡ true
      → visit_at is_alive sender_sae_id key_id s k ≡ pass_ready
      → (i : ℕ) × (claim_message_key is_alive 1 pid s sender_sae_id key_id
          ≡ some (ok claimed, initialize_message_entry pid s i sender_sae_id key_id))
        × (visit_at is_alive sender_sae_id key_id s i ≡ pass_ready)
        × ((j : ℕ)
            → contains j (path_of is_alive sender_sae_id key_id s) ≡ true
            → visit_at is_alive sender_sae_id key_id s j ≡ pass_ready
            → (entry_at s i).generation ≤ (entry_at s j).generation)
  unfolding end_pass
  claim-oldest pid k sender name end c v =
      let path = path_of is_alive sender_sae_id key_id s in
      let least = least-oldest_on path none in
      let at = AllReady-oldest_on path none tt in
      elim (Option-cases (oldest_on is_alive sender_sae_id key_id s path none)) [
        | inl e ↦ absurd (subst (λ o. AtMost o (entry_at s k).generation) e (least k c v))
        | inr (r, e) ↦
            let ready = subst AllReady e at in
            (
              r.0,
              claim-checked is_alive sender_sae_id key_id sender name 1 pid s
                  ∙ loop-returned is_alive sender_sae_id key_id 0 pid s _ (
                      turn-probe-none is_alive sender_sae_id key_id pid s end
                      ∙ ap (λ o. end_pass pid s sender_sae_id key_id (reached_end o)) e),
              ready.0,
              λ j on w.
                  let le = subst (λ o. AtMost o (entry_at s j).generation) e (least j on w) in
                  omega (arith, le, ready.1),
            )
      ]
