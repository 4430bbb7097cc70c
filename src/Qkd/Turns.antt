-- ===== src/Qkd/Turns.antt =====
-- One turn of the loop of `claim_message_key`, by the entry at which its pass ends.
use rmw_axon.Prelude.{
  ℕ, zero, suc, ◌+◌, ◌-◌, ◌%◌, ◌≤◌, ◌<◌, ◌≡◌, refl, sym, ap, ◌∙◌, ◌⊎◌, inl, inr, Bool, true, false,
  Option, none, some, List, [], ◌∷◌, arith, ltb, ◌==◌, ==_iff, Bool-cases, Option-cases, length,
  length-set,
}
use native.Mathlib.Nat.{mod-lt}
use rmw_axon.Prelude.Results.{Result, ok, err}
use rmw_axon.Qkd.{QkdError}
use rmw_axon.Qkd.Store.{
  empty, QkdMessageShmEntry, QkdKeyStore, entry_at, set_entry, clear_message_entry, offsets,
  probe_order, message_key_hash, Visit, pass_pending, pass_ready, busy, recover, take_empty,
  clear_stale, found_pending, found_ready, visit, stopped, reached_end, turn, end_pass, Turn,
  returned, again, ready_key, claimed, pending_key, initialize_message_entry, copy_message_key,
  QkdMessageKeyLookup,
}
use rmw_axon.Qkd.Probe.{
  stops, contains, probe, oldest_on, oldest_step, scan-probe, scan-probe-none, contains-first,
  probe-set_entry,
}

lt-of-offsets : (start n left i : ℕ) → 1 ≤ n → contains i (offsets start n left) ≡ true → i < n
lt-of-offsets start n zero i pos h = cc
lt-of-offsets start n (suc left) i pos h =
    let j = (start + (n - suc left)) % n in
    elim (Bool-cases (j == i)) [
      | inl e ↦ omega (arith, (==_iff j i).0 e, mod-lt (start + (n - suc left)) pos)
      | inr e ↦ lt-of-offsets start n left i pos (ground (arith, e, h))
    ]

lt-of-whole_pass : (start n i : ℕ) → contains i (offsets start n n) ≡ true → i < n
lt-of-whole_pass start zero i h = cc
lt-of-whole_pass start (suc n) i h = lt-of-offsets start (suc n) (suc n) i (omega arith) h

-- The indices of a pass are indices of the table.
pub lt-of-probe_order :
    (s : QkdKeyStore) (sender_sae_id key_id : List ℕ) (i : ℕ)
    → contains i (probe_order s sender_sae_id key_id) ≡ true
    → i < length s.message_entries
lt-of-probe_order s sender_sae_id key_id i h = lt-of-whole_pass _ _ i h

abbrev pub turn_store : Turn → QkdKeyStore
turn_store (returned (r, s)) = s
turn_store (again s) = s

abbrev is_claimed : Result QkdError QkdMessageKeyLookup → Bool
is_claimed (ok claimed) = true
is_claimed (ok pending_key) = false
is_claimed (ok (ready_key m)) = false
is_claimed (err e) = false

abbrev pub is_claim : Turn → Bool
is_claim (returned (r, s)) = is_claimed r
is_claim (again s) = false

option_inj {ℓ} : {A : Type ℓ} {a b : A} → some a ≡ some b → a ≡ b
option_inj e = cc

module _ (is_alive : ℕ → Bool) (sender_sae_id key_id : List ℕ) where
  abbrev pub path_of : QkdKeyStore → List ℕ
  path_of s = probe_order s sender_sae_id key_id

  abbrev pub probe_of : QkdKeyStore → Option ℕ
  probe_of s = probe is_alive sender_sae_id key_id s (path_of s)

  abbrev pub visit_at : QkdKeyStore → ℕ → Visit
  visit_at s i = visit is_alive (entry_at s i) sender_sae_id key_id

  pub turn-probe :
      (pid : ℕ) (s : QkdKeyStore) (i : ℕ)
      → probe_of s ≡ some i
      → turn is_alive pid s sender_sae_id key_id
        ≡ end_pass pid s sender_sae_id key_id (stopped (visit_at s i) i)
  turn-probe pid s i h =
      ap (end_pass pid s sender_sae_id key_id)
        (scan-probe is_alive sender_sae_id key_id s (path_of s) none i h)

  pub turn-probe-none :
      (pid : ℕ) (s : QkdKeyStore)
      → probe_of s ≡ none
      → turn is_alive pid s sender_sae_id key_id
        ≡ end_pass pid s sender_sae_id key_id
            (reached_end (oldest_on is_alive sender_sae_id key_id s (path_of s) none))
  turn-probe-none pid s h =
      ap (end_pass pid s sender_sae_id key_id)
        (scan-probe-none is_alive sender_sae_id key_id s (path_of s) none h)

  contains-oldest_step :
      (v : Visit) (o : Option (ℕ × ℕ)) (j g : ℕ) (r : ℕ × ℕ)
      → oldest_step v o j g ≡ some r
      → (o ≡ some r) ⊎ (r.0 ≡ j)
  contains-oldest_step pass_ready none j g r h = inr (sym (ap (λ p. p.0) (option_inj h)))
  contains-oldest_step pass_ready (some (k, oldest)) j g r h = elim (Bool-cases (ltb g oldest)) [
    | inl e ↦
        let on : oldest_step pass_ready (some (k, oldest)) j g ≡ some (j, g) = rw e refl in
        inr (sym (ap (λ p. p.0) (option_inj (sym on ∙ h))))
    | inr e ↦
        let on : oldest_step pass_ready (some (k, oldest)) j g ≡ some (k, oldest) = rw e refl in
        inl (sym on ∙ h)
  ]
  contains-oldest_step pass_pending o j g r h = inl h
  contains-oldest_step busy o j g r h = inl h
  contains-oldest_step recover o j g r h = inl h
  contains-oldest_step take_empty o j g r h = inl h
  contains-oldest_step clear_stale o j g r h = inl h
  contains-oldest_step found_pending o j g r h = inl h
  contains-oldest_step found_ready o j g r h = inl h

  contains-oldest_on :
      (s : QkdKeyStore) (path : List ℕ) (o : Option (ℕ × ℕ)) (r : ℕ × ℕ)
      → oldest_on is_alive sender_sae_id key_id s path o ≡ some r
      → (o ≡ some r) ⊎ (contains r.0 path ≡ true)
  unfolding oldest_on
  contains-oldest_on s [] o r h = inl h
  contains-oldest_on s (j ∷ js) o r h = elim (contains-oldest_on s js _ r h) [
    | inl e ↦ elim (contains-oldest_step (visit_at s j) o j (entry_at s j).generation r e) [
      | inl f ↦ inl f
      | inr f ↦ inr (ground (arith, f))
    ]
    | inr e ↦ inr (ground (arith, e))
  ]

  -- A claim is written at an index of the pass, at which the pass ended unless it came to the end.
  pub record Claimed (pid : ℕ) (s s' : QkdKeyStore) : Type 0 where
    pub at : ℕ
    pub on_path : contains at (path_of s) ≡ true
    pub ended : (probe_of s ≡ none) ⊎ (probe_of s ≡ some at)
    pub written : s' ≡ initialize_message_entry pid s at sender_sae_id key_id

  claimed-end_pass :
      (pid : ℕ) (s s' : QkdKeyStore) (v : Visit) (i : ℕ)
      → end_pass pid s sender_sae_id key_id (stopped v i) ≡ returned (ok claimed, s')
      → s' ≡ initialize_message_entry pid s i sender_sae_id key_id
  unfolding end_pass
  claimed-end_pass pid s s' busy i h = cc
  claimed-end_pass pid s s' recover i h = cc
  claimed-end_pass pid s s' take_empty i h = sym (ap turn_store h)
  claimed-end_pass pid s s' clear_stale i h = cc
  claimed-end_pass pid s s' found_pending i h = absurd (cc (ap is_claim h))
  claimed-end_pass pid s s' found_ready i h =
      elim (Option-cases (copy_message_key (entry_at s i))) [
        | inl e ↦ absurd cc
        | inr (m, e) ↦ absurd cc
      ]
  claimed-end_pass pid s s' pass_pending i h = cc
  claimed-end_pass pid s s' pass_ready i h = cc

  claimed-reached_end :
      (pid : ℕ) (s s' : QkdKeyStore) (o : Option (ℕ × ℕ))
      → end_pass pid s sender_sae_id key_id (reached_end o) ≡ returned (ok claimed, s')
      → (r : ℕ × ℕ) × (o ≡ some r) × (s' ≡ initialize_message_entry pid s r.0 sender_sae_id key_id)
  unfolding end_pass
  claimed-reached_end pid s s' none h = absurd (cc (ap is_claim h))
  claimed-reached_end pid s s' (some r) h = (r, refl, sym (ap turn_store h))

  pub turn-Claimed :
      (pid : ℕ) (s s' : QkdKeyStore)
      → turn is_alive pid s sender_sae_id key_id ≡ returned (ok claimed, s')
      → Claimed pid s s'
  turn-Claimed pid s s' h = elim (Option-cases (probe_of s)) [
    | inl e ↦
        let (r, o, w) = claimed-reached_end pid s s' _ (sym (turn-probe-none pid s e) ∙ h) in
        record {
          at = r.0;
          on_path = elim (contains-oldest_on s (path_of s) none r o) [
            | inl n ↦ absurd (cc n)
            | inr c ↦ c
          ];
          ended = inl e;
          written = w;
        }
    | inr (i, e) ↦ record {
      at = i;
      on_path = (contains-first _ (path_of s) i e).0;
      ended = inr e;
      written = claimed-end_pass pid s s' (visit_at s i) i (sym (turn-probe pid s i e) ∙ h);
    }
  ]

  pub same-path :
      (s : QkdKeyStore) (i : ℕ) (e : QkdMessageShmEntry) (g : ℕ)
      → path_of (record (set_entry s i e) { generation = g }) ≡ path_of s
  same-path s i e g =
      ap (λ n. offsets (message_key_hash sender_sae_id key_id % n) n n)
        (length-set s.message_entries i e)

  -- A write at an index of the pass at which the pass then stops, where none stopped before.
  pub probe_of-set_entry :
      (s : QkdKeyStore) (i : ℕ) (e : QkdMessageShmEntry) (g : ℕ)
      → contains i (path_of s) ≡ true
      → (probe_of s ≡ none) ⊎ (probe_of s ≡ some i)
      → stops (visit is_alive e sender_sae_id key_id) ≡ true
      → probe_of (record (set_entry s i e) { generation = g }) ≡ some i
  probe_of-set_entry s i e g c f stop =
      ap (probe is_alive sender_sae_id key_id (set_entry s i e)) (same-path s i e g)
      ∙ probe-set_entry is_alive sender_sae_id key_id s (path_of s) i e
          (lt-of-probe_order s sender_sae_id key_id i c) c f stop

  -- A turn that does not return has emptied the entry at which its pass ended, or has waited.
  pub record Emptied (s s' : QkdKeyStore) : Type 0 where
    pub at : ℕ
    pub entry : QkdMessageShmEntry
    pub is_empty : entry.state ≡ empty
    pub ended : probe_of s ≡ some at
    pub was : (visit_at s at ≡ recover) ⊎ (visit_at s at ≡ clear_stale)
    pub written : s' ≡ set_entry s at entry

  again-end_pass :
      (pid : ℕ) (s s' : QkdKeyStore) (i : ℕ) (v : Visit)
      → probe_of s ≡ some i
      → visit_at s i ≡ v
      → stops v ≡ true
      → end_pass pid s sender_sae_id key_id (stopped v i) ≡ again s'
      → ((s' ≡ s) × (v ≡ busy)) ⊎ Emptied s s'
  unfolding end_pass clear_message_entry
  again-end_pass pid s s' i busy e v t h = inl (sym (ap turn_store h), refl)
  again-end_pass pid s s' i recover e v t h = inr (record {
    at = i;
    entry = record (entry_at s i) { state = empty };
    is_empty = refl;
    ended = e;
    was = inl v;
    written = sym (ap turn_store h);
  })
  again-end_pass pid s s' i take_empty e v t h = cc
  again-end_pass pid s s' i clear_stale e v t h = inr (record {
    at = i;
    entry = clear_message_entry;
    is_empty = refl;
    ended = e;
    was = inr v;
    written = sym (ap turn_store h);
  })
  again-end_pass pid s s' i found_pending e v t h = cc
  again-end_pass pid s s' i found_ready e v t h = cc
  again-end_pass pid s s' i pass_pending e v t h = cc
  again-end_pass pid s s' i pass_ready e v t h = cc

  turn-reached_end :
      (pid : ℕ) (s s' : QkdKeyStore) (o : Option (ℕ × ℕ))
      → end_pass pid s sender_sae_id key_id (reached_end o) ≡ again s'
      → ⊥
  unfolding end_pass
  turn-reached_end pid s s' none h = cc
  turn-reached_end pid s s' (some r) h = cc

  pub turn-Emptied :
      (pid : ℕ) (s s' : QkdKeyStore)
      → turn is_alive pid s sender_sae_id key_id ≡ again s'
      → ((s' ≡ s) × (i : ℕ) × (visit_at s i ≡ busy)) ⊎ Emptied s s'
  turn-Emptied pid s s' h = elim (Option-cases (probe_of s)) [
    | inl e ↦ absurd (turn-reached_end pid s s' _ (sym (turn-probe-none pid s e) ∙ h))
    | inr (i, e) ↦
        elim (again-end_pass pid s s' i (visit_at s i) e refl (contains-first _ (path_of s) i e).1
          (sym (turn-probe pid s i e) ∙ h)) [
            | inl (same, b) ↦ inl (same, i, b)
            | inr emptied ↦ inr emptied
          ]
  ]
