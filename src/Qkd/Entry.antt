-- ===== src/Qkd/Entry.antt =====
-- The entry of a claim of a message's key: what it matches, and what the next call does there.
use rmw_axon.Prelude.{
  ℕ, suc, ◌+◌, ◌%◌, ◌^◌, ◌≡◌, refl, ap, ◌∙◌, ◌⊎◌, Bool, true, false, none, some, List, arith,
  length, get_or-set_self,
}
use rmw_axon.Prelude.Texts.{bytes_eq_self}
use rmw_axon.Qkd.{
  max_sae_id_len, max_key_id_len, IsName, atomic_string, atomic_string-store_atomic_bytes,
  validate_identifier-IsName, store_atomic_bytes,
}
use rmw_axon.Qkd.Store.{
  MessageState, pending, ready, QkdMessageShmEntry, QkdKeyStore, entry_at, set_entry,
  clear_message_entry, Visit, take_empty, found_pending, found_ready, visit, is_gone, stopped,
  end_pass, returned, after_turn, Claim, message_entry_matches, claim_loop, claim_message_key,
}
use rmw_axon.Qkd.Probe.{stops, contains}
use rmw_axon.Qkd.Turns.{path_of, probe_of, turn-probe, probe_of-set_entry, lt-of-probe_order}

-- An entry as a claim or a publication leaves it, which names the message.
abbrev pub named_entry : MessageState → ℕ → ℕ → List ℕ → List ℕ → List ℕ → QkdMessageShmEntry
named_entry state pid generation sender_sae_id key_id key = record {
  state = state;
  writer_pid = pid;
  generation = generation;
  key_id_len = length key_id % 2 ^ 16;
  sender_sae_len = length sender_sae_id % 2 ^ 16;
  key = key;
  key_id = store_atomic_bytes max_key_id_len key_id;
  sender_sae_id = store_atomic_bytes max_sae_id_len sender_sae_id;
}

-- A store as a claim leaves it, with the entry of the claim replaced.
abbrev pub instead : QkdKeyStore → ℕ → QkdMessageShmEntry → QkdKeyStore
instead s i e = record (set_entry s i e) { generation = (s.generation + 1) % 2 ^ 64 }

module _ (is_alive : ℕ → Bool) (sender_sae_id key_id : List ℕ)
    (sender : IsName max_sae_id_len sender_sae_id) (name : IsName max_key_id_len key_id) where
  stored-sender :
      atomic_string
        (store_atomic_bytes max_sae_id_len sender_sae_id)
        (length sender_sae_id % 2 ^ 16)
      ≡ some sender_sae_id
  stored-sender = atomic_string-store_atomic_bytes max_sae_id_len sender_sae_id (omega arith) sender

  pub stored-key_id :
      atomic_string (store_atomic_bytes max_key_id_len key_id) (length key_id % 2 ^ 16)
      ≡ some key_id
  stored-key_id = atomic_string-store_atomic_bytes max_key_id_len key_id (omega arith) name

  pub matches-named_entry :
      (state : MessageState) (pid g : ℕ) (key : List ℕ)
      → message_entry_matches
          (named_entry state pid g sender_sae_id key_id key)
          sender_sae_id
          key_id
        ≡ true
  unfolding message_entry_matches
  matches-named_entry state pid g key =
      rw (stored-sender, stored-key_id, bytes_eq_self sender_sae_id) (bytes_eq_self key_id)

  pub claim-checked :
      (fuel pid : ℕ) (s : QkdKeyStore)
      → claim_message_key is_alive fuel pid s sender_sae_id key_id
        ≡ claim_loop is_alive fuel pid s sender_sae_id key_id
  unfolding claim_message_key
  claim-checked fuel pid s =
      rw
        (
          validate_identifier-IsName max_sae_id_len sender_sae_id sender,
          validate_identifier-IsName max_key_id_len key_id name,
        )
        refl

  -- One turn at the entry where the pass ends.
  pub claim-probe :
      (fuel pid : ℕ) (s : QkdKeyStore) (i : ℕ) (v : Visit) (c : Claim)
      → probe_of is_alive sender_sae_id key_id s ≡ some i
      → visit is_alive (entry_at s i) sender_sae_id key_id ≡ v
      → end_pass pid s sender_sae_id key_id (stopped v i) ≡ returned c
      → claim_message_key is_alive (suc fuel) pid s sender_sae_id key_id ≡ some c
  unfolding claim_loop
  claim-probe fuel pid s i v c p e h =
      claim-checked (suc fuel) pid s
      ∙ ap (λ t. after_turn t (λ s'. claim_loop is_alive fuel pid s' sender_sae_id key_id))
          (turn-probe is_alive sender_sae_id key_id pid s i p
            ∙ ap (λ v. end_pass pid s sender_sae_id key_id (stopped v i)) e
            ∙ h)

  pub visit-pending :
      (pid g : ℕ) (key : List ℕ)
      → is_gone is_alive pid ≡ false
      → visit is_alive (named_entry pending pid g sender_sae_id key_id key) sender_sae_id key_id
        ≡ found_pending
  unfolding visit
  visit-pending pid g key alive = rw (matches-named_entry pending pid g key, alive) refl

  pub visit-ready :
      (pid g : ℕ) (key : List ℕ)
      → visit is_alive (named_entry ready pid g sender_sae_id key_id key) sender_sae_id key_id
        ≡ found_ready
  unfolding visit
  visit-ready pid g key = rw (matches-named_entry ready pid g key) refl

  pub visit-empty : visit is_alive clear_message_entry sender_sae_id key_id ≡ take_empty
  unfolding visit clear_message_entry
  visit-empty = refl

  pub next_claim :
      (fuel pid : ℕ) (s : QkdKeyStore) (i : ℕ) (e : QkdMessageShmEntry) (v : Visit) (c : Claim)
      → contains i (path_of is_alive sender_sae_id key_id s) ≡ true
      → (probe_of is_alive sender_sae_id key_id s ≡ none)
        ⊎ (probe_of is_alive sender_sae_id key_id s ≡ some i)
      → visit is_alive e sender_sae_id key_id ≡ v
      → stops v ≡ true
      → end_pass pid (instead s i e) sender_sae_id key_id (stopped v i) ≡ returned c
      → claim_message_key is_alive (suc fuel) pid (instead s i e) sender_sae_id key_id ≡ some c
  next_claim fuel pid s i e v c on_path ended at stop h =
      let room = lt-of-probe_order s sender_sae_id key_id i on_path in
      claim-probe fuel pid (instead s i e) i v c
        (probe_of-set_entry is_alive sender_sae_id key_id s i e ((s.generation + 1) % 2 ^ 64)
          on_path ended (ap stops at ∙ stop))
        (ap (λ x. visit is_alive x sender_sae_id key_id)
            (get_or-set_self s.message_entries i e clear_message_entry room)
          ∙ at)
        h
