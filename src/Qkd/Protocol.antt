-- ===== src/Qkd/Protocol.antt =====
-- The claims of the key of a message: who is to fetch it, and what its publication and its
-- abandonment do.
use rmw_axon.Prelude.{
  ℕ, ◌+◌, ◌%◌, ◌^◌, ◌<◌, ◌≡◌, refl, sym, ap, ◌∙◌, Bool, false, ◌&&◌, none, some, List, length,
  subst, get_or-set_self,
}
use rmw_axon.Prelude.Results.{ok}
use rmw_axon.Prelude.Texts.{position-set, position-set-none, set-set}
use rmw_axon.Qkd.{qkd_key_bytes, max_sae_id_len, max_key_id_len, IsName, store_atomic_bytes-whole}
use rmw_axon.Qkd.Store.{
  pending, ready, QkdKeyStore, set_entry, clear_message_entry, take_empty, found_pending,
  found_ready, is_gone, end_pass, returned, ready_key, claimed, pending_key,
  initialize_message_entry, initialized_entry, message_entry_matches, copy_message_key, copy_ready,
  ready_result, QkdKeyMaterial, find_message_entry, is_pending, publish_message_key,
  abandon_message_key, publish_at, abandon_at, claim_message_key,
}
use rmw_axon.Qkd.Turns.{Emptied, lt-of-probe_order}
use rmw_axon.Qkd.Loop.{loop-Claimed}
use rmw_axon.Qkd.Entry.{
  named_entry, instead, stored-key_id, matches-named_entry, claim-checked, visit-pending,
  visit-ready, visit-empty, next_claim,
}

module _ (is_alive : ℕ → Bool) (sender_sae_id key_id : List ℕ)
    (sender : IsName max_sae_id_len sender_sae_id) (name : IsName max_key_id_len key_id) where
  -- The next call for a key that a live process has claimed, by any process, on the store that the
  -- claim left, is told to wait, and leaves the store as it is.
  pub claim_exclusive :
      (fuel pid pid' : ℕ) (s s' : QkdKeyStore)
      → is_gone is_alive pid ≡ false
      → claim_message_key is_alive fuel pid s sender_sae_id key_id ≡ some (ok claimed, s')
      → claim_message_key is_alive 1 pid' s' sender_sae_id key_id ≡ some (ok pending_key, s')
  unfolding initialize_message_entry initialized_entry end_pass
  claim_exclusive fuel pid pid' s s' alive h =
      let (s0, _, c) =
        loop-Claimed is_alive sender_sae_id key_id (λ s. Unit {0}) (λ s s' e u. tt) fuel pid s s' tt
          (sym (claim-checked is_alive sender_sae_id key_id sender name fuel pid s) ∙ h) in
      rw c.written (
        next_claim is_alive sender_sae_id key_id sender name 0 pid' s0 c.at _ found_pending _
          c.on_path c.ended (visit-pending is_alive sender_sae_id key_id sender name pid _ _ alive)
          refl refl)

  NotPending : QkdKeyStore → Type 0
  NotPending s = find_message_entry is_pending s sender_sae_id key_id ≡ none

  NotPending-Emptied :
      (s s' : QkdKeyStore)
      → Emptied is_alive sender_sae_id key_id s s'
      → NotPending s
      → NotPending s'
  unfolding NotPending find_message_entry
  NotPending-Emptied s s' e q =
      let none_here : (is_pending e.entry.state
            && message_entry_matches e.entry sender_sae_id key_id)
          ≡ false =
        rw e.is_empty refl in
      rw e.written (position-set-none _ s.message_entries e.at e.entry q none_here)

  find-claimed :
      (s : QkdKeyStore) (pid i g : ℕ) (key : List ℕ)
      → NotPending s
      → i < length s.message_entries
      → find_message_entry is_pending
          (record (set_entry s i (named_entry pending pid g sender_sae_id key_id key)) {
            generation = g;
          })
          sender_sae_id
          key_id
        ≡ some i
  unfolding NotPending find_message_entry
  find-claimed s pid i g key q room =
      position-set _ s.message_entries i (named_entry pending pid g sender_sae_id key_id key) q room
        (matches-named_entry is_alive sender_sae_id key_id sender name pending pid g key)

  copy-ready :
      (pid g : ℕ) (key : List ℕ)
      → copy_message_key (named_entry ready pid g sender_sae_id key_id key)
        ≡ some (record { key_id = key_id; key = key })
  unfolding copy_message_key
  copy-ready pid g key =
      ap (λ o. copy_ready ready o key) (stored-key_id is_alive sender_sae_id key_id sender name)

  publish-named_entry :
      (s : QkdKeyStore) (pid i : ℕ) (old key : List ℕ)
      → NotPending s
      → i < length s.message_entries
      → length key ≡ qkd_key_bytes
      → let g = (s.generation + 1) % 2 ^ 64 in
        publish_message_key
          (instead s i (named_entry pending pid g sender_sae_id key_id old))
          sender_sae_id
          (record { key_id = key_id; key = key })
        ≡ (ok tt, instead s i (named_entry ready pid g sender_sae_id key_id key))
  unfolding publish_message_key
  publish-named_entry s pid i old key q room size =
      let g = (s.generation + 1) % 2 ^ 64 in
      let before = named_entry pending pid g sender_sae_id key_id old in
      let at = get_or-set_self s.message_entries i before clear_message_entry room in
      let twice = set-set s.message_entries i before in
      let material : QkdKeyMaterial = record { key_id = key_id; key = key } in
      ap (publish_at (instead s i before) material) (find-claimed s pid i g old q room)
      ∙ rw (at, store_atomic_bytes-whole key qkd_key_bytes size)
          (ap (λ xs. (ok tt, record s { generation = g; message_entries = xs })) (twice _))

  -- When the key of a message that no entry waits for is claimed, the claimant can publish it, and the
  -- next call for the message, by any process, on the store that the publication left, gets that key.
  pub publish-claim :
      (fuel pid pid' : ℕ) (s s' : QkdKeyStore) (key : List ℕ)
      → length key ≡ qkd_key_bytes
      → find_message_entry is_pending s sender_sae_id key_id ≡ none
      → claim_message_key is_alive fuel pid s sender_sae_id key_id ≡ some (ok claimed, s')
      → let material : QkdKeyMaterial = record { key_id = key_id; key = key } in
        let (r, published) = publish_message_key s' sender_sae_id material in
        (r ≡ ok tt)
        × (claim_message_key is_alive 1 pid' published sender_sae_id key_id
            ≡ some (ok (ready_key material), published))
  unfolding NotPending initialize_message_entry initialized_entry end_pass
  publish-claim fuel pid pid' s s' key size q h =
      let (s0, q0, c) =
        loop-Claimed is_alive sender_sae_id key_id NotPending NotPending-Emptied fuel pid s s' q
          (sym (claim-checked is_alive sender_sae_id key_id sender name fuel pid s) ∙ h) in
      let g = (s0.generation + 1) % 2 ^ 64 in
      let room = lt-of-probe_order s0 sender_sae_id key_id c.at c.on_path in
      let material : QkdKeyMaterial = record { key_id = key_id; key = key } in
      let done =
        ap (λ x. publish_message_key x sender_sae_id material) c.written
        ∙ publish-named_entry s0 pid c.at _ key q0 room size in
      (
        ap (λ x. x.0) done,
        subst
            (λ x.
              claim_message_key is_alive 1 pid' x sender_sae_id key_id
              ≡ some (ok (ready_key material), x))
            (sym (ap (λ x. x.1) done))
            (next_claim is_alive sender_sae_id key_id sender name 0 pid' s0 c.at
              (named_entry ready pid g sender_sae_id key_id key) found_ready _ c.on_path c.ended
              (visit-ready is_alive sender_sae_id key_id sender name pid g key) refl
              (ap
                (λ o. returned (
                  ready_result o,
                  instead s0 c.at (named_entry ready pid g sender_sae_id key_id key),
                ))
                (ap copy_message_key
                    (get_or-set_self s0.message_entries c.at _ clear_message_entry room)
                  ∙ copy-ready pid g key))),
      )

  abandon-named_entry :
      (s : QkdKeyStore) (pid i : ℕ) (old : List ℕ)
      → NotPending s
      → i < length s.message_entries
      → let g = (s.generation + 1) % 2 ^ 64 in
        abandon_message_key
          (instead s i (named_entry pending pid g sender_sae_id key_id old))
          sender_sae_id
          key_id
        ≡ instead s i clear_message_entry
  unfolding abandon_message_key
  abandon-named_entry s pid i old q room =
      let g = (s.generation + 1) % 2 ^ 64 in
      let before = named_entry pending pid g sender_sae_id key_id old in
      ap (abandon_at (instead s i before)) (find-claimed s pid i g old q room)
      ∙ ap (λ xs. record s { generation = g; message_entries = xs })
          (set-set s.message_entries i before clear_message_entry)

  -- A claim that is given up, for a message that no entry waited for, is free again: the next call for
  -- the key claims it.
  pub abandon-claim :
      (fuel pid pid' : ℕ) (s s' : QkdKeyStore)
      → find_message_entry is_pending s sender_sae_id key_id ≡ none
      → claim_message_key is_alive fuel pid s sender_sae_id key_id ≡ some (ok claimed, s')
      → (s'' : QkdKeyStore) × (claim_message_key is_alive 1 pid'
            (abandon_message_key s' sender_sae_id key_id)
            sender_sae_id
            key_id
          ≡ some (ok claimed, s''))
  unfolding NotPending initialize_message_entry initialized_entry end_pass
  abandon-claim fuel pid pid' s s' q h =
      let (s0, q0, c) =
        loop-Claimed is_alive sender_sae_id key_id NotPending NotPending-Emptied fuel pid s s' q
          (sym (claim-checked is_alive sender_sae_id key_id sender name fuel pid s) ∙ h) in
      let room = lt-of-probe_order s0 sender_sae_id key_id c.at c.on_path in
      let done =
        ap (λ x. abandon_message_key x sender_sae_id key_id) c.written
        ∙ abandon-named_entry s0 pid c.at _ q0 room in
      (
        initialize_message_entry pid' (instead s0 c.at clear_message_entry) c.at sender_sae_id
            key_id,
        ap (λ x. claim_message_key is_alive 1 pid' x sender_sae_id key_id) done
            ∙ next_claim is_alive sender_sae_id key_id sender name 0 pid' s0 c.at
                clear_message_entry take_empty _ c.on_path c.ended
                (visit-empty is_alive sender_sae_id key_id sender name) refl refl,
      )
