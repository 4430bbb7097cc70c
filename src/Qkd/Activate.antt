-- ===== src/Qkd/Activate.antt =====
-- The activation of a session of the key store.
use rmw_axon.Prelude.{
  ℕ, ◌≤◌, ◌<◌, ◌≡◌, refl, sym, ap, ◌∙◌, inl, inr, Bool, true, false, ◌&&◌, none, some, List, arith,
  ==_self, Bool-cases, length, set, get_or-set_self,
}
use rmw_axon.Prelude.Results.{ok}
use rmw_axon.Prelude.Texts.{
  bytes_eq, bytes_eq_self, position, find_map-set, find_map-set_skip, position-set,
  position-set-none, find_map-none, set-set, position-none-at, position_mono,
}
use rmw_axon.Qkd.{
  QkdShmEntry, qkd_key_bytes, max_sae_id_len, max_key_id_len, IsName,
  atomic_string-store_atomic_bytes,
}
use rmw_axon.Qkd.Store.{QkdKeyStore, QkdKeyMaterial}
use rmw_axon.Qkd.Sessions.{
  is_active_state, next_generation, cleared_entry, session_entry, is_session_of, stored, put_index,
  put, activates, activated, activate_at, activate, local_sae_id, find_for_daemon,
}
use rmw_axon.Qkd.Lifecycle.{put_index_cases, put-IsName}
use rmw_axon.Qkd.Found.{find_if, found-session_entry}

activates-other :
    (d : ℕ) (k : List ℕ) (x : QkdShmEntry) → is_session_of d x ≡ false → activates d k x ≡ false
activates-other d k x h = rw h refl

activates-session_entry :
    (d : ℕ) (r k : List ℕ) (m : QkdKeyMaterial)
    → IsName max_key_id_len m.key_id
    → activates d k (session_entry d r m false) ≡ bytes_eq m.key_id k
unfolding session_entry
activates-session_entry d r k m name =
    rw (==_self d, atomic_string-store_atomic_bytes max_key_id_len m.key_id (omega arith) name) refl

activated-session_entry :
    (d : ℕ) (r : List ℕ) (m : QkdKeyMaterial)
    → activated (session_entry d r m false) ≡ session_entry d r m true
unfolding session_entry
activated-session_entry d r m = refl

and_false : (b : Bool) → (b && false) ≡ false
and_false true = refl
and_false false = refl

inactive-session_entry :
    (d : ℕ) (r : List ℕ) (m : QkdKeyMaterial)
    → is_active_state (session_entry d r m false).state ≡ false
unfolding session_entry
inactive-session_entry d r m = refl

module _ (s : QkdKeyStore) (d : ℕ) (r own : List ℕ) (m : QkdKeyMaterial)
    (some_entries : 1 ≤ length s.entries) (sender : IsName max_sae_id_len r)
    (name : IsName max_key_id_len m.key_id) (size : length m.key ≡ qkd_key_bytes)
    (here : local_sae_id s ≡ ok own) (fresh : position (is_session_of d) s.entries ≡ none) where
  abbrev slot : ℕ
  slot = put_index s.entries d

  abbrev waiting : QkdKeyStore
  waiting = stored s d r m false

  slot_room : slot < length s.entries
  slot_room = (put_index_cases s.entries d some_entries).0

  not_activated : (k : List ℕ) → position (activates d k) s.entries ≡ none
  not_activated k =
      position_mono (is_session_of d) (activates d k) s.entries (activates-other d k) fresh

  no_active : find_for_daemon waiting d true ≡ none
  unfolding find_for_daemon local_sae_id
  no_active =
      find_map-set_skip (find_if s d true) s.entries slot (session_entry d r m false) cleared_entry
        (rw (position-none-at (is_session_of d) s.entries slot cleared_entry fresh slot_room) refl)
        (rw (inactive-session_entry d r m, and_false) refl)
      ∙ find_map-none (find_if s d true) (is_session_of d) s.entries (λ x other. rw other refl)
          fresh

  abbrev after : QkdKeyStore
  after = record s {
    generation = next_generation (next_generation s.generation);
    entries = set s.entries slot (session_entry d r m true);
  }

  activate_at-slot : activate_at waiting (some slot) ≡ (true, after)
  activate_at-slot =
      let new = session_entry d r m false in
      let at = get_or-set_self s.entries slot new cleared_entry slot_room in
      rw (at, inactive-session_entry d r m)
        (ap
          (λ es. (
            true,
            record waiting { generation = next_generation waiting.generation; entries = es },
          ))
          (set-set s.entries slot new (activated new)
            ∙ ap (set s.entries slot) (activated-session_entry d r m)))

  activate-waiting : (k : List ℕ) → (activate waiting d k).0 ≡ bytes_eq m.key_id k
  unfolding activate
  activate-waiting k = elim (Bool-cases (bytes_eq m.key_id k)) [
    | inl t ↦
        let e =
          position-set (activates d k) s.entries slot (session_entry d r m false) (not_activated k)
            slot_room (activates-session_entry d r k m name ∙ t) in
        ap (λ o. (activate_at waiting o).0) e ∙ ap (λ x. x.0) activate_at-slot ∙ sym t
    | inr f ↦
        let e =
          position-set-none (activates d k) s.entries slot (session_entry d r m false)
            (not_activated k) (activates-session_entry d r k m name ∙ f) in
        ap (λ o. (activate_at waiting o).0) e ∙ sym f
  ]

  activated-waiting : (activate waiting d m.key_id).1 ≡ after
  unfolding activate
  activated-waiting =
      ap (λ o. (activate_at waiting o).1)
        (position-set (activates d m.key_id) s.entries slot (session_entry d r m false)
          (not_activated m.key_id) slot_room
          (activates-session_entry d r m.key_id m name ∙ bytes_eq_self m.key_id))
      ∙ ap (λ x. x.1) activate_at-slot

  found-after :
      find_for_daemon after d true
      ≡ some (record {
        remote_daemon_id = d;
        local_sae_id = own;
        remote_sae_id = r;
        key_id = m.key_id;
        key = m.key;
        is_active = true;
      })
  unfolding find_for_daemon local_sae_id
  found-after =
      find_map-set (find_if s d true) (is_session_of d) s.entries slot (session_entry d r m true) _
        (λ x other. rw other refl) (inl fresh) slot_room
        (found-session_entry s d r own m true true sender name size here refl)

-- A session that is put waits to be activated: a daemon without a session before then has no active
-- one; only the ID of its key activates it, and it is then the daemon's active one.
pub activate-put :
    (s : QkdKeyStore) (d : ℕ) (r own k : List ℕ) (m : QkdKeyMaterial)
    → 1 ≤ length s.entries
    → IsName max_sae_id_len r
    → IsName max_key_id_len m.key_id
    → length m.key ≡ qkd_key_bytes
    → local_sae_id s ≡ ok own
    → position (is_session_of d) s.entries ≡ none
    → let s' = (put s d r m false).1 in
      (find_for_daemon s' d true ≡ none)
      × ((activate s' d k).0 ≡ bytes_eq m.key_id k)
      × (find_for_daemon (activate s' d m.key_id).1 d true
          ≡ some (record {
            remote_daemon_id = d;
            local_sae_id = own;
            remote_sae_id = r;
            key_id = m.key_id;
            key = m.key;
            is_active = true;
          }))
activate-put s d r own k m some_entries sender name size here fresh =
    let done = ap (λ x. x.1) (put-IsName s d r m false sender name) in
    (
      ap (λ x. find_for_daemon x d true) done
          ∙ no_active s d r own m some_entries sender name size here fresh,
      ap (λ x. (activate x d k).0) done
          ∙ activate-waiting s d r own m some_entries sender name size here fresh k,
      ap (λ x. find_for_daemon (activate x d m.key_id).1 d true) done
          ∙ ap (λ x. find_for_daemon x d true)
              (activated-waiting s d r own m some_entries sender name size here fresh)
          ∙ found-after s d r own m some_entries sender name size here fresh,
    )
