-- ===== src/Qkd/Found.antt =====
-- The session that a daemon finds: the one it put, until that is removed.
use rmw_axon.Prelude.{
  ℕ, ◌≤◌, ◌≡◌, refl, sym, ap, ◌∙◌, ◌≢◌, inl, inr, Bool, true, false, ◌&&◌, ◌||◌, not, Option, none,
  some, List, [], ◌∷◌, arith, ◌==◌, if◌then◌else◌, ==_iff, ==_self, Bool-cases, length,
}
use rmw_axon.Prelude.Results.{ok}
use rmw_axon.Prelude.Texts.{find_map, or_next, find_map-set}
use rmw_axon.Qkd.{
  QkdShmEntry, qkd_key_bytes, max_sae_id_len, max_key_id_len, IsName, store_atomic_bytes-whole,
  atomic_string-store_atomic_bytes,
}
use rmw_axon.Qkd.Store.{QkdKeyStore, QkdKeyMaterial}
use rmw_axon.Qkd.Sessions.{
  QkdSessionKey, is_active_state, next_generation, cleared_entry, session_entry, is_session_of,
  put_index, put, remove_entries, remove, local_sae_id, copy_if, find_for_daemon,
}
use rmw_axon.Qkd.Lifecycle.{put_index_cases, put-IsName, cleared-is_session_of}

own-session :
    (d e : ℕ) (x : QkdShmEntry) → is_session_of d x ≡ true → d ≢ e → is_session_of e x ≡ false
own-session d e x h ne = ground (arith, h, ne)

abbrev pub find_if : QkdKeyStore → ℕ → Bool → QkdShmEntry → Option QkdSessionKey
find_if s d q e = copy_if (is_session_of d e && (not q || is_active_state e.state)) s e

pub found-session_entry :
    (s : QkdKeyStore) (d : ℕ) (r own : List ℕ) (m : QkdKeyMaterial) (b q : Bool)
    → IsName max_sae_id_len r
    → IsName max_key_id_len m.key_id
    → length m.key ≡ qkd_key_bytes
    → local_sae_id s ≡ ok own
    → (not q || b) ≡ true
    → find_if s d q (session_entry d r m b)
      ≡ some (record {
        remote_daemon_id = d;
        local_sae_id = own;
        remote_sae_id = r;
        key_id = m.key_id;
        key = m.key;
        is_active = b;
      })
unfolding session_entry
found-session_entry s d r own m true q sender name size here wanted =
    rw
      (
        ==_self d,
        wanted,
        here,
        atomic_string-store_atomic_bytes max_sae_id_len r (omega arith) sender,
        atomic_string-store_atomic_bytes max_key_id_len m.key_id (omega arith) name,
        store_atomic_bytes-whole m.key qkd_key_bytes size,
      )
      refl
found-session_entry s d r own m false q sender name size here wanted =
    rw
      (
        ==_self d,
        wanted,
        here,
        atomic_string-store_atomic_bytes max_sae_id_len r (omega arith) sender,
        atomic_string-store_atomic_bytes max_key_id_len m.key_id (omega arith) name,
        store_atomic_bytes-whole m.key qkd_key_bytes size,
      )
      refl

-- A session that is put is found by its daemon, with its key, and among the active ones if it is active.
pub find_for_daemon-put :
    (s : QkdKeyStore) (d : ℕ) (r own : List ℕ) (m : QkdKeyMaterial) (b q : Bool)
    → 1 ≤ length s.entries
    → IsName max_sae_id_len r
    → IsName max_key_id_len m.key_id
    → length m.key ≡ qkd_key_bytes
    → local_sae_id s ≡ ok own
    → (not q || b) ≡ true
    → find_for_daemon (put s d r m b).1 d q
      ≡ some (record {
        remote_daemon_id = d;
        local_sae_id = own;
        remote_sae_id = r;
        key_id = m.key_id;
        key = m.key;
        is_active = b;
      })
unfolding find_for_daemon local_sae_id
find_for_daemon-put s d r own m b q some_entries sender name size here wanted =
    let (room, h) = put_index_cases s.entries d some_entries in
    let new = session_entry d r m b in
    ap (λ x. find_for_daemon x.1 d q) (put-IsName s d r m b sender name)
    ∙ find_map-set (find_if s d q) (is_session_of d) s.entries (put_index s.entries d) new _
        (λ x other. rw other refl) h room
        (found-session_entry s d r own m b q sender name size here wanted)

removed-find_if :
    (s : QkdKeyStore) (d e g : ℕ) (q : Bool) (es : List QkdShmEntry)
    → find_map (find_if s e q) (remove_entries d g es).1
      ≡ (if d == e then none else find_map (find_if s e q) es)
unfolding find_map
removed-find_if s d e g q [] = ground arith
removed-find_if s d e g q (x ∷ xs) = elim (Bool-cases (is_session_of d x)) [
  | inl gone ↦
      let rest = removed-find_if s d e (next_generation g) q xs in
      let cleared : find_if s e q cleared_entry ≡ none = rw (cleared-is_session_of e) refl in
      elim (Bool-cases (d == e)) [
        | inl same ↦ rw (gone, cleared) (rest ∙ rw same refl)
        | inr other ↦
            let ne : d ≢ e = ground (arith, other) in
            let passed : find_if s e q x ≡ none = rw (own-session d e x gone ne) refl in
            rw (gone, cleared, passed) rest
      ]
  | inr kept ↦
      let rest = removed-find_if s d e g q xs in
      elim (Bool-cases (d == e)) [
        | inl same ↦
            let mine : is_session_of e x ≡ false =
              ap (λ k. is_session_of k x) (sym ((==_iff d e).0 same)) ∙ kept in
            let passed : find_if s e q x ≡ none = rw mine refl in
            rw (kept, passed, same) (rest ∙ rw same refl)
        | inr other ↦
            let same_rest : find_map (find_if s e q) (remove_entries d g xs).1
                ≡ find_map (find_if s e q) xs =
              rest ∙ rw other refl in
            rw (kept, other) (ap (or_next (find_if s e q x)) same_rest)
      ]
]

-- A session that is removed is gone, and those of the other daemons are found as before.
pub find_for_daemon-remove :
    (s : QkdKeyStore) (d e : ℕ) (q : Bool)
    → find_for_daemon (remove s d) e q ≡ (if d == e then none else find_for_daemon s e q)
unfolding find_for_daemon local_sae_id remove
find_for_daemon-remove s d e q = removed-find_if s d e s.generation q s.entries
