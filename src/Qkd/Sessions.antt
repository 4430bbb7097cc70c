-- ===== src/Qkd/Sessions.antt =====
-- axon_core/src/qkd.rs, the keys of sessions in `QkdKeyStore`, one for a daemon. A write of the store
-- bumps the generation of its header, which the keys of messages have their generations from, too.
use rmw_axon.Prelude.{
  ℕ, ◌+◌, ◌%◌, ◌^◌, Bool, true, false, ◌&&◌, ◌||◌, not, Option, none, some, List, [], ◌∷◌, map, leb,
  ◌==◌, if◌then◌else◌, length, get_or, set,
}
use rmw_axon.Prelude.Results.{Result, ok, err, ◌>>=◌}
use rmw_axon.Prelude.Texts.{position, find_map}
use rmw_axon.Qkd.{
  SessionState, empty, pending, active, QkdShmEntry, QkdError, bad_local_sae, not_utf8,
  qkd_key_bytes, max_sae_id_len, max_key_id_len, validate_identifier, store_atomic_bytes,
  clear_atomic_bytes, atomic_string,
}
use rmw_axon.Qkd.Store.{QkdKeyStore, QkdKeyMaterial, text_is, clear_message_entries}

pub record QkdSessionKey : Type 0 where
  pub remote_daemon_id : ℕ
  pub local_sae_id : List ℕ
  pub remote_sae_id : List ℕ
  pub key_id : List ℕ
  pub key : List ℕ
  pub is_active : Bool

abbrev pub is_empty : SessionState → Bool
is_empty empty = true
is_empty pending = false
is_empty active = false

abbrev pub is_active_state : SessionState → Bool
is_active_state empty = false
is_active_state pending = false
is_active_state active = true

abbrev pub next_generation : ℕ → ℕ
next_generation g = (g + 1) % 2 ^ 64

-- What `remove`, `clear_entries` and a new segment leave.
unfoldable pub cleared_entry : QkdShmEntry
cleared_entry = record {
  state = empty;
  remote_daemon_id = 0;
  key_id_len = 0;
  remote_sae_len = 0;
  key = clear_atomic_bytes qkd_key_bytes;
  key_id = clear_atomic_bytes max_key_id_len;
  remote_sae_id = clear_atomic_bytes max_sae_id_len;
}

unfoldable pub session_entry : ℕ → List ℕ → QkdKeyMaterial → Bool → QkdShmEntry
session_entry remote_daemon_id remote_sae_id material is_active = record {
  state = if is_active then active else pending;
  remote_daemon_id = remote_daemon_id;
  key_id_len = length material.key_id % 2 ^ 16;
  remote_sae_len = length remote_sae_id % 2 ^ 16;
  key = store_atomic_bytes qkd_key_bytes material.key;
  key_id = store_atomic_bytes max_key_id_len material.key_id;
  remote_sae_id = store_atomic_bytes max_sae_id_len remote_sae_id;
}

abbrev pub is_session_of : ℕ → QkdShmEntry → Bool
is_session_of remote_daemon_id e = not (is_empty e.state) && e.remote_daemon_id == remote_daemon_id

abbrev pub or_else : Option ℕ → Option ℕ → Option ℕ
or_else none o = o
or_else (some i) o = some i

abbrev pub unwrap_or_zero : Option ℕ → ℕ
unwrap_or_zero none = 0
unwrap_or_zero (some i) = i

-- The entry of the daemon, else a free one, else the first.
unfoldable pub put_index : List QkdShmEntry → ℕ → ℕ
put_index entries remote_daemon_id = unwrap_or_zero (
    or_else (position (is_session_of remote_daemon_id) entries)
      (position (λ e. is_empty e.state) entries))

-- A store with the entry written.
abbrev pub stored : QkdKeyStore → ℕ → List ℕ → QkdKeyMaterial → Bool → QkdKeyStore
stored s remote_daemon_id remote_sae_id material is_active = record s {
  generation = next_generation s.generation;
  entries =
      set s.entries (put_index s.entries remote_daemon_id)
        (session_entry remote_daemon_id remote_sae_id material is_active);
}

abbrev pub if_checked :
    Result {0, 0} QkdError Unit
    → QkdKeyStore
    → QkdKeyStore
    → Result {0, 0} QkdError Unit × QkdKeyStore
if_checked (err e) s s' = (err e, s)
if_checked (ok u) s s' = (ok tt, s')

unfoldable pub put :
    QkdKeyStore → ℕ → List ℕ → QkdKeyMaterial → Bool → Result {0, 0} QkdError Unit × QkdKeyStore
put s remote_daemon_id remote_sae_id material is_active =
    if_checked
      (validate_identifier remote_sae_id max_sae_id_len >>= λ u.
        validate_identifier material.key_id max_key_id_len)
      s (stored s remote_daemon_id remote_sae_id material is_active)

abbrev pub activates : ℕ → List ℕ → QkdShmEntry → Bool
activates remote_daemon_id key_id e =
    is_session_of remote_daemon_id e && text_is (atomic_string e.key_id e.key_id_len) key_id

abbrev pub activated : QkdShmEntry → QkdShmEntry
activated e = record e { state = active }

abbrev pub activate_at : QkdKeyStore → Option ℕ → Bool × QkdKeyStore
activate_at s none = (false, s)
activate_at s (some i) =
    let e = get_or s.entries i cleared_entry in
    if is_active_state e.state then (true, s) else (
      true,
      record s {
        generation = next_generation s.generation;
        entries = set s.entries i (activated e);
      },
    )

unfoldable pub activate : QkdKeyStore → ℕ → List ℕ → Bool × QkdKeyStore
activate s remote_daemon_id key_id =
    activate_at s (position (activates remote_daemon_id key_id) s.entries)

abbrev pub remove_entries : ℕ → ℕ → List QkdShmEntry → ℕ × List QkdShmEntry
remove_entries remote_daemon_id generation [] = (generation, [])
remove_entries remote_daemon_id generation (e ∷ es) =
    let gone = is_session_of remote_daemon_id e in
    let rest =
      remove_entries remote_daemon_id (if gone then next_generation generation else generation)
        es in
    (rest.0, (if gone then cleared_entry else e) ∷ rest.1)

unfoldable pub remove : QkdKeyStore → ℕ → QkdKeyStore
remove s remote_daemon_id =
    let rest = remove_entries remote_daemon_id s.generation s.entries in
    record s { generation = rest.0; entries = rest.1 }

unfoldable pub clear_entries : QkdKeyStore → QkdKeyStore
clear_entries s = record s { entries = map (λ e. cleared_entry) s.entries }

unfoldable pub clear : QkdKeyStore → QkdKeyStore
clear s = record (clear_message_entries (clear_entries s)) {
  generation = next_generation s.generation;
}

unfoldable pub reset : QkdKeyStore → List ℕ → Result {0, 0} QkdError Unit × QkdKeyStore
reset s local_sae_id =
    if_checked (validate_identifier local_sae_id max_sae_id_len) s
      (record (clear_message_entries (clear_entries s)) {
        generation = next_generation s.generation;
        local_sae_len = length local_sae_id % 2 ^ 16;
        local_sae_bytes = store_atomic_bytes max_sae_id_len local_sae_id;
      })

unfoldable pub local_sae_id : QkdKeyStore → Result QkdError (List ℕ)
local_sae_id s =
    if (s.local_sae_len == 0) || leb max_sae_id_len s.local_sae_len
    then err bad_local_sae
    else elim (atomic_string s.local_sae_bytes s.local_sae_len) [
      | none ↦ err not_utf8
      | some text ↦ ok text
    ]

abbrev pub copy_texts :
    QkdShmEntry
    → Bool
    → Result QkdError (List ℕ)
    → Option (List ℕ)
    → Option (List ℕ)
    → Option QkdSessionKey
copy_texts e is_active (ok own) (some remote) (some name) = some (record {
  remote_daemon_id = e.remote_daemon_id;
  local_sae_id = own;
  remote_sae_id = remote;
  key_id = name;
  key = e.key;
  is_active = is_active;
})
copy_texts e is_active (ok own) (some remote) none = none
copy_texts e is_active (ok own) none name = none
copy_texts e is_active (err x) remote name = none

abbrev pub copy_entry : QkdKeyStore → QkdShmEntry → Bool → Option QkdSessionKey
copy_entry s e is_active =
    copy_texts e is_active (local_sae_id s) (atomic_string e.remote_sae_id e.remote_sae_len)
      (atomic_string e.key_id e.key_id_len)

abbrev pub copy_if : Bool → QkdKeyStore → QkdShmEntry → Option QkdSessionKey
copy_if wanted s e = if wanted then copy_entry s e (is_active_state e.state) else none

unfoldable pub find_for_daemon : QkdKeyStore → ℕ → Bool → Option QkdSessionKey
find_for_daemon s remote_daemon_id require_active =
    find_map
      (λ e.
        copy_if
          (is_session_of remote_daemon_id e && (not require_active || is_active_state e.state)) s e)
      s.entries

unfoldable pub find_by_key_id_for_tls : QkdKeyStore → List ℕ → Option QkdSessionKey
find_by_key_id_for_tls s key_id =
    find_map
      (λ e.
        copy_if (not (is_empty e.state) && text_is (atomic_string e.key_id e.key_id_len) key_id) s
          e)
      s.entries

abbrev pub sae_is : Option (List ℕ) → QkdShmEntry → Bool
sae_is none e = true
sae_is (some expected) e = text_is (atomic_string e.remote_sae_id e.remote_sae_len) expected

unfoldable pub find_active_by_key_id_and_sae :
    QkdKeyStore → List ℕ → Option (List ℕ) → Option QkdSessionKey
find_active_by_key_id_and_sae s key_id remote_sae_id =
    find_map
      (λ e.
        copy_if
          (is_active_state e.state
            && (text_is (atomic_string e.key_id e.key_id_len) key_id && sae_is remote_sae_id e))
          s e)
      s.entries
