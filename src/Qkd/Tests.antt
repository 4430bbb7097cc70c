-- ===== src/Qkd/Tests.antt =====
-- Runs of the key store with three entries, and its theorems at concrete stores.
use rmw_axon.Prelude.{
  ℕ, zero, suc, ◌%◌, ◌≤◌, ◌≡◌, refl, Bool, true, false, none, some, List, [], ◌∷◌, arith, ◌==◌,
  replicate,
}
use rmw_axon.Prelude.Results.{ok, err, ◌>>=◌}
use rmw_axon.Prelude.Bytes.{is_utf8}
use rmw_axon.Prelude.Texts.{position, bytes_eq}
use rmw_axon.Qkd.{
  no_available_entries, IsName, max_sae_id_len, max_key_id_len, atomic_string, store_atomic_bytes,
  validate_identifier,
}
use rmw_axon.Qkd.Store.{
  QkdKeyStore, QkdMessageShmEntry, QkdKeyMaterial, clear_message_entry, entry_at, writing, ready,
  visit, pass_ready, is_gone, Claim, claimed, pending_key, ready_key, claim_message_key,
  publish_message_key, abandon_message_key, initialize_message_entry, initialized_entry,
  find_message_entry, is_pending, message_entry_matches, message_key_hash, scan, end_pass,
  claim_loop,
}
use rmw_axon.Qkd.Probe.{first, contains}
use rmw_axon.Qkd.Turns.{probe_of, path_of, visit_at}
use rmw_axon.Qkd.Protocol.{claim_exclusive, publish-claim, abandon-claim}
use rmw_axon.Qkd.Ends.{claim_message_key-returns, error-unchanged}
use rmw_axon.Qkd.Evict.{claim-oldest}
use rmw_axon.Qkd.Sessions.{
  cleared_entry, put, activate, remove, find_for_daemon, local_sae_id, is_session_of,
}
use rmw_axon.Qkd.Lifecycle.{Unique, one_session}
use rmw_axon.Qkd.Activate.{activate-put}
use rmw_axon.Qkd.Codec.{QkdKeyAnnouncement, encode_key_announcement, decode_key_announcement}
use rmw_axon.Qkd.Codec.RoundTrip.{decode_key_announcement-encode_key_announcement}

abbrev sender : List ℕ
sender = 83 ∷ 49 ∷ []

abbrev message : List ℕ
message = 107 ∷ 55 ∷ []

abbrev other_message : List ℕ
other_message = 107 ∷ 56 ∷ []

sender-IsName : IsName max_sae_id_len sender
unfolding is_utf8
sender-IsName = record { filled = omega arith; fits = omega arith; text = refl; plain = refl }

message-IsName : IsName max_key_id_len message
unfolding is_utf8
message-IsName = record { filled = omega arith; fits = omega arith; text = refl; plain = refl }

other_message-IsName : IsName max_key_id_len other_message
unfolding is_utf8
other_message-IsName = record {
  filled = omega arith;
  fits = omega arith;
  text = refl;
  plain = refl;
}

-- Process 7 is the only one that lives.
abbrev alive : ℕ → Bool
alive pid = pid == 7

abbrev fresh : QkdKeyStore
fresh = record {
  generation = 4;
  local_sae_len = 2;
  local_sae_bytes = store_atomic_bytes max_sae_id_len sender;
  entries = replicate 2 cleared_entry;
  message_entries = replicate 3 clear_message_entry;
}

-- The pass for the message starts at the entry 1.
hash_test : message_key_hash sender message % 3 ≡ 1
unfolding message_key_hash
hash_test = refl

abbrev claimed_store : QkdKeyStore
claimed_store = initialize_message_entry 7 fresh 1 sender message

fresh_claim : claim_message_key alive 1 7 fresh sender message ≡ some (ok claimed, claimed_store)
unfolding claim_message_key claim_loop scan visit end_pass message_entry_matches atomic_string
    validate_identifier message_key_hash clear_message_entry
fresh_claim = refl

claim_exclusive_example :
    claim_message_key alive 1 8 claimed_store sender message ≡ some (ok pending_key, claimed_store)
claim_exclusive_example =
    claim_exclusive alive sender message sender-IsName message-IsName 1 7 8 fresh claimed_store refl
      fresh_claim

abbrev material : QkdKeyMaterial
material = record { key_id = message; key = replicate 32 9 }

none_pending : find_message_entry is_pending fresh sender message ≡ none
unfolding find_message_entry position clear_message_entry
none_pending = refl

publish-claim_example :
    let (r, published) = publish_message_key claimed_store sender material in
    (r ≡ ok tt)
    × (claim_message_key alive 1 8 published sender message
        ≡ some (ok (ready_key material), published))
publish-claim_example =
    publish-claim alive sender message sender-IsName message-IsName 1 7 8 fresh claimed_store
      (replicate 32 9) refl none_pending fresh_claim

-- An entry that a dead process was about to write.
abbrev torn : QkdMessageShmEntry
torn = record clear_message_entry { state = writing; writer_pid = 5 }

abbrev torn_store : QkdKeyStore
torn_store = record fresh { generation = 4; message_entries = replicate 3 torn }

torn_gone :
    (i : ℕ)
    → (entry_at torn_store i).state ≡ writing
    → is_gone alive (entry_at torn_store i).writer_pid ≡ true
unfolding clear_message_entry
torn_gone zero h = refl
torn_gone (suc zero) h = refl
torn_gone (suc (suc zero)) h = refl
torn_gone (suc (suc (suc i))) h = refl

claim_message_key-returns_example :
    (c : Claim) × (claim_message_key alive 4 7 torn_store sender message ≡ some c)
claim_message_key-returns_example =
    claim_message_key-returns alive sender message 7 torn_store torn_gone

-- Three entries that the process 7 keeps for another message.
abbrev full_store : QkdKeyStore
full_store = record fresh {
  generation = 4;
  message_entries = replicate 3 (initialized_entry 7 sender other_message 3);
}

full_claim :
    claim_message_key alive 1 7 full_store sender message
    ≡ some (err no_available_entries, full_store)
unfolding claim_message_key claim_loop scan visit end_pass message_entry_matches atomic_string
    validate_identifier message_key_hash initialized_entry is_utf8 bytes_eq
full_claim = refl

error-unchanged_example : full_store ≡ full_store
error-unchanged_example =
    error-unchanged alive sender message 1 7 full_store full_store no_available_entries full_claim

abbrev ready_entry : List ℕ → ℕ → QkdMessageShmEntry
ready_entry name generation = record (initialized_entry 7 sender name generation) {
  state = ready;
  key = replicate 32 6;
}

-- Three keys of other messages, the oldest at the entry 0.
abbrev cached_store : QkdKeyStore
cached_store = record fresh {
  generation = 9;
  message_entries =
      ready_entry other_message 5 ∷ ready_entry other_message 8 ∷ ready_entry other_message 7 ∷ [];
}

passes_all :
    (probe_of alive sender message cached_store ≡ none)
    × (contains 1 (path_of alive sender message cached_store) ≡ true)
    × (visit_at alive sender message cached_store 1 ≡ pass_ready)
unfolding first visit message_entry_matches atomic_string message_key_hash initialized_entry is_utf8
    bytes_eq
passes_all = (refl, refl, refl)

claim-oldest_example :
    (i : ℕ) × (claim_message_key alive 1 7 cached_store sender message
      ≡ some (ok claimed, initialize_message_entry 7 cached_store i sender message))
    × (visit_at alive sender message cached_store i ≡ pass_ready)
    × ((j : ℕ)
        → contains j (path_of alive sender message cached_store) ≡ true
        → visit_at alive sender message cached_store j ≡ pass_ready
        → (entry_at cached_store i).generation ≤ (entry_at cached_store j).generation)
claim-oldest_example =
    claim-oldest alive sender message cached_store 7 1 sender-IsName message-IsName passes_all.0
      passes_all.1 passes_all.2

-- The key of the message at the entry 2, past an entry that was given up.
abbrev hole_store : QkdKeyStore
hole_store = record fresh {
  generation = 9;
  message_entries = ready_entry other_message 5 ∷ clear_message_entry ∷ ready_entry message 8 ∷ [];
}

-- It is claimed again.
claimed_again :
    claim_message_key alive 1 7 hole_store sender message
    ≡ some (ok claimed, initialize_message_entry 7 hole_store 1 sender message)
unfolding claim_message_key claim_loop scan visit end_pass message_entry_matches atomic_string
    validate_identifier message_key_hash initialized_entry is_utf8 bytes_eq clear_message_entry
claimed_again = refl

abandon-claim_example :
    (s'' : QkdKeyStore) × (claim_message_key alive 1 8
        (abandon_message_key claimed_store sender message)
        sender
        message
      ≡ some (ok claimed, s''))
abandon-claim_example =
    abandon-claim alive sender message sender-IsName message-IsName 1 7 8 fresh claimed_store
      none_pending fresh_claim

abbrev sessions : QkdKeyStore
sessions = record fresh { generation = 1 }

sessions-Unique : Unique sessions
unfolding cleared_entry
sessions-Unique d = omega arith

one_session_example :
    Unique (put sessions 5 sender material true).1
    × Unique (activate sessions 5 message).1
    × Unique (remove sessions 5)
one_session_example =
    one_session sessions 5 sender message material true (omega arith) sessions-Unique

sessions_local : local_sae_id sessions ≡ ok sender
unfolding local_sae_id atomic_string is_utf8
sessions_local = refl

no_session : position (is_session_of 5) sessions.entries ≡ none
unfolding position cleared_entry
no_session = refl

activate-put_example :
    let s' = (put sessions 5 sender material false).1 in
    (find_for_daemon s' 5 true ≡ none)
    × ((activate s' 5 other_message).0 ≡ false)
    × (find_for_daemon (activate s' 5 message).1 5 true
        ≡ some (record {
          remote_daemon_id = 5;
          local_sae_id = sender;
          remote_sae_id = sender;
          key_id = message;
          key = replicate 32 9;
          is_active = true;
        }))
unfolding bytes_eq
activate-put_example =
    activate-put sessions 5 sender sender other_message material (omega arith) sender-IsName
      message-IsName refl sessions_local no_session

abbrev announcement : QkdKeyAnnouncement
announcement = record { daemon_id = 77; sae_id = sender; key_id = message }

decode_key_announcement-encode_key_announcement_example :
    (encode_key_announcement announcement >>= decode_key_announcement) ≡ ok announcement
decode_key_announcement-encode_key_announcement_example =
    decode_key_announcement-encode_key_announcement announcement (omega arith) sender-IsName
      message-IsName
