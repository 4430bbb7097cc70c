-- ===== src/Qkd/Store.antt =====
-- axon_core/src/qkd.rs, the keys of messages in `QkdKeyStore`. A call runs alone: the exchanges of a state
-- succeed, and an entry that another process is writing stays so for the call. Which processes are alive
-- is a parameter; `scan` is one pass of the loop `'scan`, `claim_loop` the loop on fuel, which ends with
-- `none` when the fuel does.
use rmw_axon.Prelude.{
  ℕ, zero, suc, ◌+◌, ◌-◌, ◌*◌, ◌/◌, ◌%◌, ◌^◌, Bool, true, false, ◌&&◌, ◌||◌, not, Option, none,
  some, List, [], ◌∷◌, ◌++◌, map, ltb, ◌==◌, if◌then◌else◌, length, get_or, set,
}
use rmw_axon.Prelude.Results.{Result, ok, err, ◌>>=◌}
use rmw_axon.Prelude.Texts.{bytes_eq, position}
use rmw_axon.Qkd.{
  QkdError, QkdShmEntry, claim_lost, cache_changed, no_available_entries, qkd_key_bytes,
  max_sae_id_len, max_key_id_len, validate_identifier, store_atomic_bytes, clear_atomic_bytes,
  atomic_string,
}

pub data MessageState : Type 0 where
  empty writing pending ready : MessageState

pub record QkdMessageShmEntry : Type 0 where
  pub state : MessageState
  pub writer_pid : ℕ
  pub generation : ℕ
  pub key_id_len : ℕ
  pub sender_sae_len : ℕ
  pub key : List ℕ
  pub key_id : List ℕ
  pub sender_sae_id : List ℕ

-- The header and the entries behind it; the magic number and the process of the header, which the
-- operations do not read, are left out.
pub record QkdKeyStore : Type 0 where
  pub generation : ℕ
  pub local_sae_len : ℕ
  pub local_sae_bytes : List ℕ
  pub entries : List QkdShmEntry
  pub message_entries : List QkdMessageShmEntry

pub record QkdKeyMaterial : Type 0 where
  pub key_id : List ℕ
  pub key : List ℕ

pub data QkdMessageKeyLookup : Type 0 where
  ready_key : QkdKeyMaterial → QkdMessageKeyLookup
  claimed pending_key : QkdMessageKeyLookup

abbrev pub is_pending : MessageState → Bool
is_pending pending = true
is_pending empty = false
is_pending writing = false
is_pending ready = false

abbrev pub text_is : Option (List ℕ) → List ℕ → Bool
text_is none value = false
text_is (some text) value = bytes_eq text value

unfoldable pub message_entry_matches : QkdMessageShmEntry → List ℕ → List ℕ → Bool
message_entry_matches e sender_sae_id key_id =
    text_is (atomic_string e.sender_sae_id e.sender_sae_len) sender_sae_id
    && text_is (atomic_string e.key_id e.key_id_len) key_id

unfoldable pub clear_message_entry : QkdMessageShmEntry
clear_message_entry = record {
  state = empty;
  writer_pid = 0;
  generation = 0;
  key_id_len = 0;
  sender_sae_len = 0;
  key = clear_atomic_bytes qkd_key_bytes;
  key_id = clear_atomic_bytes max_key_id_len;
  sender_sae_id = clear_atomic_bytes max_sae_id_len;
}

-- The entry that a claim writes, with the generation it took.
unfoldable pub initialized_entry : ℕ → List ℕ → List ℕ → ℕ → QkdMessageShmEntry
initialized_entry pid sender_sae_id key_id generation = record {
  state = pending;
  writer_pid = pid;
  generation = generation;
  key_id_len = length key_id % 2 ^ 16;
  sender_sae_len = length sender_sae_id % 2 ^ 16;
  key = clear_atomic_bytes qkd_key_bytes;
  key_id = store_atomic_bytes max_key_id_len key_id;
  sender_sae_id = store_atomic_bytes max_sae_id_len sender_sae_id;
}

abbrev pub entry_at : QkdKeyStore → ℕ → QkdMessageShmEntry
entry_at s i = get_or s.message_entries i clear_message_entry

abbrev pub set_entry : QkdKeyStore → ℕ → QkdMessageShmEntry → QkdKeyStore
set_entry s i e = record s { message_entries = set s.message_entries i e }

unfoldable pub initialize_message_entry : ℕ → QkdKeyStore → ℕ → List ℕ → List ℕ → QkdKeyStore
initialize_message_entry pid s i sender_sae_id key_id =
    let generation = (s.generation + 1) % 2 ^ 64 in
    record s {
      generation = generation;
      message_entries =
          set s.message_entries i (initialized_entry pid sender_sae_id key_id generation);
    }

abbrev pub copy_ready : MessageState → Option (List ℕ) → List ℕ → Option QkdKeyMaterial
copy_ready ready (some key_id) key = some (record { key_id = key_id; key = key })
copy_ready ready none key = none
copy_ready empty text key = none
copy_ready writing text key = none
copy_ready pending text key = none

unfoldable pub copy_message_key : QkdMessageShmEntry → Option QkdKeyMaterial
copy_message_key e = copy_ready e.state (atomic_string e.key_id e.key_id_len) e.key

unfoldable pub find_message_entry : (MessageState → Bool) → QkdKeyStore → List ℕ → List ℕ → Option ℕ
find_message_entry expected_state s sender_sae_id key_id =
    position (λ e. expected_state e.state && message_entry_matches e sender_sae_id key_id)
      s.message_entries

abbrev pub publish_at :
    QkdKeyStore → QkdKeyMaterial → Option ℕ → Result {0, 0} QkdError Unit × QkdKeyStore
publish_at s material none = (err claim_lost, s)
publish_at s material (some i) = (
  ok tt,
  set_entry s i (record (entry_at s i) {
    key = store_atomic_bytes qkd_key_bytes material.key;
    state = ready;
  }),
)

unfoldable pub publish_message_key :
    QkdKeyStore → List ℕ → QkdKeyMaterial → Result {0, 0} QkdError Unit × QkdKeyStore
publish_message_key s sender_sae_id material =
    publish_at s material (find_message_entry is_pending s sender_sae_id material.key_id)

abbrev pub abandon_at : QkdKeyStore → Option ℕ → QkdKeyStore
abandon_at s none = s
abandon_at s (some i) = set_entry s i clear_message_entry

unfoldable pub abandon_message_key : QkdKeyStore → List ℕ → List ℕ → QkdKeyStore
abandon_message_key s sender_sae_id key_id =
    abandon_at s (find_message_entry is_pending s sender_sae_id key_id)

unfoldable pub clear_message_entries : QkdKeyStore → QkdKeyStore
clear_message_entries s = record s {
  message_entries = map (λ e. clear_message_entry) s.message_entries;
}

-- FNV-1a, bit by bit.
abbrev xor_bits : ℕ → ℕ → ℕ → ℕ
xor_bits zero a b = 0
xor_bits (suc n) a b = (a + b) % 2 + 2 * xor_bits n (a / 2) (b / 2)

abbrev fnv : List ℕ → ℕ → ℕ
fnv [] hash = hash
fnv (b ∷ bs) hash = fnv bs (xor_bits 64 hash b * 0x100000001b3 % 2 ^ 64)

unfoldable pub message_key_hash : List ℕ → List ℕ → ℕ
message_key_hash sender_sae_id key_id = fnv (sender_sae_id ++ 0 ∷ key_id) 0xcbf29ce484222325

-- The indices in the order of a pass.
abbrev pub offsets : ℕ → ℕ → ℕ → List ℕ
offsets start n zero = []
offsets start n (suc left) = (start + (n - suc left)) % n ∷ offsets start n left

abbrev pub probe_order : QkdKeyStore → List ℕ → List ℕ → List ℕ
probe_order s sender_sae_id key_id =
    let n = length s.message_entries in offsets (message_key_hash sender_sae_id key_id % n) n n

-- What a pass does at an entry: the next entry, and whether this one may be taken for another key, or
-- one of the ways to end the pass.
pub data Visit : Type 0 where
  pass_pending pass_ready : Visit
  busy recover take_empty clear_stale found_pending found_ready : Visit

-- The end of a pass, with the index it ended at, or the oldest key when it came to the end.
pub data Pass : Type 0 where
  stopped : Visit → ℕ → Pass
  reached_end : Option (ℕ × ℕ) → Pass

abbrev pub older : Option (ℕ × ℕ) → ℕ → ℕ → Option (ℕ × ℕ)
older none i generation = some (i, generation)
older (some (j, oldest)) i generation =
    if ltb generation oldest then some (i, generation) else some (j, oldest)

abbrev pub pass_step : Visit → ℕ → Option (ℕ × ℕ) → ℕ → (Option (ℕ × ℕ) → Pass) → Pass
pass_step pass_pending i oldest_ready generation next = next oldest_ready
pass_step pass_ready i oldest_ready generation next = next (older oldest_ready i generation)
pass_step busy i oldest_ready generation next = stopped busy i
pass_step recover i oldest_ready generation next = stopped recover i
pass_step take_empty i oldest_ready generation next = stopped take_empty i
pass_step clear_stale i oldest_ready generation next = stopped clear_stale i
pass_step found_pending i oldest_ready generation next = stopped found_pending i
pass_step found_ready i oldest_ready generation next = stopped found_ready i

abbrev pub Claim : Type 0
Claim = Result QkdError QkdMessageKeyLookup × QkdKeyStore

abbrev pub ready_result : Option QkdKeyMaterial → Result QkdError QkdMessageKeyLookup
ready_result none = err cache_changed
ready_result (some material) = ok (ready_key material)

-- The end of a call, or the store with which the loop goes on.
pub data Turn : Type 0 where
  returned : Claim → Turn
  again : QkdKeyStore → Turn

unfoldable pub end_pass : ℕ → QkdKeyStore → List ℕ → List ℕ → Pass → Turn
end_pass pid s sender_sae_id key_id (stopped busy i) = again s
end_pass pid s sender_sae_id key_id (stopped recover i) =
    again (set_entry s i (record (entry_at s i) { state = empty }))
end_pass pid s sender_sae_id key_id (stopped take_empty i) =
    returned (ok claimed, initialize_message_entry pid s i sender_sae_id key_id)
end_pass pid s sender_sae_id key_id (stopped clear_stale i) =
    again (set_entry s i clear_message_entry)
end_pass pid s sender_sae_id key_id (stopped found_pending i) = returned (ok pending_key, s)
end_pass pid s sender_sae_id key_id (stopped found_ready i) =
    returned (ready_result (copy_message_key (entry_at s i)), s)
end_pass pid s sender_sae_id key_id (stopped pass_pending i) = again s
end_pass pid s sender_sae_id key_id (stopped pass_ready i) = again s
end_pass pid s sender_sae_id key_id (reached_end none) = returned (err no_available_entries, s)
end_pass pid s sender_sae_id key_id (reached_end (some (i, generation))) =
    returned (ok claimed, initialize_message_entry pid s i sender_sae_id key_id)

abbrev pub after_turn : Turn → (QkdKeyStore → Option Claim) → Option Claim
after_turn (returned c) next = some c
after_turn (again s) next = next s

abbrev pub checked_ids : List ℕ → List ℕ → Result {0, 0} QkdError Unit
checked_ids sender_sae_id key_id = validate_identifier sender_sae_id max_sae_id_len >>= λ u.
    validate_identifier key_id max_key_id_len

abbrev pub checked_claim : Result {0, 0} QkdError Unit → QkdKeyStore → Option Claim → Option Claim
checked_claim (ok u) s claim = claim
checked_claim (err e) s claim = some (err e, s)

module _ (is_alive : ℕ → Bool) where
  abbrev pub is_gone : ℕ → Bool
  is_gone pid = (pid == 0) || not (is_alive pid)

  abbrev pub visit_state : MessageState → Bool → Bool → Visit
  visit_state writing matches gone = if gone then recover else busy
  visit_state empty matches gone = take_empty
  visit_state pending matches gone =
      if matches then (if gone then clear_stale else found_pending) else pass_pending
  visit_state ready matches gone = if matches then found_ready else pass_ready

  unfoldable pub visit : QkdMessageShmEntry → List ℕ → List ℕ → Visit
  visit e sender_sae_id key_id =
      visit_state e.state (message_entry_matches e sender_sae_id key_id) (is_gone e.writer_pid)

  unfoldable pub scan : QkdKeyStore → List ℕ → List ℕ → List ℕ → Option (ℕ × ℕ) → Pass
  scan s sender_sae_id key_id [] oldest_ready = reached_end oldest_ready
  scan s sender_sae_id key_id (i ∷ is) oldest_ready =
      let e = entry_at s i in
      pass_step (visit e sender_sae_id key_id) i oldest_ready e.generation
        (λ oldest. scan s sender_sae_id key_id is oldest)

  abbrev pub turn : ℕ → QkdKeyStore → List ℕ → List ℕ → Turn
  turn pid s sender_sae_id key_id =
      end_pass pid s sender_sae_id key_id
        (scan s sender_sae_id key_id (probe_order s sender_sae_id key_id) none)

  unfoldable pub claim_loop : ℕ → ℕ → QkdKeyStore → List ℕ → List ℕ → Option Claim
  claim_loop zero pid s sender_sae_id key_id = none
  claim_loop (suc fuel) pid s sender_sae_id key_id =
      after_turn (turn pid s sender_sae_id key_id)
        (λ s'. claim_loop fuel pid s' sender_sae_id key_id)

  unfoldable pub claim_message_key : ℕ → ℕ → QkdKeyStore → List ℕ → List ℕ → Option Claim
  claim_message_key fuel pid s sender_sae_id key_id =
      checked_claim (checked_ids sender_sae_id key_id) s
        (claim_loop fuel pid s sender_sae_id key_id)
