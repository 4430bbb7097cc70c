-- ===== src/Envelope.antt =====
-- axon_core/src/security.rs: the envelope in which a message is sealed with a QKD key, and how it is opened.
-- The cipher, the key server, the processes that live and the order in which a hash set is walked are
-- parameters; the random bytes of a nonce are an argument. A call runs alone: one that has to wait for
-- another process returns nothing. The key store that a call opens is the one it is given.
pub mod Replay
pub mod Later
pub mod Wire
mod Tests
use rmw_axon.Prelude.{
  ℕ, zero, suc, ◌+◌, ◌-◌, ◌*◌, ◌/◌, ◌%◌, ◌^◌, ◌≤◌, ◌<◌, min, max, ◌≡◌, refl, sym, ap, ◌∙◌, ◌≢◌, ◌↔◌,
  ◌⊎◌, inl, inr, Bool, true, false, ◌&&◌, ◌||◌, not, Option, none, some, List, [], ◌∷◌, ◌++◌, map,
  append_assoc, append-nil, arith, ltb, leb, ◌==◌, if◌then◌else◌, ltb→lt, lt→ltb, leb→le, le→leb,
  le→ltb_false, lt→leb_false, ==_iff, ==_self, Bool-cases, Option-cases, length, get_elem?, take,
  drop, get_last?, length-append, take-append, drop-append, length-take, length-drop,
  get_elem?-none, get_elem?-append_here, get_elem?-append_left, get_last?-append, drop-nil,
  drop-cons, drop_none, List-cases, subst, get_elem?-drop, drop-drop, drop-append_le, length-map,
  get_last?-cons, lt-of-get_elem?, get_or, set, replicate, length-set, length-replicate,
  get_or-set_self, get_or-set_ne, get_elem?-append_right,
}
use mathlib.Core.Option
use rmw_axon.Prelude.Results.{Result, ok, err, ◌>>=◌}
use rmw_axon.Prelude.Bytes.{slice, is_utf8}
use rmw_axon.Prelude.Texts.{any, bytes_eq}
use rmw_axon.Qkd.{QkdError}
use rmw_axon.Qkd.Store.{
  QkdKeyStore, QkdKeyMaterial, QkdMessageKeyLookup, Claim, ready_key, claimed, pending_key,
  claim_message_key, publish_message_key, abandon_message_key,
}
use rmw_axon.Qkd.Codec.{be_bytes, from_be_bytes}

abbrev pub wire_header_len : ℕ
wire_header_len = 36

abbrev pub max_wire_field : ℕ
max_wire_field = 192

abbrev pub replay_cache_size : ℕ
replay_cache_size = 4096

abbrev pub tag_len : ℕ
tag_len = 16

-- `b"AXQKD001"`
abbrev pub wire_magic : List ℕ
wire_magic = 0x41 ∷ 0x58 ∷ 0x51 ∷ 0x4b ∷ 0x44 ∷ 0x30 ∷ 0x30 ∷ 0x31 ∷ []

pub data WireKind : Type 0 where
  topic service_request service_response control : WireKind

abbrev pub kind_code : WireKind → ℕ
kind_code topic = 1
kind_code service_request = 2
kind_code service_response = 3
kind_code control = 4

pub record WireContext : Type 0 where
  pub kind : WireKind
  pub topic_hash : ℕ

pub data WireError : Type 0 where
  truncated missing_envelope context_mismatch bad_lengths sender_not_utf8 key_not_utf8 : WireError
  sender_too_long key_too_long already_used authentication_failed encryption_failed : WireError
  key_store : QkdError → WireError
  key_server : QkdError → WireError

-- AES-256-GCM of the `ring` library: the key, the nonce, the bytes that are authenticated only, and the
-- text. Sealing appends the tag.
pub record Aead : Type 0 where
  pub seal : List ℕ → List ℕ → List ℕ → List ℕ → Option (List ℕ)
  pub open_sealed : List ℕ → List ℕ → List ℕ → List ℕ → Option (List ℕ)

pub record Envelope : Type 0 where
  pub nonce : List ℕ
  pub sender_sae_id : List ℕ
  pub key_id : List ℕ
  pub ciphertext : List ℕ

unfoldable pub context_aad : WireContext → List ℕ → List ℕ → List ℕ
context_aad context sender_sae_id key_id =
    kind_code context.kind ∷ (be_bytes 8 context.topic_hash ++ (sender_sae_id ++ key_id))

-- The header, and what is appended to it.
unfoldable pub header_and : WireContext → List ℕ → List ℕ → List ℕ → List ℕ → List ℕ
header_and context nonce sender_sae_id key_id rest =
    wire_magic
    ++ (kind_code context.kind
        ∷ 0
        ∷ 0
        ∷ 0
        ∷ (be_bytes 8 context.topic_hash
            ++ (nonce
                ++ (be_bytes 2 (length sender_sae_id % 2 ^ 16)
                    ++ (be_bytes 2 (length key_id % 2 ^ 16)
                        ++ (sender_sae_id ++ (key_id ++ rest)))))))

abbrev pub bad_field : List ℕ → Bool
bad_field text = (length text == 0) || ltb max_wire_field (length text)

unfoldable pub encode_header :
    WireContext → List ℕ → List ℕ → List ℕ → List ℕ → Result WireError (List ℕ)
encode_header context nonce sender_sae_id key_id rest =
    if bad_field sender_sae_id
    then err sender_too_long
    else if bad_field key_id
    then err key_too_long
    else ok (header_and context nonce sender_sae_id key_id rest)

abbrev pub sealed_or_error :
    Option (List ℕ) → (List ℕ → Result WireError (List ℕ)) → Result WireError (List ℕ)
sealed_or_error none next = err encryption_failed
sealed_or_error (some ciphertext) next = next ciphertext

-- `seal_with_material`; the header is checked first.
unfoldable pub seal_with_material :
    Aead → List ℕ → List ℕ → WireContext → List ℕ → List ℕ → List ℕ → Result WireError (List ℕ)
seal_with_material aead nonce local_sae_id context key key_id payload =
    encode_header context nonce local_sae_id key_id [] >>= λ header.
    sealed_or_error (aead.seal key nonce (context_aad context local_sae_id key_id) payload)
      (λ ciphertext. ok (header_and context nonce local_sae_id key_id ciphertext))

abbrev pub utf8_or : WireError → List ℕ → Result WireError (List ℕ)
utf8_or e text = if is_utf8 text then ok text else err e

-- The first half of `open_wire`.
unfoldable pub parse_wire : WireContext → List ℕ → Result WireError Envelope
parse_wire context wire =
    if ltb (length wire) (wire_header_len + tag_len)
    then err truncated
    else if not (bytes_eq (slice wire 0 8) wire_magic)
    then err missing_envelope
    else if not (get_or wire 8 0 == kind_code context.kind)
        || not (from_be_bytes (slice wire 12 8) == context.topic_hash)
    then err context_mismatch
    else let sender_len = from_be_bytes (slice wire 32 2) in
      let key_len = from_be_bytes (slice wire 34 2) in
      let fields_end = wire_header_len + sender_len + key_len in
      if (sender_len == 0)
        || (ltb max_wire_field sender_len
            || ((key_len == 0) || (ltb max_wire_field key_len || ltb (length wire) fields_end)))
      then err bad_lengths
      else (utf8_or sender_not_utf8 (slice wire 36 sender_len) >>= λ sender_sae_id.
          utf8_or key_not_utf8 (slice wire (36 + sender_len) key_len) >>= λ key_id. ok (record {
            nonce = slice wire 20 12;
            sender_sae_id = sender_sae_id;
            key_id = key_id;
            ciphertext = drop fields_end wire;
          }))

abbrev pub replay_key : Envelope → List ℕ
replay_key e = e.sender_sae_id ++ 0 ∷ (e.key_id ++ 0 ∷ e.nonce)

-- The part of the client that a call changes, which is its own, with the store that the processes share.
pub record OpenState : Type 0 where
  pub seen_message_keys : List (List ℕ)
  pub store : QkdKeyStore

abbrev pub forget : List ℕ → List (List ℕ) → List (List ℕ)
forget k [] = []
forget k (x ∷ xs) = let rest = forget k xs in if bytes_eq x k then rest else x ∷ rest

abbrev pub has_seen : List ℕ → List (List ℕ) → Bool
has_seen k seen = any (λ x. bytes_eq x k) seen

abbrev pub forget_some : Option (List ℕ) → List (List ℕ) → List (List ℕ)
forget_some none seen = seen
forget_some (some k) seen = forget k seen

-- A full set gives up the key that a walk of it meets first.
abbrev pub remember : (List (List ℕ) → Option (List ℕ)) → List ℕ → List (List ℕ) → List (List ℕ)
remember first_of k seen =
    k ∷ (if leb replay_cache_size (length seen) then forget_some (first_of seen) seen else seen)

-- The token of a reply is the SAE that it goes to.
pub record OpenedPayload : Type 0 where
  pub «data» : List ℕ
  pub qkd_reply : Option (List ℕ)

abbrev pub is_service_request : WireKind → Bool
is_service_request service_request = true
is_service_request _ = false

abbrev pub opened_payload : WireContext → Envelope → List ℕ → OpenedPayload
opened_payload context e plaintext = record {
  «data» = plaintext;
  qkd_reply = if is_service_request context.kind then some e.sender_sae_id else none;
}

abbrev pub Opened : Type 0
Opened = Result WireError OpenedPayload × OpenState

abbrev pub forgotten : Envelope → OpenState → OpenState
forgotten e s = record s { seen_message_keys = forget (replay_key e) s.seen_message_keys }

abbrev pub published :
    Envelope → OpenedPayload → OpenState → Result {0, 0} QkdError Unit × QkdKeyStore → Opened
published e opened s (err x, store) = (err (key_store x), forgotten e (record s { store = store }))
published e opened s (ok u, store) = (ok opened, record s { store = store })

-- The message is opened with the key; a key that this call fetched is then published, or given up.
abbrev pub opened_with :
    Bool → QkdKeyMaterial → Envelope → OpenState → Option OpenedPayload → Opened
opened_with false material e s none = (err authentication_failed, forgotten e s)
opened_with true material e s none = (
  err authentication_failed,
  forgotten e (record s { store = abandon_message_key s.store e.sender_sae_id e.key_id }),
)
opened_with false material e s (some opened) = (ok opened, s)
opened_with true material e s (some opened) =
    published e opened s (publish_message_key s.store e.sender_sae_id material)

module _ (aead : Aead) (is_alive : ℕ → Bool)
    (get_decryption_key : List ℕ → List ℕ → Result QkdError QkdKeyMaterial)
    (first_of : List (List ℕ) → Option (List ℕ)) where
  abbrev pub open_with : Bool → WireContext → Envelope → OpenState → QkdKeyMaterial → Opened
  open_with fetched context e s material = opened_with fetched material e s (
      Option.map (opened_payload context e) (
        aead.open_sealed material.key e.nonce (context_aad context e.sender_sae_id e.key_id)
          e.ciphertext))

  abbrev pub fetched_or_error :
      WireContext → Envelope → OpenState → Result QkdError QkdKeyMaterial → Opened
  fetched_or_error context e s (err x) = (
    err (key_server x),
    forgotten e (record s { store = abandon_message_key s.store e.sender_sae_id e.key_id }),
  )
  fetched_or_error context e s (ok material) = open_with true context e s material

  abbrev pub open_claimed : WireContext → Envelope → List (List ℕ) → Option Claim → Option Opened
  open_claimed context e seen none = none
  open_claimed context e seen (some (err x, store)) =
      some (err (key_store x), forgotten e (record { seen_message_keys = seen; store = store }))
  open_claimed context e seen (some (ok (ready_key material), store)) =
      some (open_with false context e (record { seen_message_keys = seen; store = store }) material)
  open_claimed context e seen (some (ok claimed, store)) = some (
      fetched_or_error context e (record { seen_message_keys = seen; store = store })
        (get_decryption_key e.sender_sae_id e.key_id))
  open_claimed context e seen (some (ok pending_key, store)) = none

  abbrev pub open_parsed :
      ℕ → ℕ → WireContext → OpenState → Result WireError Envelope → Option Opened
  open_parsed fuel pid context s (err x) = some (err x, s)
  open_parsed fuel pid context s (ok e) =
      let k = replay_key e in
      let seen = remember first_of k s.seen_message_keys in
      let go =
        open_claimed context e seen
          (claim_message_key is_alive fuel pid s.store e.sender_sae_id e.key_id) in
      if has_seen k s.seen_message_keys then some (err already_used, s) else go

  unfoldable pub open_wire : ℕ → ℕ → OpenState → List ℕ → WireContext → Option Opened
  open_wire fuel pid s wire context = open_parsed fuel pid context s (parse_wire context wire)
