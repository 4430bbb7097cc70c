-- ===== src/Envelope/Tests.antt =====
-- A message that is sealed and opened with a cipher that only appends a tag, and the theorems at it.
use rmw_axon.Prelude.{
  ◌+◌, ◌≤◌, ℕ, ◌≡◌, refl, sym, ap, Bool, false, Option, none, some, List, [], ◌∷◌, ◌++◌, arith,
  length, drop, replicate,
}
use mathlib.Core.Option.{some_inj}
use rmw_axon.Prelude.Results.{Result, ok, err, ◌>>=◌}
use rmw_axon.Prelude.Bytes.{is_utf8}
use rmw_axon.Prelude.Texts.{bytes_eq, position}
use rmw_axon.Qkd.{QkdError, validate_identifier, atomic_string}
use rmw_axon.Qkd.Store.{
  QkdKeyMaterial, clear_message_entry, claim_message_key, copy_message_key, claim_loop, scan, visit,
  end_pass, message_entry_matches, message_key_hash, initialize_message_entry, initialized_entry,
  publish_message_key, find_message_entry,
}
use rmw_axon.Qkd.Codec.{be_bytes, from_be_bytes}
use rmw_axon.Envelope.{
  topic, WireContext, already_used, replay_cache_size, Aead, OpenState, Opened, context_aad,
  header_and, seal_with_material, parse_wire, open_wire,
}
use rmw_axon.Envelope.Wire.{IsField, IsAead, parse_wire-seal_with_material}
use rmw_axon.Envelope.Later.{at_once, call, open_wire-replayed}

abbrev tag : List ℕ
tag = replicate 16 5

abbrev plain : Aead
plain = record {
  seal = λ key nonce aad payload. some (tag ++ payload);
  open_sealed = λ key nonce aad sealed. some (drop 16 sealed);
}

plain-IsAead : IsAead plain
plain-IsAead = record {
  trip = λ key nonce aad payload sealed h. ap (λ c. some (drop 16 c)) (sym (some_inj.0 h));
  size = λ key nonce aad payload sealed h. omega (arith, ap length (some_inj.0 h));
}

abbrev sender : List ℕ
sender = 83 ∷ 49 ∷ []

abbrev key_name : List ℕ
key_name = 107 ∷ 55 ∷ []

abbrev nonce : List ℕ
nonce = replicate 12 3

abbrev key : List ℕ
key = replicate 32 9

abbrev context : WireContext
context = record { kind = topic; topic_hash = 77 }

sender-IsField : IsField sender
unfolding is_utf8
sender-IsField = record { filled = omega arith; short = omega arith; utf8 = refl }

key_name-IsField : IsField key_name
unfolding is_utf8
key_name-IsField = record { filled = omega arith; short = omega arith; utf8 = refl }

parse_wire-seal_with_material_example :
    ((seal_with_material plain nonce sender context key key_name (1 ∷ 2 ∷ [])
        >>= parse_wire context)
      ≡ ok (record {
        nonce = nonce;
        sender_sae_id = sender;
        key_id = key_name;
        ciphertext = tag ++ 1 ∷ 2 ∷ [];
      }))
    × (plain.open_sealed key nonce (context_aad context sender key_name) (tag ++ 1 ∷ 2 ∷ [])
        ≡ some (1 ∷ 2 ∷ []))
parse_wire-seal_with_material_example =
    parse_wire-seal_with_material plain context nonce sender key key_name (1 ∷ 2 ∷ [])
      (tag ++ 1 ∷ 2 ∷ []) plain-IsAead (omega arith) refl sender-IsField key_name-IsField refl

abbrev wire : List ℕ
wire = header_and context nonce sender key_name (tag ++ 1 ∷ 2 ∷ [])

abbrev before : OpenState
before = record {
  seen_message_keys = [];
  store = record {
    generation = 4;
    local_sae_len = 0;
    local_sae_bytes = [];
    entries = [];
    message_entries = replicate 1 clear_message_entry;
  };
}

abbrev server : List ℕ → List ℕ → Result QkdError QkdKeyMaterial
server sae name = ok (record { key_id = name; key = key })

abbrev none_alive : ℕ → Bool
none_alive pid = false

abbrev no_order : List (List ℕ) → Option (List ℕ)
no_order seen = none

abbrev state_of : Option Opened → OpenState
state_of none = before
state_of (some o) = o.1

abbrev after : OpenState
after = state_of (open_wire plain none_alive server no_order 1 7 before wire context)

opened_once :
    open_wire plain none_alive server no_order 1 7 before wire context
    ≡ some (ok (record { «data» = 1 ∷ 2 ∷ []; qkd_reply = none }), after)
unfolding open_wire parse_wire header_and be_bytes from_be_bytes is_utf8 bytes_eq claim_message_key
    claim_loop scan visit end_pass validate_identifier clear_message_entry publish_message_key
    find_message_entry position initialize_message_entry initialized_entry message_entry_matches
    atomic_string message_key_hash context_aad
opened_once = refl

-- The next message under the same key, with another nonce.
abbrev next_wire : List ℕ
next_wire = header_and context (replicate 12 4) sender key_name (tag ++ 6 ∷ [])

abbrev after_next : OpenState
after_next = state_of (open_wire plain none_alive server no_order 1 7 after next_wire context)

opened_next :
    open_wire plain none_alive server no_order 1 7 after next_wire context
    ≡ some (ok (record { «data» = 6 ∷ []; qkd_reply = none }), after_next)
unfolding open_wire parse_wire header_and be_bytes from_be_bytes is_utf8 bytes_eq claim_message_key
    claim_loop scan visit end_pass validate_identifier clear_message_entry publish_message_key
    find_message_entry position initialize_message_entry initialized_entry message_entry_matches
    atomic_string message_key_hash context_aad copy_message_key
opened_next = refl

few_seen : length after.seen_message_keys + 1 ≤ replay_cache_size
unfolding open_wire parse_wire header_and be_bytes from_be_bytes is_utf8 bytes_eq claim_message_key
    claim_loop scan visit end_pass validate_identifier clear_message_entry publish_message_key
    find_message_entry position initialize_message_entry initialized_entry message_entry_matches
    atomic_string message_key_hash context_aad
few_seen = omega arith

open_wire-replayed_example :
    open_wire plain none_alive server no_order 1 7 after_next wire context
    ≡ some (err already_used, after_next)
open_wire-replayed_example =
    open_wire-replayed plain none_alive none_alive server server no_order 1 1 7 1 before after
      after_next wire (record { «data» = 1 ∷ 2 ∷ []; qkd_reply = none }) context opened_once
      (call none_alive server 1 next_wire context _ at_once opened_next) few_seen
