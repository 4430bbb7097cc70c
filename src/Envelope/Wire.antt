-- ===== src/Envelope/Wire.antt =====
-- A sealed message is taken apart and opened as it was sealed.
use rmw_axon.Prelude.{
  ℕ, ◌+◌, ◌%◌, ◌^◌, ◌≤◌, ◌<◌, ◌≡◌, refl, sym, ◌∙◌, true, false, some, List, ◌++◌, arith, ltb, ◌==◌,
  ==_self, length, drop, length-append, get_or,
}
use rmw_axon.Prelude.Results.{ok, ◌>>=◌}
use rmw_axon.Prelude.Bytes.{slice, is_utf8, At, At-skip, slice-At}
use rmw_axon.Prelude.Texts.{bytes_eq, bytes_eq_self}
use rmw_axon.Qkd.Codec.{be_bytes, from_be_bytes}
use rmw_axon.Qkd.Codec.RoundTrip.{length-be_bytes, read_be-At, skip_be-At}
use rmw_axon.Envelope.{
  wire_header_len, max_wire_field, tag_len, wire_magic, kind_code, WireContext, Aead, Envelope,
  context_aad, header_and, bad_field, encode_header, seal_with_material, parse_wire,
}

-- A name that the envelope carries.
pub record IsField (text : List ℕ) : Type 0 where
  pub filled : 1 ≤ length text
  pub short : length text ≤ max_wire_field
  pub utf8 : is_utf8 text ≡ true

-- What AES-256-GCM documents: what was sealed opens under the same key, nonce and bytes, and is longer
-- than the text by the tag.
pub record IsAead (aead : Aead) : Type 0 where
  pub trip :
      (key nonce aad payload sealed : List ℕ)
      → aead.seal key nonce aad payload ≡ some sealed
      → aead.open_sealed key nonce aad sealed ≡ some payload
  pub size :
      (key nonce aad payload sealed : List ℕ)
      → aead.seal key nonce aad payload ≡ some sealed
      → length sealed ≡ length payload + tag_len

parsed_parts :
    (context : WireContext) (wire : List ℕ) (e : Envelope)
    → IsField e.sender_sae_id
    → IsField e.key_id
    → wire_header_len + length e.sender_sae_id + length e.key_id + tag_len ≤ length wire
    → bytes_eq (slice wire 0 8) wire_magic ≡ true
    → get_or wire 8 0 ≡ kind_code context.kind
    → from_be_bytes (slice wire 12 8) ≡ context.topic_hash
    → slice wire 20 12 ≡ e.nonce
    → from_be_bytes (slice wire 32 2) ≡ length e.sender_sae_id
    → from_be_bytes (slice wire 34 2) ≡ length e.key_id
    → slice wire 36 (length e.sender_sae_id) ≡ e.sender_sae_id
    → slice wire (36 + length e.sender_sae_id) (length e.key_id) ≡ e.key_id
    → drop (wire_header_len + length e.sender_sae_id + length e.key_id) wire ≡ e.ciphertext
    → parse_wire context wire ≡ ok e
unfolding parse_wire
parsed_parts context wire e s k room magic kind hash nonce slen klen sender key_id rest =
    let long : ltb (length wire) (wire_header_len + tag_len) ≡ false = ground (arith, room) in
    let n = length e.sender_sae_id in
    let m = length e.key_id in
    let filled : (n == 0) ≡ false = ground (arith, s.filled) in
    let filled' : (m == 0) ≡ false = ground (arith, k.filled) in
    let short : ltb max_wire_field n ≡ false = ground (arith, s.short) in
    let short' : ltb max_wire_field m ≡ false = ground (arith, k.short) in
    let inside : ltb (length wire) (wire_header_len + n + m) ≡ false = ground (arith, room) in
    rw
      (
        long,
        magic,
        kind,
        hash,
        ==_self (kind_code context.kind),
        ==_self context.topic_hash,
        slen,
        klen,
        filled,
        filled',
        short,
        short',
        inside,
        sender,
        key_id,
        s.utf8,
        k.utf8,
        nonce,
        rest,
      )
      refl

-- The wire of an envelope is taken apart into what it was made of.
parse_wire-header_and :
    (context : WireContext) (e : Envelope)
    → context.topic_hash < 2 ^ 64
    → length e.nonce ≡ 12
    → IsField e.sender_sae_id
    → IsField e.key_id
    → tag_len ≤ length e.ciphertext
    → parse_wire context (header_and context e.nonce e.sender_sae_id e.key_id e.ciphertext) ≡ ok e
unfolding header_and
parse_wire-header_and context e small twelve s k tagged =
    let wire = header_and context e.nonce e.sender_sae_id e.key_id e.ciphertext in
    let n = length e.sender_sae_id in
    let m = length e.key_id in
    let n_short : n % 2 ^ 16 ≡ n = omega (arith, s.short) in
    let m_short : m % 2 ^ 16 ≡ m = omega (arith, k.short) in
    let d6 = e.key_id ++ e.ciphertext in
    let d5 = e.sender_sae_id ++ d6 in
    let d4 = be_bytes 2 (m % 2 ^ 16) ++ d5 in
    let d3 = be_bytes 2 (n % 2 ^ 16) ++ d4 in
    let d2 = e.nonce ++ d3 in
    let at12 : At wire 12 (be_bytes 8 context.topic_hash ++ d2) = refl in
    let at20 = skip_be-At wire 12 8 context.topic_hash d2 at12 in
    let at32 = At-skip wire 20 12 e.nonce d3 (sym twelve) at20 in
    let at34 = skip_be-At wire 32 2 (n % 2 ^ 16) d4 at32 in
    let at36 = skip_be-At wire 34 2 (m % 2 ^ 16) d5 at34 in
    let at_key = At-skip wire 36 n e.sender_sae_id d6 refl at36 in
    let at_rest = At-skip wire (36 + n) m e.key_id e.ciphertext refl at_key in
    let whole : length wire ≡ 12 + 8 + 12 + 2 + 2 + n + m + length e.ciphertext = omega (
      arith,
      length-append (be_bytes 8 context.topic_hash) d2,
      length-be_bytes 8 context.topic_hash,
      length-append e.nonce d3,
      twelve,
      length-append (be_bytes 2 (n % 2 ^ 16)) d4,
      length-be_bytes 2 (n % 2 ^ 16),
      length-append (be_bytes 2 (m % 2 ^ 16)) d5,
      length-be_bytes 2 (m % 2 ^ 16),
      length-append e.sender_sae_id d6,
      length-append e.key_id e.ciphertext,
    ) in
    parsed_parts context wire e s k (omega (arith, whole, tagged)) (bytes_eq_self wire_magic) refl
      (read_be-At wire 12 8 context.topic_hash d2 small at12)
      (slice-At wire 20 12 e.nonce d3 (sym twelve) at20)
      (read_be-At wire 32 2 (n % 2 ^ 16) d4 (omega arith) at32 ∙ n_short)
      (read_be-At wire 34 2 (m % 2 ^ 16) d5 (omega arith) at34 ∙ m_short)
      (slice-At wire 36 n e.sender_sae_id d6 refl at36)
      (slice-At wire (36 + n) m e.key_id e.ciphertext refl at_key) at_rest

field_ok : (text : List ℕ) → IsField text → bad_field text ≡ false
field_ok text v = ground (arith, v.filled, v.short)

-- A payload that is sealed, with a nonce of 12 bytes and names of 1 to 192 bytes, is taken apart by a
-- reader of the same context into the nonce, the names and a text that opens to the payload under the
-- key.
pub parse_wire-seal_with_material :
    (aead : Aead) (context : WireContext) (nonce sender key key_id payload sealed : List ℕ)
    → IsAead aead
    → context.topic_hash < 2 ^ 64
    → length nonce ≡ 12
    → IsField sender
    → IsField key_id
    → aead.seal key nonce (context_aad context sender key_id) payload ≡ some sealed
    → ((seal_with_material aead nonce sender context key key_id payload >>= parse_wire context)
        ≡ ok (record {
          nonce = nonce;
          sender_sae_id = sender;
          key_id = key_id;
          ciphertext = sealed;
        }))
      × (aead.open_sealed key nonce (context_aad context sender key_id) sealed ≡ some payload)
unfolding seal_with_material encode_header
parse_wire-seal_with_material aead context nonce sender key key_id payload sealed a small twelve s k
      h =
    (
      rw (field_ok sender s, field_ok key_id k, h)
          (parse_wire-header_and context _ small twelve s k
            (omega (arith, a.size key nonce (context_aad context sender key_id) payload sealed h))),
      a.trip key nonce (context_aad context sender key_id) payload sealed h,
    )
