-- ===== src/Qkd/Codec.antt =====
-- axon_core/src/qkd.rs, the messages with which two daemons agree on a key.
pub mod RoundTrip
use rmw_axon.Prelude.{
  ℕ, zero, suc, ◌+◌, ◌-◌, ◌*◌, ◌/◌, ◌%◌, ◌^◌, ◌≤◌, ◌<◌, min, max, ◌≡◌, refl, sym, ap, ◌∙◌, ◌≢◌, ◌↔◌,
  ◌⊎◌, inl, inr, Bool, true, false, ◌&&◌, ◌||◌, not, Option, none, some, List, [], ◌∷◌, ◌++◌, map,
  append_assoc, append-nil, arith, ltb, leb, ◌==◌, if◌then◌else◌, ltb→lt, lt→ltb, leb→le, le→leb,
  le→ltb_false, lt→leb_false, ==_iff, ==_self, Bool-cases, Option-cases, length, get_elem?, take,
  drop, get_last?, length-append, take-append, drop-append, length-take, length-drop,
  get_elem?-none, get_elem?-append_here, get_elem?-append_left, get_last?-append, drop-nil,
  drop-cons, drop_none, List-cases, subst, get_elem?-drop, drop-drop, drop-append_le, length-map,
  get_last?-cons, lt-of-get_elem?, get_or, set, replicate, length-set, length-replicate,
  get_or-set_self, get_or-set_ne, get_elem?-append_right,
}
use rmw_axon.Prelude.Results.{Result, ok, err, ◌>>=◌}
use rmw_axon.Prelude.Bytes.{slice, is_utf8, At, At-skip, slice-At}
use native.Mathlib.Nat.{pow-suc}
use rmw_axon.Qkd.{
  QkdError, bad_announcement, bad_announcement_lengths, bad_ack, bad_ack_length, not_utf8,
  peer_error, malformed_peer_error, max_sae_id_len, max_key_id_len, validate_identifier, IsName,
  validate_identifier-IsName,
}

abbrev pub msg_qkd_key_announce : ℕ
msg_qkd_key_announce = 0x51

abbrev pub msg_qkd_key_ack : ℕ
msg_qkd_key_ack = 0x52

abbrev pub msg_qkd_key_error : ℕ
msg_qkd_key_error = 0x53

-- `to_be_bytes` of an integer of `n` bytes, and `from_be_bytes`.
unfoldable pub be_bytes : ℕ → ℕ → List ℕ
be_bytes zero v = []
be_bytes (suc n) v = be_bytes n (v / 256) ++ v % 256 ∷ []

abbrev pub be_onto : ℕ → List ℕ → ℕ
be_onto acc [] = acc
be_onto acc (b ∷ bs) = be_onto (256 * acc + b) bs

unfoldable pub from_be_bytes : List ℕ → ℕ
from_be_bytes bytes = be_onto 0 bytes

pub record QkdKeyAnnouncement : Type 0 where
  pub daemon_id : ℕ
  pub sae_id : List ℕ
  pub key_id : List ℕ

unfoldable pub announcement_bytes : QkdKeyAnnouncement → List ℕ
announcement_bytes a =
    msg_qkd_key_announce
    ∷ (be_bytes 8 a.daemon_id
        ++ (be_bytes 2 (length a.sae_id % 2 ^ 16)
            ++ (be_bytes 2 (length a.key_id % 2 ^ 16) ++ (a.sae_id ++ a.key_id))))

unfoldable pub encode_key_announcement : QkdKeyAnnouncement → Result QkdError (List ℕ)
encode_key_announcement a = validate_identifier a.sae_id max_sae_id_len >>= λ u.
    validate_identifier a.key_id max_key_id_len >>= λ u. ok (announcement_bytes a)

abbrev pub text_or_error : List ℕ → Result QkdError (List ℕ)
text_or_error bytes = if is_utf8 bytes then ok bytes else err not_utf8

unfoldable pub decode_key_announcement : List ℕ → Result QkdError QkdKeyAnnouncement
decode_key_announcement bytes =
    if ltb (length bytes) 13 || not (get_or bytes 0 0 == msg_qkd_key_announce)
    then err bad_announcement
    else let daemon_id = from_be_bytes (slice bytes 1 8) in
      let sae_len = from_be_bytes (slice bytes 9 2) in
      let key_len = from_be_bytes (slice bytes 11 2) in
      if (sae_len == 0)
        || (leb max_sae_id_len sae_len
            || (key_len == 0
                || (leb max_key_id_len key_len || not (length bytes == 13 + sae_len + key_len))))
      then err bad_announcement_lengths
      else (text_or_error (slice bytes 13 sae_len) >>= λ sae_id.
          text_or_error (drop (13 + sae_len) bytes) >>= λ key_id.
          ok (record { daemon_id = daemon_id; sae_id = sae_id; key_id = key_id }))

unfoldable pub encode_key_ack : List ℕ → Result QkdError (List ℕ)
encode_key_ack key_id = validate_identifier key_id max_key_id_len >>= λ u.
    ok (msg_qkd_key_ack ∷ (be_bytes 2 (length key_id % 2 ^ 16) ++ key_id))

unfoldable pub encode_key_error : List ℕ → List ℕ
encode_key_error message =
    let len = min (length message) 1024 in
    msg_qkd_key_error ∷ (be_bytes 2 (len % 2 ^ 16) ++ take len message)

-- The message of an error carries the bytes as they came: what `from_utf8_lossy` replaces is left open.
unfoldable pub decode_key_error : List ℕ → Option QkdError
decode_key_error bytes =
    if ltb (length bytes) 3 || not (get_or bytes 0 0 == msg_qkd_key_error)
    then none
    else let len = from_be_bytes (slice bytes 1 2) in
      if not (length bytes == 3 + len)
      then some malformed_peer_error
      else some (peer_error (drop 3 bytes))

abbrev pub unwrap_or_bad_ack : Option QkdError → QkdError
unwrap_or_bad_ack none = bad_ack
unwrap_or_bad_ack (some e) = e

unfoldable pub decode_key_ack : List ℕ → Result QkdError (List ℕ)
decode_key_ack bytes =
    if ltb (length bytes) 3 || not (get_or bytes 0 0 == msg_qkd_key_ack)
    then err (unwrap_or_bad_ack (decode_key_error bytes))
    else let len = from_be_bytes (slice bytes 1 2) in
      if (len == 0) || (leb max_key_id_len len || not (length bytes == 3 + len))
      then err bad_ack_length
      else text_or_error (drop 3 bytes)
