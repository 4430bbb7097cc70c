-- ===== src/PeerDiscovery.antt =====
-- axon_core/src/daemon/peer_discovery.rs, the HELLO with which a daemon makes itself known, and the wire
-- values of axon_core/src/security_mode.rs. The security mode and the SAE were added to the message
-- later, so that a reader takes messages without them.
pub mod Hello
mod Tests
use rmw_axon.Prelude.{
  ℕ, zero, suc, ◌+◌, ◌-◌, ◌*◌, ◌/◌, ◌%◌, ◌^◌, ◌≤◌, ◌<◌, min, max, ◌≡◌, refl, sym, ap, ◌∙◌, ◌≢◌, ◌↔◌,
  ◌⊎◌, inl, inr, Bool, true, false, ◌&&◌, ◌||◌, not, Option, none, some, List, [], ◌∷◌, ◌++◌, map,
  append_assoc, append-nil, arith, ltb, leb, ◌==◌, if◌then◌else◌, ltb→lt, lt→ltb, leb→le, le→leb,
  le→ltb_false, lt→leb_false, ==_iff, ==_self, Bool-cases, Option-cases, length, get_elem?, take,
  drop, get_last?, length-append, take-append, drop-append, length-take, length-drop,
  get_elem?-none, get_elem?-append_here, get_elem?-append_left, get_last?-append, drop-nil,
  drop-cons, drop_none, List-cases, subst, get_elem?-drop, drop-drop, drop-append_le, length-map,
  get_last?-cons, lt-of-get_elem?, get_or, set, replicate, length-set, length-replicate,
  get_or-set_self, get_or-set_ne, get_elem?-append_right,
}
use rmw_axon.Prelude.Results.{Result, ok, err, ◌>>=◌}
use rmw_axon.Prelude.Bytes.{slice, is_utf8, le_bytes, from_le_bytes}

pub data SecurityMode : Type 0 where
  classic qkd : SecurityMode

abbrev pub wire_value : SecurityMode → ℕ
wire_value classic = 0
wire_value qkd = 1

unfoldable pub from_wire : ℕ → Option SecurityMode
from_wire value = if value == 0 then some classic else if value == 1 then some qkd else none

pub record HelloDaemon : Type 0 where
  pub daemon_id : ℕ
  pub quic_port : ℕ
  pub domains : List ℕ
  pub generation : ℕ
  pub qkd_sae_id : Option (List ℕ)
  pub security_mode : SecurityMode

pub data HelloError : Type 0 where
  bad_magic truncated truncated_sae_length truncated_sae_id bad_sae_id bad_security_mode :
      HelloError
  trailing_data : HelloError

abbrev pub hello_magic : ℕ
hello_magic = 0xdd

abbrev pub unwrap_or_empty : Option (List ℕ) → List ℕ
unwrap_or_empty none = []
unwrap_or_empty (some text) = text

unfoldable pub encode_domains : List ℕ → List ℕ
encode_domains [] = []
encode_domains (d ∷ ds) = le_bytes 4 d ++ encode_domains ds

-- The parts of the message that every daemon sends.
unfoldable pub encode_base : HelloDaemon → List ℕ → List ℕ
encode_base h rest =
    hello_magic
    ∷ (le_bytes 8 h.daemon_id
        ++ (le_bytes 2 h.quic_port
            ++ (le_bytes 8 h.generation
                ++ (le_bytes 2 (length h.domains % 2 ^ 16) ++ (encode_domains h.domains ++ rest)))))

unfoldable pub encode_sae : Option (List ℕ) → List ℕ → List ℕ
encode_sae sae rest =
    let text = unwrap_or_empty sae in le_bytes 2 (length text % 2 ^ 16) ++ (text ++ rest)

unfoldable pub encode_hello_daemon : HelloDaemon → List ℕ
encode_hello_daemon h = encode_base h (encode_sae h.qkd_sae_id (wire_value h.security_mode ∷ []))

-- The loop over the domains, with the offset that it ends at.
unfoldable pub read_domains : ℕ → List ℕ → ℕ → Result HelloError (List ℕ × ℕ)
read_domains zero buf off = ok ([], off)
read_domains (suc count) buf off =
    if ltb (length buf) (off + 4)
    then err truncated
    else (read_domains count buf (off + 4) >>= λ (ds, end).
        ok (from_le_bytes (slice buf off 4) ∷ ds, end))

abbrev pub text_or_error : List ℕ → Result HelloError (Option (List ℕ))
text_or_error [] = ok none
text_or_error (b ∷ bs) = if is_utf8 (b ∷ bs) then ok (some (b ∷ bs)) else err bad_sae_id

abbrev pub mode_or_error : Option SecurityMode → Result HelloError SecurityMode
mode_or_error none = err bad_security_mode
mode_or_error (some mode) = ok mode

unfoldable pub read_mode : List ℕ → ℕ → Result HelloError SecurityMode
read_mode buf off =
    if off == length buf
    then ok classic
    else if off + 1 == length buf
    then mode_or_error (from_wire (get_or buf off 0))
    else err trailing_data

unfoldable pub read_sae : List ℕ → ℕ → Result HelloError (Option (List ℕ) × SecurityMode)
read_sae buf off =
    if off == length buf
    then ok (none, classic)
    else if ltb (length buf) (off + 2)
    then err truncated_sae_length
    else let len = from_le_bytes (slice buf off 2) in
      if ltb (length buf) (off + 2 + len)
      then err truncated_sae_id
      else (text_or_error (slice buf (off + 2) len) >>= λ sae.
          read_mode buf (off + 2 + len) >>= λ mode. ok (sae, mode))

unfoldable pub decode_hello_daemon : List ℕ → Result HelloError HelloDaemon
decode_hello_daemon buf =
    if ltb (length buf) 21 || not (get_or buf 0 0 == hello_magic)
    then err bad_magic
    else (read_domains (from_le_bytes (slice buf 19 2)) buf 21 >>= λ (domains, off).
        read_sae buf off >>= λ (sae, mode). ok (record {
          daemon_id = from_le_bytes (slice buf 1 8);
          quic_port = from_le_bytes (slice buf 9 2);
          domains = domains;
          generation = from_le_bytes (slice buf 11 8);
          qkd_sae_id = sae;
          security_mode = mode;
        }))
