-- ===== src/PeerDiscovery/Hello.antt =====
-- A HELLO is read as it was sent, also one of a daemon from before the SAE and the security mode.
use rmw_axon.Prelude.{
  ℕ, ◌+◌, ◌%◌, ◌^◌, ◌≤◌, ◌<◌, ◌≡◌, refl, sym, ap, ◌∙◌, true, false, Option, none, some, List, [],
  ◌∷◌, ◌++◌, append_assoc, arith, ltb, ◌==◌, le→ltb_false, ==_self, length, length-drop, get_or,
}
use rmw_axon.Prelude.Results.{ok}
use rmw_axon.Prelude.Bytes.{
  slice, is_utf8, le_bytes, from_le_bytes, length-le_bytes, At, At-skip, slice-At, read-At,
  room-At', byte-At,
}
use rmw_axon.PeerDiscovery.{
  SecurityMode, classic, qkd, wire_value, from_wire, HelloDaemon, hello_magic, unwrap_or_empty,
  encode_domains, encode_base, encode_sae, encode_hello_daemon, read_domains, text_or_error,
  read_mode, read_sae, decode_hello_daemon,
}

abbrev AllBelow : List ℕ → ℕ → Type 0
AllBelow [] n = Unit
AllBelow (d ∷ ds) n = (d < n) × AllBelow ds n

-- An SAE that a daemon sends: a text of bytes, not empty, and short enough for its length field.
abbrev IsSae : Option (List ℕ) → Type 0
IsSae none = Unit
IsSae (some text) = (1 ≤ length text) × (length text < 2 ^ 16) × (is_utf8 text ≡ true)

-- Numbers within their types, fewer than 2^16 domains, and an SAE that is not empty and has a length of
-- 16 bits, if there is one.
pub record IsHello (h : HelloDaemon) : Type 0 where
  pub id : h.daemon_id < 2 ^ 64
  pub port : h.quic_port < 2 ^ 16
  pub generation : h.generation < 2 ^ 64
  pub few_domains : length h.domains < 2 ^ 16
  pub domains : AllBelow h.domains (2 ^ 32)
  pub sae : IsSae h.qkd_sae_id

room_false : (n off k : ℕ) → off + k ≤ n → ltb n (off + k) ≡ false
room_false n off k h = le→ltb_false n (off + k) h

read_domains-encode_domains :
    (ds : List ℕ) (buf rest : List ℕ) (off : ℕ)
    → AllBelow ds (2 ^ 32)
    → off ≤ length buf
    → At buf off (encode_domains ds ++ rest)
    → (end : ℕ) × (read_domains (length ds) buf off ≡ ok (ds, end))
      × (end ≤ length buf)
      × At buf end rest
unfolding read_domains encode_domains
read_domains-encode_domains [] buf rest off small room at = (off, refl, room, at)
read_domains-encode_domains (d ∷ ds) buf rest off small room at =
    let body = encode_domains ds ++ rest in
    let here = at ∙ append_assoc (le_bytes 4 d) (encode_domains ds) rest in
    let size = sym (length-le_bytes 4 d) in
    let enough = room-At' buf off 4 (le_bytes 4 d) body size room here in
    let value = read-At buf off 4 d body small.0 here in
    let next = At-skip buf off 4 (le_bytes 4 d) body size here in
    let (end, r, room', at') =
      read_domains-encode_domains ds buf rest (off + 4) small.1 enough next in
    (end, rw (room_false (length buf) off 4 enough, r, value) refl, room', at')

from_wire-wire_value : (m : SecurityMode) → from_wire (wire_value m) ≡ some m
unfolding from_wire
from_wire-wire_value classic = refl
from_wire-wire_value qkd = refl

last-At : (buf : List ℕ) (off b : ℕ) → At buf off (b ∷ []) → length buf ≡ off + 1
last-At buf off b at = omega (arith, ap length at, length-drop off buf)

end-At : (buf : List ℕ) (off : ℕ) → off ≤ length buf → At buf off [] → off ≡ length buf
end-At buf off room at = omega (arith, ap length at, length-drop off buf)

read_mode-wire_value :
    (m : SecurityMode) (buf : List ℕ) (off : ℕ)
    → At buf off (wire_value m ∷ [])
    → read_mode buf off ≡ ok m
unfolding read_mode
read_mode-wire_value m buf off at =
    let n = last-At buf off (wire_value m) at in
    let more : (off == off + 1) ≡ false = ground arith in
    rw (n, more, ==_self (off + 1), byte-At buf off (wire_value m) [] at, from_wire-wire_value m)
      refl

read_mode_end : (buf : List ℕ) (off : ℕ) → off ≡ length buf → read_mode buf off ≡ ok classic
unfolding read_mode
read_mode_end buf off e = rw (sym e, ==_self off) refl

text_or_error-IsSae :
    (sae : Option (List ℕ)) → IsSae sae → text_or_error (unwrap_or_empty sae) ≡ ok sae
text_or_error-IsSae none h = refl
text_or_error-IsSae (some []) h = absurd (omega (arith, h.0))
text_or_error-IsSae (some (b ∷ bs)) h = rw h.2 refl

sae_short : (sae : Option (List ℕ)) → IsSae sae → length (unwrap_or_empty sae) < 2 ^ 16
sae_short none h = omega arith
sae_short (some text) h = h.1

-- The SAE is read from its field, and the mode from what follows it.
read_sae-encode_sae :
    (sae : Option (List ℕ)) (m : SecurityMode) (buf rest : List ℕ) (off : ℕ)
    → IsSae sae
    → off ≤ length buf
    → At buf off (encode_sae sae rest)
    → ((k : ℕ) → k ≤ length buf → At buf k rest → read_mode buf k ≡ ok m)
    → read_sae buf off ≡ ok (sae, m)
unfolding read_sae encode_sae
read_sae-encode_sae sae m buf rest off s room at mode =
    let text = unwrap_or_empty sae in
    let short : length text % 2 ^ 16 ≡ length text = omega (arith, sae_short sae s) in
    let n = read-At buf off 2 (length text % 2 ^ 16) (text ++ rest) (omega arith) at ∙ short in
    let size = sym (length-le_bytes 2 (length text % 2 ^ 16)) in
    let enough =
      room-At' buf off 2 (le_bytes 2 (length text % 2 ^ 16)) (text ++ rest) size room at in
    let next = At-skip buf off 2 (le_bytes 2 (length text % 2 ^ 16)) (text ++ rest) size at in
    let value = slice-At buf (off + 2) (length text) text rest refl next in
    let enough' = room-At' buf (off + 2) (length text) text rest refl enough next in
    let last = At-skip buf (off + 2) (length text) text rest refl next in
    let more : (off == length buf) ≡ false = ground (arith, enough) in
    rw
      (
        more,
        room_false (length buf) off 2 enough,
        n,
        room_false (length buf) (off + 2) (length text) enough',
        value,
        text_or_error-IsSae sae s,
        mode (off + 2 + length text) enough' last,
      )
      refl

read_sae_end : (buf : List ℕ) (off : ℕ) → off ≡ length buf → read_sae buf off ≡ ok (none, classic)
unfolding read_sae
read_sae_end buf off e = rw (sym e, ==_self off) refl

hello_parts :
    (buf : List ℕ) (h : HelloDaemon) (sae : Option (List ℕ)) (m : SecurityMode) (end : ℕ)
    → ltb (length buf) 21 ≡ false
    → get_or buf 0 0 ≡ hello_magic
    → from_le_bytes (slice buf 1 8) ≡ h.daemon_id
    → from_le_bytes (slice buf 9 2) ≡ h.quic_port
    → from_le_bytes (slice buf 11 8) ≡ h.generation
    → from_le_bytes (slice buf 19 2) ≡ length h.domains
    → read_domains (length h.domains) buf 21 ≡ ok (h.domains, end)
    → read_sae buf end ≡ ok (sae, m)
    → decode_hello_daemon buf ≡ ok (record h { qkd_sae_id = sae; security_mode = m })
unfolding decode_hello_daemon
hello_parts buf h sae m end long first id port gen n r s =
    rw (long, first, n, r, s, id, port, gen) refl

-- The fields that every message has, and then what the rest is read as.
decode-encode_base :
    (h : HelloDaemon) (rest : List ℕ) (sae : Option (List ℕ)) (m : SecurityMode)
    → IsHello h
    → ((buf : List ℕ) (off : ℕ)
        → off ≤ length buf
        → At buf off rest
        → read_sae buf off ≡ ok (sae, m))
    → decode_hello_daemon (encode_base h rest)
      ≡ ok (record h { qkd_sae_id = sae; security_mode = m })
unfolding encode_base
decode-encode_base h rest sae m v read =
    let buf = encode_base h rest in
    let short : length h.domains % 2 ^ 16 ≡ length h.domains = omega (arith, v.few_domains) in
    let d = encode_domains h.domains ++ rest in
    let c = le_bytes 2 (length h.domains % 2 ^ 16) ++ d in
    let g = le_bytes 8 h.generation ++ c in
    let p = le_bytes 2 h.quic_port ++ g in
    let at1 : At buf 1 (le_bytes 8 h.daemon_id ++ p) = refl in
    let at9 =
      At-skip buf 1 8 (le_bytes 8 h.daemon_id) p (sym (length-le_bytes 8 h.daemon_id)) at1 in
    let at11 =
      At-skip buf 9 2 (le_bytes 2 h.quic_port) g (sym (length-le_bytes 2 h.quic_port)) at9 in
    let at19 =
      At-skip buf 11 8 (le_bytes 8 h.generation) c (sym (length-le_bytes 8 h.generation)) at11 in
    let size = sym (length-le_bytes 2 (length h.domains % 2 ^ 16)) in
    let at21 = At-skip buf 19 2 (le_bytes 2 (length h.domains % 2 ^ 16)) d size at19 in
    let room9 =
      room-At' buf 1 8 (le_bytes 8 h.daemon_id) p (sym (length-le_bytes 8 h.daemon_id))
        (omega arith) at1 in
    let room11 =
      room-At' buf 9 2 (le_bytes 2 h.quic_port) g (sym (length-le_bytes 2 h.quic_port)) room9 at9 in
    let room19 =
      room-At' buf 11 8 (le_bytes 8 h.generation) c (sym (length-le_bytes 8 h.generation)) room11
        at11 in
    let room = room-At' buf 19 2 (le_bytes 2 (length h.domains % 2 ^ 16)) d size room19 at19 in
    let id = read-At buf 1 8 h.daemon_id p v.id at1 in
    let port = read-At buf 9 2 h.quic_port g v.port at9 in
    let gen = read-At buf 11 8 h.generation c v.generation at11 in
    let n = read-At buf 19 2 (length h.domains % 2 ^ 16) d (omega arith) at19 ∙ short in
    let (end, r, room', at) =
      read_domains-encode_domains h.domains buf rest 21 v.domains room at21 in
    hello_parts buf h sae m end (le→ltb_false (length buf) 21 room) refl id port gen n r
      (read buf end room' at)

-- A HELLO with fewer than 2^16 domains, and with no SAE or one of 1 to 2^16 - 1 bytes of UTF-8, is read
-- as it was sent. A HELLO without the security mode, as daemons sent it before, is read
-- with the mode classic, and one without the SAE, too, with no SAE.
pub decode_hello_daemon-encode_hello_daemon :
    (h : HelloDaemon)
    → IsHello h
    → (decode_hello_daemon (encode_hello_daemon h) ≡ ok h)
      × (decode_hello_daemon (encode_base h (encode_sae h.qkd_sae_id []))
          ≡ ok (record h { security_mode = classic }))
      × (decode_hello_daemon (encode_base h [])
          ≡ ok (record h { qkd_sae_id = none; security_mode = classic }))
unfolding encode_hello_daemon
decode_hello_daemon-encode_hello_daemon h v = (
  decode-encode_base h _ h.qkd_sae_id h.security_mode v (λ buf off room at.
      read_sae-encode_sae h.qkd_sae_id h.security_mode buf (wire_value h.security_mode ∷ []) off
        v.sae room at (λ k inside here. read_mode-wire_value h.security_mode buf k here)),
  decode-encode_base h _ h.qkd_sae_id classic v (λ buf off room at.
      read_sae-encode_sae h.qkd_sae_id classic buf [] off v.sae room at
        (λ k inside here. read_mode_end buf k (end-At buf k inside here))),
  decode-encode_base h _ none classic v
      (λ buf off room at. read_sae_end buf off (end-At buf off room at)),
)
