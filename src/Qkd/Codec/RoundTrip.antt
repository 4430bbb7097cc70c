-- ===== src/Qkd/Codec/RoundTrip.antt =====
-- The messages of the key agreement are read as they were sent.
use rmw_axon.Prelude.{
  ℕ, zero, suc, ◌+◌, ◌*◌, ◌/◌, ◌%◌, ◌^◌, ◌<◌, min, ◌≡◌, refl, sym, ap, ◌∙◌, false, List, [], ◌∷◌,
  ◌++◌, arith, ltb, leb, ◌==◌, ==_self, length, take, drop, length-append, drop-append, length-take,
  get_or,
}
use rmw_axon.Prelude.Results.{ok, err, ◌>>=◌}
use rmw_axon.Prelude.Bytes.{slice, At, At-skip, slice-At}
use native.Mathlib.Nat.{pow-suc}
use rmw_axon.Qkd.{peer_error, max_sae_id_len, max_key_id_len, IsName, validate_identifier-IsName}
use rmw_axon.Qkd.Codec.{
  msg_qkd_key_announce, msg_qkd_key_ack, msg_qkd_key_error, be_bytes, be_onto, from_be_bytes,
  QkdKeyAnnouncement, announcement_bytes, encode_key_announcement, decode_key_announcement,
  encode_key_ack, encode_key_error, decode_key_error, decode_key_ack,
}

be_onto-append :
    (acc : ℕ) (xs : List ℕ) (b : ℕ) → be_onto acc (xs ++ b ∷ []) ≡ 256 * be_onto acc xs + b
be_onto-append acc [] b = refl
be_onto-append acc (x ∷ xs) b = be_onto-append (256 * acc + x) xs b

pub length-be_bytes : (n v : ℕ) → length (be_bytes n v) ≡ n
unfolding be_bytes
length-be_bytes zero v = refl
length-be_bytes (suc n) v =
    omega (arith, length-append (be_bytes n (v / 256)) (v % 256 ∷ []), length-be_bytes n (v / 256))

pub from_be_bytes-be_bytes : (n v : ℕ) → v < 256 ^ n → from_be_bytes (be_bytes n v) ≡ v
unfolding be_bytes from_be_bytes
from_be_bytes-be_bytes zero v h = omega arith
from_be_bytes-be_bytes (suc n) v h =
    let small : v / 256 < 256 ^ n = omega (arith, pow-suc 256 n) in
    let rest = from_be_bytes-be_bytes n (v / 256) small in
    let last = be_onto-append 0 (be_bytes n (v / 256)) (v % 256) in omega (arith, last, rest)

pub read_be-At :
    (bs : List ℕ) (off n v : ℕ) (ys : List ℕ)
    → v < 256 ^ n
    → At bs off (be_bytes n v ++ ys)
    → from_be_bytes (slice bs off n) ≡ v
read_be-At bs off n v ys small h =
    ap from_be_bytes (slice-At bs off n (be_bytes n v) ys (sym (length-be_bytes n v)) h)
    ∙ from_be_bytes-be_bytes n v small

pub skip_be-At :
    (bs : List ℕ) (off n v : ℕ) (ys : List ℕ) → At bs off (be_bytes n v ++ ys) → At bs (off + n) ys
skip_be-At bs off n v ys h = At-skip bs off n (be_bytes n v) ys (sym (length-be_bytes n v)) h

announced_parts :
    (bs : List ℕ) (a : QkdKeyAnnouncement)
    → IsName max_sae_id_len a.sae_id
    → IsName max_key_id_len a.key_id
    → length bs ≡ 13 + length a.sae_id + length a.key_id
    → get_or bs 0 0 ≡ msg_qkd_key_announce
    → from_be_bytes (slice bs 1 8) ≡ a.daemon_id
    → from_be_bytes (slice bs 9 2) ≡ length a.sae_id
    → from_be_bytes (slice bs 11 2) ≡ length a.key_id
    → slice bs 13 (length a.sae_id) ≡ a.sae_id
    → drop (13 + length a.sae_id) bs ≡ a.key_id
    → decode_key_announcement bs ≡ ok a
unfolding decode_key_announcement
announced_parts bs a sae name whole first id n k s r =
    let long : ltb (13 + length a.sae_id + length a.key_id) 13 ≡ false = ground arith in
    let filled : (length a.sae_id == 0) ≡ false = ground (arith, sae.filled) in
    let filled' : (length a.key_id == 0) ≡ false = ground (arith, name.filled) in
    let fits : leb max_sae_id_len (length a.sae_id) ≡ false = ground (arith, sae.fits) in
    let fits' : leb max_key_id_len (length a.key_id) ≡ false = ground (arith, name.fits) in
    let all = ==_self (13 + length a.sae_id + length a.key_id) in
    rw (n, k, whole, first, id, s, r, long, filled, filled', fits, fits', all, sae.text, name.text)
      refl

-- What a daemon announces, another reads, when the identifiers are valid and its number fits a `u64`.
pub decode_key_announcement-encode_key_announcement :
    (a : QkdKeyAnnouncement)
    → a.daemon_id < 2 ^ 64
    → IsName max_sae_id_len a.sae_id
    → IsName max_key_id_len a.key_id
    → (encode_key_announcement a >>= decode_key_announcement) ≡ ok a
unfolding encode_key_announcement announcement_bytes
decode_key_announcement-encode_key_announcement a small sae name =
    let bs = announcement_bytes a in
    let sae_short : length a.sae_id % 2 ^ 16 ≡ length a.sae_id = omega (arith, sae.fits) in
    let key_short : length a.key_id % 2 ^ 16 ≡ length a.key_id = omega (arith, name.fits) in
    let at0 : At bs 1 (
        be_bytes 8 a.daemon_id
        ++ (be_bytes 2 (length a.sae_id % 2 ^ 16)
            ++ (be_bytes 2 (length a.key_id % 2 ^ 16) ++ (a.sae_id ++ a.key_id)))) =
      refl in
    let at1 = skip_be-At bs 1 8 a.daemon_id _ at0 in
    let at2 = skip_be-At bs 9 2 (length a.sae_id % 2 ^ 16) _ at1 in
    let at3 = skip_be-At bs 11 2 (length a.key_id % 2 ^ 16) _ at2 in
    let at4 = At-skip bs 13 (length a.sae_id) a.sae_id a.key_id refl at3 in
    let id = read_be-At bs 1 8 a.daemon_id _ small at0 in
    let n = read_be-At bs 9 2 (length a.sae_id % 2 ^ 16) _ (omega arith) at1 ∙ sae_short in
    let k = read_be-At bs 11 2 (length a.key_id % 2 ^ 16) _ (omega arith) at2 ∙ key_short in
    let s = slice-At bs 13 (length a.sae_id) a.sae_id a.key_id refl at3 in
    let whole : length bs ≡ 13 + length a.sae_id + length a.key_id = omega (
      arith,
      length-append (be_bytes 8 a.daemon_id) (
          be_bytes 2 (length a.sae_id % 2 ^ 16)
          ++ (be_bytes 2 (length a.key_id % 2 ^ 16) ++ (a.sae_id ++ a.key_id))),
      length-append (be_bytes 2 (length a.sae_id % 2 ^ 16))
          (be_bytes 2 (length a.key_id % 2 ^ 16) ++ (a.sae_id ++ a.key_id)),
      length-append (be_bytes 2 (length a.key_id % 2 ^ 16)) (a.sae_id ++ a.key_id),
      length-append a.sae_id a.key_id,
      length-be_bytes 8 a.daemon_id,
      length-be_bytes 2 (length a.sae_id % 2 ^ 16),
      length-be_bytes 2 (length a.key_id % 2 ^ 16),
    ) in
    rw
      (
        validate_identifier-IsName max_sae_id_len a.sae_id sae,
        validate_identifier-IsName max_key_id_len a.key_id name,
      )
      (announced_parts bs a sae name whole refl id n k s at4)

sized_parts :
    (bs : List ℕ) (len : ℕ) (rest : List ℕ)
    → len < 2 ^ 16
    → length rest ≡ len
    → (from_be_bytes (slice (bs ++ (be_bytes 2 (len % 2 ^ 16) ++ rest)) (length bs) 2) ≡ len)
      × (drop (length bs + 2) (bs ++ (be_bytes 2 (len % 2 ^ 16) ++ rest)) ≡ rest)
      × (length (bs ++ (be_bytes 2 (len % 2 ^ 16) ++ rest)) ≡ length bs + 2 + len)
sized_parts bs len rest small size =
    let body = be_bytes 2 (len % 2 ^ 16) ++ rest in
    let short : len % 2 ^ 16 ≡ len = omega (arith, small) in
    let at : At (bs ++ body) (length bs) body = drop-append bs body in
    (
      read_be-At (bs ++ body) (length bs) 2 (len % 2 ^ 16) rest (omega arith) at ∙ short,
      skip_be-At (bs ++ body) (length bs) 2 (len % 2 ^ 16) rest at,
      omega (
        arith,
        length-append bs body,
        length-append (be_bytes 2 (len % 2 ^ 16)) rest,
        length-be_bytes 2 (len % 2 ^ 16),
        size,
      ),
    )

ack_parts :
    (bs key_id : List ℕ)
    → IsName max_key_id_len key_id
    → get_or bs 0 0 ≡ msg_qkd_key_ack
    → from_be_bytes (slice bs 1 2) ≡ length key_id
    → drop 3 bs ≡ key_id
    → length bs ≡ 3 + length key_id
    → decode_key_ack bs ≡ ok key_id
unfolding decode_key_ack
ack_parts bs key_id name first n r whole =
    let long : ltb (3 + length key_id) 3 ≡ false = ground arith in
    let filled : (length key_id == 0) ≡ false = ground (arith, name.filled) in
    let fits : leb max_key_id_len (length key_id) ≡ false = ground (arith, name.fits) in
    rw (n, whole, first, r, long, filled, fits, ==_self (3 + length key_id), name.text) refl

error_parts :
    (bs message : List ℕ)
    → get_or bs 0 0 ≡ msg_qkd_key_error
    → from_be_bytes (slice bs 1 2) ≡ length message
    → drop 3 bs ≡ message
    → length bs ≡ 3 + length message
    → decode_key_ack bs ≡ err (peer_error message)
unfolding decode_key_ack decode_key_error
error_parts bs message first n r whole =
    let long : ltb (3 + length message) 3 ≡ false = ground arith in
    rw (n, whole, first, r, long, ==_self (3 + length message)) refl

take-min : (k n : ℕ) (xs : List ℕ) → k ≡ min (length xs) n → take k xs ≡ take n xs
take-min zero zero xs e = refl
take-min zero (suc n) [] e = refl
take-min zero (suc n) (x ∷ xs) e = absurd (omega (arith, e))
take-min (suc k) zero xs e = absurd (omega (arith, e))
take-min (suc k) (suc n) [] e = refl
take-min (suc k) (suc n) (x ∷ xs) e = ap (◌∷◌ x) (take-min k n xs (omega (arith, e)))

-- The answer of a daemon: an acknowledged key is read back, and an error arrives as the peer's error,
-- with the first 1024 bytes of its message.
pub decode_key_ack-answer :
    (key_id message : List ℕ)
    → IsName max_key_id_len key_id
    → ((encode_key_ack key_id >>= decode_key_ack) ≡ ok key_id)
      × (decode_key_ack (encode_key_error message) ≡ err (peer_error (take 1024 message)))
unfolding encode_key_ack encode_key_error
decode_key_ack-answer key_id message name =
    let (n, r, whole) =
      sized_parts (msg_qkd_key_ack ∷ []) (length key_id) key_id (omega (arith, name.fits)) refl in
    let cut = take 1024 message in
    let len = min (length message) 1024 in
    let same : take len message ≡ cut = take-min len 1024 message refl in
    let size : length cut ≡ len = omega (arith, length-take 1024 message) in
    let (n', r', whole') = sized_parts (msg_qkd_key_error ∷ []) len cut (omega arith) size in
    let sent = msg_qkd_key_error ∷ (be_bytes 2 (len % 2 ^ 16) ++ cut) in
    (
      rw (validate_identifier-IsName max_key_id_len key_id name)
          (ack_parts _ key_id name refl n r whole),
      ap (λ bs. decode_key_ack (msg_qkd_key_error ∷ (be_bytes 2 (len % 2 ^ 16) ++ bs))) same
          ∙ error_parts sent cut refl (n' ∙ sym size) r' (omega (arith, whole', size)),
    )
