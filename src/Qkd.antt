-- ===== src/Qkd.antt =====
-- axon_core/src/qkd.rs: the texts of the key store, as bytes in fixed arrays with their lengths, and the
-- check of an identifier.
pub mod Store
pub mod Probe
pub mod Turns
pub mod Loop
pub mod Entry
pub mod Protocol
pub mod Ends
pub mod Evict
pub mod Sessions
pub mod Lifecycle
pub mod Found
pub mod Activate
pub mod Codec
mod Tests
use rmw_axon.Prelude.{
  ℕ, zero, suc, ◌+◌, ◌-◌, ◌*◌, ◌/◌, ◌%◌, ◌^◌, ◌≤◌, ◌<◌, min, max, ◌≡◌, refl, sym, ap, ◌∙◌, ◌≢◌, ◌↔◌,
  ◌⊎◌, inl, inr, Bool, true, false, ◌&&◌, ◌||◌, not, Option, none, some, List, [], ◌∷◌, ◌++◌, map,
  append_assoc, append-nil, arith, ltb, leb, ◌==◌, if◌then◌else◌, ltb→lt, lt→ltb, leb→le, le→leb,
  le→ltb_false, lt→leb_false, ==_iff, ==_self, Bool-cases, Option-cases, length, get_elem?, take,
  drop, get_last?, length-append, take-append, drop-append, length-take, length-drop,
  get_elem?-none, get_elem?-append_here, get_elem?-append_left, get_last?-append, drop-nil,
  drop-cons, drop_none, List-cases, subst, get_elem?-drop, drop-drop, drop-append_le, length-map,
  get_last?-cons, lt-of-get_elem?, get_or, set, replicate, length-set, length-replicate,
  get_or-set_self, get_or-set_ne, get_elem?-append_right,
}
use rmw_axon.Prelude.Results.{Result, ok, err}
use rmw_axon.Prelude.Bytes.{is_utf8}
use rmw_axon.Prelude.Texts.{any, bytes_eq}

abbrev pub qkd_key_bytes : ℕ
qkd_key_bytes = 32

abbrev pub max_sae_id_len : ℕ
max_sae_id_len = 128

abbrev pub max_key_id_len : ℕ
max_key_id_len = 192

pub data SessionState : Type 0 where
  empty pending active : SessionState

pub record QkdShmEntry : Type 0 where
  pub state : SessionState
  pub remote_daemon_id : ℕ
  pub key_id_len : ℕ
  pub remote_sae_len : ℕ
  pub key : List ℕ
  pub key_id : List ℕ
  pub remote_sae_id : List ℕ

pub data QkdError : Type 0 where
  bad_length bad_character bad_local_sae not_utf8 claim_lost cache_changed no_available_entries :
      QkdError
  key_disappeared kme_failed bad_announcement bad_announcement_lengths bad_ack bad_ack_length :
      QkdError
  peer_error : List ℕ → QkdError
  malformed_peer_error : QkdError

-- A zero byte is a control character too.
abbrev pub is_control : ℕ → Bool
is_control b = (b == 0) || (ltb b 32 || b == 127)

unfoldable pub validate_identifier : List ℕ → ℕ → Result {0, 0} QkdError Unit
validate_identifier value max_len =
    if (length value == 0) || leb max_len (length value)
    then err bad_length
    else if any is_control value
    then err bad_character
    else ok tt

-- `store_atomic_bytes` into an array of so many bytes: what does not fit is left out, and the rest of
-- the array is zero.
abbrev pub store_atomic_bytes : ℕ → List ℕ → List ℕ
store_atomic_bytes zero source = []
store_atomic_bytes (suc n) [] = 0 ∷ store_atomic_bytes n []
store_atomic_bytes (suc n) (b ∷ bs) = b ∷ store_atomic_bytes n bs

abbrev pub clear_atomic_bytes : ℕ → List ℕ
clear_atomic_bytes n = replicate n 0

unfoldable pub atomic_string : List ℕ → ℕ → Option (List ℕ)
atomic_string bytes len =
    if (len == 0) || ltb (length bytes) len
    then none
    else let value = take len bytes in if is_utf8 value then some value else none

length-store_atomic_bytes : (n : ℕ) (bs : List ℕ) → length (store_atomic_bytes n bs) ≡ n
length-store_atomic_bytes zero bs = refl
length-store_atomic_bytes (suc n) [] = ap suc (length-store_atomic_bytes n [])
length-store_atomic_bytes (suc n) (b ∷ bs) = ap suc (length-store_atomic_bytes n bs)

take-store_atomic_bytes :
    (n : ℕ) (bs : List ℕ) → length bs ≤ n → take (length bs) (store_atomic_bytes n bs) ≡ bs
take-store_atomic_bytes n [] h = refl
take-store_atomic_bytes zero (b ∷ bs) h = absurd (omega arith)
take-store_atomic_bytes (suc n) (b ∷ bs) h = ap (◌∷◌ b) (take-store_atomic_bytes n bs (omega arith))

pub store_atomic_bytes-whole : (bs : List ℕ) (n : ℕ) → length bs ≡ n → store_atomic_bytes n bs ≡ bs
store_atomic_bytes-whole [] zero h = refl
store_atomic_bytes-whole [] (suc n) h = absurd (omega (arith, h))
store_atomic_bytes-whole (b ∷ bs) zero h = absurd (omega (arith, h))
store_atomic_bytes-whole (b ∷ bs) (suc n) h =
    ap (◌∷◌ b) (store_atomic_bytes-whole bs n (omega (arith, h)))

-- A name that the store accepts: not empty, shorter than the array, and a text.
pub record IsName (max_len : ℕ) (value : List ℕ) : Type 0 where
  pub filled : 1 ≤ length value
  pub fits : length value < max_len
  pub text : is_utf8 value ≡ true
  pub plain : any is_control value ≡ false

pub validate_identifier-IsName :
    (max_len : ℕ) (value : List ℕ)
    → IsName max_len value
    → validate_identifier value max_len ≡ ok tt
unfolding validate_identifier
validate_identifier-IsName max_len value n = ground (arith, n.filled, n.fits, n.plain)

-- A name is read back from the array that it was stored in.
pub atomic_string-store_atomic_bytes :
    (n : ℕ) (value : List ℕ)
    → n < 2 ^ 16
    → IsName n value
    → atomic_string (store_atomic_bytes n value) (length value % 2 ^ 16) ≡ some value
unfolding atomic_string
atomic_string-store_atomic_bytes n value small v =
    let short : length value % 2 ^ 16 ≡ length value = omega (arith, v.fits) in
    let size = length-store_atomic_bytes n value in
    let back = take-store_atomic_bytes n value (omega (arith, v.fits)) in
    rw (short, size, back, v.text) (ground (arith, v.filled, v.fits))
