-- ===== src/Compress.antt =====
-- axon_core/src/compress.rs: a payload as it is sent, behind a byte that says whether it is compressed.
-- The two environment variables are the arguments `enabled` and `level`; the calls of zstd are
-- parameters, and what they rely on is `Zstd.IsCodec`.
pub mod RoundTrip
mod Tests
use rmw_axon.Prelude.{
  ℕ, zero, suc, ◌+◌, ◌-◌, ◌*◌, ◌/◌, ◌%◌, ◌^◌, ◌≤◌, ◌<◌, min, max, ◌≡◌, refl, sym, ap, ◌∙◌, ◌≢◌, ◌↔◌,
  ◌⊎◌, inl, inr, Bool, true, false, ◌&&◌, ◌||◌, not, Option, none, some, List, [], ◌∷◌, ◌++◌, map,
  append_assoc, append-nil, arith, ltb, leb, ◌==◌, if◌then◌else◌, ltb→lt, lt→ltb, leb→le, le→leb,
  le→ltb_false, lt→leb_false, ==_iff, ==_self, Bool-cases, Option-cases, length, get_elem?, take,
  drop, get_last?, length-append, take-append, drop-append, length-take, length-drop,
  get_elem?-none, get_elem?-append_here, get_elem?-append_left, get_last?-append, drop-nil,
  drop-cons, drop_none, List-cases, subst, get_elem?-drop, drop-drop, drop-append_le, length-map,
  get_last?-cons, lt-of-get_elem?, get_or, set, replicate, length-set, length-replicate,
  get_or-set_self, get_or-set_ne, get_elem?-append_right,
}
use rmw_axon.Prelude.Results.{Result, ok, err}
use rmw_axon.Prelude.Bytes.{slice}

abbrev pub compression_threshold : ℕ
compression_threshold = 1024

-- `to_be_bytes` of a `u32`, and `from_be_bytes`.
abbrev pub be_bytes_32 : ℕ → List ℕ
be_bytes_32 v = v / 2 ^ 24 % 256 ∷ v / 2 ^ 16 % 256 ∷ v / 2 ^ 8 % 256 ∷ v % 256 ∷ []

abbrev from_be : ℕ → List ℕ → ℕ
from_be acc [] = acc
from_be acc (b ∷ bs) = from_be (acc * 256 + b) bs

abbrev pub from_be_bytes : List ℕ → ℕ
from_be_bytes bytes = from_be 0 bytes

-- `zstd::bulk`: a level and the data; the data and the capacity; the data and the destination, with
-- the number of bytes written to it and what it is then.
pub record Zstd : Type 0 where
  pub bulk_compress : ℕ → List ℕ → Option (List ℕ)
  pub bulk_decompress : List ℕ → ℕ → Option (List ℕ)
  pub bulk_decompress_to_buffer : List ℕ → List ℕ → Option ℕ × List ℕ

-- What zstd documents: decompression gives back what was compressed where there is room for it, in a
-- new vector or at the front of a destination. What it leaves in the rest of a destination is open.
pub record IsCodec (z : Zstd) : Type 0 where
  pub trip :
      (level capacity : ℕ) (d c : List ℕ)
      → z.bulk_compress level d ≡ some c
      → length d ≤ capacity
      → z.bulk_decompress c capacity ≡ some d
  pub trip_to_buffer :
      (level : ℕ) (d c dest : List ℕ)
      → z.bulk_compress level d ≡ some c
      → length d ≤ length dest
      → let (written, dest') = z.bulk_decompress_to_buffer c dest in
        (written ≡ some (length d)) × (take (length d) dest' ≡ d) × (length dest' ≡ length dest)

-- `copy_from_slice` panics on slices of different lengths.
pub data Panic : Type 0 where
  copy_from_slice_len_mismatch : Panic

abbrev pub Outcome : Type 0
Outcome = Result Panic (Option ℕ × List ℕ)

-- A destination that was written, before the rest of its buffer.
abbrev pub over : Option ℕ × List ℕ → List ℕ → Outcome
over (written, dest) rest = ok (written, dest ++ rest)

module _ (z : Zstd) where
  unfoldable pub compress : Bool → ℕ → List ℕ → List ℕ
  compress enabled level d =
      if leb (length d) compression_threshold || not enabled
      then 0 ∷ d
      else elim (z.bulk_compress level d) [
        | none ↦ 0 ∷ d
        | some c ↦
            if ltb (length c + 5) (length d + 1)
            then 1 ∷ (be_bytes_32 (length d % 2 ^ 32) ++ c)
            else 0 ∷ d
      ]

  unfoldable pub decompress : List ℕ → Option (List ℕ)
  decompress [] = none
  decompress (tag ∷ rest) =
      if tag == 0
      then some rest
      else if ltb (length (tag ∷ rest)) 5
      then none
      else let original_len = from_be_bytes (slice (tag ∷ rest) 1 4) in
        z.bulk_decompress (drop 5 (tag ∷ rest)) original_len

  -- The three ways to decompress behind the checks. When the data lies in the output itself, it is
  -- moved to its end, or decompressed by way of a vector if the end has no room for it.
  unfoldable pub decompress_payload : Bool → List ℕ → ℕ → List ℕ → Outcome
  decompress_payload aliased payload original_len out =
      let payload_len = length payload in
      let dst = length out - payload_len in
      let moved = take dst out ++ payload in
      let src = slice (drop original_len moved) (dst - original_len) payload_len in
      if aliased && ltb 0 payload_len && leb (original_len + payload_len) (length out)
      then over (z.bulk_decompress_to_buffer src (take original_len moved))
          (drop original_len moved)
      else if not aliased || payload_len == 0
      then over (z.bulk_decompress_to_buffer payload (take original_len out))
          (drop original_len out)
      else elim (z.bulk_decompress payload original_len) [
        | none ↦ ok (none, out)
        | some d ↦
            if length d == original_len
            then ok (some original_len, d ++ drop original_len out)
            else err copy_from_slice_len_mismatch
      ]

  -- The written bytes of `out`, and `out` after the call.
  unfoldable pub decompress_into : Bool → List ℕ → List ℕ → Outcome
  decompress_into aliased [] out = ok (none, out)
  decompress_into aliased (tag ∷ rest) out =
      let payload_len = min (length rest) (length out) in
      let original_len = from_be_bytes (slice (tag ∷ rest) 1 4) in
      let decompressed = decompress_payload aliased (drop 5 (tag ∷ rest)) original_len out in
      if length out == 0
      then ok (none, out)
      else if tag == 0
      then ok (some payload_len, take payload_len rest ++ drop payload_len out)
      else if ltb (length (tag ∷ rest)) 5 || ltb (length out) original_len
      then ok (none, out)
      else decompressed

unfoldable pub decompressed_size : List ℕ → Option ℕ
decompressed_size [] = none
decompressed_size (tag ∷ rest) =
    if tag == 0
    then some (length rest)
    else if ltb (length (tag ∷ rest)) 5
    then none
    else some (from_be_bytes (slice (tag ∷ rest) 1 4))
