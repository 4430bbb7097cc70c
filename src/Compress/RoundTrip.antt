-- ===== src/Compress/RoundTrip.antt =====
-- What is compressed is got back, by each of the ways to read it.
use rmw_axon.Prelude.{
  ℕ, ◌+◌, ◌-◌, ◌%◌, ◌^◌, ◌≤◌, ◌<◌, min, ◌≡◌, refl, sym, ap, ◌∙◌, ◌⊎◌, inl, inr, Bool, false, ◌&&◌,
  ◌||◌, not, some, List, [], ◌∷◌, ◌++◌, arith, ltb, leb, ◌==◌, le→ltb_false, ==_self, Bool-cases,
  Option-cases, length, take, drop, length-append, take-append, drop-append, length-take,
  length-drop, drop-drop,
}
use rmw_axon.Prelude.Bytes.{slice}
use rmw_axon.Prelude.Results.{ok, err}
use rmw_axon.Compress.{
  Outcome, Zstd, IsCodec, be_bytes_32, from_be_bytes, compression_threshold, compress, decompress,
  decompress_payload, over, decompress_into, decompressed_size,
}

from_be_bytes-be_bytes_32 : (v : ℕ) → v < 2 ^ 32 → from_be_bytes (be_bytes_32 (v % 2 ^ 32)) ≡ v
from_be_bytes-be_bytes_32 v h = omega arith

module _ (z : Zstd) (enabled : Bool) (level : ℕ) (d : List ℕ) where
  -- The payload goes as it is, or compressed behind its length.
  compress_cases :
      (compress z enabled level d ≡ 0 ∷ d)
      ⊎ ((c : List ℕ) × (z.bulk_compress level d ≡ some c)
          × (compress z enabled level d ≡ 1 ∷ (be_bytes_32 (length d % 2 ^ 32) ++ c)))
  unfolding compress
  compress_cases = elim (Bool-cases (leb (length d) compression_threshold || not enabled)) [
    | inl plain ↦ inl (rw plain)
    | inr large ↦ elim (Option-cases (z.bulk_compress level d)) [
      | inl failed ↦ inl (rw (large, failed))
      | inr (c, done) ↦ elim (Bool-cases (ltb (length c + 5) (length d + 1))) [
        | inl better ↦ inr (c, done, rw (large, done, better))
        | inr worse ↦ inl (rw (large, done, worse))
      ]
    ]
  ]

-- A payload shorter than 2^32 bytes is got back from what is sent of it, and its size can be read
-- off first, whether it was compressed or not, if zstd does what it documents.
pub decompress-compress :
    (z : Zstd) (enabled : Bool) (level : ℕ) (d : List ℕ)
    → IsCodec z
    → length d < 2 ^ 32
    → (decompress z (compress z enabled level d) ≡ some d)
      × (decompressed_size (compress z enabled level d) ≡ some (length d))
unfolding decompress decompressed_size
decompress-compress z enabled level d codec small = elim (compress_cases z enabled level d) [
  | inl plain ↦ (rw plain, rw plain)
  | inr (c, done, packed) ↦
      let n = from_be_bytes-be_bytes_32 (length d) small in
      let wire = 1 ∷ (be_bytes_32 (length d % 2 ^ 32) ++ c) in
      let long : ltb (length wire) 5 ≡ false = le→ltb_false (length wire) 5 (omega arith) in
      (
        rw (packed, long, n, codec.trip level (length d) d c done (omega arith)),
        rw (packed, long, n),
      )
]

-- The output begins with the payload, all of which is reported, and keeps its length.
abbrev pub Delivers : List ℕ → List ℕ → Outcome → Type 0
Delivers d out (ok r) =
    (r.0 ≡ some (length d)) × (take (length d) r.1 ≡ d) × (length r.1 ≡ length out)
Delivers d out (err panic) = ⊥

front-Delivers :
    (d tail out : List ℕ)
    → length d + length tail ≡ length out
    → Delivers d out (ok (some (length d), d ++ tail))
front-Delivers d tail out e = (refl, take-append d tail, length-append d tail ∙ e)

take_all : (xs : List ℕ) → take (length xs) xs ≡ xs
take_all [] = refl
take_all (x ∷ xs) = ap (λ r. x ∷ r) (take_all xs)

module _ (z : Zstd) (level : ℕ) (d c : List ℕ) (codec : IsCodec z)
    (done : z.bulk_compress level d ≡ some c) where
  -- Decompression to a destination that is just long enough.
  buffer-Delivers :
      (dest rest out : List ℕ)
      → length dest ≡ length d
      → length d + length rest ≡ length out
      → Delivers d out (over (z.bulk_decompress_to_buffer c dest) rest)
  buffer-Delivers dest rest out e whole =
      let after = (z.bulk_decompress_to_buffer c dest).1 in
      let (written, front, size) = codec.trip_to_buffer level d c dest done (omega arith) in
      let all : length after ≡ length d = size ∙ e in
      let is_d : after ≡ d = sym (take_all after) ∙ ap (λ n. take n after) all ∙ front in
      (
        written,
        ap (λ a. take (length d) (a ++ rest)) is_d ∙ take-append d rest,
        omega (arith, length-append after rest, all, whole),
      )

  -- The compressed bytes, moved to the end of the output, are found there.
  moved_src :
      (dst n : ℕ) (out : List ℕ)
      → n ≤ dst
      → dst ≤ length out
      → slice (drop n (take dst out ++ c)) (dst - n) (length c) ≡ c
  moved_src dst n out h k =
      let front : dst ≡ length (take dst out) = omega (arith, length-take dst out) in
      let place : n + (dst - n) ≡ length (take dst out) = omega arith in
      ap (take (length c)) (
        drop-drop (dst - n) n (take dst out ++ c)
        ∙ ap (λ k. drop k (take dst out ++ c)) place
        ∙ drop-append (take dst out) c)
      ∙ take_all c

  decompress_payload-Delivers :
      (aliased : Bool) (out : List ℕ)
      → length d ≤ length out
      → Delivers d out (decompress_payload z aliased c (length d) out)
  unfolding decompress_payload
  decompress_payload-Delivers aliased out room =
      let dst = length out - length c in
      let moved = take dst out ++ c in
      let tail = length-drop (length d) out in
      elim (Bool-cases (aliased && ltb 0 (length c) && leb (length d + length c) (length out))) [
        | inl moves ↦
            let apart : length d + length c ≤ length out = ground arith in
            let size : length moved ≡ length out =
              omega (arith, length-append (take dst out) c, length-take dst out) in
            rw (moves, moved_src dst (length d) out (omega arith) (omega arith))
              (buffer-Delivers (take (length d) moved) (drop (length d) moved) out
                (omega (arith, length-take (length d) moved))
                (omega (arith, length-drop (length d) moved)))
        | inr stays ↦ elim (Bool-cases (not aliased || length c == 0)) [
          | inl direct ↦
              rw (stays, direct)
                (buffer-Delivers (take (length d) out) (drop (length d) out) out
                  (omega (arith, length-take (length d) out)) (omega arith))
          | inr by_vector ↦
              rw
                (
                  stays,
                  by_vector,
                  codec.trip level (length d) d c done (omega arith),
                  ==_self (length d),
                )
                (front-Delivers d (drop (length d) out) out (omega arith))
        ]
      ]

-- Decompressing what is sent of a payload shorter than 2^32 bytes into an output that has room for it
-- does not panic: the payload is then at the front of the output, all of it is reported, and the
-- output keeps its length, also where the compressed data lies in the output itself, if zstd does
-- what it documents.
pub decompress_into-compress :
    (z : Zstd) (enabled : Bool) (level : ℕ) (d out : List ℕ) (aliased : Bool)
    → IsCodec z
    → length d < 2 ^ 32
    → 1 ≤ length out
    → length d ≤ length out
    → Delivers d out (decompress_into z aliased (compress z enabled level d) out)
unfolding decompress_into
decompress_into-compress z enabled level d out aliased codec small some_room room =
    let filled : (length out == 0) ≡ false = ground arith in
    elim (compress_cases z enabled level d) [
      | inl plain ↦
          let all : min (length d) (length out) ≡ length d = omega arith in
          rw (plain, filled, all, take_all d)
            (front-Delivers d (drop (length d) out) out (omega (arith, length-drop (length d) out)))
      | inr (c, done, packed) ↦
          let n = from_be_bytes-be_bytes_32 (length d) small in
          let wire = 1 ∷ (be_bytes_32 (length d % 2 ^ 32) ++ c) in
          let long : ltb (length wire) 5 ≡ false = le→ltb_false (length wire) 5 (omega arith) in
          let fits : ltb (length out) (length d) ≡ false = le→ltb_false _ _ room in
          rw (packed, filled, long, n, fits)
            (decompress_payload-Delivers z level d c codec done aliased out room)
    ]
