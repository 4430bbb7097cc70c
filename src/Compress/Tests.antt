-- ===== src/Compress/Tests.antt =====
-- The theorems at a concrete codec: zeros are sent as their count, all else as it is. What is left of
-- a destination is overwritten.
use rmw_axon.Prelude.{
  ℕ, zero, suc, ◌-◌, ◌≤◌, ◌≡◌, refl, sym, ap, ◌∙◌, inl, inr, Bool, true, ◌&&◌, none, some, List, [],
  ◌∷◌, ◌++◌, arith, leb, ◌==◌, if◌then◌else◌, le→leb, Bool-cases, length, take, length-append,
  take-append, replicate, length-replicate,
}
use rmw_axon.Compress.{Zstd, IsCodec, compress, decompress, decompress_into, decompressed_size}
use rmw_axon.Compress.RoundTrip.{Delivers, decompress-compress, decompress_into-compress}

abbrev all_zero : List ℕ → Bool
all_zero [] = true
all_zero (b ∷ bs) = b == 0 && all_zero bs

abbrev expand : List ℕ → List ℕ
expand [] = []
expand (zero ∷ []) = []
expand (zero ∷ n ∷ rest) = replicate n 0
expand (suc tag ∷ bytes) = bytes

abbrev shrink : List ℕ → List ℕ
shrink d = if all_zero d then 0 ∷ length d ∷ [] else 1 ∷ d

abbrev zeros_codec : Zstd
zeros_codec = record {
  bulk_compress = λ level d. some (shrink d);
  bulk_decompress =
      λ c capacity. if leb (length (expand c)) capacity then some (expand c) else none;
  bulk_decompress_to_buffer = λ c dest.
      if leb (length (expand c)) (length dest)
      then (some (length (expand c)), expand c ++ replicate (length dest - length (expand c)) 7)
      else (none, dest);
}

replicate-all_zero : (d : List ℕ) → all_zero d ≡ true → replicate (length d) 0 ≡ d
replicate-all_zero [] e = refl
replicate-all_zero (zero ∷ d) e = ap (λ r. 0 ∷ r) (replicate-all_zero d (ground (arith, e)))
replicate-all_zero (suc b ∷ d) e = absurd (ground (arith, e))

expand-shrink : (d : List ℕ) → expand (shrink d) ≡ d
expand-shrink d = elim (Bool-cases (all_zero d)) [
  | inl zeros ↦ rw zeros (replicate-all_zero d zeros)
  | inr other ↦ rw other
]

some-injective : (c d : List ℕ) → some c ≡ some d → c ≡ d
some-injective c d e = cc

expanded : (d c : List ℕ) → some (shrink d) ≡ some c → expand c ≡ d
expanded d c e = sym (ap expand (some-injective (shrink d) c e)) ∙ expand-shrink d

written_front :
    (d e dest : List ℕ)
    → e ≡ d
    → length d ≤ length dest
    → let dest' = e ++ replicate (length dest - length e) 7 in
      (some (length e) ≡ some (length d))
      × (take (length d) dest' ≡ d)
      × (length dest' ≡ length dest)
written_front d e dest same room =
    let rest = replicate (length dest - length e) 7 in
    (
      ap (λ x. some (length x)) same,
      ap (λ x. take (length d) (x ++ rest)) same ∙ take-append d rest,
      omega (
        arith,
        room,
        ap length same,
        length-append e rest,
        length-replicate {A = ℕ} (length dest - length e) 7,
      ),
    )

zeros_codec-IsCodec : IsCodec zeros_codec
zeros_codec-IsCodec = record {
  trip = λ level capacity d c e room. rw (expanded d c e, le→leb _ _ room);
  trip_to_buffer = λ level d c dest e room.
      let same = expanded d c e in
      let fits : leb (length (expand c)) (length dest) ≡ true = rw same (le→leb _ _ room) in
      rw fits (written_front d (expand c) dest same room);
}

abbrev zeros : List ℕ
zeros = replicate 2000 0

length-zeros : length zeros ≡ 2000
length-zeros = length-replicate {A = ℕ} 2000 0

short_zeros : length (compress zeros_codec true 1 zeros) ≡ 7
unfolding compress
short_zeros = refl

decompress-compress_example :
    (decompress zeros_codec (compress zeros_codec true 1 zeros) ≡ some zeros)
    × (decompressed_size (compress zeros_codec true 1 zeros) ≡ some (length zeros))
decompress-compress_example =
    decompress-compress zeros_codec true 1 zeros zeros_codec-IsCodec (omega (arith, length-zeros))

abbrev output : List ℕ
output = replicate 3000 9

length-output : length output ≡ 3000
length-output = length-replicate {A = ℕ} 3000 9

decompress_into-compress_example :
    Delivers zeros output
      (decompress_into zeros_codec true (compress zeros_codec true 1 zeros) output)
decompress_into-compress_example =
    decompress_into-compress zeros_codec true 1 zeros output true zeros_codec-IsCodec
      (omega (arith, length-zeros)) (omega (arith, length-output))
      (omega (arith, length-zeros, length-output))
