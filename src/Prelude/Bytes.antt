-- ===== src/Prelude/Bytes.antt =====
-- Byte buffers: little-endian words, slices at an offset, and UTF-8.
use Prim.Native.Nat.{ℕ, zero, suc, ◌+◌, ◌*◌, ◌/◌, ◌%◌, ◌^◌, ◌≤◌, ◌<◌}
use mathlib.Core.Path.{◌≡◌, refl, sym, ap, ◌∙◌}
use mathlib.Core.Bool.{Bool, true, false, ◌&&◌}
use mathlib.Core.Option.{Option, none, some}
use mathlib.Core.List.{List, [], ◌∷◌, ◌++◌}
use native.Mathlib.Omega.{arith}
use native.Mathlib.Nat.{pow-suc}
use rmw_axon.Prelude.Tests.{leb, ltb, ◌==◌, if◌then◌else◌}
use rmw_axon.Prelude.Lists.{
  length, take, drop, get_or, length-append, take-append, drop-append, length-drop, drop-drop,
}

-- `to_le_bytes` of an integer of `n` bytes, and `from_le_bytes`.
abbrev pub le_bytes : ℕ → ℕ → List ℕ
le_bytes zero v = []
le_bytes (suc n) v = v % 256 ∷ le_bytes n (v / 256)

unfoldable pub from_le_bytes : List ℕ → ℕ
from_le_bytes [] = 0
from_le_bytes (b ∷ bs) = b + 256 * from_le_bytes bs

pub length-le_bytes : (n v : ℕ) → length (le_bytes n v) ≡ n
length-le_bytes zero v = refl
length-le_bytes (suc n) v = ap suc (length-le_bytes n (v / 256))

pub from_le_bytes-le_bytes : (n v : ℕ) → v < 256 ^ n → from_le_bytes (le_bytes n v) ≡ v
unfolding from_le_bytes
from_le_bytes-le_bytes zero v h = omega arith
from_le_bytes-le_bytes (suc n) v h =
    let small : v / 256 < 256 ^ n = omega (arith, pow-suc 256 n) in
    omega (arith, from_le_bytes-le_bytes n (v / 256) small)

-- `buf[off..off + n]`, where the source has checked that the buffer is long enough.
abbrev pub slice : List ℕ → ℕ → ℕ → List ℕ
slice buf off n = take n (drop off buf)

-- From the offset on, the buffer holds these bytes and nothing else.
abbrev pub At : List ℕ → ℕ → List ℕ → Type 0
At buf off bytes = drop off buf ≡ bytes

module _ (buf : List ℕ) (off : ℕ) where
  pub At-skip :
      (n : ℕ) (xs ys : List ℕ) → n ≡ length xs → At buf off (xs ++ ys) → At buf (off + n) ys
  At-skip n xs ys e h =
      sym (drop-drop n off buf) ∙ ap (drop n) h ∙ ap (λ k. drop k (xs ++ ys)) e ∙ drop-append xs ys

  pub slice-At :
      (n : ℕ) (xs ys : List ℕ) → n ≡ length xs → At buf off (xs ++ ys) → slice buf off n ≡ xs
  slice-At n xs ys e h = ap (take n) h ∙ ap (λ k. take k (xs ++ ys)) e ∙ take-append xs ys

  -- There are as many bytes as the source's length check asks for.
  pub room-At :
      (n : ℕ) (xs ys : List ℕ)
      → n ≡ length xs
      → 1 ≤ n
      → At buf off (xs ++ ys)
      → off + n ≤ length buf
  room-At n xs ys e pos h = omega (arith, ap length h, length-drop off buf, length-append xs ys)

  -- The same for a part that may be empty, past a check already made.
  pub room-At' :
      (n : ℕ) (xs ys : List ℕ)
      → n ≡ length xs
      → off ≤ length buf
      → At buf off (xs ++ ys)
      → off + n ≤ length buf
  room-At' n xs ys e inside h = omega (arith, ap length h, length-drop off buf, length-append xs ys)

  pub read-At :
      (n v : ℕ) (ys : List ℕ)
      → v < 256 ^ n
      → At buf off (le_bytes n v ++ ys)
      → from_le_bytes (slice buf off n) ≡ v
  read-At n v ys small h =
      ap from_le_bytes (slice-At n (le_bytes n v) ys (sym (length-le_bytes n v)) h)
      ∙ from_le_bytes-le_bytes n v small

get_or-drop : (xs : List ℕ) (n : ℕ) {b : ℕ} {ys : List ℕ} → drop n xs ≡ b ∷ ys → get_or xs n 0 ≡ b
get_or-drop [] zero e = cc
get_or-drop [] (suc n) e = cc
get_or-drop (x ∷ xs) zero e = cc
get_or-drop (x ∷ xs) (suc n) e = get_or-drop xs n e

pub byte-At : (buf : List ℕ) (off b : ℕ) (ys : List ℕ) → At buf off (b ∷ ys) → get_or buf off 0 ≡ b
byte-At buf off b ys h = get_or-drop buf off h

-- The bytes that may follow a leading byte of UTF-8, as ranges (RFC 3629).
abbrev continuation : ℕ × ℕ
continuation = (0x80, 0xbf)

utf8_lead : ℕ → Option (List (ℕ × ℕ))
utf8_lead b =
    if ltb b 0x80
    then some []
    else if leb 0xc2 b && leb b 0xdf
    then some (continuation ∷ [])
    else if b == 0xe0
    then some ((0xa0, 0xbf) ∷ continuation ∷ [])
    else if b == 0xed
    then some ((0x80, 0x9f) ∷ continuation ∷ [])
    else if leb 0xe1 b && leb b 0xef
    then some (continuation ∷ continuation ∷ [])
    else if b == 0xf0
    then some ((0x90, 0xbf) ∷ continuation ∷ continuation ∷ [])
    else if leb 0xf1 b && leb b 0xf3
    then some (continuation ∷ continuation ∷ continuation ∷ [])
    else if b == 0xf4
    then some ((0x80, 0x8f) ∷ continuation ∷ continuation ∷ [])
    else none

utf8_from : List (ℕ × ℕ) → List ℕ → Bool
utf8_from [] [] = true
utf8_from (r ∷ need) [] = false
utf8_from [] (b ∷ rest) = elim (utf8_lead b) [ none ↦ false | some need ↦ utf8_from need rest ]
utf8_from ((lo, hi) ∷ need) (b ∷ rest) = leb lo b && leb b hi && utf8_from need rest

-- Whether `std::str::from_utf8` accepts the bytes.
unfoldable pub is_utf8 : List ℕ → Bool
unfolding utf8_lead utf8_from
is_utf8 bytes = utf8_from [] bytes
