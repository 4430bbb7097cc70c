-- ===== src/Bucket/Rate.antt =====
-- What a bucket lets through.
use rmw_axon.Prelude.{
  ℕ, ◌+◌, ◌-◌, ◌*◌, ◌≤◌, ◌≡◌, refl, sym, ap, ◌∙◌, inl, inr, Bool, List, [], ◌∷◌, arith, ltb,
  if◌then◌else◌, Bool-cases,
}
use native.Mathlib.Nat.{add-mul, mul-add, mul_comm}
use rmw_axon.Bucket.{LeakyBucket, make, refilled, try_send}

-- The calls of a publisher: the bytes to send, and the time.
abbrev pub Send : Type 0
Send = ℕ × ℕ

-- The bytes that the calls let through, and the bucket after them.
unfoldable pub send_all : LeakyBucket → List Send → ℕ × LeakyBucket
send_all b [] = (0, b)
send_all b ((bytes, now_ms) ∷ sends) =
    let (passed, b') = try_send b bytes now_ms in
    let (sent, b'') = send_all b' sends in ((if passed then bytes else 0) + sent, b'')

-- The times do not go back, and `last` is the last of them.
abbrev pub Ordered : ℕ → List Send → ℕ → Type 0
Ordered from [] last = from ≤ last
Ordered from ((bytes, now_ms) ∷ sends) last = (from ≤ now_ms) × Ordered now_ms sends last

-- The tokens that a bucket may hold at `now_ms`, in thousandths.
refilled-bound :
    (b : LeakyBucket) (now_ms : ℕ)
    → 1000 * refilled b now_ms ≤ 1000 * b.tokens + (now_ms - b.last_refill) * b.max_tokens
unfolding refilled
refilled-bound b now_ms = ground arith

refilled-max : (b : LeakyBucket) (now_ms : ℕ) → refilled b now_ms ≤ b.max_tokens
unfolding refilled
refilled-max b now_ms = omega arith

-- What a call has let through and what is left, against what was there and what time has added.
record Spends (b : LeakyBucket) (bytes now_ms : ℕ) (r : Bool × LeakyBucket) : Type 0 where
  max_is : r.1.max_tokens ≡ b.max_tokens
  within : r.1.tokens ≤ b.max_tokens
  in_time : r.1.last_refill ≤ now_ms
  budget :
      1000 * (if r.0 then bytes else 0) + 1000 * r.1.tokens
      ≤ 1000 * b.tokens + (r.1.last_refill - b.last_refill) * b.max_tokens
  forward : b.last_refill ≤ r.1.last_refill

try_send-Spends :
    (b : LeakyBucket) (bytes now_ms : ℕ)
    → b.tokens ≤ b.max_tokens
    → b.last_refill ≤ now_ms
    → Spends b bytes now_ms (try_send b bytes now_ms)
unfolding try_send
try_send-Spends b bytes now_ms h t = elim (Bool-cases (ltb (refilled b now_ms) bytes)) [
  | inl short ↦ rw short (record {
    max_is = refl;
    within = h;
    in_time = t;
    budget = omega arith;
    forward = omega arith;
  })
  | inr enough ↦ rw enough (record {
    max_is = refl;
    within = omega (arith, refilled-max b now_ms);
    in_time = omega arith;
    budget = ground (arith, refilled-bound b now_ms);
    forward = t;
  })
]

-- Two stretches of time add what their sum adds.
stretch : (m a b c : ℕ) → a ≤ b → b ≤ c → (b - a) * m + (c - b) * m ≡ (c - a) * m
stretch m a b c h k = sym (add-mul (b - a) (c - b) m) ∙ ap (λ x. x * m) (omega arith)

Ordered-le : (sends : List Send) (from last : ℕ) → Ordered from sends last → from ≤ last
Ordered-le [] from last o = o
Ordered-le ((bytes, now_ms) ∷ sends) from last o =
    omega (arith, Ordered-le sends now_ms last o.1, o.0)

send_all-bound :
    (b : LeakyBucket) (sends : List Send) (from last : ℕ)
    → b.tokens ≤ b.max_tokens
    → b.last_refill ≤ from
    → Ordered from sends last
    → 1000 * (send_all b sends).0 + 1000 * (send_all b sends).1.tokens
      ≤ 1000 * b.tokens + (last - b.last_refill) * b.max_tokens
unfolding send_all
send_all-bound b [] from last h t o = omega arith
send_all-bound b ((bytes, now_ms) ∷ sends) from last h t o =
    let s = try_send-Spends b bytes now_ms h (omega arith) in
    let b' = (try_send b bytes now_ms).1 in
    let rest = send_all-bound b' sends now_ms last (omega arith) s.in_time o.1 in
    let end = Ordered-le sends now_ms last o.1 in
    let sum =
      stretch b.max_tokens b.last_refill b'.last_refill last s.forward (omega (arith, s.in_time)) in
    omega (arith, s.budget, sum, rw s.max_is at rest)

-- A bucket of `max_tokens` per second, and calls at times that do not go back and end by `last`
-- milliseconds: what they let through in all is at most one full bucket and what the time has added.
pub send_all-rate :
    (max_tokens : ℕ) (sends : List Send) (last : ℕ)
    → Ordered 0 sends last
    → 1000 * (send_all (make max_tokens) sends).0 ≤ max_tokens * (1000 + last)
unfolding make
send_all-rate max_tokens sends last o =
    let after = send_all (make max_tokens) sends in
    let bound : 1000 * after.0 + 1000 * after.1.tokens
        ≤ 1000 * max_tokens + (last - 0) * max_tokens =
      send_all-bound (make max_tokens) sends 0 last (omega arith) (omega arith) o in
    let whole : (last - 0) * max_tokens ≡ last * max_tokens =
      ap (λ x. x * max_tokens) (omega arith) in
    omega (arith, bound, whole, mul_comm last max_tokens, mul-add max_tokens 1000 last)
