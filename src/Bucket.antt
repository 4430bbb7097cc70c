-- ===== src/Bucket.antt =====
-- axon_core/src/resource.rs: the token bucket that limits what a publisher sends. A call is one step,
-- that is, its two exchanges succeed; `now_ms` is the time since the bucket was made.
pub mod Rate
mod Tests
use rmw_axon.Prelude.{
  ℕ, zero, suc, ◌+◌, ◌-◌, ◌*◌, ◌/◌, ◌%◌, ◌^◌, ◌≤◌, ◌<◌, min, max, ◌≡◌, refl, sym, ap, ◌∙◌, ◌≢◌, ◌↔◌,
  ◌⊎◌, inl, inr, Bool, true, false, ◌&&◌, ◌||◌, not, Option, none, some, List, [], ◌∷◌, ◌++◌, map,
  append_assoc, append-nil, arith, ltb, leb, ◌==◌, if◌then◌else◌, ltb→lt, lt→ltb, leb→le, le→leb,
  le→ltb_false, lt→leb_false, ==_iff, ==_self, Bool-cases, Option-cases, length, get_elem?, take,
  drop, get_last?, length-append, take-append, drop-append, length-take, length-drop,
  get_elem?-none, get_elem?-append_here, get_elem?-append_left, get_last?-append, drop-nil,
  drop-cons, drop_none, List-cases, subst, get_elem?-drop, drop-drop, drop-append_le, length-map,
  get_last?-cons, lt-of-get_elem?, get_or, set, replicate, length-set, length-replicate,
  get_or-set_self, get_or-set_ne, get_elem?-append_right,
}

pub record LeakyBucket : Type 0 where
  pub max_tokens : ℕ
  pub tokens : ℕ
  pub last_refill : ℕ

unfoldable pub make : ℕ → LeakyBucket
make max_tokens = record { max_tokens = max_tokens; tokens = max_tokens; last_refill = 0 }

abbrev pub usize_max : ℕ
usize_max = 2 ^ 64 - 1

-- `saturating_mul` and `saturating_add` on 64 bits.
abbrev pub saturating_mul : ℕ → ℕ → ℕ
saturating_mul a b = min (a * b) usize_max

abbrev pub saturating_add : ℕ → ℕ → ℕ
saturating_add a b = min (a + b) usize_max

-- The tokens of a bucket at `now_ms`.
unfoldable pub refilled : LeakyBucket → ℕ → ℕ
refilled b now_ms =
    let elapsed = now_ms - b.last_refill in
    let added = if ltb 0 elapsed then saturating_mul elapsed b.max_tokens / 1000 else 0 in
    min (saturating_add b.tokens added) b.max_tokens

unfoldable pub try_send : LeakyBucket → ℕ → ℕ → Bool × LeakyBucket
unfolding refilled
try_send b bytes now_ms =
    let available = refilled b now_ms in
    if ltb available bytes
    then (false, b)
    else (true, record b { tokens = available - bytes; last_refill = now_ms })
