-- ===== src/SubscriberQueue/Inv.antt =====
-- The queue's invariant, which accepted pushes and both kinds of reads keep.
use rmw_axon.Prelude.{
  ℕ, zero, suc, ◌+◌, ◌-◌, ◌≤◌, ◌<◌, ◌≡◌, refl, Bool, true, false, ◌&&◌, Option, none, some, List,
  [], ◌∷◌, ◌++◌, arith, ltb, leb, length, get_elem?, drop, get_last?,
}
use rmw_axon.Prelude.Maps.{Map, lookup, remove, lookup-remove}
use rmw_axon.SubscriberQueue.{Message, SubscriberQueue, with_seq_and_mode}

-- The sequence numbers count up from `s` without a gap.
abbrev pub Consecutive : ℕ → List Message → Type 0
Consecutive s [] = Unit {0}
Consecutive s ((seq, _) ∷ rest) = (seq ≡ s) × Consecutive (suc s) rest

abbrev pub is_some {ℓ} : {A : Type ℓ} → Option A → Bool
is_some none = false
is_some (some a) = true

-- The number of the oldest message, if there is one.
abbrev pub first : SubscriberQueue → ℕ
first q = q.next_seq - length q.messages

-- Exactly the numbers in the window have a timestamp.
abbrev pub Stamped : ℕ → ℕ → Map ℕ → Type 0
Stamped from to stamps = (k : ℕ) → is_some (lookup k stamps) ≡ (leb from k && ltb k to)

pub record IsValid (q : SubscriberQueue) : Type 0 where
  pub room : 1 ≤ q.capacity
  pub bounded : length q.messages ≤ q.capacity
  pub counted : q.len ≡ length q.messages
  pub numbered : length q.messages ≤ q.next_seq
  pub in_order : Consecutive (first q) q.messages
  pub stamped : Stamped (first q) q.next_seq q.timestamps

pub Consecutive-append :
    (s : ℕ) (ms : List Message) (seq : ℕ) (payload : List ℕ)
    → seq ≡ s + length ms
    → Consecutive s ms
    → Consecutive s (ms ++ (seq, payload) ∷ [])
Consecutive-append s [] seq payload e c = (omega arith, tt)
Consecutive-append s ((t, p) ∷ ms) seq payload e c =
    (c.0, Consecutive-append (suc s) ms seq payload (omega arith) c.1)

pub Consecutive-drop :
    (s n : ℕ) (ms : List Message)
    → n ≤ length ms
    → Consecutive s ms
    → Consecutive (s + n) (drop n ms)
Consecutive-drop s zero ms h c = let e : s ≡ s + 0 = omega arith in rw (← e) c
Consecutive-drop s (suc n) [] h c = absurd (omega arith)
Consecutive-drop s (suc n) (m ∷ ms) h c =
    let e : suc s + n ≡ s + suc n = omega arith in
    rw (← e) (Consecutive-drop (suc s) n ms (omega arith) c.1)

pub Consecutive-get :
    (s i : ℕ) (ms : List Message) {m : Message}
    → Consecutive s ms
    → get_elem? ms i ≡ some m
    → (m.0 ≡ s + i) × (i < length ms)
Consecutive-get s i [] c e = cc
Consecutive-get s zero ((t, p) ∷ ms) c e = ground arith
Consecutive-get s (suc i) ((t, p) ∷ ms) c e = ground (arith, Consecutive-get (suc s) i ms c.1 e)

pub Consecutive-last :
    (s : ℕ) (ms : List Message) {m : Message}
    → Consecutive s ms
    → get_last? ms ≡ some m
    → m.0 + 1 ≡ s + length ms
Consecutive-last s [] c e = cc
Consecutive-last s ((t, p) ∷ []) c e = ground arith
Consecutive-last s ((t, p) ∷ m ∷ ms) c e = ground (arith, Consecutive-last (suc s) (m ∷ ms) c.1 e)

pub remove-Stamped :
    (s t : ℕ) (stamps : Map ℕ) → Stamped s t stamps → Stamped (suc s) t (remove s stamps)
remove-Stamped s t stamps h k = ground (arith, lookup-remove s k stamps, h k)

pub with_seq_and_mode-IsValid :
    (capacity start_seq : ℕ) (keep_all : Bool)
    → IsValid (with_seq_and_mode capacity start_seq keep_all)
unfolding with_seq_and_mode lookup
with_seq_and_mode-IsValid capacity start_seq keep_all = record {
  room = omega arith;
  bounded = omega arith;
  counted = refl;
  numbered = omega arith;
  in_order = tt;
  stamped = λ k. ground arith;
}
