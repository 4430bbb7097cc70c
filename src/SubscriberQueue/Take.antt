-- ===== src/SubscriberQueue/Take.antt =====
-- `try_take`: it keeps the invariant, and forgets the time of what it takes.
use rmw_axon.Prelude.{
  ℕ, zero, suc, ◌+◌, ◌-◌, ◌≤◌, ◌<◌, ◌≡◌, refl, inl, inr, none, some, List, [], ◌∷◌, arith, ltb,
  Bool-cases, Option-cases, length, get_elem?, drop, get_last?, length-drop, List-cases, subst,
}
use rmw_axon.Prelude.Maps.{Map, lookup, remove}
use rmw_axon.SubscriberQueue.{
  Message, Read, SubscriberQueue, remove_range, take_newest, take_at, try_take, timestamp_for,
}
use rmw_axon.SubscriberQueue.Inv.{
  first, Stamped, IsValid, Consecutive, Consecutive-drop, Consecutive-get, Consecutive-last,
  remove-Stamped,
}

remove_range-Stamped :
    (s n t : ℕ) (stamps : Map ℕ) → Stamped s t stamps → Stamped (s + n) t (remove_range s n stamps)
unfolding remove_range
remove_range-Stamped s zero t stamps h k = ground (arith, h k)
remove_range-Stamped s (suc n) t stamps h k = ground (
  arith,
  remove_range-Stamped (s + 1) n t (remove s stamps)
      (let e : suc s ≡ s + 1 = omega arith in rw (← e) (remove-Stamped s t stamps h)) k,
)

-- A queue emptied by a reader that had fallen behind.
emptied-IsValid :
    (q : SubscriberQueue)
    → IsValid q
    → IsValid (record q { messages = []; len = 0; timestamps = [] })
unfolding lookup
emptied-IsValid q v = record {
  room = v.room;
  bounded = omega arith;
  counted = refl;
  numbered = omega arith;
  in_order = tt;
  stamped = λ k. ground arith;
}

-- A queue whose first messages, up to the one at `offset`, were taken.
drained-IsValid :
    (q : SubscriberQueue) (offset : ℕ)
    → IsValid q
    → offset < length q.messages
    → IsValid (record q {
      messages = drop (offset + 1) q.messages;
      len = length (drop (offset + 1) q.messages);
      timestamps = remove_range (first q) (offset + 1) q.timestamps;
    })
drained-IsValid q offset v h =
    let len_lem = length-drop (offset + 1) q.messages in
    let e : q.next_seq - length (drop (offset + 1) q.messages) ≡ first q + (offset + 1) =
      omega (arith, v, len_lem) in
    record {
      room = v.room;
      bounded = omega (arith, len_lem, v);
      counted = refl;
      numbered = omega (arith, len_lem, v);
      in_order = rw e (Consecutive-drop (first q) (offset + 1) q.messages (omega arith) v.in_order);
      stamped =
          rw e (remove_range-Stamped (first q) (offset + 1) q.next_seq q.timestamps v.stamped);
    }

take_newest-IsValid :
    (q : SubscriberQueue) (out : List ℕ) → IsValid q → IsValid (take_newest q out).1
unfolding take_newest
take_newest-IsValid q out v = elim (Option-cases (get_last? q.messages)) [
  | inl e ↦ rw (e, take_newest) v
  | inr (m, e) ↦
      rw (e, take_newest)
        (elim (Bool-cases (ltb (length out) (length m.1))) [
          | inl small ↦ rw small v
          | inr fits ↦ rw fits (emptied-IsValid q v)
        ])
]

take_at-IsValid :
    (q : SubscriberQueue) (offset : ℕ) (out : List ℕ)
    → IsValid q
    → IsValid (take_at q (first q) offset out).1
unfolding take_at
take_at-IsValid q offset out v = elim (Option-cases (get_elem? q.messages offset)) [
  | inl e ↦ rw (e, take_at) v
  | inr (m, e) ↦
      rw (e, take_at)
        (elim (Bool-cases (ltb (length out) (length m.1))) [
          | inl small ↦ rw small v
          | inr fits ↦
              let (at, inside) = Consecutive-get (first q) offset q.messages v.in_order e in
              let n : m.0 + 1 - first q ≡ offset + 1 = omega arith in
              rw (fits, n) (drained-IsValid q offset v inside)
        ])
]

pub oldest-first :
    (q : SubscriberQueue) {m : Message} {rest : List Message}
    → IsValid q
    → q.messages ≡ m ∷ rest
    → m.0 ≡ first q
oldest-first q {m} {rest} v e = (subst (Consecutive (first q)) e v.in_order).0

-- A call finds no message, or is one of the two kinds of take.
try_take_cases {ℓ} :
    (P : Read × SubscriberQueue → Type ℓ) (q : SubscriberQueue) (seq : ℕ) (out : List ℕ)
    → IsValid q
    → P ((none, out), q)
    → P (take_newest q out)
    → P (take_at q (first q) (seq - first q) out)
    → P (try_take q seq out)
unfolding try_take
try_take_cases P q seq out v nothing newest at = elim (List-cases q.messages) [
  | inl e ↦ rw (e, try_take) nothing
  | inr (m, rest, e) ↦
      rw (e, try_take, oldest-first q v e)
        (elim (Bool-cases (ltb seq (first q))) [
          | inl behind ↦ rw behind newest
          | inr inside ↦ rw inside at
        ])
]

-- `try_take` keeps the queue valid, at every cursor and for every output slice.
pub try_take-IsValid :
    (q : SubscriberQueue) (seq : ℕ) (out : List ℕ) → IsValid q → IsValid (try_take q seq out).1
try_take-IsValid q seq out v =
    try_take_cases (λ r. IsValid r.1) q seq out v v (take_newest-IsValid q out v)
      (take_at-IsValid q (seq - first q) out v)

-- What a call has taken lies before the window of what it leaves.
abbrev Before : List ℕ → Read × SubscriberQueue → Type 0
Before out r = (n s : ℕ) → r.0.0 ≡ some (n, s) → n ≤ length out → s < first r.1

module _ (q : SubscriberQueue) (out : List ℕ) (v : IsValid q) where
  take_newest-Before : Before out (take_newest q out)
  unfolding take_newest
  take_newest-Before n s e h = elim (Option-cases (get_last? q.messages)) [
    | inl g ↦ ground (arith, g)
    | inr (m, g) ↦ ground (arith, g, Consecutive-last (first q) q.messages v.in_order g, v.numbered)
  ]

  take_at-Before : (offset : ℕ) → Before out (take_at q (first q) offset out)
  unfolding take_at
  take_at-Before offset n s e h = elim (Option-cases (get_elem? q.messages offset)) [
    | inl g ↦ ground (arith, g)
    | inr (m, g) ↦ ground (
      arith,
      g,
      Consecutive-get (first q) offset q.messages v.in_order g,
      length-drop (offset + 1) q.messages,
      v.numbered,
    )
  ]

  try_take-Before : (seq : ℕ) → Before out (try_take q seq out)
  try_take-Before seq =
      try_take_cases (Before out) q seq out v (λ n s e h. cc) take_newest-Before
        (take_at-Before (seq - first q))

-- A message that `try_take` hands out has no timestamp in the queue that it leaves: asked for it
-- afterwards, as `Session::receive` does to enforce the lifespan, the queue answers `None`.
pub timestamp_for-try_take :
    (q : SubscriberQueue) (seq : ℕ) (out : List ℕ) {n s : ℕ}
    → IsValid q
    → (try_take q seq out).0.0 ≡ some (n, s)
    → n ≤ length out
    → timestamp_for (try_take q seq out).1 s ≡ none
unfolding timestamp_for
timestamp_for-try_take q seq out {n} {s} v e h = ground (
  arith,
  (try_take-IsValid q seq out v).stamped s,
  try_take-Before q out v seq n s e h,
  Option-cases (lookup s (try_take q seq out).1.timestamps),
)
