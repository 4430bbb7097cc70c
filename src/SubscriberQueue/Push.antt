-- ===== src/SubscriberQueue/Push.antt =====
-- `push`: what it keeps, when it refuses, and that it keeps the invariant.
use rmw_axon.Prelude.{
  ℕ, suc, ◌+◌, ◌-◌, ◌%◌, ◌^◌, ◌≤◌, ◌<◌, ◌≡◌, refl, sym, ap, ◌⊎◌, inl, inr, true, ◌&&◌, none, some,
  List, [], ◌∷◌, ◌++◌, arith, leb, Bool-cases, length, drop, length-append, length-drop, drop-nil,
  drop-cons, drop_none,
}
use rmw_axon.Prelude.Maps.{Map, remove, insert, lookup-insert}
use rmw_axon.SubscriberQueue.{Message, SubscriberQueue, evict, push}
use rmw_axon.SubscriberQueue.Inv.{
  Consecutive, first, Stamped, IsValid, Consecutive-append, Consecutive-drop, remove-Stamped,
}

-- What the eviction loop leaves: room for one message, and no other loss.
pub evict-messages :
    (capacity : ℕ) (ms : List Message) (stamps : Map ℕ)
    → 1 ≤ capacity
    → (evict capacity ms stamps).0 ≡ drop (length ms + 1 - capacity) ms
unfolding evict
evict-messages capacity [] stamps h = sym (drop-nil Message (0 + 1 - capacity))
evict-messages capacity (m ∷ ms) stamps h = ground (
  arith,
  evict-messages capacity ms (remove m.0 stamps) h,
  drop-cons {n = length ms + 2 - capacity} (length ms + 1 - capacity) m ms,
  drop_none {n = length ms + 2 - capacity} (m ∷ ms),
)

pub evict-Stamped :
    (capacity s t : ℕ) (ms : List Message) (stamps : Map ℕ)
    → t ≡ s + length ms
    → Consecutive s ms
    → Stamped s t stamps
    → Stamped (s + length ms - length (evict capacity ms stamps).0) t (evict capacity ms stamps).1
unfolding evict
evict-Stamped capacity s t [] stamps e c h k = ground (arith, h k)
evict-Stamped capacity s t ((seq, p) ∷ ms) stamps e c h k = ground (
  arith,
  h k,
  evict-Stamped capacity (suc s) t ms (remove seq stamps) (omega arith) c.1
      (rw c.0 (remove-Stamped s t stamps h)) k,
)

-- The state after a push that is not refused.
abbrev pub accepted : SubscriberQueue → List ℕ → ℕ → SubscriberQueue
accepted q payload now =
    let kept = drop (length q.messages + 1 - q.capacity) q.messages in
    record q {
      messages = kept ++ (q.next_seq, payload) ∷ [];
      next_seq = (q.next_seq + 1) % 2 ^ 64;
      len = length (kept ++ (q.next_seq, payload) ∷ []);
      active = true;
      timestamps = insert q.next_seq now (evict q.capacity q.messages q.timestamps).1;
    }

-- A push is refused in one case: a queue in the keep-all mode is full.
pub push_cases :
    (q : SubscriberQueue) (payload : List ℕ) (now : ℕ)
    → 1 ≤ q.capacity
    → ((q.keep_all ≡ true)
        × (q.capacity ≤ length q.messages)
        × (push q payload now ≡ (none, record q { next_seq = (q.next_seq + 1) % 2 ^ 64 })))
      ⊎ (push q payload now ≡ (some q.next_seq, accepted q payload now))
unfolding push
push_cases q payload now h = elim (Bool-cases (q.keep_all && leb q.capacity (length q.messages))) [
  | inl e ↦ inl (ground arith, ground arith, rw e)
  | inr e ↦ inr (rw (e, evict-messages q.capacity q.messages q.timestamps h))
]

length-kept :
    (q : SubscriberQueue)
    → length (drop (length q.messages + 1 - q.capacity) q.messages)
      ≡ length q.messages - (length q.messages + 1 - q.capacity)
length-kept q = length-drop _ q.messages

module _ (q : SubscriberQueue) (payload : List ℕ) (now : ℕ) (v : IsValid q)
    (h : q.next_seq + 1 < 2 ^ 64) where
  first-accepted : first (accepted q payload now) ≡ first q + (length q.messages + 1 - q.capacity)
  first-accepted = omega (
    arith,
    length-append (drop (length q.messages + 1 - q.capacity) q.messages)
        ((q.next_seq, payload) ∷ []),
    length-kept q,
    v,
  )

  accepted-Stamped :
      Stamped
        (first q + (length q.messages + 1 - q.capacity))
        ((q.next_seq + 1) % 2 ^ 64)
        (accepted q payload now).timestamps
  accepted-Stamped k = ground (
    arith,
    lookup-insert q.next_seq k now (evict q.capacity q.messages q.timestamps).1,
    evict-Stamped q.capacity (first q) q.next_seq q.messages q.timestamps (omega (arith, v))
        v.in_order v.stamped k,
    ap length (evict-messages q.capacity q.messages q.timestamps v.room),
    length-kept q,
    v.room,
    v.bounded,
    v.numbered,
  )

  accepted-IsValid : IsValid (accepted q payload now)
  accepted-IsValid = record {
    room = v.room;
    bounded = omega (
      arith,
      length-append (drop (length q.messages + 1 - q.capacity) q.messages)
          ((q.next_seq, payload) ∷ []),
      length-kept q,
      v,
    );
    counted = refl;
    numbered = omega (
      arith,
      length-append (drop (length q.messages + 1 - q.capacity) q.messages)
          ((q.next_seq, payload) ∷ []),
      length-kept q,
      v,
    );
    in_order = rw first-accepted (
        Consecutive-append _ _ q.next_seq payload (omega (arith, length-kept q, v))
          (Consecutive-drop (first q) _ q.messages (omega (arith, v)) v.in_order));
    stamped = rw first-accepted accepted-Stamped;
  }

-- A push that returns a number returns the counter's and keeps the queue valid, as long as the
-- counter does not wrap.
pub push-IsValid :
    (q : SubscriberQueue) (payload : List ℕ) (now : ℕ) {s : ℕ}
    → IsValid q
    → q.next_seq + 1 < 2 ^ 64
    → (push q payload now).0 ≡ some s
    → (s ≡ q.next_seq) × IsValid (push q payload now).1
push-IsValid q payload now v h e = elim (push_cases q payload now v.room) [
  | inl (_, _, refused) ↦ absurd (cc (ap (λ r. r.0) refused))
  | inr done ↦ (cc (ap (λ r. r.0) done), rw done (accepted-IsValid q payload now v h))
]
