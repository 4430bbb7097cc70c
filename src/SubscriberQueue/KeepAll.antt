-- ===== src/SubscriberQueue/KeepAll.antt =====
-- The keep-all mode: what a refused push costs.
use rmw_axon.Prelude.{
  ℕ, suc, ◌+◌, ◌-◌, ◌%◌, ◌^◌, ◌≤◌, ◌<◌, ◌≡◌, refl, sym, ap, ◌∙◌, inl, inr, true, false, none, some,
  List, [], ◌∷◌, ◌++◌, arith, ltb, le→leb, length, length-append, get_elem?-none,
  get_elem?-append_here, get_last?-append, drop_none, subst,
}
use rmw_axon.SubscriberQueue.{
  Message, SubscriberQueue, push, take_at, try_take, message_at, data_available_from,
}
use rmw_axon.SubscriberQueue.Inv.{Consecutive, first, IsValid}
use rmw_axon.SubscriberQueue.Push.{push_cases}
use rmw_axon.SubscriberQueue.Take.{oldest-first}

push-full :
    (q : SubscriberQueue) (payload : List ℕ) (now : ℕ)
    → q.keep_all ≡ true
    → q.capacity ≤ length q.messages
    → push q payload now ≡ (none, record q { next_seq = (q.next_seq + 1) % 2 ^ 64 })
unfolding push
push-full q payload now k full = rw (k, le→leb q.capacity (length q.messages) full)

-- The oldest message is taken, and the rest stays.
record Taken (q q' : SubscriberQueue) (rest : List Message) : Type 0 where
  messages_are : q'.messages ≡ rest
  next_is : q'.next_seq ≡ q.next_seq
  capacity_is : q'.capacity ≡ q.capacity
  keep_all_is : q'.keep_all ≡ q.keep_all

try_take-Taken :
    (q : SubscriberQueue) (out : List ℕ) {m : Message} {rest : List Message}
    → q.messages ≡ m ∷ rest
    → length m.1 ≤ length out
    → Taken q (try_take q m.0 out).1 rest
unfolding try_take take_at
try_take-Taken q out {m} {rest} e fits =
    let self : ltb m.0 m.0 ≡ false = ground arith in
    let nought : m.0 - m.0 ≡ 0 = omega arith in
    let small : ltb (length out) (length m.1) ≡ false = ground arith in
    rw (e, try_take, self, nought)
      (rw (e, take_at)
        (rw small
          (record { messages_are = rw e; next_is = refl; capacity_is = refl; keep_all_is = refl })))

-- A push that finds room appends, under the counter's number.
push-room :
    (q : SubscriberQueue) (payload : List ℕ) (now : ℕ)
    → length q.messages < q.capacity
    → (push q payload now).1.messages ≡ q.messages ++ (q.next_seq, payload) ∷ []
push-room q payload now room = elim (push_cases q payload now (omega arith)) [
  | inl (_, full, _) ↦ absurd (omega arith)
  | inr done ↦
      rw (done, drop_none {n = length q.messages + 1 - q.capacity} q.messages (omega arith))
]

-- Over a gap of one number at the end.
message_at-gap :
    (s n : ℕ) (m : Message) (rest : List Message) (payload : List ℕ)
    → Consecutive s (m ∷ rest)
    → n ≡ s + length (m ∷ rest)
    → let messages = (m ∷ rest) ++ (n + 1, payload) ∷ [] in
      (message_at messages n ≡ some (n, payload)) × (message_at messages (n + 1) ≡ none)
unfolding message_at
message_at-gap s n m rest payload c e =
    let last = get_last?-append (m ∷ rest) (n + 1, payload) in
    let here =
      get_elem?-append_here (m ∷ rest) [] (n + 1, payload) (n - m.0) (ground (arith, c.0)) in
    let past =
      get_elem?-none ((m ∷ rest) ++ (n + 1, payload) ∷ []) (n + 1 - m.0)
        (omega (arith, c.0, length-append (m ∷ rest) ((n + 1, payload) ∷ []))) in
    let t₁ : ltb (n + 1) n ≡ false = ground arith in
    let t₂ : ltb n m.0 ≡ false = ground (arith, c.0) in
    let t₃ : ltb (n + 1) (n + 1) ≡ false = ground arith in
    let t₄ : ltb (n + 1) m.0 ≡ false = ground (arith, c.0) in
    (rw (last, message_at, t₁, t₂, here), rw (last, message_at, t₃, t₄, past))

-- The queue in the keep-all mode after a refused push, the take of its oldest message, and one more push.
abbrev pub refused_taken_pushed :
    SubscriberQueue → List ℕ → List ℕ → List ℕ → ℕ → ℕ → SubscriberQueue
refused_taken_pushed q refused out payload t t' =
    (push (try_take (push q refused t).1 (first q) out).1 payload t').1

messages-refused_taken_pushed :
    (q : SubscriberQueue) (refused out payload : List ℕ) (t t' : ℕ) {m : Message}
    {rest : List Message}
    → IsValid q
    → q.keep_all ≡ true
    → length q.messages ≡ q.capacity
    → q.next_seq + 2 < 2 ^ 64
    → q.messages ≡ m ∷ rest
    → length m.1 ≤ length out
    → (refused_taken_pushed q refused out payload t t').messages
      ≡ rest ++ (q.next_seq + 1, payload) ∷ []
messages-refused_taken_pushed q refused out payload t t' {m} {rest} v k full wrap e fits =
    let q₁ = record q { next_seq = (q.next_seq + 1) % 2 ^ 64 } in
    let q₂ = (try_take q₁ m.0 out).1 in
    let taken = try_take-Taken q₁ out e fits in
    let size = ap length taken.messages_are in
    let room = push-room q₂ payload t' (omega (arith, size, ap length e, taken.capacity_is)) in
    let n : (q.next_seq + 1) % 2 ^ 64 ≡ q.next_seq + 1 = omega arith in
    ap (λ r. (push (try_take r.1 (first q) out).1 payload t').1.messages)
      (push-full q refused t k (omega arith))
    ∙ ap (λ s. (push (try_take q₁ s out).1 payload t').1.messages) (sym (oldest-first q v e))
    ∙ (room ∙ rw (taken.messages_are, taken.next_is, n))

data_available_from-append :
    (q : SubscriberQueue) (ms : List Message) (n : ℕ) (payload : List ℕ)
    → q.messages ≡ ms ++ (n, payload) ∷ []
    → data_available_from q n ≡ true
unfolding data_available_from
data_available_from-append q ms n payload e =
    rw (e, data_available_from) (rw (get_last?-append ms (n, payload)) (ground arith))

-- A refused push takes its number from the counter all the same, so the numbers in the queue have a
-- gap from then on, and the offset of a message is no longer its number less the oldest one. On a
-- valid, full queue of two places at least, in the keep-all mode: once a push was refused and the
-- oldest message, which the output slice has room for, was taken, the next payload goes in under
-- `next_seq + 1`; but it is found at `next_seq`, the number of the refused message, and at its own
-- number nothing is found, though `data_available_from` says that there is data.
pub keep_all_gap :
    (q : SubscriberQueue) (refused out payload : List ℕ) (t t' : ℕ) {m : Message}
    {rest : List Message}
    → IsValid q
    → q.keep_all ≡ true
    → length q.messages ≡ q.capacity
    → 2 ≤ q.capacity
    → q.next_seq + 2 < 2 ^ 64
    → q.messages ≡ m ∷ rest
    → length m.1 ≤ length out
    → let q' = refused_taken_pushed q refused out payload t t' in
      (message_at q'.messages q.next_seq ≡ some (q.next_seq, payload))
      × (message_at q'.messages (q.next_seq + 1) ≡ none)
      × (data_available_from q' (q.next_seq + 1) ≡ true)
keep_all_gap q refused out payload t t' {m} {rest = []} v k full two wrap e fits =
    absurd (omega (arith, ap length e))
keep_all_gap q refused out payload t t' {m} {rest = m' ∷ rest} v k full two wrap e fits =
    let found = messages-refused_taken_pushed q refused out payload t t' v k full wrap e fits in
    let order = subst (Consecutive (first q)) e v.in_order in
    let gap =
      message_at-gap (suc (first q)) q.next_seq m' rest payload order.1
        (omega (arith, v, ap length e)) in
    (rw found gap.0, rw found gap.1, data_available_from-append _ (m' ∷ rest) _ payload found)
