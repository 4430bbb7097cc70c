-- ===== src/SubscriberQueue/Refine.antt =====
-- The queue against the history of what was published: a reader with a cursor sees the last
-- `capacity` payloads, each under the number at which it was published.
use rmw_axon.Prelude.{
  ℕ, zero, suc, ◌+◌, ◌-◌, ◌^◌, ◌≤◌, ◌<◌, max, ◌≡◌, refl, sym, ap, ◌∙◌, inl, inr, false, Option,
  none, some, List, [], ◌∷◌, ◌++◌, map, append_assoc, append-nil, arith, ltb, leb, if◌then◌else◌,
  Bool-cases, length, get_elem?, drop, length-append, length-drop, drop-nil, get_elem?-drop,
  drop-drop, drop-append_le, get_last?-cons, lt-of-get_elem?,
}
use mathlib.Core.Option
use rmw_axon.SubscriberQueue.{
  Message, SubscriberQueue, with_seq_and_mode, push, message_at, deliver, read_at,
}
use rmw_axon.SubscriberQueue.Inv.{
  Consecutive, first, IsValid, Consecutive-last, with_seq_and_mode-IsValid,
}
use rmw_axon.SubscriberQueue.Push.{push_cases, push-IsValid}

-- The payloads with the numbers that they are published under, from `s` on.
abbrev pub number : ℕ → List (List ℕ) → List Message
number s [] = []
number s (d ∷ ds) = (s, d) ∷ number (s + 1) ds

length-number : (s : ℕ) (ds : List (List ℕ)) → length (number s ds) ≡ length ds
length-number s [] = refl
length-number s (d ∷ ds) = ap suc (length-number (s + 1) ds)

number-append :
    (s : ℕ) (ds : List (List ℕ)) (d : List ℕ)
    → number s (ds ++ d ∷ []) ≡ number s ds ++ (s + length ds, d) ∷ []
number-append s [] d = let e : s ≡ s + 0 = omega arith in rw (← e)
number-append s (x ∷ ds) d =
    let e : s + 1 + length ds ≡ s + suc (length ds) = omega arith in
    ap (◌∷◌ (s, x)) (rw (← e) (number-append (s + 1) ds d))

get_elem?-number :
    (s i : ℕ) (ds : List (List ℕ))
    → get_elem? (number s ds) i ≡ Option.map (λ d. (s + i, d)) (get_elem? ds i)
get_elem?-number s i [] = refl
get_elem?-number s zero (d ∷ ds) = let e : s ≡ s + 0 = omega arith in rw (← e)
get_elem?-number s (suc i) (d ∷ ds) =
    let e : s + 1 + i ≡ s + suc i = omega arith in rw (← e) (get_elem?-number (s + 1) i ds)

-- Publishing a list of payloads, each with the time of its push.
abbrev pub push_all : SubscriberQueue → List (List ℕ × ℕ) → SubscriberQueue
push_all q [] = q
push_all q ((payload, now) ∷ rest) = push_all (push q payload now).1 rest

-- What a keep-last queue of `c` places holds of the history `h`, published from `s` on.
abbrev pub retained : ℕ → ℕ → List (List ℕ) → List Message
retained c s h = drop (length h - c) (number s h)

-- What a queue that held the history `h` has become.
pub record Holds (c s : ℕ) (h : List (List ℕ)) (q : SubscriberQueue) : Type 0 where
  pub valid : IsValid q
  pub capacity_is : q.capacity ≡ c
  pub keeps_last : q.keep_all ≡ false
  pub next_is : q.next_seq ≡ s + length h
  pub messages_are : q.messages ≡ retained c s h

retained-append :
    (c s : ℕ) (h : List (List ℕ)) (d : List ℕ)
    → 1 ≤ c
    → drop (length (retained c s h) + 1 - c) (retained c s h) ++ (s + length h, d) ∷ []
      ≡ retained c s (h ++ d ∷ [])
retained-append c s h d p =
    let len = length-drop (length h - c) (number s h) in
    let e : length h - c + (length (retained c s h) + 1 - c) ≡ length h + 1 - c =
      omega (arith, len, length-number s h) in
    let e' : length (h ++ d ∷ []) - c ≡ length h + 1 - c =
      omega (arith, length-append h (d ∷ [])) in
    rw (
      drop-drop (length (retained c s h) + 1 - c) (length h - c) (number s h),
      e,
      e',
      number-append s h d,
      drop-append_le (length h + 1 - c) (number s h) _ (omega (arith, length-number s h)),
    )

push-Holds :
    (c s : ℕ) (h : List (List ℕ)) (d : List ℕ) (now : ℕ) (q : SubscriberQueue)
    → Holds c s h q
    → s + length h + 1 < 2 ^ 64
    → Holds c s (h ++ d ∷ []) (push q d now).1
push-Holds c s h d now q v p = elim (push_cases q d now v.valid.room) [
  | inl (keeps, _, _) ↦ absurd (cc (v.keeps_last, keeps))
  | inr done ↦ record {
    valid = (push-IsValid q d now v.valid (omega arith) (ap (λ r. r.0) done)).1;
    capacity_is = rw done v.capacity_is;
    keeps_last = rw done v.keeps_last;
    next_is = rw done (omega (arith, length-append h (d ∷ [])));
    messages_are =
        rw (done, v.next_is, v.messages_are, v.capacity_is) (retained-append c s h d (omega arith));
  }
]

push_all-Holds :
    (c s : ℕ) (h : List (List ℕ)) (es : List (List ℕ × ℕ)) (q : SubscriberQueue)
    → Holds c s h q
    → s + length h + length es < 2 ^ 64
    → Holds c s (h ++ map (λ e. e.0) es) (push_all q es)
push_all-Holds c s h [] q v p = rw append-nil v
push_all-Holds c s h ((d, now) ∷ es) q v p = rw (← append_assoc h (d ∷ []) (map (λ e. e.0) es)) (
    push_all-Holds c s (h ++ d ∷ []) es (push q d now).1 (push-Holds c s h d now q v (omega arith))
      (omega (arith, length-append h (d ∷ []))))

-- What a read at the cursor `seq` finds, by the history alone: nothing ahead of it, the newest
-- payload for a cursor that the window has left behind, and else the payload of that number.
abbrev pub sample : ℕ → ℕ → List (List ℕ) → ℕ → Option Message
sample c s h seq =
    if leb (s + length h) seq
    then none
    else let i = if ltb seq (s + (length h - c)) then length h - 1 else seq - s in
      Option.map (λ d. (s + i, d)) (get_elem? h i)

ltb-succ : (a b n : ℕ) → a + 1 ≡ b → ltb a n ≡ leb b n
ltb-succ a b n e = ground arith

-- The same over the messages themselves.
message_at_lem :
    (s : ℕ) (ms : List Message) (seq : ℕ)
    → Consecutive s ms
    → message_at ms seq ≡ (
        if leb (s + length ms) seq
        then none
        else let actual = if ltb seq s then s + length ms - 1 else seq in
          Option.map (λ m. (actual, m.1)) (get_elem? ms (actual - s)))
unfolding message_at
message_at_lem s [] seq c = ground arith
message_at_lem s ((t, p) ∷ ms) seq c =
    let (m, g) = get_last?-cons (t, p) ms in
    let top = Consecutive-last s ((t, p) ∷ ms) c g in
    let e : m.0 ≡ s + length ((t, p) ∷ ms) - 1 = omega arith in
    rw (g, message_at, ltb-succ m.0 (s + length ((t, p) ∷ ms)) seq top, e, c.0)

relabel :
    (a b a' : ℕ) (o : Option (List ℕ))
    → ((d : List ℕ) → o ≡ some d → a ≡ a')
    → Option.map {B = Message}
        (λ (m : Message). (a, m.1))
        (Option.map {B = Message} (λ d. (b, d)) o)
      ≡ Option.map (λ d. (a', d)) o
relabel a b a' none e = refl
relabel a b a' (some d) e = rw (e d refl)

module _ (c s : ℕ) (h : List (List ℕ)) (q : SubscriberQueue) (v : Holds c s h q) where
  length-messages : length q.messages ≡ length h - (length h - c)
  length-messages =
      ap length v.messages_are
      ∙ omega (arith, length-drop (length h - c) (number s h), length-number s h)

  first-Holds : first q ≡ s + (length h - c)
  first-Holds = omega (arith, v, length-messages)

  get_elem?-Holds :
      (i : ℕ)
      → get_elem? q.messages i
        ≡ Option.map (λ d. (s + (length h - c + i), d)) (get_elem? h (length h - c + i))
  get_elem?-Holds i =
      rw (v.messages_are, get_elem?-drop (length h - c) i (number s h)) (get_elem?-number s _ h)

  -- The message at a number of the window, whichever of the two cursors chose it.
  relabel-Holds :
      (actual i : ℕ)
      → ((d : List ℕ) → get_elem? h i ≡ some d → actual ≡ s + i)
      → length h - c + (actual - (s + (length h - c))) ≡ i
      → Option.map {B = Message}
          (λ (m : Message). (actual, m.1))
          (get_elem? q.messages (actual - (s + (length h - c))))
        ≡ Option.map (λ d. (s + i, d)) (get_elem? h i)
  relabel-Holds actual i e j =
      rw (get_elem?-Holds, j) (relabel actual (s + i) (s + i) (get_elem? h i) e)

  -- On a queue that holds the history, the message found is the history's sample.
  pub message_at-Holds : (seq : ℕ) → message_at q.messages seq ≡ sample c s h seq
  message_at-Holds seq =
      message_at_lem (first q) q.messages seq v.valid.in_order
      ∙ rw (first-Holds, end)
          (elim (Bool-cases (leb (s + length h) seq)) [
            | inl ahead ↦ rw (ahead)
            | inr here ↦ rw (here) (elim (Bool-cases (ltb seq (s + (length h - c)))) [
              | inl behind ↦ rw behind (
                  relabel-Holds (s + length h - 1) (length h - 1)
                    (λ d g. omega (arith, lt-of-get_elem? h (length h - 1) g))
                    (ground (arith, length-messages)))
              | inr inside ↦
                  rw inside (relabel-Holds seq (seq - s) (λ d g. ground arith) (ground arith))
            ])
          ])
    where
      end : s + (length h - c) + length q.messages ≡ s + length h
      end = omega (arith, length-messages)

fresh-Holds : (capacity s : ℕ) → Holds (max capacity 1) s [] (with_seq_and_mode capacity s false)
fresh-Holds capacity s = record {
  valid = with_seq_and_mode-IsValid capacity s false;
  capacity_is = unfold with_seq_and_mode in refl;
  keeps_last = unfold with_seq_and_mode in refl;
  next_is = unfold with_seq_and_mode in omega arith;
  messages_are = unfold with_seq_and_mode in sym (drop-nil Message (0 - max capacity 1));
}

-- The state of a keep-last queue after any list of pushes on a new one.
pub published-Holds :
    (capacity s : ℕ) (es : List (List ℕ × ℕ))
    → s + length es < 2 ^ 64
    → Holds
        (max capacity 1)
        s
        (map (λ e. e.0) es)
        (push_all (with_seq_and_mode capacity s false) es)
published-Holds capacity s es h =
    push_all-Holds (max capacity 1) s [] es _ (fresh-Holds capacity s) (omega arith)

-- A new keep-last queue on which the payloads of `es` were pushed answers every `read_at` as the
-- history says: nothing at or past the end, the newest payload for a cursor that the last
-- `max capacity 1` payloads have left behind, and else the payload published under that number.
-- A payload longer than the output slice is not copied. The counter must not wrap.
pub read_at-push_all :
    (capacity s : ℕ) (es : List (List ℕ × ℕ)) (seq : ℕ) (out : List ℕ)
    → s + length es < 2 ^ 64
    → read_at (push_all (with_seq_and_mode capacity s false) es) seq out
      ≡ deliver out (sample (max capacity 1) s (map (λ e. e.0) es) seq)
unfolding read_at
read_at-push_all capacity s es seq out h =
    ap (deliver out) (message_at-Holds _ _ _ _ (published-Holds capacity s es h) seq)
