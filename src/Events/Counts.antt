-- ===== src/Events/Counts.antt =====
-- What the counters of an event say, and what the wake-up counter says.
use rmw_axon.Prelude.{
  ℕ, zero, suc, ◌+◌, ◌-◌, ◌%◌, ◌^◌, ◌≤◌, ◌<◌, ◌≡◌, refl, sym, ap, ◌∙◌, inl, inr, true, false, ◌&&◌,
  Option, none, some, List, [], ◌∷◌, arith, ◌==◌, if◌then◌else◌, ==_iff, ==_self, Bool-cases,
  Option-cases, length, replicate, length-replicate,
}
use mathlib.Core.Option
use rmw_axon.Prelude.Maps.{lookup, insert, lookup-insert}
use rmw_axon.Events.{
  EventState, EventMonitor, DeadlineMonitor, trigger_event, trigger_all, take_event, is_positive,
  check_deadlines, expired, expired_handles,
}

-- How often a handle is in a list.
abbrev pub times : ℕ → List ℕ → ℕ
times h [] = 0
times h (j ∷ js) = let rest = times h js in if j == h then suc rest else rest

some-injective : {a b : ℕ} → some a ≡ some b → a ≡ b
some-injective e = cc

abbrev count_in : Option EventState → Option ℕ
count_in none = none
count_in (some s) = some s.count

-- The count of an event.
abbrev pub count_of : EventMonitor → ℕ → Option ℕ
count_of m h = count_in (lookup h m.events)

same-handle : (j h : ℕ) → (j == h) ≡ true → j ≡ h
same-handle j h e = (==_iff j h).0 e

abbrev triggered : ℕ → EventState → EventState
triggered now s = record s { count = (s.count + 1) % 2 ^ 64; last_triggered = now }

lookup-trigger_event :
    (m : EventMonitor) (j h now : ℕ)
    → lookup h (trigger_event m j now).events
      ≡ (if j == h then Option.map (triggered now) (lookup j m.events) else lookup h m.events)
unfolding trigger_event
lookup-trigger_event m j h now = elim (Option-cases (lookup j m.events)) [
  | inl absent ↦ elim (Bool-cases (j == h)) [
    | inl same ↦
        rw (absent, trigger_event, same)
          (ap (λ k. lookup k m.events) (sym (same-handle j h same)) ∙ absent)
    | inr other ↦ rw (absent, trigger_event, other)
  ]
  | inr (s, found) ↦ rw (found, trigger_event) (lookup-insert j h (triggered now s) m.events)
]

count_in-triggered :
    (now : ℕ) (o : Option EventState) (n : ℕ)
    → count_in o ≡ some n
    → count_in (Option.map (triggered now) o) ≡ some ((n + 1) % 2 ^ 64)
count_in-triggered now none n e = cc
count_in-triggered now (some s) n e = ap (λ c. some ((c + 1) % 2 ^ 64)) (some-injective e)

count_of-trigger_event :
    (m : EventMonitor) (j h now n : ℕ)
    → count_of m h ≡ some n
    → count_of (trigger_event m j now) h ≡ some (if j == h then (n + 1) % 2 ^ 64 else n)
unfolding trigger_event
count_of-trigger_event m j h now n e =
    ap count_in (lookup-trigger_event m j h now) ∙ elim (Bool-cases (j == h)) [
      | inl same ↦
          let at = same-handle j h same in
          rw same (rw at (count_in-triggered now (lookup h m.events) n e))
      | inr other ↦ rw other e
    ]

count_of-trigger_all :
    (m : EventMonitor) (hs : List ℕ) (h now n : ℕ)
    → n < 2 ^ 64
    → count_of m h ≡ some n
    → count_of (trigger_all m hs now) h ≡ some ((n + times h hs) % 2 ^ 64)
unfolding trigger_all
count_of-trigger_all m [] h now n small e = e ∙ ap some (omega arith)
count_of-trigger_all m (j ∷ hs) h now n small e =
    let step = count_of-trigger_event m j h now n e in
    elim (Bool-cases (j == h)) [
      | inl same ↦
          count_of-trigger_all (trigger_event m j now) hs h now ((n + 1) % 2 ^ 64) (omega arith)
            (step ∙ rw same refl)
          ∙ rw same (ap some (omega arith))
      | inr other ↦
          count_of-trigger_all (trigger_event m j now) hs h now n small (step ∙ rw other refl)
          ∙ rw other refl
    ]

eventfd-trigger_all :
    (m : EventMonitor) (hs : List ℕ) (now : ℕ)
    → (trigger_all m hs now).eventfd ≡ m.eventfd + length hs
unfolding trigger_all trigger_event
eventfd-trigger_all m [] now = omega arith
eventfd-trigger_all m (h ∷ hs) now =
    eventfd-trigger_all (trigger_event m h now) hs now ∙ omega arith

monitors-trigger_all :
    (m : EventMonitor) (hs : List ℕ) (now : ℕ)
    → (trigger_all m hs now).deadline_monitors ≡ m.deadline_monitors
unfolding trigger_all trigger_event
monitors-trigger_all m [] now = refl
monitors-trigger_all m (h ∷ hs) now = monitors-trigger_all (trigger_event m h now) hs now

-- How many of the monitors of an event are overdue.
abbrev pub overdue : ℕ → ℕ → List DeadlineMonitor → ℕ
overdue now h [] = 0
overdue now h (d ∷ ds) =
    let rest = overdue now h ds in if d.event_handle == h && expired now d then suc rest else rest

times-expired_handles :
    (now h : ℕ) (ds : List DeadlineMonitor) → times h (expired_handles now ds) ≡ overdue now h ds
times-expired_handles now h [] = refl
times-expired_handles now h (d ∷ ds) = ground (arith, times-expired_handles now h ds)

-- A check of the deadlines adds to the count of each event the number of its monitors that are
-- overdue, wrapping at 2^64, and leaves the monitors as they are, so that a deadline which stays missed
-- is counted again by each check.
pub check_deadlines_lem :
    (m : EventMonitor) (now h n : ℕ)
    → n < 2 ^ 64
    → count_of m h ≡ some n
    → (count_of (check_deadlines m now) h ≡ some ((n + overdue now h m.deadline_monitors) % 2 ^ 64))
      × ((check_deadlines m now).deadline_monitors ≡ m.deadline_monitors)
unfolding check_deadlines
check_deadlines_lem m now h n small e = (
  count_of-trigger_all m (expired_handles now m.deadline_monitors) h now n small e
      ∙ ap (λ k. some ((n + k) % 2 ^ 64)) (times-expired_handles now h m.deadline_monitors),
  monitors-trigger_all m (expired_handles now m.deadline_monitors) now,
)

times-replicate : (h k : ℕ) → times h (replicate k h) ≡ k
times-replicate h zero = refl
times-replicate h (suc k) = rw (==_self h) (ap suc (times-replicate h k))

-- An event that was triggered some times, fewer than 2^63, since it was last taken is taken with that
-- count, without waiting, and is then at rest. The wake-up counter, which the triggers must not fill,
-- went up by one for each trigger and down by one for the take: after more than one trigger it stays
-- above where it was, though nothing is left to take.
pub take_event-trigger_all :
    (m : EventMonitor) (h now k : ℕ)
    → count_of m h ≡ some 0
    → 1 ≤ k
    → k < 2 ^ 63
    → m.eventfd + k < 2 ^ 64 - 1
    → (taken : ℕ × ℕ × ℕ × ℕ) × (m' : EventMonitor) × (take_event
          (trigger_all m (replicate k h) now)
          h
        ≡ some (some taken, m'))
      × (taken.0 ≡ k)
      × (count_of m' h ≡ some 0)
      × (m'.eventfd ≡ m.eventfd + k - 1)
unfolding take_event
take_event-trigger_all m h now k e some_triggers small wakes =
    let after = trigger_all m (replicate k h) now in
    let all : (0 + times h (replicate k h)) % 2 ^ 64 ≡ k = omega (arith, times-replicate h k) in
    let counted = count_of-trigger_all m (replicate k h) h now 0 (omega arith) e ∙ ap some all in
    let fd : after.eventfd ≡ m.eventfd + k =
      eventfd-trigger_all m (replicate k h) now ∙ ap (λ n. m.eventfd + n) (length-replicate k h) in
    let awake : (after.eventfd == 0) ≡ false = ground (arith, fd) in
    elim (Option-cases (lookup h after.events)) [
      | inl absent ↦ absurd (cc (counted, ap count_in absent))
      | inr (s, found) ↦
          let c : s.count ≡ k = some-injective (ap count_in (sym found) ∙ counted) in
          let full : is_positive s.count ≡ true = rw c (ground arith) in
          let rest : lookup h (insert h (record s { count = 0 }) after.events)
              ≡ some (record s { count = 0 }) =
            lookup-insert h h (record s { count = 0 }) after.events ∙ rw (==_self h) in
          (
            (s.count, s.last_triggered, s.alive_count, s.not_alive_count),
            record after {
              events = insert h (record s { count = 0 }) after.events;
              eventfd = after.eventfd - 1;
            },
            rw (found, take_event, full, awake) refl,
            c,
            ap count_in rest,
            omega (arith, fd),
          )
    ]
