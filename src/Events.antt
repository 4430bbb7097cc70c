-- ===== src/Events.antt =====
-- axon_core/src/events.rs: the monitor that counts QoS events and wakes the waiting sets. A call is one
-- step; `Instant::now()` is the argument `now`. A count is an `i64`, as its bit pattern below 2^64, which
-- `fetch_add` wraps. The monitors are lists of their map's entries. The eventfd is its counter; a write
-- adds one to it, and would wait if that made it 2^64 - 1.
pub mod Counts
mod Tests
use rmw_axon.Prelude.{
  ℕ, zero, suc, ◌+◌, ◌-◌, ◌*◌, ◌/◌, ◌%◌, ◌^◌, ◌≤◌, ◌<◌, min, max, ◌≡◌, refl, sym, ap, ◌∙◌, ◌≢◌, ◌↔◌,
  ◌⊎◌, inl, inr, Bool, true, false, ◌&&◌, ◌||◌, not, Option, none, some, List, [], ◌∷◌, ◌++◌, map,
  append_assoc, append-nil, arith, ltb, leb, ◌==◌, if◌then◌else◌, ltb→lt, lt→ltb, leb→le, le→leb,
  le→ltb_false, lt→leb_false, ==_iff, ==_self, Bool-cases, Option-cases, length, get_elem?, take,
  drop, get_last?, length-append, take-append, drop-append, length-take, length-drop,
  get_elem?-none, get_elem?-append_here, get_elem?-append_left, get_last?-append, drop-nil,
  drop-cons, drop_none, List-cases, subst, get_elem?-drop, drop-drop, drop-append_le, length-map,
  get_last?-cons, lt-of-get_elem?, get_or, set, replicate, length-set, length-replicate,
  get_or-set_self, get_or-set_ne, get_elem?-append_right,
}
use rmw_axon.Prelude.Maps.{Map, lookup, remove, insert}

pub data EventKind : Type 0 where
  liveliness_lost liveliness_changed deadline_missed message_lost requested_qos_compatibility :
      EventKind

pub record EventState : Type 0 where
  pub kind : EventKind
  pub count : ℕ
  pub alive_count : ℕ
  pub not_alive_count : ℕ
  pub last_triggered : ℕ

pub record DeadlineMonitor : Type 0 where
  pub event_handle : ℕ
  pub topic_hash : ℕ
  pub publisher_gid : ℕ
  pub deadline : ℕ
  pub last : ℕ

pub record LivelinessMonitor : Type 0 where
  pub event_handle : ℕ
  pub node_id : ℕ
  pub lease_duration : ℕ
  pub last : ℕ

pub record EventMonitor : Type 0 where
  pub events : Map EventState
  pub eventfd : ℕ
  pub next_handle : ℕ
  pub stop : Bool
  pub deadline_monitors : List DeadlineMonitor
  pub liveliness_monitors : List LivelinessMonitor

unfoldable pub new : EventMonitor
new = record {
  events = [];
  eventfd = 0;
  next_handle = 1;
  stop = false;
  deadline_monitors = [];
  liveliness_monitors = [];
}

unfoldable pub create_event : EventMonitor → EventKind → ℕ → ℕ × EventMonitor
create_event m kind now =
    let state : EventState = record {
      kind = kind;
      count = 0;
      alive_count = 0;
      not_alive_count = 0;
      last_triggered = now;
    } in
    (
      m.next_handle,
      record m {
        events = insert m.next_handle state m.events;
        next_handle = (m.next_handle + 1) % 2 ^ 64;
      },
    )

-- `count > 0` on the bit pattern of an `i64`.
abbrev pub is_positive : ℕ → Bool
is_positive count = ltb 0 count && ltb count (2 ^ 63)

-- The eventfd counts as a semaphore: a read takes one from it, and waits on zero, where the call
-- returns nothing.
unfoldable pub take_event : EventMonitor → ℕ → Option (Option (ℕ × ℕ × ℕ × ℕ) × EventMonitor)
take_event m handle = elim (lookup handle m.events) [
  | none ↦ some (none, m)
  | some state ↦
      if not (is_positive state.count)
      then some (none, m)
      else if m.eventfd == 0
      then none
      else some (
        some (state.count, state.last_triggered, state.alive_count, state.not_alive_count),
        record m {
          events = insert handle (record state { count = 0 }) m.events;
          eventfd = m.eventfd - 1;
        },
      )
]

unfoldable pub destroy_event : EventMonitor → ℕ → EventMonitor
destroy_event m handle = record m { events = remove handle m.events }

unfoldable pub trigger_event : EventMonitor → ℕ → ℕ → EventMonitor
trigger_event m handle now = record m {
  events = elim (lookup handle m.events) [
    | none ↦ m.events
    | some state ↦
        insert handle (record state { count = (state.count + 1) % 2 ^ 64; last_triggered = now })
          m.events
  ];
  eventfd = m.eventfd + 1;
}

unfoldable pub trigger_liveliness_changed : EventMonitor → ℕ → ℕ → ℕ → ℕ → EventMonitor
trigger_liveliness_changed m handle alive not_alive now = record m {
  events = elim (lookup handle m.events) [
    | none ↦ m.events
    | some state ↦
        insert handle
          (record state {
            count = (state.count + 1) % 2 ^ 64;
            alive_count = alive;
            not_alive_count = not_alive;
            last_triggered = now;
          })
          m.events
  ];
  eventfd = m.eventfd + 1;
}

unfoldable pub update_liveliness_counts : EventMonitor → ℕ → ℕ → ℕ → EventMonitor
update_liveliness_counts m handle alive not_alive = record m {
  events = elim (lookup handle m.events) [
    | none ↦ m.events
    | some state ↦
        insert handle (record state { alive_count = alive; not_alive_count = not_alive }) m.events
  ];
}

abbrev pub remove_deadline : ℕ → ℕ → ℕ → List DeadlineMonitor → List DeadlineMonitor
remove_deadline handle topic gid [] = []
remove_deadline handle topic gid (d ∷ ds) =
    let rest = remove_deadline handle topic gid ds in
    if d.event_handle == handle && d.topic_hash == topic && d.publisher_gid == gid
    then rest
    else d ∷ rest

unfoldable pub register_deadline_monitor : EventMonitor → ℕ → ℕ → ℕ → ℕ → ℕ → EventMonitor
register_deadline_monitor m handle topic gid deadline now = record m {
  deadline_monitors =
      record {
        event_handle = handle;
        topic_hash = topic;
        publisher_gid = gid;
        deadline = deadline;
        last = now;
      }
      ∷ remove_deadline handle topic gid m.deadline_monitors;
}

-- The publisher 0 stands for all of the topic's.
unfoldable pub update_deadline_publish_time : EventMonitor → ℕ → ℕ → ℕ → EventMonitor
update_deadline_publish_time m topic gid now = record m {
  deadline_monitors =
      map
        (λ d.
          if d.topic_hash == topic && (gid == 0 || d.publisher_gid == gid)
          then record d { last = now }
          else d)
        m.deadline_monitors;
}

abbrev pub expired : ℕ → DeadlineMonitor → Bool
expired now d = ltb d.deadline (now - d.last)

abbrev pub expired_handles : ℕ → List DeadlineMonitor → List ℕ
expired_handles now [] = []
expired_handles now (d ∷ ds) =
    let rest = expired_handles now ds in if expired now d then d.event_handle ∷ rest else rest

-- `for eh in expired_handles { self.trigger_event(eh) }`
unfoldable pub trigger_all : EventMonitor → List ℕ → ℕ → EventMonitor
trigger_all m [] now = m
trigger_all m (h ∷ hs) now = trigger_all (trigger_event m h now) hs now

unfoldable pub check_deadlines : EventMonitor → ℕ → EventMonitor
check_deadlines m now = trigger_all m (expired_handles now m.deadline_monitors) now

abbrev pub remove_liveliness : ℕ → ℕ → List LivelinessMonitor → List LivelinessMonitor
remove_liveliness handle node [] = []
remove_liveliness handle node (l ∷ ls) =
    let rest = remove_liveliness handle node ls in
    if l.event_handle == handle && l.node_id == node then rest else l ∷ rest

unfoldable pub register_liveliness_monitor : EventMonitor → ℕ → ℕ → ℕ → ℕ → EventMonitor
register_liveliness_monitor m handle node lease_duration now = record m {
  liveliness_monitors =
      record { event_handle = handle; node_id = node; lease_duration = lease_duration; last = now }
      ∷ remove_liveliness handle node m.liveliness_monitors;
}

unfoldable pub assert_liveliness : EventMonitor → ℕ → ℕ → EventMonitor
assert_liveliness m node now = record m {
  liveliness_monitors =
      map (λ l. if l.node_id == node then record l { last = now } else l) m.liveliness_monitors;
}

abbrev pub lapsed_handles : ℕ → List LivelinessMonitor → List ℕ
lapsed_handles now [] = []
lapsed_handles now (l ∷ ls) =
    let rest = lapsed_handles now ls in
    if ltb l.lease_duration (now - l.last) then l.event_handle ∷ rest else rest

abbrev pub is_liveliness_changed : EventKind → Bool
is_liveliness_changed liveliness_changed = true
is_liveliness_changed _ = false

-- The handles of the events whose counts are out of date.
abbrev pub changed_handles : ℕ → ℕ → Map EventState → List ℕ
changed_handles alive not_alive [] = []
changed_handles alive not_alive ((h, s) ∷ events) =
    let rest = changed_handles alive not_alive events in
    if is_liveliness_changed s.kind
      && (not (s.alive_count == alive) || not (s.not_alive_count == not_alive))
    then h ∷ rest
    else rest

unfoldable pub change_all : EventMonitor → List ℕ → ℕ → ℕ → ℕ → EventMonitor
change_all m [] alive not_alive now = m
change_all m (h ∷ hs) alive not_alive now =
    change_all (trigger_liveliness_changed m h alive not_alive now) hs alive not_alive now

unfoldable pub check_liveliness : EventMonitor → ℕ → EventMonitor
check_liveliness m now =
    let lapsed = lapsed_handles now m.liveliness_monitors in
    let not_alive = length lapsed in
    let alive = length m.liveliness_monitors - not_alive in
    let lost = trigger_all m lapsed now in
    change_all lost (changed_handles alive not_alive lost.events) alive not_alive now
