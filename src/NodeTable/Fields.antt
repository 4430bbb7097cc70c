-- ===== src/NodeTable/Fields.antt =====
-- axon_core/src/session/routing.rs: how a session writes a quality of service into the node table and reads
-- it back; and axon_core/src/daemon/discovery_shm.rs: which publications and subscriptions of the table
-- match. A `Duration` is its count of nanoseconds, an `i32` its bit pattern.
use rmw_axon.Prelude.{
  ℕ, ◌+◌, ◌-◌, ◌*◌, ◌/◌, ◌%◌, ◌^◌, min, Bool, true, false, ◌&&◌, ◌||◌, not, Option, none, some, ltb,
  leb, ◌==◌, if◌then◌else◌,
}
use rmw_axon.NodeTable.{TopicEntry}
use rmw_axon.Qos.{
  Reliability, best_effort, reliable, Durability, volatile, transient_local, HistoryKind, keep_last,
  keep_all, Liveliness, automatic, manual_by_topic, manual_by_participant, unknown, QosProfile,
  default_max_message_size,
}

pub record QosFields : Type 0 where
  pub reliability : ℕ
  pub durability : ℕ
  pub history_kind : ℕ
  pub history_depth : ℕ
  pub deadline_sec : ℕ
  pub deadline_nsec : ℕ
  pub lifespan_sec : ℕ
  pub lifespan_nsec : ℕ
  pub liveliness : ℕ
  pub lease_sec : ℕ
  pub lease_nsec : ℕ

abbrev pub reliability_code : Reliability → ℕ
reliability_code best_effort = 0
reliability_code reliable = 1

abbrev pub durability_code : Durability → ℕ
durability_code volatile = 0
durability_code transient_local = 1

abbrev pub history_code : HistoryKind → ℕ × ℕ
history_code (keep_last depth) = (1, depth % 2 ^ 32)
history_code keep_all = (0, 2 ^ 32 - 1)

abbrev pub liveliness_code : Liveliness → ℕ
liveliness_code automatic = 0
liveliness_code manual_by_topic = 1
liveliness_code manual_by_participant = 2
liveliness_code unknown = 0

unfoldable pub duration_to_entry_fields : Option ℕ → ℕ × ℕ
duration_to_entry_fields none = (0, 0)
duration_to_entry_fields (some d) = (min (d / 10 ^ 9) (2 ^ 32 - 1), d % 10 ^ 9)

unfoldable pub qos_to_entry_fields : QosProfile → QosFields
qos_to_entry_fields qos = record {
  reliability = reliability_code qos.reliability;
  durability = durability_code qos.durability;
  history_kind = (history_code qos.history).0;
  history_depth = (history_code qos.history).1;
  deadline_sec = (duration_to_entry_fields qos.deadline).0;
  deadline_nsec = (duration_to_entry_fields qos.deadline).1;
  lifespan_sec = (duration_to_entry_fields qos.lifespan).0;
  lifespan_nsec = (duration_to_entry_fields qos.lifespan).1;
  liveliness = liveliness_code qos.liveliness;
  lease_sec = (duration_to_entry_fields qos.liveliness_lease_duration).0;
  lease_nsec = (duration_to_entry_fields qos.liveliness_lease_duration).1;
}

abbrev pub reliability_of : ℕ → Reliability
reliability_of rel = if rel == 0 then best_effort else reliable

abbrev pub durability_of : ℕ → Durability
durability_of dur = if dur == 0 then volatile else transient_local

-- A depth from 2^31 on is negative.
abbrev pub history_of : ℕ → ℕ → HistoryKind
history_of hist_kind hist_depth =
    if hist_kind == 0
    then keep_all
    else keep_last (if (hist_depth == 0) || leb (2 ^ 31) hist_depth then 10 else hist_depth)

abbrev pub liveliness_of : ℕ → Liveliness
liveliness_of liv =
    if liv == 1 then manual_by_topic else if liv == 2 then manual_by_participant else automatic

unfoldable pub duration_of : ℕ → ℕ → Option ℕ
duration_of sec nsec = if (sec == 0) && nsec == 0 then none else some (sec * 10 ^ 9 + nsec)

unfoldable pub entry_fields_to_qos : QosFields → QosProfile
entry_fields_to_qos f = record {
  reliability = reliability_of f.reliability;
  durability = durability_of f.durability;
  history = history_of f.history_kind f.history_depth;
  bandwidth_limit = none;
  max_message_size = default_max_message_size;
  deadline = duration_of f.deadline_sec f.deadline_nsec;
  lifespan = duration_of f.lifespan_sec f.lifespan_nsec;
  liveliness = liveliness_of f.liveliness;
  liveliness_lease_duration = duration_of f.lease_sec f.lease_nsec;
}

-- The entry of a topic with the fields written.
unfoldable pub with_fields : QosFields → TopicEntry → TopicEntry
with_fields f e = record e {
  qos_reliability = f.reliability;
  qos_durability = f.durability;
  qos_history_kind = f.history_kind;
  qos_history_depth = f.history_depth;
  qos_deadline_sec = f.deadline_sec;
  qos_deadline_nsec = f.deadline_nsec;
  qos_lifespan_sec = f.lifespan_sec;
  qos_lifespan_nsec = f.lifespan_nsec;
  qos_liveliness = f.liveliness;
  qos_liveliness_lease_sec = f.lease_sec;
  qos_liveliness_lease_nsec = f.lease_nsec;
}

abbrev pub both_set : (ℕ → ℕ → Bool) → ℕ → ℕ → Bool
both_set test p s = ltb 0 p && (ltb 0 s && test p s)

unfoldable pub topic_entry_qos_compatible : TopicEntry → TopicEntry → Bool
topic_entry_qos_compatible p s =
    let pub_dl_ns = p.qos_deadline_sec * 1000000000 + p.qos_deadline_nsec in
    let sub_dl_ns = s.qos_deadline_sec * 1000000000 + s.qos_deadline_nsec in
    let pub_ls_ns = p.qos_lifespan_sec * 1000000000 + p.qos_lifespan_nsec in
    let sub_ls_ns = s.qos_lifespan_sec * 1000000000 + s.qos_lifespan_nsec in
    if (p.qos_reliability == 0) && s.qos_reliability == 1
    then false
    else if (s.qos_durability == 1) && p.qos_durability == 0
    then false
    else if both_set (λ p s. ltb s p) pub_dl_ns sub_dl_ns
    then false
    else if (s.qos_liveliness == 1) && p.qos_liveliness == 0
    then false
    else if (s.qos_liveliness == 2) && not (p.qos_liveliness == 2)
    then false
    else if both_set ltb pub_ls_ns sub_ls_ns
    then false
    else true
