-- ===== src/Qos.antt =====
-- axon_core/src/qos.rs: the profiles, their form in the graph, and their compatibility. A `Duration`
-- is its count of nanoseconds.
pub mod Compatible
mod Tests
use rmw_axon.Prelude.{
  ℕ, zero, suc, ◌+◌, ◌-◌, ◌*◌, ◌/◌, ◌%◌, ◌^◌, ◌≤◌, ◌<◌, min, max, ◌≡◌, refl, sym, ap, ◌∙◌, ◌≢◌, ◌↔◌,
  ◌⊎◌, inl, inr, Bool, true, false, ◌&&◌, ◌||◌, not, Option, none, some, List, [], ◌∷◌, ◌++◌, map,
  append_assoc, append-nil, arith, ltb, leb, ◌==◌, if◌then◌else◌, ltb→lt, lt→ltb, leb→le, le→leb,
  le→ltb_false, lt→leb_false, ==_iff, ==_self, Bool-cases, Option-cases, length, get_elem?, take,
  drop, get_last?, length-append, take-append, drop-append, length-take, length-drop,
  get_elem?-none, get_elem?-append_here, get_elem?-append_left, get_last?-append, drop-nil,
  drop-cons, drop_none, List-cases, subst, get_elem?-drop, drop-drop, drop-append_le, length-map,
  get_last?-cons, lt-of-get_elem?, get_or, set, replicate, length-set, length-replicate,
  get_or-set_self, get_or-set_ne, get_elem?-append_right,
}

pub data Reliability : Type 0 where
  best_effort reliable : Reliability

pub data Durability : Type 0 where
  volatile transient_local : Durability

pub data HistoryKind : Type 0 where
  keep_last : ℕ → HistoryKind
  keep_all : HistoryKind

pub data Liveliness : Type 0 where
  automatic manual_by_topic manual_by_participant unknown : Liveliness

pub record QosProfile : Type 0 where
  pub reliability : Reliability
  pub durability : Durability
  pub history : HistoryKind
  pub bandwidth_limit : Option ℕ
  pub max_message_size : ℕ
  pub deadline : Option ℕ
  pub lifespan : Option ℕ
  pub liveliness : Liveliness
  pub liveliness_lease_duration : Option ℕ

abbrev pub default_max_message_size : ℕ
default_max_message_size = 65536

unfoldable pub default_sensor : QosProfile
default_sensor = record {
  reliability = best_effort;
  durability = volatile;
  history = keep_last 5;
  bandwidth_limit = none;
  max_message_size = default_max_message_size;
  deadline = none;
  lifespan = none;
  liveliness = automatic;
  liveliness_lease_duration = none;
}

unfoldable pub default_command : QosProfile
default_command = record {
  reliability = reliable;
  durability = volatile;
  history = keep_last 1;
  bandwidth_limit = none;
  max_message_size = default_max_message_size;
  deadline = none;
  lifespan = none;
  liveliness = automatic;
  liveliness_lease_duration = none;
}

pub record RemoteQos : Type 0 where
  pub reliability : Reliability
  pub durability : Durability
  pub history : HistoryKind
  pub deadline : ℕ
  pub lifespan : ℕ
  pub liveliness : Liveliness
  pub liveliness_lease_duration : ℕ
  pub avoid_ros_namespace_conventions : Bool

-- A zero duration stands for none, both ways.
abbrev pub of_duration : ℕ → Option ℕ
of_duration d = if d == 0 then none else some d

abbrev pub unwrap_or_zero : Option ℕ → ℕ
unwrap_or_zero none = 0
unwrap_or_zero (some d) = d

-- `impl From<RemoteQos> for QosProfile`
unfoldable pub to_qos_profile : RemoteQos → QosProfile
to_qos_profile rq = record {
  reliability = rq.reliability;
  durability = rq.durability;
  history = rq.history;
  bandwidth_limit = none;
  max_message_size = default_max_message_size;
  deadline = of_duration rq.deadline;
  lifespan = of_duration rq.lifespan;
  liveliness = rq.liveliness;
  liveliness_lease_duration = of_duration rq.liveliness_lease_duration;
}

unfoldable pub from_qos_profile : QosProfile → RemoteQos
from_qos_profile qos = record {
  reliability = qos.reliability;
  durability = qos.durability;
  history = qos.history;
  deadline = unwrap_or_zero qos.deadline;
  lifespan = unwrap_or_zero qos.lifespan;
  liveliness = qos.liveliness;
  liveliness_lease_duration = unwrap_or_zero qos.liveliness_lease_duration;
  avoid_ros_namespace_conventions = false;
}

-- The derived `==` of the enumerations, against the constants that the source compares with.
abbrev pub is_reliable : Reliability → Bool
is_reliable best_effort = false
is_reliable reliable = true

abbrev pub is_transient_local : Durability → Bool
is_transient_local volatile = false
is_transient_local transient_local = true

abbrev pub is_automatic : Liveliness → Bool
is_automatic automatic = true
is_automatic _ = false

abbrev pub is_manual_by_topic : Liveliness → Bool
is_manual_by_topic manual_by_topic = true
is_manual_by_topic _ = false

abbrev pub is_manual_by_participant : Liveliness → Bool
is_manual_by_participant manual_by_participant = true
is_manual_by_participant _ = false

-- `if let (Some(p), Some(s)) = (pub, sub) { if test(p, s) { .. } }`
abbrev pub both : (ℕ → ℕ → Bool) → Option ℕ → Option ℕ → Bool
both test (some p) (some s) = test p s
both test none s = false
both test (some p) none = false

unfoldable pub qos_profiles_compatible : QosProfile → QosProfile → Bool
qos_profiles_compatible pub_qos sub_qos =
    if not (is_reliable pub_qos.reliability) && is_reliable sub_qos.reliability
    then false
    else if is_transient_local sub_qos.durability && not (is_transient_local pub_qos.durability)
    then false
    else if both (λ p s. ltb s p) pub_qos.deadline sub_qos.deadline
    then false
    else if is_manual_by_topic sub_qos.liveliness && is_automatic pub_qos.liveliness
    then false
    else if is_manual_by_participant sub_qos.liveliness
        && not (is_manual_by_participant pub_qos.liveliness)
    then false
    else if both ltb pub_qos.lifespan sub_qos.lifespan
    then false
    else true

pub record QosHints : Type 0 where
  pub reliability : Reliability
  pub durability : Durability
  pub history : HistoryKind
  pub lifespan : Option ℕ
  pub bandwidth_limit : Option ℕ
  pub max_message_size : ℕ

unfoldable pub hints_from_qos_profile : QosProfile → QosHints
hints_from_qos_profile qos = record {
  reliability = qos.reliability;
  durability = qos.durability;
  history = qos.history;
  lifespan = qos.lifespan;
  bandwidth_limit = qos.bandwidth_limit;
  max_message_size = qos.max_message_size;
}
