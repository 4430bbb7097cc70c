-- ===== src/NodeTable/SameQos.antt =====
-- The two tests of compatibility agree: the one on profiles, and the one on the entries that the profiles
-- are written to. What an entry keeps of a profile.
use rmw_axon.Prelude.{
  ℕ, ◌+◌, ◌-◌, ◌*◌, ◌/◌, ◌%◌, ◌^◌, ◌≤◌, ◌<◌, min, ◌≡◌, refl, ap, Bool, false, ◌&&◌, ◌||◌, not,
  Option, none, some, arith, ltb, leb, ◌==◌, lt→ltb,
}
use rmw_axon.NodeTable.{TopicEntry}
use rmw_axon.NodeTable.Fields.{
  reliability_code, durability_code, history_code, liveliness_code, duration_to_entry_fields,
  qos_to_entry_fields, reliability_of, durability_of, history_of, liveliness_of, duration_of,
  entry_fields_to_qos, with_fields, both_set, topic_entry_qos_compatible,
}
use rmw_axon.Qos.{
  Reliability, best_effort, reliable, Durability, volatile, transient_local, HistoryKind, keep_last,
  keep_all, Liveliness, automatic, manual_by_topic, manual_by_participant, unknown, QosProfile,
  default_max_message_size, is_reliable, is_transient_local, is_automatic, is_manual_by_topic,
  is_manual_by_participant, both, qos_profiles_compatible,
}

-- A duration of an entry: none, or more than zero and less than 2^32 seconds.
abbrev pub IsShort : Option ℕ → Type 0
IsShort none = Unit
IsShort (some d) = (1 ≤ d) × (d < 2 ^ 32 * 10 ^ 9)

abbrev pub IsKnown : Liveliness → Type 0
IsKnown automatic = Unit
IsKnown manual_by_topic = Unit
IsKnown manual_by_participant = Unit
IsKnown unknown = ⊥

-- A profile that an entry can hold.
pub record IsWritable (qos : QosProfile) : Type 0 where
  pub deadline : IsShort qos.deadline
  pub lifespan : IsShort qos.lifespan
  pub lease : IsShort qos.liveliness_lease_duration
  pub known : IsKnown qos.liveliness

abbrev or_zero : Option ℕ → ℕ
or_zero none = 0
or_zero (some d) = d

ns_of_fields :
    (o : Option ℕ)
    → IsShort o
    → (duration_to_entry_fields o).0 * 1000000000 + (duration_to_entry_fields o).1 ≡ or_zero o
unfolding duration_to_entry_fields
ns_of_fields none h = refl
ns_of_fields (some d) h = omega (arith, h.0, h.1)

both_set-or_zero :
    (test : ℕ → ℕ → Bool) (p s : Option ℕ)
    → IsShort p
    → IsShort s
    → both_set test (or_zero p) (or_zero s) ≡ both test p s
both_set-or_zero test none s hp hs = refl
both_set-or_zero test (some p) none hp hs = rw (lt→ltb 0 p hp.0) refl
both_set-or_zero test (some p) (some s) hp hs = rw (lt→ltb 0 p hp.0, lt→ltb 0 s hs.0) refl

same_reliability :
    (p s : Reliability)
    → ((reliability_code p == 0) && reliability_code s == 1)
      ≡ (not (is_reliable p) && is_reliable s)
same_reliability best_effort best_effort = refl
same_reliability best_effort reliable = refl
same_reliability reliable s = refl

same_durability :
    (p s : Durability)
    → ((durability_code s == 1) && durability_code p == 0)
      ≡ (is_transient_local s && not (is_transient_local p))
same_durability p volatile = refl
same_durability volatile transient_local = refl
same_durability transient_local transient_local = refl

same_topic :
    (p s : Liveliness)
    → IsKnown p
    → IsKnown s
    → ((liveliness_code s == 1) && liveliness_code p == 0)
      ≡ (is_manual_by_topic s && is_automatic p)
same_topic p automatic hp hs = refl
same_topic automatic manual_by_topic hp hs = refl
same_topic manual_by_topic manual_by_topic hp hs = refl
same_topic manual_by_participant manual_by_topic hp hs = refl
same_topic unknown manual_by_topic hp hs = absurd hp
same_topic p manual_by_participant hp hs = refl
same_topic p unknown hp hs = absurd hs

same_participant :
    (p s : Liveliness)
    → IsKnown p
    → IsKnown s
    → ((liveliness_code s == 2) && not (liveliness_code p == 2))
      ≡ (is_manual_by_participant s && not (is_manual_by_participant p))
same_participant p automatic hp hs = refl
same_participant p manual_by_topic hp hs = refl
same_participant automatic manual_by_participant hp hs = refl
same_participant manual_by_topic manual_by_participant hp hs = refl
same_participant manual_by_participant manual_by_participant hp hs = refl
same_participant unknown manual_by_participant hp hs = absurd hp
same_participant p unknown hp hs = absurd hs

-- The entries of a publication and of a subscription match exactly when their profiles are compatible,
-- for profiles whose durations are more than zero and less than 2^32 seconds where they are set, and
-- whose liveliness is not unknown.
pub topic_entry_qos_compatible-with_fields :
    (p s : QosProfile) (e e' : TopicEntry)
    → IsWritable p
    → IsWritable s
    → topic_entry_qos_compatible
        (with_fields (qos_to_entry_fields p) e)
        (with_fields (qos_to_entry_fields s) e')
      ≡ qos_profiles_compatible p s
unfolding topic_entry_qos_compatible with_fields qos_to_entry_fields qos_profiles_compatible
topic_entry_qos_compatible-with_fields p s e e' hp hs =
    rw
      (
        ns_of_fields p.deadline hp.deadline,
        ns_of_fields s.deadline hs.deadline,
        ns_of_fields p.lifespan hp.lifespan,
        ns_of_fields s.lifespan hs.lifespan,
        same_reliability p.reliability s.reliability,
        same_durability p.durability s.durability,
        same_topic p.liveliness s.liveliness hp.known hs.known,
        same_participant p.liveliness s.liveliness hp.known hs.known,
        both_set-or_zero (λ p s. ltb s p) p.deadline s.deadline hp.deadline hs.deadline,
        both_set-or_zero ltb p.lifespan s.lifespan hp.lifespan hs.lifespan,
      )
      refl

duration_of-fields :
    (o : Option ℕ)
    → IsShort o
    → duration_of (duration_to_entry_fields o).0 (duration_to_entry_fields o).1 ≡ o
unfolding duration_of duration_to_entry_fields
duration_of-fields none h = refl
duration_of-fields (some d) h =
    let set_one : ((min (d / 10 ^ 9) (2 ^ 32 - 1) == 0) && (d % 10 ^ 9) == 0) ≡ false =
      ground (arith, h.0, h.1) in
    rw set_one (ap some (omega (arith, h.0, h.1)))

-- A history of an entry: a depth that is more than zero and fits an `i32`.
abbrev pub IsHistory : HistoryKind → Type 0
IsHistory keep_all = Unit
IsHistory (keep_last depth) = (1 ≤ depth) × (depth < 2 ^ 31)

history_of-code :
    (h : HistoryKind) → IsHistory h → history_of (history_code h).0 (history_code h).1 ≡ h
history_of-code keep_all v = refl
history_of-code (keep_last depth) v =
    let short : depth % 2 ^ 32 ≡ depth = omega (arith, v.1) in
    let plain : ((depth == 0) || leb (2 ^ 31) depth) ≡ false = ground (arith, v.0, v.1) in
    rw (short, plain) refl

liveliness_of-code : (l : Liveliness) → IsKnown l → liveliness_of (liveliness_code l) ≡ l
liveliness_of-code automatic h = refl
liveliness_of-code manual_by_topic h = refl
liveliness_of-code manual_by_participant h = refl
liveliness_of-code unknown h = absurd h

reliability_of-code : (r : Reliability) → reliability_of (reliability_code r) ≡ r
reliability_of-code best_effort = refl
reliability_of-code reliable = refl

durability_of-code : (d : Durability) → durability_of (durability_code d) ≡ d
durability_of-code volatile = refl
durability_of-code transient_local = refl

-- A profile that is written to an entry is read back as it was, less its bandwidth limit and its largest
-- message size, which come back as the defaults, when its durations and its liveliness are as above and
-- its depth is more than zero and fits an `i32`.
pub entry_fields_to_qos-qos_to_entry_fields :
    (qos : QosProfile)
    → IsWritable qos
    → IsHistory qos.history
    → entry_fields_to_qos (qos_to_entry_fields qos)
      ≡ record qos { bandwidth_limit = none; max_message_size = default_max_message_size }
unfolding entry_fields_to_qos qos_to_entry_fields
entry_fields_to_qos-qos_to_entry_fields qos v h =
    rw
      (
        reliability_of-code qos.reliability,
        durability_of-code qos.durability,
        history_of-code qos.history h,
        liveliness_of-code qos.liveliness v.known,
        duration_of-fields qos.deadline v.deadline,
        duration_of-fields qos.lifespan v.lifespan,
        duration_of-fields qos.liveliness_lease_duration v.lease,
      )
      refl
