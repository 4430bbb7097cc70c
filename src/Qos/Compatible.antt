-- ===== src/Qos/Compatible.antt =====
-- Which profiles fit each other, and what the form in the graph keeps of a profile.
use rmw_axon.Prelude.{
  ℕ, zero, suc, ◌≤◌, ◌≡◌, refl, ◌≢◌, ◌↔◌, Bool, true, false, ◌&&◌, not, Option, none, some, arith,
  ltb, if◌then◌else◌,
}
use rmw_axon.Qos.{
  QosProfile, Reliability, best_effort, reliable, Durability, volatile, transient_local, Liveliness,
  automatic, manual_by_topic, manual_by_participant, unknown, to_qos_profile, from_qos_profile,
  of_duration, unwrap_or_zero, qos_profiles_compatible, default_max_message_size, is_reliable,
  is_transient_local, is_automatic, is_manual_by_topic, is_manual_by_participant, both,
}

-- The durations of a request that are set, against those of an offer that are.
abbrev pub AtMost : Option ℕ → Option ℕ → Type 0
AtMost (some a) (some b) = a ≤ b
AtMost none b = Unit
AtMost (some a) none = Unit

abbrev pub reliability_rank : Reliability → ℕ
reliability_rank best_effort = 0
reliability_rank reliable = 1

abbrev pub durability_rank : Durability → ℕ
durability_rank volatile = 0
durability_rank transient_local = 1

-- The order of the check: a request by participant is the strongest.
abbrev pub requested_rank : Liveliness → ℕ
requested_rank automatic = 0
requested_rank manual_by_topic = 1
requested_rank manual_by_participant = 2
requested_rank unknown = 0

-- An offer of an unknown liveliness counts as one by topic.
abbrev pub offered_rank : Liveliness → ℕ
offered_rank automatic = 0
offered_rank manual_by_topic = 1
offered_rank manual_by_participant = 2
offered_rank unknown = 1

-- What a subscription asks for and a publisher offers, policy by policy.
abbrev pub Covers : QosProfile → QosProfile → Type 0
Covers offered requested =
    (reliability_rank requested.reliability ≤ reliability_rank offered.reliability)
    × (durability_rank requested.durability ≤ durability_rank offered.durability)
    × AtMost offered.deadline requested.deadline
    × (requested_rank requested.liveliness ≤ offered_rank offered.liveliness)
    × AtMost requested.lifespan offered.lifespan

reliability_iff :
    (a b : Reliability)
    → ((not (is_reliable a) && is_reliable b) ≡ false) ↔ (reliability_rank b ≤ reliability_rank a)
reliability_iff best_effort best_effort = ground arith
reliability_iff best_effort reliable = ground arith
reliability_iff reliable best_effort = ground arith
reliability_iff reliable reliable = ground arith

durability_iff :
    (a b : Durability)
    → ((is_transient_local b && not (is_transient_local a)) ≡ false)
      ↔ (durability_rank b ≤ durability_rank a)
durability_iff volatile volatile = ground arith
durability_iff volatile transient_local = ground arith
durability_iff transient_local volatile = ground arith
durability_iff transient_local transient_local = ground arith

liveliness_iff :
    (a b : Liveliness)
    → (((is_manual_by_topic b && is_automatic a) ≡ false)
        × ((is_manual_by_participant b && not (is_manual_by_participant a)) ≡ false))
      ↔ (requested_rank b ≤ offered_rank a)
liveliness_iff automatic automatic = ground arith
liveliness_iff automatic manual_by_topic = ground arith
liveliness_iff automatic manual_by_participant = ground arith
liveliness_iff automatic unknown = ground arith
liveliness_iff manual_by_topic automatic = ground arith
liveliness_iff manual_by_topic manual_by_topic = ground arith
liveliness_iff manual_by_topic manual_by_participant = ground arith
liveliness_iff manual_by_topic unknown = ground arith
liveliness_iff manual_by_participant automatic = ground arith
liveliness_iff manual_by_participant manual_by_topic = ground arith
liveliness_iff manual_by_participant manual_by_participant = ground arith
liveliness_iff manual_by_participant unknown = ground arith
liveliness_iff unknown automatic = ground arith
liveliness_iff unknown manual_by_topic = ground arith
liveliness_iff unknown manual_by_participant = ground arith
liveliness_iff unknown unknown = ground arith

deadline_iff : (a b : Option ℕ) → (both (λ p s. ltb s p) a b ≡ false) ↔ AtMost a b
deadline_iff (some a) (some b) = ground arith
deadline_iff none b = ground arith
deadline_iff (some a) none = ground arith

lifespan_iff : (a b : Option ℕ) → (both ltb a b ≡ false) ↔ AtMost b a
lifespan_iff (some a) (some b) = ground arith
lifespan_iff none none = ground arith
lifespan_iff none (some b) = ground arith
lifespan_iff (some a) none = ground arith

chain_iff :
    (b₁ b₂ b₃ b₄ b₅ b₆ : Bool)
    → ((if b₁
          then false
          else if b₂
          then false
          else if b₃
          then false
          else if b₄
          then false
          else if b₅
          then false
          else if b₆
          then false
          else true)
        ≡ true)
      ↔ ((b₁ ≡ false) × (b₂ ≡ false) × (b₃ ≡ false) × (b₄ ≡ false) × (b₅ ≡ false) × (b₆ ≡ false))
chain_iff b₁ b₂ b₃ b₄ b₅ b₆ = ground arith

duration-trip : (o : Option ℕ) → o ≢ some 0 → of_duration (unwrap_or_zero o) ≡ o
duration-trip none h = refl
duration-trip (some zero) h = absurd (h refl)
duration-trip (some (suc d)) h = ground arith

-- The check accepts exactly the pairs in which the publisher covers the subscription: reliability,
-- durability and liveliness rank at least as high, and a deadline is not longer and a lifespan not
-- shorter, where both are set. The order of liveliness is automatic, manual by topic, manual by
-- participant; an unknown one counts as manual by topic when it is offered, and as automatic when it is
-- requested.
pub qos_profiles_compatible_iff :
    (offered requested : QosProfile)
    → (qos_profiles_compatible offered requested ≡ true) ↔ Covers offered requested
unfolding qos_profiles_compatible
qos_profiles_compatible_iff offered requested =
    let (r, r') = reliability_iff offered.reliability requested.reliability in
    let (d, d') = durability_iff offered.durability requested.durability in
    let (dl, dl') = deadline_iff offered.deadline requested.deadline in
    let (t, t') = liveliness_iff offered.liveliness requested.liveliness in
    let (l, l') = lifespan_iff offered.lifespan requested.lifespan in
    let (c, c') = chain_iff _ _ _ _ _ _ in
    (
      λ e. let (x₁, x₂, x₃, x₄, x₅, x₆) = c e in (r x₁, d x₂, dl x₃, t (x₄, x₅), l x₆),
      λ (x₁, x₂, x₃, x₄, x₆). let (y₄, y₅) = t' x₄ in c' (r' x₁, d' x₂, dl' x₃, y₄, y₅, l' x₆),
    )

AtMost-self : (o : Option ℕ) → AtMost o o
AtMost-self none = tt
AtMost-self (some d) = omega arith

requested-offered_rank : (l : Liveliness) → requested_rank l ≤ offered_rank l
requested-offered_rank automatic = omega arith
requested-offered_rank manual_by_topic = omega arith
requested-offered_rank manual_by_participant = omega arith
requested-offered_rank unknown = omega arith

-- Every profile is compatible with itself.
pub qos_profiles_compatible_self : (qos : QosProfile) → qos_profiles_compatible qos qos ≡ true
qos_profiles_compatible_self qos = (qos_profiles_compatible_iff qos qos).1 (
  omega arith,
  omega arith,
  AtMost-self qos.deadline,
  requested-offered_rank qos.liveliness,
  AtMost-self qos.lifespan,
)

-- A profile that is announced in the graph and read back keeps its policies: all but the bandwidth
-- limit and the message size, which become the defaults, when none of its durations is zero.
pub to_qos_profile-from_qos_profile :
    (qos : QosProfile)
    → qos.deadline ≢ some 0
    → qos.lifespan ≢ some 0
    → qos.liveliness_lease_duration ≢ some 0
    → to_qos_profile (from_qos_profile qos)
      ≡ record qos { bandwidth_limit = none; max_message_size = default_max_message_size }
unfolding to_qos_profile from_qos_profile
to_qos_profile-from_qos_profile qos d l v = rw (
  duration-trip qos.deadline d,
  duration-trip qos.lifespan l,
  duration-trip qos.liveliness_lease_duration v,
)
