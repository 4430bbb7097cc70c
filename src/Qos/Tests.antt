-- ===== src/Qos/Tests.antt =====
-- Runs of the compatibility check, and its theorems at concrete profiles.
use rmw_axon.Prelude.{◌≡◌, refl, ◌↔◌, true, false, none, some}
use rmw_axon.Qos.{
  QosProfile, reliable, volatile, keep_last, manual_by_topic, default_sensor, default_command,
  to_qos_profile, from_qos_profile, qos_profiles_compatible, default_max_message_size,
}
use rmw_axon.Qos.Compatible.{Covers, qos_profiles_compatible_iff, to_qos_profile-from_qos_profile}

defaults :
    (qos_profiles_compatible default_command default_sensor ≡ true)
    × (qos_profiles_compatible default_sensor default_command ≡ false)
unfolding default_sensor default_command qos_profiles_compatible
defaults = (refl, refl)

abbrev profile : QosProfile
profile = record {
  reliability = reliable;
  durability = volatile;
  history = keep_last 3;
  bandwidth_limit = some 100000;
  max_message_size = 4096;
  deadline = some 100000000;
  lifespan = none;
  liveliness = manual_by_topic;
  liveliness_lease_duration = some 500000000;
}

qos_profiles_compatible_iff_example :
    (qos_profiles_compatible profile default_command ≡ true) ↔ Covers profile default_command
qos_profiles_compatible_iff_example = qos_profiles_compatible_iff profile default_command

to_qos_profile-from_qos_profile_example :
    to_qos_profile (from_qos_profile profile)
    ≡ record profile { bandwidth_limit = none; max_message_size = default_max_message_size }
to_qos_profile-from_qos_profile_example =
    to_qos_profile-from_qos_profile profile (λ e. cc) (λ e. cc) (λ e. cc)
