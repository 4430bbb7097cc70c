-- ===== src/Events/Tests.antt =====
-- Runs of the monitor, and its theorems at concrete monitors.
use rmw_axon.Prelude.{ℕ, ◌≡◌, refl, some, arith, replicate}
use rmw_axon.Prelude.Maps.{lookup, insert, remove}
use rmw_axon.Events.{
  EventMonitor, deadline_missed, liveliness_changed, new, create_event, trigger_event, trigger_all,
  take_event, register_deadline_monitor, update_deadline_publish_time, register_liveliness_monitor,
  check_deadlines, check_liveliness, trigger_liveliness_changed, change_all,
}
use rmw_axon.Events.Counts.{count_of, check_deadlines_lem, take_event-trigger_all}

-- An event for a deadline, and one for liveliness, watched from the time 0 on.
abbrev monitor : EventMonitor
monitor =
    let m = (create_event (create_event new deadline_missed 0).1 liveliness_changed 0).1 in
    register_liveliness_monitor
      (register_deadline_monitor (register_deadline_monitor m 1 77 5 100 0) 1 77 6 100 0) 2 9 50 0

checks :
    (count_of (check_deadlines monitor 100) 1 ≡ some 0)
    × (count_of (check_deadlines (update_deadline_publish_time monitor 77 5 90) 150) 1 ≡ some 1)
    × (count_of (check_liveliness monitor 40) 2 ≡ some 1)
    × (count_of (check_liveliness monitor 60) 2 ≡ some 2)
unfolding new create_event register_deadline_monitor register_liveliness_monitor
    update_deadline_publish_time check_deadlines check_liveliness trigger_all trigger_event
    trigger_liveliness_changed change_all lookup insert remove
checks = (refl, refl, refl, refl)

check_deadlines_lem_example :
    (count_of (check_deadlines monitor 200) 1 ≡ some 2)
    × ((check_deadlines monitor 200).deadline_monitors ≡ monitor.deadline_monitors)
unfolding new create_event register_deadline_monitor register_liveliness_monitor lookup insert
    remove
check_deadlines_lem_example = check_deadlines_lem monitor 200 1 0 (omega arith) refl

take_event-trigger_all_example :
    (taken : ℕ × ℕ × ℕ × ℕ) × (m' : EventMonitor) × (take_event
        (trigger_all monitor (replicate 3 1) 200)
        1
      ≡ some (some taken, m'))
    × (taken.0 ≡ 3)
    × (count_of m' 1 ≡ some 0)
    × (m'.eventfd ≡ 2)
unfolding new create_event register_deadline_monitor register_liveliness_monitor lookup insert
    remove
take_event-trigger_all_example =
    take_event-trigger_all monitor 1 200 3 refl (omega arith) (omega arith) (omega arith)
