-- ===== src/Ring/Tests.antt =====
-- Runs of the ring, and its theorems at concrete rings.
use rmw_axon.Prelude.{ℕ, false, ◌-◌, ◌^◌, ◌≡◌, refl, true, List, [], ◌∷◌, arith}
use rmw_axon.Prelude.Results.{ok, err}
use rmw_axon.Ring.{
  RingBuffer, overwritten, output_too_small, slot_stride_for_payload, slot_size_overflow,
  payload_capacity_from_stride, create_mapped, overrun_read_index, write, published_slot, read_slot,
  read, skip_all_pending, mark_generation, data_available_from,
}
use rmw_axon.Ring.Inv.{Holds, create_mapped-Holds, after_write, after_write-Holds}
use rmw_axon.Ring.Refine.{Op, writes, reads, skips, marks, step, run, history, read_slot-run}
use rmw_axon.Ring.Watermark.{
  InLag, run-created-InLag, data_available_from-Holds, data_available_from-skip_all_pending,
}

strides :
    (slot_stride_for_payload 8 ≡ ok 24)
    × (slot_stride_for_payload 9 ≡ ok 32)
    × (slot_stride_for_payload (2 ^ 32 - 23) ≡ err slot_size_overflow)
unfolding slot_stride_for_payload
strides = (refl, refl, refl)

abbrev out : List ℕ
out = 0 ∷ 0 ∷ 0 ∷ 0 ∷ []

-- The fifth call is refused: a slot of 24 bytes has room for 8.
abbrev script : List Op
script =
    writes (1 ∷ 2 ∷ [])
    ∷ reads 0 out
    ∷ writes (3 ∷ [])
    ∷ marks
    ∷ writes (1 ∷ 2 ∷ 3 ∷ 4 ∷ 5 ∷ 6 ∷ 7 ∷ 8 ∷ 9 ∷ [])
    ∷ writes (4 ∷ 5 ∷ 6 ∷ [])
    ∷ skips
    ∷ []

ran :
    let r = run (create_mapped 2 24) script in
    (r.write_index ≡ 3)
    × (r.read_index ≡ 3)
    × (r.epoch ≡ 2)
    × ((read_slot r 1 out).0 ≡ ok 1)
    × ((read_slot r 0 out).0 ≡ err overwritten)
    × ((read_slot r 2 []).0 ≡ err output_too_small)
unfolding run step create_mapped write overrun_read_index read read_slot published_slot
    skip_all_pending mark_generation payload_capacity_from_stride
ran = (refl, refl, refl, refl, refl, refl)

read_slot-run_example :
    read_slot (run (create_mapped 2 24) script) 2 out ≡ (ok 3, 4 ∷ 5 ∷ 6 ∷ 0 ∷ [])
unfolding history payload_capacity_from_stride
read_slot-run_example = read_slot-run 2 24 script 2 out (omega arith) (omega arith) (omega arith)

run-created-InLag_example : InLag (run (create_mapped 2 24) script)
run-created-InLag_example = run-created-InLag 2 24 script (omega arith) (omega arith)

abbrev written : RingBuffer
written = after_write (create_mapped 2 24) (1 ∷ 2 ∷ [])

written-Holds : Holds written ((1 ∷ 2 ∷ []) ∷ [])
unfolding create_mapped payload_capacity_from_stride
written-Holds =
    after_write-Holds (create_mapped 2 24) [] (1 ∷ 2 ∷ []) (create_mapped-Holds 2 24 (omega arith))
      (omega arith, omega arith) (omega arith)

data_available_from-Holds_example : data_available_from written 0 ≡ true
unfolding create_mapped
data_available_from-Holds_example =
    data_available_from-Holds written ((1 ∷ 2 ∷ []) ∷ []) 0 written-Holds

-- One slot, written twice.
abbrev lapped : RingBuffer
lapped = after_write (after_write (create_mapped 1 24) (1 ∷ 2 ∷ [])) (3 ∷ [])

lapped-Holds : Holds lapped ((1 ∷ 2 ∷ []) ∷ (3 ∷ []) ∷ [])
unfolding create_mapped payload_capacity_from_stride
lapped-Holds =
    after_write-Holds (after_write (create_mapped 1 24) (1 ∷ 2 ∷ [])) ((1 ∷ 2 ∷ []) ∷ []) (3 ∷ [])
      (after_write-Holds (create_mapped 1 24) [] (1 ∷ 2 ∷ [])
        (create_mapped-Holds 1 24 (omega arith)) (omega arith, omega arith) (omega arith))
      (omega arith, omega arith) (omega arith)

data_available_from-skip_all_pending_example :
    (data_available_from (skip_all_pending lapped) 0 ≡ false)
    × (data_available_from (skip_all_pending lapped) 1 ≡ true)
unfolding create_mapped
data_available_from-skip_all_pending_example =
    data_available_from-skip_all_pending lapped ((1 ∷ 2 ∷ []) ∷ (3 ∷ []) ∷ []) 0 lapped-Holds
      (omega arith)
