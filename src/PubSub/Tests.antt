-- ===== src/PubSub/Tests.antt =====
-- Runs of a channel, and its theorems at concrete channels.
use rmw_axon.Prelude.{◌≡◌, refl, true, none, some, [], ◌∷◌, arith}
use rmw_axon.Prelude.Maps.{lookup, insert, remove}
use rmw_axon.Prelude.Results.{ok, err}
use rmw_axon.Ring
use rmw_axon.Ring.{
  create_mapped, write, overrun_read_index, published_slot, read, read_slot, data_available_from,
  payload_capacity_from_stride, not_yet_written, exceeds_slot_size,
}
use rmw_axon.PubSub.{
  LocalPubSub, signal, publish, publish_with_gid, receive, borrow_buffer, commit_buffer, fill_loan,
  take_loaned,
}
use rmw_axon.PubSub.Loan.{next_offset, commit-borrow}
use rmw_axon.PubSub.LateCommit.{commit_buffer-lapped}

-- Two slots of 24 bytes, of which 8 are for the payload.
abbrev channel : LocalPubSub
channel = record {
  ring_buf = create_mapped 2 24;
  eventfd = 0;
  cross_process_eventfd = some 0;
  timestamps = [];
  publisher_gids = [];
  loaned_sequences = [];
}

abbrev published : LocalPubSub
published = (publish_with_gid channel (1 ∷ 2 ∷ []) 77 500).1

publish_and_take :
    (published.eventfd ≡ 1)
    × (published.cross_process_eventfd ≡ some 1)
    × (lookup 0 published.publisher_gids ≡ some 77)
    × ((take_loaned published 0).0 ≡ some (16, 2))
    × ((receive published 0 (0 ∷ 0 ∷ 0 ∷ [])).0 ≡ (ok 2, 1 ∷ 2 ∷ 0 ∷ []))
    × ((publish channel (1 ∷ 2 ∷ 3 ∷ 4 ∷ 5 ∷ 6 ∷ 7 ∷ 8 ∷ 9 ∷ []) 500).0 ≡ err exceeds_slot_size)
unfolding create_mapped publish publish_with_gid signal write overrun_read_index take_loaned receive
    read read_slot published_slot lookup insert payload_capacity_from_stride
publish_and_take = (refl, refl, refl, refl, refl, refl)

commit-borrow_example :
    let loan = borrow_buffer channel 8 in
    let done =
      commit_buffer (fill_loan loan.1 (next_offset channel) (3 ∷ 4 ∷ [])) (next_offset channel) 2 in
    (loan.0 ≡ some (16, 8))
    × (done.0 ≡ true)
    × (done.1.ring_buf ≡ (Ring.write (create_mapped 2 24) (3 ∷ 4 ∷ [])).1)
    × (lookup 16 done.1.loaned_sequences ≡ none)
unfolding create_mapped payload_capacity_from_stride
commit-borrow_example =
    commit-borrow channel 8 (3 ∷ 4 ∷ [])
      (record {
        lag = record {
          some_slots = omega arith;
          not_ahead = omega arith;
          not_lapped = omega arith;
        };
        free = omega arith;
        no_wrap = omega arith;
        slots_are = refl;
        slot_holds = omega arith;
      })
      (omega arith) (omega arith, omega arith)

-- A loan of number 0, and two messages since then.
abbrev lapped : LocalPubSub
lapped = (publish (publish (borrow_buffer channel 8).1 (5 ∷ []) 500).1 (6 ∷ []) 600).1

commit_buffer-lapped_example :
    ((commit_buffer lapped 16 2).0 ≡ true)
    × (published_slot (commit_buffer lapped 16 2).1.ring_buf 2 ≡ err not_yet_written)
    × (data_available_from (commit_buffer lapped 16 2).1.ring_buf 2 ≡ true)
unfolding create_mapped payload_capacity_from_stride borrow_buffer publish publish_with_gid signal
    write overrun_read_index lookup insert remove
commit_buffer-lapped_example =
    commit_buffer-lapped lapped 0 2 (omega arith) (omega arith) refl refl (omega arith) refl
