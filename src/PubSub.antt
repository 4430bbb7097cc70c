-- ===== src/PubSub.antt =====
-- axon_core/src/local.rs: `LocalPubSub`, a ring with its wake-up counters and its side tables. An
-- eventfd is its count; a pointer into the mapped region is its offset from the first slot.
pub mod Loan
pub mod LateCommit
mod Tests
use rmw_axon.Prelude.{
  ℕ, zero, suc, ◌+◌, ◌-◌, ◌*◌, ◌/◌, ◌%◌, ◌^◌, ◌≤◌, ◌<◌, min, max, ◌≡◌, refl, sym, ap, ◌∙◌, ◌≢◌, ◌↔◌,
  ◌⊎◌, inl, inr, Bool, true, false, ◌&&◌, ◌||◌, not, Option, none, some, List, [], ◌∷◌, ◌++◌, map,
  append_assoc, append-nil, arith, ltb, leb, ◌==◌, if◌then◌else◌, ltb→lt, lt→ltb, leb→le, le→leb,
  le→ltb_false, lt→leb_false, ==_iff, ==_self, Bool-cases, Option-cases, length, get_elem?, take,
  drop, get_last?, length-append, take-append, drop-append, length-take, length-drop,
  get_elem?-none, get_elem?-append_here, get_elem?-append_left, get_last?-append, drop-nil,
  drop-cons, drop_none, List-cases, subst, get_elem?-drop, drop-drop, drop-append_le, length-map,
  get_last?-cons, lt-of-get_elem?, get_or, set, replicate, length-set, length-replicate,
  get_or-set_self, get_or-set_ne, get_elem?-append_right,
}
use rmw_axon.Prelude.Maps.{Map, lookup, remove, insert}
use rmw_axon.Prelude.Results.{Result, ok, err}
use rmw_axon.Ring
use rmw_axon.Ring.{
  RingBuffer, Slot, WriteError, ReadError, slot_index, slot_at, slot_data_offset,
  payload_capacity_from_stride, invalidate, copy_payload, publish_slot,
}

pub record LocalPubSub : Type 0 where
  pub ring_buf : RingBuffer
  pub eventfd : ℕ
  -- The descriptor received from another process, if there is one; it is never the own one.
  pub cross_process_eventfd : Option ℕ
  pub timestamps : Map ℕ
  pub publisher_gids : Map ℕ
  pub loaned_sequences : Map ℕ

-- `signal`: one count for each of the two descriptors.
unfoldable pub signal : LocalPubSub → LocalPubSub
signal p = record p {
  eventfd = p.eventfd + 1;
  cross_process_eventfd = elim p.cross_process_eventfd [ none ↦ none | some n ↦ some (n + 1) ];
}

unfoldable pub publish_with_gid : LocalPubSub → List ℕ → ℕ → ℕ → Result WriteError ℕ × LocalPubSub
unfolding signal
publish_with_gid p payload publisher_gid now =
    let (res, ring) = Ring.write p.ring_buf payload in
    elim res [
      | err e ↦ (err e, p)
      | ok seq ↦ (
        ok seq,
        signal (record p {
          ring_buf = ring;
          timestamps = insert seq now p.timestamps;
          publisher_gids =
              if publisher_gid == 0
              then p.publisher_gids
              else insert seq publisher_gid p.publisher_gids;
        }),
      )
    ]

unfoldable pub publish : LocalPubSub → List ℕ → ℕ → Result WriteError ℕ × LocalPubSub
unfolding publish_with_gid
publish p payload now = publish_with_gid p payload 0 now

unfoldable pub receive : LocalPubSub → ℕ → List ℕ → (Result ReadError ℕ × List ℕ) × LocalPubSub
receive p sequence_number out =
    let (res, ring) = Ring.read p.ring_buf sequence_number out in
    (res, record p { ring_buf = ring })

unfoldable pub receive_peek : LocalPubSub → ℕ → List ℕ → Result ReadError ℕ × List ℕ
receive_peek p sequence_number out = Ring.read_slot p.ring_buf sequence_number out

-- Where the payload of a slot begins.
abbrev pub payload_offset : RingBuffer → ℕ → ℕ
payload_offset r slot = slot * r.slot_size + slot_data_offset

-- `borrow_buffer`: the difference of the indices wraps, as it does without overflow checks. A full
-- ring gives its reservation back.
unfoldable pub borrow_buffer : LocalPubSub → ℕ → Option (ℕ × ℕ) × LocalPubSub
borrow_buffer p max_size =
    let r = p.ring_buf in
    let write_idx = r.write_index in
    let slot = slot_index r write_idx in
    let ptr = payload_offset r slot in
    if ltb (payload_capacity_from_stride r.slot_size) max_size
    then (none, p)
    else if leb r.slot_count ((write_idx + 2 ^ 64 - r.read_index) % 2 ^ 64)
    then (none, p)
    else (
      some (ptr, max_size),
      record p {
        ring_buf = record r {
          write_index = (write_idx + 1) % 2 ^ 64;
          slots = set r.slots slot (invalidate (slot_at r slot));
        };
        loaned_sequences = insert ptr write_idx p.loaned_sequences;
      },
    )

-- The slot that a payload pointer stands in.
abbrev pub slot_of_offset : RingBuffer → ℕ → ℕ
slot_of_offset r offset = (offset - slot_data_offset) / r.slot_size

unfoldable pub commit_buffer : LocalPubSub → ℕ → ℕ → Bool × LocalPubSub
commit_buffer p ptr size =
    let r = p.ring_buf in
    let slot = slot_of_offset r ptr in
    if not (ptr % r.slot_size == slot_data_offset)
      || ltb (payload_capacity_from_stride r.slot_size) size
    then (false, p)
    else elim (lookup ptr p.loaned_sequences) [
      | none ↦ (false, p)
      | some sequence ↦ (
        true,
        record p {
          ring_buf = record r {
            slots = set r.slots slot (publish_slot sequence size (slot_at r slot));
          };
          loaned_sequences = remove ptr p.loaned_sequences;
          eventfd = p.eventfd + 1;
        },
      )
    ]

-- What the borrower does between the two calls: it stores its bytes at the pointer.
abbrev pub fill_loan : LocalPubSub → ℕ → List ℕ → LocalPubSub
fill_loan p ptr payload =
    let r = p.ring_buf in
    let slot = slot_of_offset r ptr in
    record p {
      ring_buf = record r { slots = set r.slots slot (copy_payload payload (slot_at r slot)) };
    }

-- `take_loaned`: the pointer to the payload and its length; the watermark moves past the slot.
unfoldable pub take_loaned : LocalPubSub → ℕ → Option (ℕ × ℕ) × LocalPubSub
take_loaned p sequence_number =
    let r = p.ring_buf in
    let slot = slot_index r sequence_number in
    let s = slot_at r slot in
    if leb r.write_index sequence_number
      || ltb sequence_number r.read_index
      || not (s.seq == sequence_number)
      || s.len == 0
    then (none, p)
    else (
      some (payload_offset r slot, s.len),
      record p { ring_buf = record r { read_index = (sequence_number + 1) % 2 ^ 64 } },
    )

-- The channel's views of its ring.
module _ (p : LocalPubSub) where
  unfoldable pub pending_size : ℕ → Result ReadError ℕ
  pending_size sequence_number = Ring.slot_data_size p.ring_buf sequence_number

  unfoldable pub payload_capacity : ℕ
  payload_capacity = payload_capacity_from_stride p.ring_buf.slot_size

  unfoldable pub ready_from : ℕ → Bool
  ready_from sequence_number = Ring.data_available_from p.ring_buf sequence_number

  unfoldable pub ready : Bool
  ready = Ring.data_available p.ring_buf

  unfoldable pub start_generation : LocalPubSub
  start_generation = record p { ring_buf = Ring.mark_generation p.ring_buf }

  unfoldable pub skip_pending : LocalPubSub
  skip_pending = record p { ring_buf = Ring.skip_all_pending p.ring_buf }
