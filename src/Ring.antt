-- ===== src/Ring.antt =====
-- axon_core/src/local.rs: the shared-memory ring buffer, one call at a time. The header's atomics are
-- fields, the mapped region is the list of its slots, and an output slice is the list of its bytes.
pub mod Inv
pub mod Refine
pub mod Watermark
pub mod Interleave
mod Tests
use rmw_axon.Prelude.{
  ℕ, zero, suc, ◌+◌, ◌-◌, ◌*◌, ◌/◌, ◌%◌, ◌^◌, ◌≤◌, ◌<◌, min, max, ◌≡◌, refl, sym, ap, ◌∙◌, ◌≢◌, ◌↔◌,
  ◌⊎◌, inl, inr, Bool, true, false, ◌&&◌, ◌||◌, not, Option, none, some, List, [], ◌∷◌, ◌++◌, map,
  append_assoc, append-nil, arith, ltb, leb, ◌==◌, if◌then◌else◌, ltb→lt, lt→ltb, leb→le, le→leb,
  le→ltb_false, lt→leb_false, ==_iff, ==_self, Bool-cases, Option-cases, length, get_elem?, take,
  drop, get_last?, length-append, take-append, drop-append, length-take, length-drop,
  get_elem?-none, get_elem?-append_here, get_elem?-append_left, get_last?-append, drop-nil,
  drop-cons, drop_none, List-cases, subst, get_elem?-drop, drop-drop, drop-append_le, length-map,
  get_last?-cons, lt-of-get_elem?, get_or, set, replicate, length-set, length-replicate,
  get_or-set_self, get_or-set_ne, get_elem?-append_right,
}
use rmw_axon.Prelude.Results.{Result, ok, err}

abbrev pub u64_max : ℕ
u64_max = 2 ^ 64 - 1

-- `SLOT_DATA_OFFSET`: the bytes of a slot before its payload.
abbrev pub slot_data_offset : ℕ
slot_data_offset = 16

pub data WriteError : Type 0 where
  exceeds_slot_size : WriteError

pub data ReadError : Type 0 where
  no_data overwritten not_yet_written output_too_small : ReadError

pub data StrideError : Type 0 where
  slot_size_overflow : StrideError

-- `slot_stride_for_payload`, on a 64-bit `usize`: the payload and its header, rounded up to 8.
unfoldable pub slot_stride_for_payload : ℕ → Result StrideError ℕ
slot_stride_for_payload payload_size =
    let raw = payload_size + slot_data_offset in
    let aligned = (raw + 7) / 8 * 8 in
    if ltb raw (2 ^ 64) && ltb aligned (2 ^ 32) then ok aligned else err slot_size_overflow

unfoldable pub payload_capacity_from_stride : ℕ → ℕ
payload_capacity_from_stride slot_stride = slot_stride - slot_data_offset

-- A slot: its publish marker, its length and the bytes of its payload region.
pub record Slot : Type 0 where
  pub seq : ℕ
  pub len : ℕ
  pub bytes : List ℕ

pub record RingBuffer : Type 0 where
  pub write_index : ℕ
  pub read_index : ℕ
  pub epoch : ℕ
  pub slot_count : ℕ
  pub slot_size : ℕ
  pub slots : List Slot

abbrev pub zeroed : ℕ → Slot
zeroed slot_size = record {
  seq = 0;
  len = 0;
  bytes = replicate (payload_capacity_from_stride slot_size) 0;
}

-- The header and the zeroed slots that `create_with_fd` leaves behind a successful mapping, for the
-- count of slots that it has settled on.
unfoldable pub create_mapped : ℕ → ℕ → RingBuffer
create_mapped slot_count slot_stride = record {
  write_index = 0;
  read_index = 0;
  epoch = 0;
  slot_count = slot_count;
  slot_size = slot_stride;
  slots = replicate slot_count (zeroed slot_stride);
}

abbrev pub slot_index : RingBuffer → ℕ → ℕ
slot_index r seq = seq % r.slot_count

abbrev pub slot_at : RingBuffer → ℕ → Slot
slot_at r i = get_or r.slots i (zeroed r.slot_size)

-- The stores of a writer, in their order: the slot is marked as unpublished, the payload is copied,
-- and the length and then the sequence number are published.
abbrev pub invalidate : Slot → Slot
invalidate s = record s { seq = u64_max; len = 0 }

abbrev pub copy_payload : List ℕ → Slot → Slot
copy_payload payload s = record s { bytes = payload ++ drop (length payload) s.bytes }

abbrev pub publish_slot : ℕ → ℕ → Slot → Slot
publish_slot seq n s = record s { len = n % 2 ^ 32; seq = seq }

-- Where a full ring moves the read watermark, so that the slot to be written counts as free.
unfoldable pub overrun_read_index : RingBuffer → ℕ → ℕ
overrun_read_index r write_idx =
    if leb r.read_index write_idx && leb r.slot_count (write_idx - r.read_index)
    then write_idx - (r.slot_count - 1)
    else r.read_index

unfoldable pub write : RingBuffer → List ℕ → Result WriteError ℕ × RingBuffer
unfolding overrun_read_index payload_capacity_from_stride
write r payload =
    let write_idx = r.write_index in
    let slot = slot_index r write_idx in
    let filled =
      publish_slot write_idx (length payload)
        (copy_payload payload (invalidate (slot_at r slot))) in
    if ltb (payload_capacity_from_stride r.slot_size) (length payload)
    then (err exceeds_slot_size, r)
    else (
      ok write_idx,
      record r {
        write_index = (write_idx + 1) % 2 ^ 64;
        read_index = overrun_read_index r write_idx;
        slots = set r.slots slot filled;
      },
    )

-- What `read_slot` and `slot_data_size` check of the indices and of the slot's marker and length.
unfoldable pub published_slot : RingBuffer → ℕ → Result ReadError Slot
published_slot r sequence_number =
    let s = slot_at r (slot_index r sequence_number) in
    if leb r.write_index sequence_number
    then err no_data
    else if ltb r.slot_count (r.write_index - sequence_number)
    then err overwritten
    else if not (s.seq == sequence_number) || s.len == 0
    then err not_yet_written
    else ok s

-- The slot's second check of its marker, after the copy, cannot fail when nobody else runs.
unfoldable pub read_slot : RingBuffer → ℕ → List ℕ → Result ReadError ℕ × List ℕ
unfolding published_slot
read_slot r sequence_number out = elim (published_slot r sequence_number) [
  | err e ↦ (err e, out)
  | ok s ↦
      if ltb (length out) s.len
      then (err output_too_small, out)
      else (ok s.len, take s.len s.bytes ++ drop s.len out)
]

unfoldable pub slot_data_size : RingBuffer → ℕ → Result ReadError ℕ
unfolding published_slot
slot_data_size r sequence_number = elim (published_slot r sequence_number) [
  | err e ↦ err e
  | ok s ↦ ok s.len
]

-- `read`: a successful read moves the watermark past its slot, never back.
unfoldable pub read : RingBuffer → ℕ → List ℕ → (Result ReadError ℕ × List ℕ) × RingBuffer
unfolding read_slot
read r sequence_number out =
    let res = read_slot r sequence_number out in
    elim res.0 [
      | err e ↦ (res, r)
      | ok n ↦
          if leb r.read_index sequence_number
          then (res, record r { read_index = (sequence_number + 1) % 2 ^ 64 })
          else (res, r)
    ]

unfoldable pub oldest_available_seq : RingBuffer → ℕ
oldest_available_seq r = r.write_index - r.slot_count

unfoldable pub mark_generation : RingBuffer → RingBuffer
mark_generation r = record r { epoch = r.write_index }

unfoldable pub skip_all_pending : RingBuffer → RingBuffer
skip_all_pending r = record r { read_index = r.write_index }

unfoldable pub data_available_from : RingBuffer → ℕ → Bool
unfolding slot_data_size
data_available_from r sequence_number = elim (slot_data_size r sequence_number) [
  | ok n ↦ ltb 0 n
  | err not_yet_written ↦ ltb sequence_number r.write_index
  | err _ ↦ ltb sequence_number r.write_index && ltb r.read_index r.write_index
]

unfoldable pub data_available : RingBuffer → Bool
data_available r = ltb r.read_index r.write_index

unfoldable pub read_without_consuming : RingBuffer → ℕ → List ℕ → Result ReadError ℕ × List ℕ
read_without_consuming r sequence_number out = read_slot r sequence_number out

unfoldable pub current_seq : RingBuffer → ℕ
current_seq r = r.write_index

unfoldable pub generation_start : RingBuffer → ℕ
generation_start r = r.epoch

-- A ring made before is used again if it has slots and they are large enough.
unfoldable pub is_compatible_with_request : RingBuffer → ℕ → Bool
is_compatible_with_request r requested_slot_stride =
    ltb 0 r.slot_count && leb requested_slot_stride r.slot_size
