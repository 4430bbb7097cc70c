-- ===== src/PubSub/Loan.antt =====
-- Loaned messages: a loan that is filled and committed is a write.
use rmw_axon.Prelude.{
  ℕ, zero, suc, ◌+◌, ◌-◌, ◌*◌, ◌%◌, ◌^◌, ◌≤◌, ◌<◌, ◌≡◌, refl, ap, ◌∙◌, true, false, none, some,
  List, [], ◌∷◌, arith, leb, le→ltb_false, ==_self, length, set, length-set, get_or-set_self,
}
use native.Mathlib.Nat.{mod-lt, mod-eq_of_lt, mul-add-mod_self_right, mul-div_left}
use rmw_axon.Prelude.Maps.{lookup, remove, insert, lookup-insert, lookup-remove}
use rmw_axon.Ring
use rmw_axon.Ring.{
  RingBuffer, Slot, ReadError, not_yet_written, u64_max, slot_index, slot_at, slot_data_offset,
  payload_capacity_from_stride, invalidate, copy_payload, publish_slot, published_slot,
  overrun_read_index, zeroed,
}
use rmw_axon.Ring.Inv.{Fits, after_write}
use rmw_axon.Ring.Watermark.{InLag}
use rmw_axon.PubSub.{
  LocalPubSub, payload_offset, slot_of_offset, borrow_buffer, commit_buffer, fill_loan,
}

set-set {ℓ} : {A : Type ℓ} (xs : List A) (i : ℕ) (v w : A) → set (set xs i v) i w ≡ set xs i w
set-set [] i v w = refl
set-set (x ∷ xs) zero v w = refl
set-set (x ∷ xs) (suc i) v w = ap (◌∷◌ x) (set-set xs i v w)

-- A payload pointer passes the alignment test, and leads back to its slot.
pub offset_of_slot :
    (r : RingBuffer) (slot : ℕ)
    → slot_data_offset < r.slot_size
    → (payload_offset r slot % r.slot_size ≡ slot_data_offset)
      × (slot_of_offset r (payload_offset r slot) ≡ slot)
offset_of_slot r slot h =
    let back : payload_offset r slot - slot_data_offset ≡ slot * r.slot_size = omega arith in
    (
      mul-add-mod_self_right slot r.slot_size slot_data_offset ∙ mod-eq_of_lt h,
      rw back (mul-div_left slot (omega arith)),
    )

-- A ring in which a loan can be taken: sound indices, a free slot, slots that hold something.
pub record CanLend (r : RingBuffer) : Type 0 where
  pub lag : InLag r
  pub free : r.write_index < r.read_index + r.slot_count
  pub no_wrap : r.write_index + 1 < 2 ^ 64
  pub slots_are : length r.slots ≡ r.slot_count
  pub slot_holds : slot_data_offset < r.slot_size

abbrev pub next_offset : LocalPubSub → ℕ
next_offset p = payload_offset p.ring_buf (slot_index p.ring_buf p.ring_buf.write_index)

abbrev lent : LocalPubSub → LocalPubSub
lent p =
    let r = p.ring_buf in
    let slot = slot_index r r.write_index in
    record p {
      ring_buf = record r {
        write_index = (r.write_index + 1) % 2 ^ 64;
        slots = set r.slots slot (invalidate (slot_at r slot));
      };
      loaned_sequences = insert (next_offset p) r.write_index p.loaned_sequences;
    }

borrow_buffer_lem :
    (p : LocalPubSub) (max_size : ℕ)
    → CanLend p.ring_buf
    → max_size ≤ payload_capacity_from_stride p.ring_buf.slot_size
    → borrow_buffer p max_size ≡ (some (next_offset p, max_size), lent p)
unfolding borrow_buffer
borrow_buffer_lem p max_size v fits =
    let r = p.ring_buf in
    let room : leb r.slot_count ((r.write_index + 2 ^ 64 - r.read_index) % 2 ^ 64) ≡ false =
      ground (arith, v.lag, v.free, v.no_wrap) in
    rw (le→ltb_false _ _ fits, room)

-- The channel that a commit leaves.
abbrev pub committed : LocalPubSub → ℕ → ℕ → Slot → LocalPubSub
committed q slot ptr s = record q {
  ring_buf = record (q.ring_buf) { slots = set q.ring_buf.slots slot s };
  loaned_sequences = remove ptr q.loaned_sequences;
  eventfd = q.eventfd + 1;
}

pub commit_lem :
    (q : LocalPubSub) (ptr seq size : ℕ)
    → ptr % q.ring_buf.slot_size ≡ slot_data_offset
    → size ≤ payload_capacity_from_stride q.ring_buf.slot_size
    → lookup ptr q.loaned_sequences ≡ some seq
    → let slot = slot_of_offset q.ring_buf ptr in
      commit_buffer q ptr size
      ≡ (true, committed q slot ptr (publish_slot seq size (slot_at q.ring_buf slot)))
unfolding commit_buffer
commit_lem q ptr seq size aligned fits loan = rw (aligned, le→ltb_false _ _ fits, loan)

commit_fill_lem :
    (q : LocalPubSub) (ptr seq : ℕ) (payload : List ℕ)
    → let slot = slot_of_offset q.ring_buf ptr in
      ptr % q.ring_buf.slot_size ≡ slot_data_offset
      → slot < length q.ring_buf.slots
      → length payload ≤ payload_capacity_from_stride q.ring_buf.slot_size
      → lookup ptr q.loaned_sequences ≡ some seq
      → commit_buffer (fill_loan q ptr payload) ptr (length payload) ≡ (
        true,
        committed q slot ptr
            (publish_slot seq (length payload) (copy_payload payload (slot_at q.ring_buf slot))),
      )
unfolding commit_buffer
commit_fill_lem q ptr seq payload aligned inside fits loan =
    let r = q.ring_buf in
    let slot = slot_of_offset r ptr in
    let held =
      get_or-set_self r.slots slot (copy_payload payload (slot_at r slot)) (zeroed r.slot_size)
        inside in
    rw (aligned, le→ltb_false _ _ fits, loan, held, set-set)

overrun_read_index-free :
    (r : RingBuffer) → CanLend r → overrun_read_index r r.write_index ≡ r.read_index
unfolding overrun_read_index
overrun_read_index-free r v = ground (arith, v.free, v.lag)

-- A ring that can lend gives out its next slot for any size that a slot has room for. When the
-- borrower has stored a payload there and commits its length, the commit succeeds, and the ring is
-- the one that `write` would have made of the payload, the loan being settled.
pub commit-borrow :
    (p : LocalPubSub) (max_size : ℕ) (payload : List ℕ)
    → CanLend p.ring_buf
    → max_size ≤ payload_capacity_from_stride p.ring_buf.slot_size
    → Fits p.ring_buf payload
    → let loan = borrow_buffer p max_size in
      let done =
        commit_buffer (fill_loan loan.1 (next_offset p) payload) (next_offset p) (length payload) in
      (loan.0 ≡ some (next_offset p, max_size))
      × (done.0 ≡ true)
      × (done.1.ring_buf ≡ (Ring.write p.ring_buf payload).1)
      × (lookup (next_offset p) done.1.loaned_sequences ≡ none)
commit-borrow p max_size payload v size fits =
    let r = p.ring_buf in
    let slot = slot_index r r.write_index in
    let (aligned, back) = offset_of_slot r slot v.slot_holds in
    let inside : slot < length r.slots =
      omega (arith, v.slots_are, mod-lt r.write_index v.lag.some_slots) in
    let blank = invalidate (slot_at r slot) in
    let inside' : slot < length (set r.slots slot blank) =
      omega (arith, length-set r.slots slot blank) in
    let ptr = next_offset p in
    let loan : lookup ptr (lent p).loaned_sequences ≡ some r.write_index =
      lookup-insert ptr ptr r.write_index p.loaned_sequences ∙ rw (==_self ptr) in
    let lending = borrow_buffer_lem p max_size v size in
    let full = publish_slot r.write_index (length payload) (copy_payload payload blank) in
    let place = slot_of_offset (lent p).ring_buf ptr in
    let blank_at = get_or-set_self r.slots slot blank (zeroed r.slot_size) inside in
    let done : commit_buffer (fill_loan (lent p) ptr payload) ptr (length payload)
        ≡ (true, committed (lent p) slot ptr full) =
      commit_fill_lem (lent p) ptr r.write_index payload aligned (rw back inside') fits.0 loan
      ∙ ap
          (λ s. (
            true,
            committed (lent p) s ptr (
                publish_slot r.write_index (length payload)
                  (copy_payload payload (slot_at (lent p).ring_buf s))),
          ))
          back
      ∙ ap
          (λ s. (
            true,
            committed (lent p) slot ptr
                (publish_slot r.write_index (length payload) (copy_payload payload s)),
          ))
          blank_at in
    let ring : (committed (lent p) slot ptr full).ring_buf ≡ (Ring.write r payload).1 =
      rw (Ring.Inv.write_lem r payload fits, overrun_read_index-free r v, set-set) in
    let settled : lookup ptr (committed (lent p) slot ptr full).loaned_sequences ≡ none =
      lookup-remove ptr ptr (lent p).loaned_sequences ∙ rw (==_self ptr) in
    rw (lending, done) (refl, refl, ring, settled)
