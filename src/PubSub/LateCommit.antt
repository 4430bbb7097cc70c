-- ===== src/PubSub/LateCommit.antt =====
-- A loan that is committed after the writers have gone once round the ring.
use rmw_axon.Prelude.{
  ℕ, ◌+◌, ◌-◌, ◌%◌, ◌≤◌, ◌<◌, ◌≡◌, refl, ap, ◌∙◌, ◌≢◌, true, false, some, arith, ltb, leb, ◌==◌,
  length, get_or-set_self,
}
use native.Mathlib.Nat.{mod-lt, mod-eq-sub-mod}
use rmw_axon.Prelude.Maps.{lookup}
use rmw_axon.Prelude.Results.{err}
use rmw_axon.Ring.{
  RingBuffer, not_yet_written, slot_index, slot_at, slot_data_offset, payload_capacity_from_stride,
  publish_slot, published_slot, data_available_from, zeroed,
}
use rmw_axon.PubSub.{LocalPubSub, payload_offset, commit_buffer}
use rmw_axon.PubSub.Loan.{offset_of_slot, commit_lem, committed}

published-stale :
    (r : RingBuffer) (n w : ℕ)
    → n < r.write_index
    → r.write_index ≤ n + r.slot_count
    → (slot_at r (slot_index r n)).seq ≡ w
    → w ≢ n
    → published_slot r n ≡ err not_yet_written
unfolding published_slot
published-stale r n w below near e differ =
    let e₁ : leb r.write_index n ≡ false = ground arith in
    let e₂ : ltb r.slot_count (r.write_index - n) ≡ false = ground arith in
    let e₃ : (w == n) ≡ false = ground arith in rw (e₁, e₂, e, e₃)

stale_marker :
    (r : RingBuffer) (n w : ℕ)
    → n < r.write_index
    → r.write_index ≤ n + r.slot_count
    → (slot_at r (slot_index r n)).seq ≡ w
    → w ≢ n
    → (published_slot r n ≡ err not_yet_written) × (data_available_from r n ≡ true)
unfolding data_available_from
stale_marker r n w below near e differ =
    let p = published-stale r n w below near e differ in
    (p, rw (p, data_available_from) (ground arith))

mod-add_self : (w c : ℕ) → (w + c) % c ≡ w % c
mod-add_self w c = mod-eq-sub-mod {n = w + c} {m = c} (omega arith) ∙ ap (λ k. k % c) (omega arith)

-- The channel still has a loan of the number `w`, and since then the ring was written once round, up
-- to the number `w + slot_count`, which stands in the same slot. The commit succeeds and puts the
-- older number there: the newer message can no longer be read, while `data_available_from` keeps
-- reporting it.
pub commit_buffer-lapped :
    (p : LocalPubSub) (w size : ℕ)
    → let r = p.ring_buf in
      let ptr = payload_offset r (slot_index r w) in
      slot_data_offset < r.slot_size
      → 1 ≤ r.slot_count
      → length r.slots ≡ r.slot_count
      → r.write_index ≡ w + r.slot_count + 1
      → size ≤ payload_capacity_from_stride r.slot_size
      → lookup ptr p.loaned_sequences ≡ some w
      → let done = commit_buffer p ptr size in
        (done.0 ≡ true)
        × (published_slot done.1.ring_buf (w + r.slot_count) ≡ err not_yet_written)
        × (data_available_from done.1.ring_buf (w + r.slot_count) ≡ true)
commit_buffer-lapped p w size holds some_slots slots_are round fits loan =
    let r = p.ring_buf in
    let slot = slot_index r w in
    let (aligned, back) = offset_of_slot r slot holds in
    let s = publish_slot w size (slot_at r slot) in
    let done =
      commit_lem p (payload_offset r slot) w size aligned fits loan
      ∙ ap (λ i. (true, committed p i (payload_offset r slot) (publish_slot w size (slot_at r i))))
          back in
    let marked =
      get_or-set_self r.slots slot s (zeroed r.slot_size) (omega (arith, mod-lt w some_slots)) in
    let r' = (committed p slot (payload_offset r slot) s).ring_buf in
    let marker : (slot_at r' (slot_index r' (w + r.slot_count))).seq ≡ w =
      rw (mod-add_self w r.slot_count) (ap (λ x. x.seq) marked) in
    let (unread, ready) =
      stale_marker r' (w + r.slot_count) w (omega arith) (omega arith) marker (omega arith) in
    rw done (refl, unread, ready)
