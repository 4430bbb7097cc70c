-- ===== src/Ring/Watermark.antt =====
-- The shared read watermark, and the readiness test that a waiting subscription relies on.
use rmw_axon.Prelude.{
  ◌∙◌, ℕ, ◌+◌, ◌-◌, ◌^◌, ◌≤◌, ◌<◌, ◌≡◌, inl, inr, true, false, List, [], ◌∷◌, arith, ltb, leb, ◌==◌,
  if◌then◌else◌, Bool-cases, length,
}
use rmw_axon.Prelude.Results.{ok, result_cases}
use rmw_axon.Ring.{
  RingBuffer, Slot, create_mapped, write, read, read_slot, published_slot, skip_all_pending,
  mark_generation, data_available_from,
}
use rmw_axon.Ring.Inv.{Holds}
use rmw_axon.Ring.Refine.{
  Op, writes, reads, skips, marks, step, run, published-ahead, published-behind, published-inside,
  get_elem?-some,
}

-- The watermark is not ahead of the writer, and at most `slot_count` behind it.
pub record InLag (r : RingBuffer) : Type 0 where
  pub some_slots : 1 ≤ r.slot_count
  pub not_ahead : r.read_index ≤ r.write_index
  pub not_lapped : r.write_index ≤ r.read_index + r.slot_count

write-InLag :
    (r : RingBuffer) (payload : List ℕ)
    → r.write_index + 1 < 2 ^ 64
    → InLag r
    → InLag (write r payload).1
unfolding write
write-InLag r payload wrap v = ground arith

published-window :
    (r : RingBuffer) (n : ℕ) {s : Slot}
    → published_slot r n ≡ ok s
    → (n < r.write_index) × (r.write_index ≤ n + r.slot_count)
unfolding published_slot
published-window r n e = ground arith

read_slot-window :
    (r : RingBuffer) (n : ℕ) (out : List ℕ) {len : ℕ}
    → (read_slot r n out).0 ≡ ok len
    → (n < r.write_index) × (r.write_index ≤ n + r.slot_count)
unfolding read_slot
read_slot-window r n out e = elim (result_cases (published_slot r n)) [
  | inl (x, failed) ↦ absurd (cc (rw (failed, read_slot) at e))
  | inr (s, done) ↦ published-window r n done
]

read-InLag :
    (r : RingBuffer) (n : ℕ) (out : List ℕ)
    → r.write_index < 2 ^ 64
    → InLag r
    → InLag (read r n out).1
unfolding read
read-InLag r n out wrap v = elim (result_cases (read_slot r n out).0) [
  | inl (e, failed) ↦ rw (failed, read) v
  | inr (len, done) ↦
      let window = read_slot-window r n out done in
      rw (done, read)
        (elim (Bool-cases (leb r.read_index n)) [
          | inl moves ↦ rw moves (omega arith)
          | inr stays ↦ rw stays v
        ])
]

write_index-write :
    (r : RingBuffer) (payload : List ℕ)
    → r.write_index + 1 < 2 ^ 64
    → (write r payload).1.write_index ≤ r.write_index + 1
unfolding write
write_index-write r payload wrap = ground arith

write_index-read :
    (r : RingBuffer) (n : ℕ) (out : List ℕ) → (read r n out).1.write_index ≡ r.write_index
unfolding read
write_index-read r n out = elim (result_cases (read_slot r n out).0) [
  | inl (e, failed) ↦ rw (failed, read)
  | inr (len, done) ↦ rw (done, read) (ground arith)
]

pub run-InLag :
    (ops : List Op) (r : RingBuffer)
    → r.write_index + length ops < 2 ^ 64
    → InLag r
    → InLag (run r ops)
unfolding run step skip_all_pending mark_generation
run-InLag [] r wrap v = v
run-InLag (writes payload ∷ ops) r wrap v =
    run-InLag ops _ (omega (arith, write_index-write r payload))
      (write-InLag r payload (omega arith) v)
run-InLag (reads n out ∷ ops) r wrap v =
    run-InLag ops _ (omega (arith, write_index-read r n out)) (read-InLag r n out (omega arith) v)
run-InLag (skips ∷ ops) r wrap v = run-InLag ops _ (omega arith) (omega arith)
run-InLag (marks ∷ ops) r wrap v = run-InLag ops _ (omega arith) (omega arith)

-- Of a ring made with `slot_count` slots, after any calls: the watermark is not ahead of the writer
-- and at most `slot_count` behind it. There are fewer calls than the counter has values.
pub run-created-InLag :
    (slot_count slot_stride : ℕ) (ops : List Op)
    → 1 ≤ slot_count
    → length ops < 2 ^ 64
    → InLag (run (create_mapped slot_count slot_stride) ops)
run-created-InLag slot_count slot_stride ops h wrap =
    run-InLag ops (create_mapped slot_count slot_stride) (unfold create_mapped in omega arith)
      (unfold create_mapped in omega arith)

-- On a ring that holds the history `h` a subscription whose cursor is `n` is ready exactly when `n`
-- was written and either its slot is still there, or it was overwritten and the watermark leaves
-- something unread. So it is not ready when the ring holds newer messages that the watermark has
-- passed.
pub data_available_from-Holds :
    (r : RingBuffer) (h : List (List ℕ)) (n : ℕ)
    → Holds r h
    → data_available_from r n ≡ (
        if leb (length h) n
        then false
        else if ltb r.slot_count (length h - n)
        then ltb r.read_index (length h)
        else true)
unfolding data_available_from
data_available_from-Holds r h n v = elim (Bool-cases (leb (length h) n)) [
  | inl ahead ↦
      rw (published-ahead r h n v ahead, data_available_from, ahead) (ground (arith, v.written))
  | inr here ↦ elim (Bool-cases (ltb r.slot_count (length h - n))) [
    | inl behind ↦
        rw (published-behind r h n v here behind, data_available_from, here, behind)
          (ground (arith, v.written))
    | inr inside ↦
        let (payload, found) = get_elem?-some h n (ground arith) in
        let s = v.stored n payload found (ground arith) in
        let p = published-inside r h n v payload here inside s in
        elim (Bool-cases (length payload == 0)) [
          | inl empty ↦ rw (p, data_available_from, here, inside, empty) (ground (arith, v.written))
          | inr full ↦ rw (p, data_available_from, here, inside, full) (ground (arith, s.len_is))
        ]
  ]
]

-- When all that is pending was skipped on a ring that holds the history `h`, a subscription that fell
-- behind is not ready, though the ring still holds the newest message, for which one is.
pub data_available_from-skip_all_pending :
    (r : RingBuffer) (h : List (List ℕ)) (n : ℕ)
    → Holds r h
    → n + r.slot_count < length h
    → (data_available_from (skip_all_pending r) n ≡ false)
      × (data_available_from (skip_all_pending r) (length h - 1) ≡ true)
unfolding skip_all_pending
data_available_from-skip_all_pending r h n v behind =
    let r' = skip_all_pending r in
    let v' : Holds r' h = record {
      some_slots = v.some_slots;
      slots_are = v.slots_are;
      written = v.written;
      stored = λ k payload e near.
          let s = v.stored k payload e near in
          record { seq_is = s.seq_is; len_is = s.len_is; bytes_are = s.bytes_are };
    } in
    (
      data_available_from-Holds r' h n v' ∙ ground (arith, v.written),
      data_available_from-Holds r' h (length h - 1) v' ∙ ground (arith, v.some_slots),
    )
