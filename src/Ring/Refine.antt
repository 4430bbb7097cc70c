-- ===== src/Ring/Refine.antt =====
-- The ring against the history of its writes: a reader finds the last `slot_count` payloads, each
-- under its number, whatever was read, skipped or marked in between.
use rmw_axon.Prelude.{
  ℕ, zero, suc, ◌+◌, ◌-◌, ◌%◌, ◌^◌, ◌≤◌, ◌<◌, ◌≡◌, refl, ap, ◌∙◌, inl, inr, true, false, none, some,
  List, [], ◌∷◌, ◌++◌, append_assoc, append-nil, arith, ltb, leb, ◌==◌, if◌then◌else◌, ==_self,
  Bool-cases, length, get_elem?, drop, length-append,
}
use rmw_axon.Prelude.Results.{Result, ok, err, result_cases}
use rmw_axon.Ring.{
  RingBuffer, ReadError, no_data, overwritten, not_yet_written, output_too_small, create_mapped,
  slot_at, slot_index, write, read, read_slot, published_slot, skip_all_pending, mark_generation,
  payload_capacity_from_stride,
}
use rmw_axon.Ring.Inv.{
  Stored, Holds, Fits, write_lem, write_refused, after_write-Holds, create_mapped-Holds,
}

-- The calls that change a ring.
pub data Op : Type 0 where
  writes : List ℕ → Op
  reads : ℕ → List ℕ → Op
  skips : Op
  marks : Op

unfoldable pub step : RingBuffer → Op → RingBuffer
step r (writes payload) = (write r payload).1
step r (reads sequence_number out) = (read r sequence_number out).1
step r skips = skip_all_pending r
step r marks = mark_generation r

unfoldable pub run : RingBuffer → List Op → RingBuffer
run r [] = r
run r (op ∷ ops) = run (step r op) ops

-- The payloads that were written: those not longer than a slot of `capacity` bytes.
unfoldable pub history : ℕ → List Op → List (List ℕ)
history capacity [] = []
history capacity (writes payload ∷ ops) =
    let rest = history capacity ops in
    if ltb capacity (length payload) then rest else payload ∷ rest
history capacity (reads sequence_number out ∷ ops) = history capacity ops
history capacity (skips ∷ ops) = history capacity ops
history capacity (marks ∷ ops) = history capacity ops

-- What a read is to answer, by the history of the writes alone.
abbrev pub sample : ℕ → List (List ℕ) → ℕ → List ℕ → Result ReadError ℕ × List ℕ
sample slot_count h sequence_number out =
    if leb (length h) sequence_number
    then (err no_data, out)
    else if ltb slot_count (length h - sequence_number)
    then (err overwritten, out)
    else elim (get_elem? h sequence_number) [
      | none ↦ (err no_data, out)
      | some payload ↦
          if length payload == 0
          then (err not_yet_written, out)
          else if ltb (length out) (length payload)
          then (err output_too_small, out)
          else (ok (length payload), payload ++ drop (length payload) out)
    ]

pub get_elem?-some {ℓ} :
    {A : Type ℓ} (xs : List A) (i : ℕ) → i < length xs → (x : A) × (get_elem? xs i ≡ some x)
get_elem?-some [] i h = absurd (omega arith)
get_elem?-some (x ∷ xs) zero h = (x, refl)
get_elem?-some (x ∷ xs) (suc i) h = get_elem?-some xs i (omega arith)

module _ (r : RingBuffer) (h : List (List ℕ)) (n : ℕ) (v : Holds r h) where
  pub published-ahead : leb (length h) n ≡ true → published_slot r n ≡ err no_data
  unfolding published_slot
  published-ahead ahead = let e : leb r.write_index n ≡ true = ground (arith, v.written) in rw e

  pub published-behind :
      leb (length h) n ≡ false
      → ltb r.slot_count (length h - n) ≡ true
      → published_slot r n ≡ err overwritten
  unfolding published_slot
  published-behind here behind =
      let e : leb r.write_index n ≡ false = ground (arith, v.written) in
      let e' : ltb r.slot_count (r.write_index - n) ≡ true = ground (arith, v.written) in rw (e, e')

  pub published-inside :
      (payload : List ℕ)
      → leb (length h) n ≡ false
      → ltb r.slot_count (length h - n) ≡ false
      → Stored r n payload
      → published_slot r n
        ≡ (if length payload == 0 then err not_yet_written else ok (slot_at r (slot_index r n)))
  unfolding published_slot
  published-inside payload here inside s =
      let e : leb r.write_index n ≡ false = ground (arith, v.written) in
      let e' : ltb r.slot_count (r.write_index - n) ≡ false = ground (arith, v.written) in
      rw (e, e', s.len_is, s.seq_is, ==_self n)

  -- A ring that holds a history answers by it.
  pub read_slot-Holds : (out : List ℕ) → read_slot r n out ≡ sample r.slot_count h n out
  unfolding read_slot
  read_slot-Holds out = elim (Bool-cases (leb (length h) n)) [
    | inl ahead ↦ rw (published-ahead ahead, read_slot, ahead)
    | inr here ↦ elim (Bool-cases (ltb r.slot_count (length h - n))) [
      | inl behind ↦ rw (published-behind here behind, read_slot, here, behind)
      | inr inside ↦
          let (payload, found) = get_elem?-some h n (ground arith) in
          let s = v.stored n payload found (ground arith) in
          elim (Bool-cases (length payload == 0)) [
            | inl empty ↦
                rw (published-inside payload here inside s, read_slot, here, inside, found, empty)
            | inr full ↦
                rw (published-inside payload here inside s, read_slot, here, inside, found, full)
                  (rw (s.len_is, s.bytes_are))
          ]
    ]
  ]

-- What stays of a ring beside the history: the sizes that it was made with.
record Keeps (capacity count : ℕ) (h : List (List ℕ)) (r : RingBuffer) : Type 0 where
  holds : Holds r h
  capacity_is : payload_capacity_from_stride r.slot_size ≡ capacity
  count_is : r.slot_count ≡ count

module _ (capacity count : ℕ) (small : capacity < 2 ^ 32) where
  write-Keeps :
      (r : RingBuffer) (h : List (List ℕ)) (payload : List ℕ)
      → length h + 1 < 2 ^ 64
      → Keeps capacity count h r
      → Keeps capacity count
          (if ltb capacity (length payload) then h else h ++ payload ∷ [])
          (write r payload).1
  write-Keeps r h payload wrap k = elim (Bool-cases (ltb capacity (length payload))) [
    | inl long ↦ rw (long, write_refused r payload (ground (arith, k.capacity_is))) k
    | inr fits ↦
        let f : Fits r payload = (ground (arith, k.capacity_is), ground arith) in
        rw (fits, write_lem r payload f)
          (record {
            holds = after_write-Holds r h payload k.holds f wrap;
            capacity_is = k.capacity_is;
            count_is = k.count_is;
          })
  ]

  -- The other calls move indices only.
  moved-Keeps :
      (r : RingBuffer) (h : List (List ℕ)) (read_index epoch : ℕ)
      → Keeps capacity count h r
      → Keeps capacity count h (record r { read_index = read_index; epoch = epoch })
  moved-Keeps r h read_index epoch k = record {
    holds = record {
      some_slots = k.holds.some_slots;
      slots_are = k.holds.slots_are;
      written = k.holds.written;
      stored = λ n payload e near.
          let s = k.holds.stored n payload e near in
          record { seq_is = s.seq_is; len_is = s.len_is; bytes_are = s.bytes_are };
    };
    capacity_is = k.capacity_is;
    count_is = k.count_is;
  }

  read-Keeps :
      (r : RingBuffer) (h : List (List ℕ)) (n : ℕ) (out : List ℕ)
      → Keeps capacity count h r
      → Keeps capacity count h (read r n out).1
  unfolding read
  read-Keeps r h n out k = elim (result_cases (read_slot r n out).0) [
    | inl (e, failed) ↦ rw (failed, read) k
    | inr (len, done) ↦
        rw (done, read)
          (elim (Bool-cases (leb r.read_index n)) [
            | inl moves ↦ rw moves (moved-Keeps r h ((n + 1) % 2 ^ 64) r.epoch k)
            | inr stays ↦ rw stays k
          ])
  ]

  run-Keeps :
      (ops : List Op) (r : RingBuffer) (h : List (List ℕ))
      → length h + length ops < 2 ^ 64
      → Keeps capacity count h r
      → Keeps capacity count (h ++ history capacity ops) (run r ops)
  unfolding run step history skip_all_pending mark_generation
  run-Keeps [] r h wrap k = rw append-nil k
  run-Keeps (writes payload ∷ ops) r h wrap k = elim (Bool-cases (ltb capacity (length payload))) [
    | inl long ↦
        let k' = rw long at (write-Keeps r h payload (omega arith) k) in
        rw long (run-Keeps ops _ h (omega arith) k')
    | inr fits ↦
        let k' = rw fits at (write-Keeps r h payload (omega arith) k) in
        rw (fits, ← append_assoc h (payload ∷ []) (history capacity ops))
          (run-Keeps ops _ (h ++ payload ∷ []) (omega (arith, length-append h (payload ∷ []))) k')
  ]
  run-Keeps (reads n out ∷ ops) r h wrap k =
      run-Keeps ops _ h (omega arith) (read-Keeps r h n out k)
  run-Keeps (skips ∷ ops) r h wrap k =
      run-Keeps ops _ h (omega arith) (moved-Keeps r h r.write_index r.epoch k)
  run-Keeps (marks ∷ ops) r h wrap k =
      run-Keeps ops _ h (omega arith) (moved-Keeps r h r.read_index r.write_index k)

-- A ring made with `slot_count` slots of the stride `slot_stride`, after any calls: a read at any
-- number answers by the history of the payloads that were short enough to be written, its last
-- `slot_count` ones being there and the older ones reported as overwritten. An empty payload is never
-- readable. There are fewer calls than the counter has values.
pub read_slot-run :
    (slot_count slot_stride : ℕ) (ops : List Op) (n : ℕ) (out : List ℕ)
    → 1 ≤ slot_count
    → slot_stride < 2 ^ 32
    → length ops < 2 ^ 64
    → read_slot (run (create_mapped slot_count slot_stride) ops) n out
      ≡ sample slot_count (history (payload_capacity_from_stride slot_stride) ops) n out
read_slot-run slot_count slot_stride ops n out some_slots small wrap =
    let start : Keeps (payload_capacity_from_stride slot_stride) slot_count []
        (create_mapped slot_count slot_stride) =
      unfold create_mapped in
      record {
        holds = create_mapped-Holds slot_count slot_stride some_slots;
        capacity_is = refl;
        count_is = refl;
      } in
    let k =
      run-Keeps (payload_capacity_from_stride slot_stride) slot_count
        (unfold payload_capacity_from_stride in omega arith) ops _ [] (omega arith) start in
    read_slot-Holds (run (create_mapped slot_count slot_stride) ops) _ n k.holds out
    ∙ ap (λ c. sample c (history (payload_capacity_from_stride slot_stride) ops) n out) k.count_is
