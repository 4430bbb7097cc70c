-- ===== src/Ring/Inv.antt =====
-- What holds of a ring that a history of payloads was written to, and that each write keeps it.
use rmw_axon.Prelude.{
  ℕ, ◌+◌, ◌-◌, ◌%◌, ◌^◌, ◌≤◌, ◌<◌, ◌≡◌, refl, sym, ap, ◌∙◌, ◌≢◌, inl, inr, some, List, [], ◌∷◌,
  ◌++◌, arith, ◌==◌, lt→ltb, le→ltb_false, ==_iff, Bool-cases, length, get_elem?, take,
  length-append, take-append, get_elem?-append_here, get_elem?-append_left, lt-of-get_elem?, set,
  length-set, length-replicate, get_or-set_self, get_or-set_ne,
}
use native.Mathlib.Nat.{mod-lt, mod-eq_of_lt, mod-add-mod, mod-eq-sub-mod}
use native.Mathlib.Decide.{dec_lt}
use rmw_axon.Prelude.Results.{ok, err}
use rmw_axon.Ring.{
  exceeds_slot_size, copy_payload, publish_slot, invalidate, RingBuffer, Slot, create_mapped,
  zeroed, slot_at, slot_index, write, overrun_read_index, payload_capacity_from_stride,
}

-- Two numbers less than `c` apart have different slots.
pub mod-ne : (a b c : ℕ) → a < b → b < a + c → a % c ≢ b % c
mod-ne a b c h k e =
    let x = a % c in
    let d = b - a in
    let small : x < c = mod-lt a (omega arith) in
    let b_is : b ≡ a + d = omega arith in
    let same : (x + d) % c ≡ x = mod-add-mod a c d ∙ rw (← b_is) (sym e) in
    elim (dec_lt (x + d) c) [
      | yes p ↦ omega (arith, mod-eq_of_lt p)
      | no p ↦ omega (
        arith,
        mod-eq-sub-mod {n = x + d} {m = c} (omega arith),
        mod-eq_of_lt {n = x + d - c} {m = c} (omega arith),
      )
    ]

-- The payload of a number is in its slot.
pub record Stored (r : RingBuffer) (n : ℕ) (payload : List ℕ) : Type 0 where
  pub seq_is : (slot_at r (slot_index r n)).seq ≡ n
  pub len_is : (slot_at r (slot_index r n)).len ≡ length payload
  pub bytes_are : take (length payload) (slot_at r (slot_index r n)).bytes ≡ payload

-- The history `h`, written from number 0 on: its last `slot_count` payloads are in their slots.
pub record Holds (r : RingBuffer) (h : List (List ℕ)) : Type 0 where
  pub some_slots : 1 ≤ r.slot_count
  pub slots_are : length r.slots ≡ r.slot_count
  pub written : r.write_index ≡ length h
  pub stored :
      (n : ℕ) (payload : List ℕ)
      → get_elem? h n ≡ some payload
      → length h ≤ n + r.slot_count
      → Stored r n payload

pub create_mapped-Holds :
    (slot_count slot_stride : ℕ) → 1 ≤ slot_count → Holds (create_mapped slot_count slot_stride) []
unfolding create_mapped
create_mapped-Holds slot_count slot_stride h = record {
  some_slots = h;
  slots_are = length-replicate slot_count (zeroed slot_stride);
  written = refl;
  stored = λ n payload e _. cc;
}

abbrev filled : RingBuffer → List ℕ → Slot
filled r payload =
    publish_slot r.write_index (length payload)
      (copy_payload payload (invalidate (slot_at r (slot_index r r.write_index))))

-- The ring that an accepted write leaves.
abbrev pub after_write : RingBuffer → List ℕ → RingBuffer
after_write r payload = record r {
  write_index = (r.write_index + 1) % 2 ^ 64;
  read_index = overrun_read_index r r.write_index;
  slots = set r.slots (slot_index r r.write_index) (filled r payload);
}

-- A payload fits a slot, and its length the 32 bits of the slot's length.
abbrev pub Fits : RingBuffer → List ℕ → Type 0
Fits r payload =
    (length payload ≤ payload_capacity_from_stride r.slot_size) × (length payload < 2 ^ 32)

pub write_lem :
    (r : RingBuffer) (payload : List ℕ)
    → Fits r payload
    → write r payload ≡ (ok r.write_index, after_write r payload)
unfolding write
write_lem r payload h = rw (le→ltb_false _ _ h.0)

-- A payload that does not fit is refused, and nothing changes.
pub write_refused :
    (r : RingBuffer) (payload : List ℕ)
    → payload_capacity_from_stride r.slot_size < length payload
    → write r payload ≡ (err exceeds_slot_size, r)
unfolding write
write_refused r payload h = rw (lt→ltb _ _ h)

module _ (r : RingBuffer) (h : List (List ℕ)) (payload : List ℕ) (v : Holds r h)
    (fits : Fits r payload) where
  -- The slot just written holds the payload.
  after_write-Stored : Stored (after_write r payload) (length h) payload
  after_write-Stored =
      let self =
        get_or-set_self r.slots (slot_index r r.write_index) (filled r payload) (zeroed r.slot_size)
          (omega (arith, v, mod-lt r.write_index v.some_slots)) in
      rw (← v.written) (record {
        seq_is = ap (λ s. s.seq) self;
        len_is = ap (λ s. s.len) self ∙ mod-eq_of_lt fits.1;
        bytes_are = ap (λ (s : Slot). take (length payload) s.bytes) self ∙ take-append payload _;
      })

  -- The slots of the other numbers of the window are left alone.
  after_write-Stored_other :
      (n : ℕ) (old : List ℕ)
      → n < length h
      → length h < n + r.slot_count
      → Stored r n old
      → Stored (after_write r payload) n old
  after_write-Stored_other n old below near s =
      let differ = mod-ne n r.write_index r.slot_count (omega (arith, v)) (omega (arith, v)) in
      let other =
        get_or-set_ne r.slots (slot_index r r.write_index) (slot_index r n) (filled r payload)
          (zeroed r.slot_size) (λ e. differ (sym e)) in
      record {
        seq_is = ap (λ s. s.seq) other ∙ s.seq_is;
        len_is = ap (λ s. s.len) other ∙ s.len_is;
        bytes_are = ap (λ (s : Slot). take (length old) s.bytes) other ∙ s.bytes_are;
      }

  after_write-Stored_all :
      (n : ℕ) (old : List ℕ)
      → get_elem? (h ++ payload ∷ []) n ≡ some old
      → length h + 1 ≤ n + r.slot_count
      → Stored (after_write r payload) n old
  after_write-Stored_all n old e near = elim (Bool-cases (n == length h)) [
    | inl last ↦
        let at : n ≡ length h = (==_iff n (length h)).0 last in
        let same : payload ≡ old = cc (get_elem?-append_here h [] payload n at, e) in
        rw (at, ← same) after_write-Stored
    | inr before ↦
        let bound = lt-of-get_elem? (h ++ payload ∷ []) n e in
        let below : n < length h = ground (arith, bound, length-append h (payload ∷ [])) in
        after_write-Stored_other n old below (omega arith)
          (v.stored n old (sym (get_elem?-append_left h (payload ∷ []) n below) ∙ e) (omega arith))
  ]

  pub after_write-Holds : length h + 1 < 2 ^ 64 → Holds (after_write r payload) (h ++ payload ∷ [])
  after_write-Holds wrap = record {
    some_slots = v.some_slots;
    slots_are = length-set r.slots _ _ ∙ v.slots_are;
    written = omega (arith, v, length-append h (payload ∷ []));
    stored = λ n old e near.
        after_write-Stored_all n old e (omega (arith, length-append h (payload ∷ [])));
  }
