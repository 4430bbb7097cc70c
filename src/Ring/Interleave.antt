-- ===== src/Ring/Interleave.antt =====
-- One slot of the ring under a writer and a reader that run at the same time: each store and each
-- load of `write` and `read_slot` in local.rs is a step of its own, and the steps come in any order
-- that the two programs allow. Each load sees the last store; one writer works on the slot at a time.
pub mod NoTear
mod Tests
use rmw_axon.Prelude.{
  ℕ, zero, suc, ◌+◌, ◌-◌, ◌*◌, ◌/◌, ◌%◌, ◌^◌, ◌≤◌, ◌<◌, min, max, ◌≡◌, refl, sym, ap, ◌∙◌, ◌≢◌, ◌↔◌,
  ◌⊎◌, inl, inr, Bool, true, false, ◌&&◌, ◌||◌, not, Option, none, some, List, [], ◌∷◌, ◌++◌, map,
  append_assoc, append-nil, arith, ltb, leb, ◌==◌, if◌then◌else◌, ltb→lt, lt→ltb, leb→le, le→leb,
  le→ltb_false, lt→leb_false, ==_iff, ==_self, Bool-cases, Option-cases, length, get_elem?, take,
  drop, get_last?, length-append, take-append, drop-append, length-take, length-drop,
  get_elem?-none, get_elem?-append_here, get_elem?-append_left, get_last?-append, drop-nil,
  drop-cons, drop_none, List-cases, subst, get_elem?-drop, drop-drop, drop-append_le, length-map,
  get_last?-cons, lt-of-get_elem?, get_or, set, replicate, length-set, length-replicate,
  get_or-set_self, get_or-set_ne, get_elem?-append_right,
}
use rmw_axon.Ring.{Slot, u64_max}

-- The stores of `write` to the slot, behind the one that marks it as unpublished.
pub data Store : Type 0 where
  clear_len : Store
  store_byte : ℕ → ℕ → Store
  store_len : ℕ → Store
  store_seq : ℕ → Store

unfoldable pub perform : Store → Slot → Slot
perform clear_len s = record s { len = 0 }
perform (store_byte i b) s = record s { bytes = set s.bytes i b }
perform (store_len n) s = record s { len = n }
perform (store_seq seq) s = record s { seq = seq }

unfoldable pub perform_all : List Store → Slot → Slot
perform_all [] s = s
perform_all (m ∷ ms) s = perform_all ms (perform m s)

-- `copy_nonoverlapping`, byte by byte, and then the length and the marker.
unfoldable pub copy_stores : ℕ → ℕ → ℕ → List ℕ → List Store
copy_stores seq n i [] = store_len n ∷ store_seq seq ∷ []
copy_stores seq n i (b ∷ bs) = store_byte i b ∷ copy_stores seq n (suc i) bs

unfoldable pub stores : ℕ → List ℕ → List Store
stores seq payload = clear_len ∷ copy_stores seq (length payload % 2 ^ 32) 0 payload

-- A reader before its first load of the marker, after it, while it copies, and when it has succeeded.
pub data Reader : Type 0 where
  waiting : Reader
  opened : ℕ → Reader
  copying : ℕ → ℕ → List ℕ → Reader
  delivered : ℕ → List ℕ → Reader

-- The slot, the stores that the writer has yet to do, the number of its last write, and the reader.
pub record System : Type 0 where
  pub slot : Slot
  pub pending : List Store
  pub current : ℕ
  pub reader : Reader

-- A step of the writer or of the reader, where the write of the number `n` carries `payload_of n`. A
-- writer comes back to the slot with a larger number. An empty slot, or one whose payload the output
-- has no room for, is not copied.
pub data Step (payload_of : ℕ → List ℕ) (room : ℕ) (t : System) : System → Type 0 where
  begin_write :
      (seq : ℕ)
      → t.pending ≡ []
      → t.current < seq
      → seq < u64_max
      → length (payload_of seq) ≤ length t.slot.bytes
      → length (payload_of seq) < 2 ^ 32
      → Step payload_of room t (record t {
        slot = record (t.slot) { seq = u64_max };
        pending = stores seq (payload_of seq);
        current = seq;
      })
  go_on_writing :
      (m : Store) (ms : List Store)
      → t.pending ≡ m ∷ ms
      → Step payload_of room t (record t { slot = perform m t.slot; pending = ms })
  load_seq :
      (n : ℕ)
      → n < u64_max
      → t.slot.seq ≡ n
      → Step payload_of room t (record t { reader = opened n })
  load_len :
      (n : ℕ)
      → t.reader ≡ opened n
      → 1 ≤ t.slot.len
      → t.slot.len ≤ room
      → Step payload_of room t (record t { reader = copying n t.slot.len [] })
  load_byte :
      (n len : ℕ) (got : List ℕ)
      → t.reader ≡ copying n len got
      → length got < len
      → Step payload_of room t
          (record t { reader = copying n len (got ++ get_or t.slot.bytes (length got) 0 ∷ []) })
  load_seq_again :
      (n len : ℕ) (got : List ℕ)
      → t.reader ≡ copying n len got
      → length got ≡ len
      → t.slot.seq ≡ n
      → Step payload_of room t (record t { reader = delivered n got })

pub data Steps (payload_of : ℕ → List ℕ) (room : ℕ) : System → System → Type 0 where
  stop : {t : System} → Steps payload_of room t t
  more :
      {t u v : System}
      → Step payload_of room t u
      → Steps payload_of room u v
      → Steps payload_of room t v
