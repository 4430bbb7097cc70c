-- ===== src/SubscriberQueue.antt =====
-- axon_core/src/subscriber_queue.rs: the bounded queue that the receiving worker fills and the
-- subscriptions of a session read. One call runs at a time, `push` with the counter that it takes before it locks. `Instant::now()` is
-- the argument `now`, and an output slice is the list of its bytes, returned as the call leaves it.
pub mod Inv
pub mod Push
pub mod Take
pub mod Refine
pub mod Ready
pub mod KeepAll
mod Tests
use rmw_axon.Prelude.{
  ℕ, zero, suc, ◌+◌, ◌-◌, ◌*◌, ◌/◌, ◌%◌, ◌^◌, ◌≤◌, ◌<◌, min, max, ◌≡◌, refl, sym, ap, ◌∙◌, ◌≢◌, ◌↔◌,
  ◌⊎◌, inl, inr, Bool, true, false, ◌&&◌, ◌||◌, not, Option, none, some, List, [], ◌∷◌, ◌++◌, map,
  append_assoc, append-nil, arith, ltb, leb, ◌==◌, if◌then◌else◌, ltb→lt, lt→ltb, leb→le, le→leb,
  le→ltb_false, lt→leb_false, ==_iff, ==_self, Bool-cases, Option-cases, length, get_elem?, take,
  drop, get_last?, length-append, take-append, drop-append, length-take, length-drop,
  get_elem?-none, get_elem?-append_here, get_elem?-append_left, get_last?-append,
}
use mathlib.Core.Option
use rmw_axon.Prelude.Maps.{Map, lookup, remove, insert}

-- `(u64, Vec<u8>)`: a sequence number and its payload.
abbrev pub Message : Type 0
Message = ℕ × List ℕ

pub record SubscriberQueue : Type 0 where
  pub messages : List Message
  pub capacity : ℕ
  pub next_seq : ℕ
  pub len : ℕ
  pub active : Bool
  pub keep_all : Bool
  pub timestamps : Map ℕ

unfoldable pub with_seq_and_mode : ℕ → ℕ → Bool → SubscriberQueue
with_seq_and_mode capacity start_seq keep_all = record {
  messages = [];
  capacity = max capacity 1;
  next_seq = start_seq;
  len = 0;
  active = false;
  keep_all = keep_all;
  timestamps = [];
}

-- `while msgs.len() >= self.capacity { pop_front; timestamps.remove }`. On the empty list the loop
-- ends, since the capacity is at least 1.
unfoldable pub evict : ℕ → List Message → Map ℕ → List Message × Map ℕ
evict capacity [] timestamps = ([], timestamps)
evict capacity ((dropped_seq, payload) ∷ rest) timestamps =
    if leb capacity (length ((dropped_seq, payload) ∷ rest))
    then evict capacity rest (remove dropped_seq timestamps)
    else ((dropped_seq, payload) ∷ rest, timestamps)

-- `push`: the sequence number is taken from the counter before the capacity is looked at.
unfoldable pub push : SubscriberQueue → List ℕ → ℕ → Option ℕ × SubscriberQueue
unfolding evict
push q payload now =
    let seq = q.next_seq in
    let counted = record q { next_seq = (seq + 1) % 2 ^ 64 } in
    if q.keep_all && leb q.capacity (length q.messages)
    then (none, counted)
    else let (kept, stamps) = evict q.capacity q.messages q.timestamps in
      let messages = kept ++ (seq, payload) ∷ [] in
      (
        some seq,
        record counted {
          messages = messages;
          len = length messages;
          active = true;
          timestamps = insert seq now stamps;
        },
      )

unfoldable pub timestamp_for : SubscriberQueue → ℕ → Option ℕ
timestamp_for q seq = lookup seq q.timestamps

-- `out[..len].copy_from_slice(payload)`, where the payload fits.
abbrev pub copy_from : List ℕ → List ℕ → List ℕ
copy_from out payload = payload ++ drop (length payload) out

-- What a read returns (the payload's length and the sequence number) and the output slice after it.
abbrev pub Read : Type 0
Read = Option (ℕ × ℕ) × List ℕ

-- A payload that does not fit is left where it is, and its length is returned.
abbrev pub deliver : List ℕ → Option (ℕ × List ℕ) → Read
deliver out none = (none, out)
deliver out (some (seq, payload)) =
    if ltb (length out) (length payload)
    then (some (length payload, seq), out)
    else (some (length payload, seq), copy_from out payload)

-- `for dropped_seq in oldest..=ret_seq { timestamps.remove }`, as a count of rounds.
unfoldable pub remove_range : ℕ → ℕ → Map ℕ → Map ℕ
remove_range oldest zero timestamps = timestamps
remove_range oldest (suc n) timestamps = remove_range (oldest + 1) n (remove oldest timestamps)

-- A cursor below the window: the newest message is delivered and the queue is emptied.
unfoldable pub take_newest : SubscriberQueue → List ℕ → Read × SubscriberQueue
take_newest q out = elim (get_last? q.messages) [
  | none ↦ ((none, out), q)
  | some (actual_seq, payload) ↦
      if ltb (length out) (length payload) then ((some (length payload, actual_seq), out), q) else (
        (some (length payload, actual_seq), copy_from out payload),
        record q { messages = []; len = 0; timestamps = [] },
      )
]

-- A cursor in the window: the message at the offset, with all before it, leaves the queue.
unfoldable pub take_at : SubscriberQueue → ℕ → ℕ → List ℕ → Read × SubscriberQueue
unfolding remove_range
take_at q oldest offset out = elim (get_elem? q.messages offset) [
  | none ↦ ((none, out), q)
  | some (actual_seq, payload) ↦
      if ltb (length out) (length payload)
      then ((some (length payload, actual_seq), out), q)
      else let messages = drop (offset + 1) q.messages in
        (
          (some (length payload, actual_seq), copy_from out payload),
          record q {
            messages = messages;
            len = length messages;
            timestamps = remove_range oldest (actual_seq + 1 - oldest) q.timestamps;
          },
        )
]

unfoldable pub try_take : SubscriberQueue → ℕ → List ℕ → Read × SubscriberQueue
unfolding take_newest take_at
try_take q seq out = elim q.messages [
  | [] ↦ ((none, out), q)
  | (oldest, _) ∷ _ ↦
      if ltb seq oldest then take_newest q out else take_at q oldest (seq - oldest) out
]

-- The message that `read_at`, `peek_prefix` and `peek_size` look at, with the number they report:
-- none ahead of the newest, the newest for a cursor below the window, else the one at the offset.
unfoldable pub message_at : List Message → ℕ → Option Message
message_at [] seq = none
message_at ((oldest, payload) ∷ rest) seq = elim (get_last? ((oldest, payload) ∷ rest)) [
  | none ↦ none
  | some (newest, _) ↦
      let actual_seq = if ltb seq oldest then newest else seq in
      let found = get_elem? ((oldest, payload) ∷ rest) (actual_seq - oldest) in
      if ltb newest seq then none else Option.map (λ m. (actual_seq, m.1)) found
]

-- `read_at` leaves the queue as it is.
unfoldable pub read_at : SubscriberQueue → ℕ → List ℕ → Read
unfolding message_at
read_at q seq out = deliver out (message_at q.messages seq)

unfoldable pub data_available_from : SubscriberQueue → ℕ → Bool
data_available_from q seq = elim (get_last? q.messages) [
  | none ↦ false
  | some (newest, _) ↦ leb seq newest
]

unfoldable pub is_full : SubscriberQueue → Bool
is_full q = leb q.capacity q.len

unfoldable pub is_active : SubscriberQueue → Bool
is_active q = q.active

unfoldable pub message_size : SubscriberQueue → ℕ → Option ℕ
message_size q seq = elim q.messages [
  | [] ↦ none
  | (oldest, _) ∷ _ ↦
      if ltb seq oldest
      then Option.map (λ m. length m.1) (get_last? q.messages)
      else Option.map (λ m. length m.1) (get_elem? q.messages (seq - oldest))
]

-- `[0u8; 5]` with the first bytes of the payload copied in.
abbrev pub prefix_of : List ℕ → List ℕ
prefix_of raw = let head = take 5 raw in head ++ drop (length head) (0 ∷ 0 ∷ 0 ∷ 0 ∷ 0 ∷ [])

unfoldable pub peek_prefix : SubscriberQueue → ℕ → Option (List ℕ × ℕ)
unfolding message_at
peek_prefix q requested_seq =
    Option.map (λ m. (prefix_of m.1, m.0)) (message_at q.messages requested_seq)

unfoldable pub peek_size : SubscriberQueue → ℕ → Option (ℕ × ℕ)
unfolding message_at
peek_size q requested_seq =
    Option.map (λ m. (length m.1, m.0)) (message_at q.messages requested_seq)

unfoldable pub with_seq : ℕ → ℕ → SubscriberQueue
with_seq capacity start_seq = with_seq_and_mode capacity start_seq false

unfoldable pub with_capacity : ℕ → SubscriberQueue
with_capacity capacity = with_seq_and_mode capacity 0 false
