-- ===== src/SubscriberQueue/Tests.antt =====
-- Runs of the queue, and its theorems at concrete queues.
use rmw_axon.Prelude.{ℕ, ◌≡◌, refl, true, false, none, some, List, [], ◌∷◌, arith}
use rmw_axon.SubscriberQueue.{
  SubscriberQueue, with_seq_and_mode, evict, push, remove_range, take_newest, take_at, try_take,
  timestamp_for, message_at, read_at, data_available_from, is_full, message_size, peek_prefix,
  peek_size,
}
use rmw_axon.SubscriberQueue.Inv.{is_some, IsValid}
use rmw_axon.SubscriberQueue.Push.{push-IsValid}
use rmw_axon.SubscriberQueue.Take.{try_take-IsValid, timestamp_for-try_take}
use rmw_axon.SubscriberQueue.Refine.{push_all, published-Holds, read_at-push_all}
use rmw_axon.SubscriberQueue.Ready.{read_at-ready}
use rmw_axon.SubscriberQueue.KeepAll.{refused_taken_pushed, keep_all_gap}
use rmw_axon.Prelude.Maps.{lookup, remove, insert}

abbrev payloads : List (List ℕ × ℕ)
payloads = (1 ∷ 2 ∷ [], 10) ∷ (3 ∷ [], 20) ∷ (4 ∷ 5 ∷ 6 ∷ [], 30) ∷ []

abbrev queue : SubscriberQueue
queue = push_all (with_seq_and_mode 2 7 false) payloads

abbrev out : List ℕ
out = 0 ∷ 0 ∷ 0 ∷ 0 ∷ []

queue_messages : queue.messages ≡ (8, 3 ∷ []) ∷ (9, 4 ∷ 5 ∷ 6 ∷ []) ∷ []
unfolding with_seq_and_mode push evict
queue_messages = refl

queue_takes :
    ((try_take queue 8 out).0 ≡ (some (1, 8), 3 ∷ 0 ∷ 0 ∷ 0 ∷ []))
    × ((try_take queue 9 out).0 ≡ (some (3, 9), 4 ∷ 5 ∷ 6 ∷ 0 ∷ []))
    × ((try_take queue 9 out).1.messages ≡ [])
    × ((try_take queue 10 out).0 ≡ (none, out))
    × ((try_take queue 0 out).0 ≡ (some (3, 9), 4 ∷ 5 ∷ 6 ∷ 0 ∷ []))
    × ((try_take queue 9 []).0 ≡ (some (3, 9), []))
unfolding with_seq_and_mode push evict try_take take_newest take_at remove_range
queue_takes = (refl, refl, refl, refl, refl, refl)

queue_peeks :
    (peek_prefix queue 9 ≡ some (4 ∷ 5 ∷ 6 ∷ 0 ∷ 0 ∷ [], 9))
    × (peek_size queue 3 ≡ some (3, 9))
    × (message_size queue 8 ≡ some 1)
    × (is_full queue ≡ true)
    × (data_available_from queue 10 ≡ false)
unfolding with_seq_and_mode push evict peek_prefix peek_size message_at message_size is_full
    data_available_from
queue_peeks = (refl, refl, refl, refl, refl)

queue-IsValid : IsValid queue
queue-IsValid = (published-Holds 2 7 payloads (omega arith)).valid

read_at-push_all_example : read_at queue 7 out ≡ (some (3, 9), 4 ∷ 5 ∷ 6 ∷ 0 ∷ [])
read_at-push_all_example = read_at-push_all 2 7 payloads 7 out (omega arith)

push-IsValid_example : (10 ≡ queue.next_seq) × IsValid (push queue (5 ∷ []) 40).1
unfolding with_seq_and_mode push evict
push-IsValid_example = push-IsValid queue (5 ∷ []) 40 queue-IsValid (omega arith) refl

try_take-IsValid_example : IsValid (try_take queue 9 out).1
try_take-IsValid_example = try_take-IsValid queue 9 out queue-IsValid

timestamp_for-try_take_example : timestamp_for (try_take queue 9 out).1 9 ≡ none
unfolding with_seq_and_mode push evict try_take take_newest take_at remove_range
timestamp_for-try_take_example = timestamp_for-try_take queue 9 out queue-IsValid refl (omega arith)

read_at-ready_example :
    (data_available_from queue 3 ≡ is_some (read_at queue 3 out).0)
    × (peek_size queue 3 ≡ (read_at queue 3 out).0)
read_at-ready_example = read_at-ready queue 3 out queue-IsValid

-- Two places, both taken.
abbrev full_queue : SubscriberQueue
full_queue = record {
  messages = (4, 1 ∷ []) ∷ (5, 2 ∷ []) ∷ [];
  capacity = 2;
  next_seq = 6;
  len = 2;
  active = true;
  keep_all = true;
  timestamps = insert 5 20 (insert 4 10 []);
}

full_queue-IsValid : IsValid full_queue
unfolding lookup insert remove
full_queue-IsValid = record {
  room = omega arith;
  bounded = omega arith;
  counted = refl;
  numbered = omega arith;
  in_order = (refl, (refl, tt));
  stamped = λ k. ground arith;
}

keep_all_gap_example :
    let q' = refused_taken_pushed full_queue (7 ∷ []) out (8 ∷ 9 ∷ []) 30 40 in
    (message_at q'.messages 6 ≡ some (6, 8 ∷ 9 ∷ []))
    × (message_at q'.messages 7 ≡ none)
    × (data_available_from q' 7 ≡ true)
keep_all_gap_example =
    keep_all_gap full_queue (7 ∷ []) out (8 ∷ 9 ∷ []) 30 40 full_queue-IsValid refl refl
      (omega arith) (omega arith) refl (omega arith)
