-- ===== src/PeerSync/Decode.antt =====
-- The decoders, over a buffer and an offset that each reader checks before it reads.
use rmw_axon.Prelude.{
  ℕ, zero, suc, ◌+◌, ◌*◌, min, ◌||◌, not, Option, none, some, List, [], ◌∷◌, ltb, ◌==◌,
  if◌then◌else◌, length, drop, get_or,
}
use rmw_axon.Prelude.Bytes.{from_le_bytes, slice, is_utf8}
use rmw_axon.Prelude.Results.{Result, ok, err, ◌>>=◌}
use rmw_axon.PeerSync.{
  PeerTopicInfo, PeerNodeInfo, msg_sync_request, msg_sync_response, max_quic_addrs,
}

pub data SyncError : Type 0 where
  bad_sync_request truncated_daemon_id bad_sync_request_push bad_sync_response : SyncError
  truncated_len truncated_string bad_utf8 truncated_topic truncated_node_header : SyncError
  truncated_pub_count truncated_sub_count truncated_endpoint : SyncError
  truncated_addr_count truncated_addrs : SyncError

-- `if off + n > buf.len() { return Err(e) }`
abbrev pub check_room : List ℕ → ℕ → ℕ → SyncError → Result SyncError (Unit {0})
check_room buf off n e = if ltb (length buf) (off + n) then err e else ok tt

infixl 5 ◌>>◌
abbrev ◌>>◌ {ℓ} :
    {B : Type ℓ} → Result SyncError (Unit {0}) → Result SyncError B → Result SyncError B
m >> k = m >>= λ _. k

unfoldable pub read_string : List ℕ → ℕ → Result SyncError (List ℕ × ℕ)
read_string buf off = do
  check_room buf off 2 truncated_len
  let len = from_le_bytes (slice buf off 2)
  check_room buf (off + 2) len truncated_string
  let s = slice buf (off + 2) len
  if is_utf8 s then ok (s, off + 2 + len) else err bad_utf8

-- The fixed part of a topic, its strings being filled in afterwards.
abbrev pub topic_header : List ℕ → ℕ → List ℕ → List ℕ → List ℕ → List ℕ → PeerTopicInfo
topic_header buf off name topic_type node_name node_namespace = record {
  hash = from_le_bytes (slice buf off 8);
  type_hash = from_le_bytes (slice buf (off + 8) 8);
  qos_reliability = get_or buf (off + 16) 0;
  qos_durability = get_or buf (off + 17) 0;
  qos_history_kind = get_or buf (off + 18) 0;
  qos_history_depth = from_le_bytes (slice buf (off + 19) 4);
  qos_deadline_sec = from_le_bytes (slice buf (off + 23) 4);
  qos_deadline_nsec = from_le_bytes (slice buf (off + 27) 4);
  qos_lifespan_sec = from_le_bytes (slice buf (off + 31) 4);
  qos_lifespan_nsec = from_le_bytes (slice buf (off + 35) 4);
  qos_liveliness = get_or buf (off + 39) 0;
  qos_liveliness_lease_sec = from_le_bytes (slice buf (off + 40) 4);
  qos_liveliness_lease_nsec = from_le_bytes (slice buf (off + 44) 4);
  name = name;
  topic_type = topic_type;
  node_name = node_name;
  node_namespace = node_namespace;
}

unfoldable pub read_topic : List ℕ → ℕ → Result SyncError (PeerTopicInfo × ℕ)
read_topic buf off = do
  check_room buf off 48 truncated_topic
  (name, off₁) ← read_string buf (off + 48)
  (topic_type, off₂) ← read_string buf off₁
  (node_name, off₃) ← read_string buf off₂
  (node_namespace, off₄) ← read_string buf off₃
  ok (topic_header buf off name topic_type node_name node_namespace, off₄)

-- `for _ in 0..count { topics.push(read_topic(buf, &mut off)?) }`
unfoldable pub read_topics : ℕ → List ℕ → ℕ → Result SyncError (List PeerTopicInfo × ℕ)
read_topics zero buf off = ok ([], off)
read_topics (suc count) buf off = do
  (topic, off₁) ← read_topic buf off
  (topics, off₂) ← read_topics count buf off₁
  ok (topic ∷ topics, off₂)

-- The loop over the addresses, behind the check that they are all there.
unfoldable pub read_addrs : ℕ → List ℕ → ℕ → List (List ℕ) × ℕ
read_addrs zero buf off = ([], off)
read_addrs (suc limit) buf off =
    let (rest, end) = read_addrs limit buf (off + 4) in (slice buf off 4 ∷ rest, end)

unfoldable pub read_node : List ℕ → ℕ → Result SyncError (PeerNodeInfo × ℕ)
read_node buf off = do
  check_room buf off 12 truncated_node_header
  let node_id = from_le_bytes (slice buf off 8)
  let domain_id = from_le_bytes (slice buf (off + 8) 4)
  (node_name, off₁) ← read_string buf (off + 12)
  (node_namespace, off₂) ← read_string buf off₁
  check_room buf off₂ 4 truncated_pub_count
  (published_topics, off₃) ← read_topics (from_le_bytes (slice buf off₂ 4)) buf (off₂ + 4)
  check_room buf off₃ 4 truncated_sub_count
  (subscribed_topics, off₄) ← read_topics (from_le_bytes (slice buf off₃ 4)) buf (off₃ + 4)
  check_room buf off₄ 6 truncated_endpoint
  let quic_port = from_le_bytes (slice buf off₄ 2)
  check_room buf (off₄ + 2) 4 truncated_addr_count
  let limit = min (from_le_bytes (slice buf (off₄ + 2) 4)) max_quic_addrs
  check_room buf (off₄ + 2 + 4) (limit * 4) truncated_addrs
  let addrs = read_addrs limit buf (off₄ + 2 + 4)
  ok (
    record {
      node_id = node_id;
      domain_id = domain_id;
      published_topics = published_topics;
      subscribed_topics = subscribed_topics;
      quic_port = quic_port;
      quic_addrs = addrs.0;
      node_name = node_name;
      node_namespace = node_namespace;
    },
    addrs.1,
  )

unfoldable pub read_nodes : ℕ → List ℕ → ℕ → Result SyncError (List PeerNodeInfo × ℕ)
read_nodes zero buf off = ok ([], off)
read_nodes (suc count) buf off = do
  (node, off₁) ← read_node buf off
  (nodes, off₂) ← read_nodes count buf off₁
  ok (node ∷ nodes, off₂)

-- Bytes behind the last node are not looked at.
unfoldable pub decode_sync_response : List ℕ → Result SyncError (ℕ × List PeerNodeInfo)
decode_sync_response buf =
    if ltb (length buf) 9 || not (get_or buf 0 0 == msg_sync_response)
    then err bad_sync_response
    else do
      (nodes, off) ← read_nodes (from_le_bytes (slice buf 5 4)) buf 9
      ok (from_le_bytes (slice buf 1 4), nodes)

unfoldable pub decode_sync_request : List ℕ → Result SyncError ℕ
decode_sync_request buf =
    if ltb (length buf) 5 || not (get_or buf 0 0 == msg_sync_request)
    then err bad_sync_request
    else ok (from_le_bytes (slice buf 1 4))

unfoldable pub sync_request_daemon_id : List ℕ → Result SyncError (Option ℕ)
sync_request_daemon_id buf =
    if ltb (length buf) 5 || not (get_or buf 0 0 == msg_sync_request)
    then err bad_sync_request
    else if length buf == 5
    then ok none
    else if ltb (length buf) 13
    then err truncated_daemon_id
    else ok (some (from_le_bytes (slice buf 5 8)))

unfoldable pub decode_sync_request_push : List ℕ → Result SyncError (Option (ℕ × List PeerNodeInfo))
decode_sync_request_push buf =
    if length buf == 5
    then ok none
    else if ltb (length buf) 14 || not (get_or buf 0 0 == msg_sync_request)
    then err bad_sync_request_push
    else do
      (domain_id, nodes) ← decode_sync_response (drop 13 buf)
      ok (some (from_le_bytes (slice buf 5 8), nodes))
