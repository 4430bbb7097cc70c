-- ===== src/PeerSync/Tests.antt =====
-- Runs of the codec, and its theorems at a concrete graph.
use rmw_axon.Prelude.{◌≡◌, refl, some, [], ◌∷◌, ◌++◌, arith}
use rmw_axon.Prelude.Bytes.{from_le_bytes, is_utf8}
use rmw_axon.Prelude.Results.{ok, err}
use rmw_axon.PeerSync.{PeerTopicInfo, PeerNodeInfo, IsTopic, IsNode}
use rmw_axon.PeerSync.Encode.{encode_sync_response, encode_sync_request_with_nodes}
use rmw_axon.PeerSync.Decode.{
  bad_sync_response, truncated_string, bad_utf8, read_string, decode_sync_response,
  decode_sync_request, decode_sync_request_push, sync_request_daemon_id,
}
use rmw_axon.PeerSync.RoundTrip.{decode-encode_sync_response, decode-encode_sync_request_with_nodes}

strings :
    (read_string (2 ∷ 0 ∷ 0x61 ∷ 0x62 ∷ 9 ∷ []) 0 ≡ ok (0x61 ∷ 0x62 ∷ [], 4))
    × (read_string (3 ∷ 0 ∷ 0x61 ∷ 0x62 ∷ []) 0 ≡ err truncated_string)
    × (read_string (2 ∷ 0 ∷ 0xc3 ∷ 0xa9 ∷ []) 0 ≡ ok (0xc3 ∷ 0xa9 ∷ [], 4))
    × (read_string (2 ∷ 0 ∷ 0xc0 ∷ 0x80 ∷ []) 0 ≡ err bad_utf8)
unfolding read_string from_le_bytes is_utf8
strings = (refl, refl, refl, refl)

short_response : decode_sync_response (2 ∷ 0 ∷ []) ≡ err bad_sync_response
unfolding decode_sync_response
short_response = refl

abbrev topic : PeerTopicInfo
topic = record {
  hash = 0x123456789;
  type_hash = 42;
  qos_reliability = 1;
  qos_durability = 0;
  qos_history_kind = 0;
  qos_history_depth = 10;
  qos_deadline_sec = 0;
  qos_deadline_nsec = 0;
  qos_lifespan_sec = 1;
  qos_lifespan_nsec = 500;
  qos_liveliness = 1;
  qos_liveliness_lease_sec = 0;
  qos_liveliness_lease_nsec = 0;
  name = 0x2f ∷ 0x63 ∷ [];
  topic_type = 0x53 ∷ [];
  node_name = 0x6e ∷ [];
  node_namespace = 0x2f ∷ [];
}

abbrev node : PeerNodeInfo
node = record {
  node_id = 7;
  domain_id = 3;
  published_topics = topic ∷ [];
  subscribed_topics = [];
  quic_port = 7400;
  quic_addrs = (10 ∷ 0 ∷ 0 ∷ 1 ∷ []) ∷ [];
  node_name = 0x6e ∷ [];
  node_namespace = 0x2f ∷ [];
}

topic-IsTopic : IsTopic topic
unfolding is_utf8
topic-IsTopic = record {
  hash_64 = omega arith;
  type_hash_64 = omega arith;
  depth_32 = omega arith;
  deadline_sec_32 = omega arith;
  deadline_nsec_32 = omega arith;
  lifespan_sec_32 = omega arith;
  lifespan_nsec_32 = omega arith;
  lease_sec_32 = omega arith;
  lease_nsec_32 = omega arith;
  name_str = record { utf8 = refl; short = omega arith };
  type_str = record { utf8 = refl; short = omega arith };
  node_name_str = record { utf8 = refl; short = omega arith };
  node_namespace_str = record { utf8 = refl; short = omega arith };
}

node-IsNode : IsNode node
unfolding is_utf8
node-IsNode = record {
  id_64 = omega arith;
  domain_32 = omega arith;
  port_16 = omega arith;
  published = (topic-IsTopic, tt);
  published_32 = omega arith;
  subscribed = tt;
  subscribed_32 = omega arith;
  addrs = (refl, tt);
  few_addrs = omega arith;
  name_str = record { utf8 = refl; short = omega arith };
  namespace_str = record { utf8 = refl; short = omega arith };
}

decode-encode_sync_response_example :
    decode_sync_response (encode_sync_response 3 (node ∷ []) ++ 0xff ∷ []) ≡ ok (3, node ∷ [])
decode-encode_sync_response_example =
    decode-encode_sync_response 3 (node ∷ []) (0xff ∷ []) (omega arith) (omega arith)
      (node-IsNode, tt)

decode-encode_sync_request_with_nodes_example :
    let buf = encode_sync_request_with_nodes 3 99 (node ∷ []) in
    (decode_sync_request buf ≡ ok 3)
    × (sync_request_daemon_id buf ≡ ok (some 99))
    × (decode_sync_request_push buf ≡ ok (some (99, node ∷ [])))
decode-encode_sync_request_with_nodes_example =
    decode-encode_sync_request_with_nodes 3 99 (node ∷ []) (omega arith) (omega arith) (omega arith)
      (node-IsNode, tt)
