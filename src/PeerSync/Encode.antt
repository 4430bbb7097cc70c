-- ===== src/PeerSync/Encode.antt =====
-- The encoders: every integer little-endian, a string behind the 16 bits of its length, a list behind
-- the 32 bits of its own.
use rmw_axon.Prelude.{ℕ, ◌%◌, ◌^◌, List, [], ◌∷◌, ◌++◌, length}
use rmw_axon.Prelude.Bytes.{le_bytes}
use rmw_axon.PeerSync.{
  PeerTopicInfo, PeerNodeInfo, msg_sync_request, msg_sync_response, msg_ping, msg_pong,
}

-- `buf.extend(&(s.len() as u16).to_le_bytes()); buf.extend(s)`
unfoldable pub encode_string : List ℕ → List ℕ
encode_string s = le_bytes 2 (length s % 2 ^ 16) ++ s

-- The 48 bytes before the strings of a topic.
unfoldable pub encode_topic_header : PeerTopicInfo → List ℕ
encode_topic_header t =
    le_bytes 8 t.hash
    ++ (le_bytes 8 t.type_hash
        ++ (t.qos_reliability
            ∷ t.qos_durability
            ∷ t.qos_history_kind
            ∷ (le_bytes 4 t.qos_history_depth
                ++ (le_bytes 4 t.qos_deadline_sec
                    ++ (le_bytes 4 t.qos_deadline_nsec
                        ++ (le_bytes 4 t.qos_lifespan_sec
                            ++ (le_bytes 4 t.qos_lifespan_nsec
                                ++ (t.qos_liveliness
                                    ∷ (le_bytes 4 t.qos_liveliness_lease_sec
                                        ++ le_bytes 4 t.qos_liveliness_lease_nsec)))))))))

unfoldable pub encode_topic : PeerTopicInfo → List ℕ
encode_topic t =
    encode_topic_header t
    ++ (encode_string t.name
        ++ (encode_string t.topic_type
            ++ (encode_string t.node_name ++ encode_string t.node_namespace)))

unfoldable pub encode_topics : List PeerTopicInfo → List ℕ
encode_topics [] = []
encode_topics (t ∷ ts) = encode_topic t ++ encode_topics ts

unfoldable pub encode_addrs : List (List ℕ) → List ℕ
encode_addrs [] = []
encode_addrs (a ∷ as') = a ++ encode_addrs as'

unfoldable pub encode_node : PeerNodeInfo → List ℕ
encode_node n =
    le_bytes 8 n.node_id
    ++ (le_bytes 4 n.domain_id
        ++ (encode_string n.node_name
            ++ (encode_string n.node_namespace
                ++ (le_bytes 4 (length n.published_topics % 2 ^ 32)
                    ++ (encode_topics n.published_topics
                        ++ (le_bytes 4 (length n.subscribed_topics % 2 ^ 32)
                            ++ (encode_topics n.subscribed_topics
                                ++ (le_bytes 2 n.quic_port
                                    ++ (le_bytes 4 (length n.quic_addrs % 2 ^ 32)
                                        ++ encode_addrs n.quic_addrs)))))))))

unfoldable pub encode_nodes : List PeerNodeInfo → List ℕ
encode_nodes [] = []
encode_nodes (n ∷ ns) = encode_node n ++ encode_nodes ns

unfoldable pub encode_sync_response : ℕ → List PeerNodeInfo → List ℕ
encode_sync_response domain_id nodes =
    msg_sync_response
    ∷ (le_bytes 4 domain_id ++ (le_bytes 4 (length nodes % 2 ^ 32) ++ encode_nodes nodes))

unfoldable pub encode_sync_request : ℕ → List ℕ
encode_sync_request domain_id = msg_sync_request ∷ le_bytes 4 domain_id

unfoldable pub encode_sync_request_with_nodes : ℕ → ℕ → List PeerNodeInfo → List ℕ
encode_sync_request_with_nodes domain_id daemon_id nodes =
    encode_sync_request domain_id ++ (le_bytes 8 daemon_id ++ encode_sync_response domain_id nodes)

unfoldable pub encode_ping : List ℕ
encode_ping = msg_ping ∷ []

unfoldable pub encode_pong : List ℕ
encode_pong = msg_pong ∷ []
