-- ===== src/NodeTable/Merge.antt =====
-- axon_core/src/daemon/peer_sync.rs: what a daemon does with the nodes that another one announces. The
-- time is an argument. The loop that moves the kept matches to the front is `kept_matches`.
use rmw_axon.Prelude.{
  ℕ, ◌+◌, ◌-◌, ◌%◌, ◌^◌, min, Bool, true, false, ◌&&◌, ◌||◌, not, Option, none, some, List, [], ◌∷◌,
  ◌++◌, map, ltb, ◌==◌, if◌then◌else◌, length, take, drop, get_or, set, replicate,
}
use rmw_axon.Prelude.Texts.{any, bytes_eq}
use rmw_axon.PeerSync.{PeerTopicInfo, PeerNodeInfo, max_quic_addrs}
use rmw_axon.NodeTable.{
  max_topics_per_node, max_matches, max_name_len, TopicEntry, MatchEntry, active, NodeTableEntry,
  ShmDiscovery, default_topic, no_match, is_empty, is_active, fill, copy_str, topic_info_to_entry,
  clear_node_entry, find_free_slot, find_slot_by_node_id,
}

abbrev pub contains_id : ℕ → List ℕ → Bool
contains_id node_id ids = any (λ i. i == node_id) ids

abbrev pub kept_matches : ℕ → List MatchEntry → List MatchEntry
kept_matches dead [] = []
kept_matches dead (m ∷ ms) =
    let rest = kept_matches dead ms in if m.node_id == dead then rest else m ∷ rest

unfoldable pub remove_matches : ℕ → NodeTableEntry → NodeTableEntry
remove_matches dead e =
    let count = min e.match_count max_matches in
    let kept = kept_matches dead (take count e.remote_matches) in
    if is_active e.state && ltb (length kept) count
    then record e {
      match_count = length kept;
      remote_matches =
          kept ++ (replicate (count - length kept) no_match ++ drop count e.remote_matches);
      response_gen = (e.response_gen + 1) % 2 ^ 64;
    }
    else e

unfoldable pub remove_matches_for_node : ℕ → List NodeTableEntry → List NodeTableEntry
remove_matches_for_node dead table = map (remove_matches dead) table

unfoldable pub remove_matches_for_nodes : List ℕ → List NodeTableEntry → List NodeTableEntry
remove_matches_for_nodes [] table = table
remove_matches_for_nodes (dead ∷ ids) table =
    remove_matches_for_nodes ids (remove_matches_for_node dead table)

-- A node that its daemon no longer announces, or that another daemon announced before.
abbrev pub is_stale : ℕ → List ℕ → NodeTableEntry → Bool
is_stale origin ids e =
    not (is_empty e.state)
    && ((e.daemon_origin == origin && not (contains_id e.node_id ids))
        || (not (e.daemon_origin == 0)
            && (not (e.daemon_origin == origin) && contains_id e.node_id ids)))

unfoldable pub clear_stale : ℕ → List ℕ → List NodeTableEntry → List NodeTableEntry
clear_stale origin ids table =
    map (λ e. if is_stale origin ids e then clear_node_entry else e) table

abbrev pub cleared_node_ids : ℕ → List ℕ → List NodeTableEntry → List ℕ
cleared_node_ids origin ids [] = []
cleared_node_ids origin ids (e ∷ es) =
    let rest = cleared_node_ids origin ids es in
    if is_stale origin ids e && not (e.node_id == 0) then e.node_id ∷ rest else rest

abbrev pub topics_eq : TopicEntry → TopicEntry → Bool
topics_eq a b =
    (a.hash == b.hash)
    && (a.type_hash == b.type_hash
        && (a.qos_reliability == b.qos_reliability
            && (a.qos_durability == b.qos_durability
                && (a.qos_history_kind == b.qos_history_kind
                    && (a.qos_history_depth == b.qos_history_depth
                        && (a.qos_deadline_sec == b.qos_deadline_sec
                            && (a.qos_deadline_nsec == b.qos_deadline_nsec
                                && (a.qos_lifespan_sec == b.qos_lifespan_sec
                                    && (a.qos_lifespan_nsec == b.qos_lifespan_nsec
                                        && (a.qos_liveliness == b.qos_liveliness
                                            && (a.qos_liveliness_lease_sec
                                                  == b.qos_liveliness_lease_sec
                                                && (a.qos_liveliness_lease_nsec
                                                      == b.qos_liveliness_lease_nsec
                                                    && (bytes_eq a.topic_name b.topic_name
                                                        && (bytes_eq a.topic_type b.topic_type
                                                            && (bytes_eq a.node_name b.node_name
                                                            && bytes_eq a.node_namespace
                                                            b.node_namespace)))))))))))))))

-- `zip` and `all`.
abbrev pub all_topics_eq : List TopicEntry → List PeerTopicInfo → Bool
all_topics_eq [] ts = true
all_topics_eq (e ∷ es) [] = true
all_topics_eq (e ∷ es) (t ∷ ts) =
    let rest = all_topics_eq es ts in topics_eq e (topic_info_to_entry t) && rest

abbrev pub addrs_eq : List (List ℕ) → List (List ℕ) → Bool
addrs_eq [] [] = true
addrs_eq [] (y ∷ ys) = false
addrs_eq (x ∷ xs) [] = false
addrs_eq (x ∷ xs) (y ∷ ys) = let rest = addrs_eq xs ys in bytes_eq x y && rest

unfoldable pub peer_node_endpoints_match : NodeTableEntry → PeerNodeInfo → Bool
peer_node_endpoints_match e node =
    let addrs = min (length node.quic_addrs) max_quic_addrs in
    let pubs = min (length node.published_topics) max_topics_per_node in
    let subs = min (length node.subscribed_topics) max_topics_per_node in
    (e.domain_id == node.domain_id)
    && (e.quic_port == node.quic_port
        && (e.quic_addr_count == addrs
            && (addrs_eq (take e.quic_addr_count e.quic_addrs) (take addrs node.quic_addrs)
                && (e.pub_count == pubs
                    && (all_topics_eq (take pubs e.published_topics) node.published_topics
                        && (e.sub_count == subs
                            && all_topics_eq (take subs e.subscribed_topics)
                                node.subscribed_topics))))))

unfoldable pub topic_array : List PeerTopicInfo → List TopicEntry
topic_array ts = fill max_topics_per_node default_topic (map topic_info_to_entry ts)

unfoldable pub addr_array : List (List ℕ) → List (List ℕ)
addr_array addrs = fill max_quic_addrs (replicate 4 0) addrs

-- An entry with the node written; its matches and their generation stay.
unfoldable pub written_node : ℕ → ℕ → PeerNodeInfo → NodeTableEntry → NodeTableEntry
written_node origin now node e = record e {
  state = active;
  node_id = node.node_id;
  domain_id = node.domain_id;
  pid = 0;
  proc_starttime = 0;
  quic_port = node.quic_port;
  quic_addrs = addr_array node.quic_addrs;
  quic_addr_count = min (length node.quic_addrs) max_quic_addrs;
  daemon_origin = origin;
  last_seen_secs = now;
  node_name = copy_str max_name_len node.node_name;
  node_namespace = copy_str max_name_len node.node_namespace;
  pub_count = min (length node.published_topics) max_topics_per_node;
  published_topics = topic_array node.published_topics;
  sub_count = min (length node.subscribed_topics) max_topics_per_node;
  subscribed_topics = topic_array node.subscribed_topics;
}

abbrev pub node_at : List NodeTableEntry → ℕ → NodeTableEntry
node_at table i = get_or table i clear_node_entry

-- One announced node, at its own entry or at a free one; without either the loop ends.
abbrev pub merge_at :
    ℕ → ℕ → PeerNodeInfo → List NodeTableEntry → Option ℕ → Option ℕ → Option (List NodeTableEntry)
merge_at origin now node table (some i) free =
    let table' =
      if peer_node_endpoints_match (node_at table i) node
      then table
      else remove_matches_for_node node.node_id table in
    some (set table' i (written_node origin now node (node_at table' i)))
merge_at origin now node table none (some i) =
    some (set table i (written_node origin now node clear_node_entry))
merge_at origin now node table none none = none

unfoldable pub merge_node :
    ℕ → ℕ → PeerNodeInfo → List NodeTableEntry → Option (List NodeTableEntry)
merge_node origin now node table =
    merge_at origin now node table (find_slot_by_node_id table node.node_id) (find_free_slot table)

abbrev pub or_break :
    Option (List NodeTableEntry)
    → List NodeTableEntry
    → (List NodeTableEntry → List NodeTableEntry)
    → List NodeTableEntry
or_break none table next = table
or_break (some table') table next = next table'

unfoldable pub merge_loop : ℕ → ℕ → List PeerNodeInfo → List NodeTableEntry → List NodeTableEntry
merge_loop origin now [] table = table
merge_loop origin now (node ∷ nodes) table =
    or_break (merge_node origin now node table) table (merge_loop origin now nodes)

abbrev pub ids_of : List PeerNodeInfo → List ℕ
ids_of nodes = map (λ n. n.node_id) nodes

unfoldable pub merge_remote_nodes : ShmDiscovery → ℕ → ℕ → List PeerNodeInfo → ShmDiscovery
merge_remote_nodes shm origin now nodes =
    if origin == 0
    then shm
    else let ids = ids_of nodes in
      let table =
        remove_matches_for_nodes (cleared_node_ids origin ids shm.node_table)
          (clear_stale origin ids shm.node_table) in
      record {
        generation = (shm.generation + 1) % 2 ^ 64;
        node_table = merge_loop origin now nodes table;
      }
