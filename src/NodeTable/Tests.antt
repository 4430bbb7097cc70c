-- ===== src/NodeTable/Tests.antt =====
-- Merges into small tables, and the theorems of the table at concrete ones.
use rmw_axon.Prelude.{ℕ, ◌≤◌, ◌≡◌, refl, ◌≢◌, false, none, some, [], ◌∷◌, map, arith, replicate}
use rmw_axon.Prelude.Texts.{any, position}
use rmw_axon.PeerSync.{PeerNodeInfo}
use rmw_axon.NodeTable.{
  default_topic, ShmDiscovery, active, clear_node_entry, no_match, find_slot_by_node_id,
  find_free_slot,
}
use rmw_axon.NodeTable.Merge.{
  merge_remote_nodes, merge_loop, merge_node, remove_matches, remove_matches_for_node,
  remove_matches_for_nodes, clear_stale, written_node,
}
use rmw_axon.Qos.{
  QosProfile, reliable, volatile, keep_last, automatic, manual_by_topic, default_max_message_size,
  qos_profiles_compatible,
}
use rmw_axon.NodeTable.Fields.{
  qos_to_entry_fields, entry_fields_to_qos, with_fields, topic_entry_qos_compatible,
}
use rmw_axon.NodeTable.SameQos.{
  IsWritable, topic_entry_qos_compatible-with_fields, entry_fields_to_qos-qos_to_entry_fields,
}
use rmw_axon.NodeTable.Announced.{UniqueNodes, is_left}
use rmw_axon.NodeTable.Merged.{merge_remote_nodes-UniqueNodes}
use rmw_axon.NodeTable.Room.{AllShown, free_slots, merge_remote_nodes-AllShown}

abbrev node : ℕ → PeerNodeInfo
node id = record {
  node_id = id;
  domain_id = 0;
  published_topics = [];
  subscribed_topics = [];
  quic_port = 7411;
  quic_addrs = (10 ∷ 0 ∷ 0 ∷ 1 ∷ []) ∷ [];
  node_name = 0x61 ∷ [];
  node_namespace = 0x2f ∷ [];
}

-- A node of this machine, with a match with the node 8, which the daemon 5 announced before.
abbrev table : ShmDiscovery
table = record {
  generation = 1;
  node_table =
      record clear_node_entry {
        state = active;
        node_id = 3;
        match_count = 1;
        remote_matches = record no_match { node_id = 8 } ∷ replicate 2 no_match;
      }
      ∷ record clear_node_entry { state = active; node_id = 8; daemon_origin = 5 }
      ∷ clear_node_entry
      ∷ clear_node_entry
      ∷ [];
}

-- The daemon 5 announces 6 and 7: the node 8 goes, and so does the match with it.
merged :
    let t = (merge_remote_nodes table 5 100 (node 6 ∷ node 7 ∷ [])).node_table in
    (map (λ e. e.node_id) t ≡ 3 ∷ 6 ∷ 7 ∷ 0 ∷ [])
    × (map (λ e. e.match_count) t ≡ 0 ∷ 0 ∷ 0 ∷ 0 ∷ [])
    × (map (λ e. e.last_seen_secs) t ≡ 0 ∷ 100 ∷ 100 ∷ 0 ∷ [])
unfolding merge_remote_nodes merge_loop merge_node remove_matches remove_matches_for_node
    remove_matches_for_nodes clear_stale written_node find_slot_by_node_id find_free_slot position
    clear_node_entry no_match
merged = (refl, refl, refl)

table-UniqueNodes : UniqueNodes table.node_table
unfolding clear_node_entry
table-UniqueNodes k = ground arith

abbrev daemon : ℕ
daemon = 5

daemon_5 : daemon ≢ 0
daemon_5 e = cc

merge_remote_nodes-UniqueNodes_example :
    let t = (merge_remote_nodes table 5 100 (node 6 ∷ node 7 ∷ [])).node_table in
    UniqueNodes t × (any (is_left 5 (6 ∷ 7 ∷ [])) t ≡ false)
merge_remote_nodes-UniqueNodes_example =
    merge_remote_nodes-UniqueNodes table 5 100 (node 6 ∷ node 7 ∷ []) daemon_5 table-UniqueNodes

apart : (node 7).node_id ≢ (node 6).node_id
apart e = cc

room : 2 ≤ free_slots table.node_table
unfolding clear_node_entry
room = omega arith

merge_remote_nodes-AllShown_example :
    AllShown 5 100
      (merge_remote_nodes table 5 100 (node 6 ∷ node 7 ∷ [])).node_table
      (node 6 ∷ node 7 ∷ [])
merge_remote_nodes-AllShown_example =
    merge_remote_nodes-AllShown table 5 100 (node 6 ∷ node 7 ∷ []) daemon_5 ((apart, tt), (tt, tt))
      room

abbrev offered : QosProfile
offered = record {
  reliability = reliable;
  durability = volatile;
  history = keep_last 7;
  bandwidth_limit = none;
  max_message_size = default_max_message_size;
  deadline = some 1500000000;
  lifespan = none;
  liveliness = manual_by_topic;
  liveliness_lease_duration = some 2000000000;
}

abbrev requested : QosProfile
requested = record offered { deadline = some 1000000000; liveliness = automatic }

offered-IsWritable : IsWritable offered
offered-IsWritable = record {
  deadline = (omega arith, omega arith);
  lifespan = tt;
  lease = (omega arith, omega arith);
  known = tt;
}

requested-IsWritable : IsWritable requested
requested-IsWritable = record {
  deadline = (omega arith, omega arith);
  lifespan = tt;
  lease = (omega arith, omega arith);
  known = tt;
}

-- The publication may be later than the subscription asks for.
topic_entry_qos_compatible-with_fields_example :
    topic_entry_qos_compatible
      (with_fields (qos_to_entry_fields offered) default_topic)
      (with_fields (qos_to_entry_fields requested) default_topic)
    ≡ false
unfolding qos_profiles_compatible
topic_entry_qos_compatible-with_fields_example =
    topic_entry_qos_compatible-with_fields offered requested default_topic default_topic
      offered-IsWritable requested-IsWritable

entry_fields_to_qos-qos_to_entry_fields_example :
    entry_fields_to_qos (qos_to_entry_fields offered) ≡ offered
entry_fields_to_qos-qos_to_entry_fields_example =
    entry_fields_to_qos-qos_to_entry_fields offered offered-IsWritable (omega arith, omega arith)
