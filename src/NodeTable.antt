-- ===== src/NodeTable.antt =====
-- axon_core/src/daemon/discovery_shm.rs and peer_sync.rs: the table of nodes that a daemon keeps in shared
-- memory. An array is a list of its length, a generation wraps at 64 bits, and the wake-ups of those
-- who wait for one are left out.
pub mod Merge
pub mod Step
pub mod Announced
pub mod Merged
pub mod Present
pub mod Room
pub mod Fields
pub mod SameQos
mod Tests
use rmw_axon.Prelude.{
  ℕ, zero, suc, ◌+◌, ◌-◌, ◌*◌, ◌/◌, ◌%◌, ◌^◌, ◌≤◌, ◌<◌, min, max, ◌≡◌, refl, sym, ap, ◌∙◌, ◌≢◌, ◌↔◌,
  ◌⊎◌, inl, inr, Bool, true, false, ◌&&◌, ◌||◌, not, Option, none, some, List, [], ◌∷◌, ◌++◌, map,
  append_assoc, append-nil, arith, ltb, leb, ◌==◌, if◌then◌else◌, ltb→lt, lt→ltb, leb→le, le→leb,
  le→ltb_false, lt→leb_false, ==_iff, ==_self, Bool-cases, Option-cases, length, get_elem?, take,
  drop, get_last?, length-append, take-append, drop-append, length-take, length-drop,
  get_elem?-none, get_elem?-append_here, get_elem?-append_left, get_last?-append, drop-nil,
  drop-cons, drop_none, List-cases, subst, get_elem?-drop, drop-drop, drop-append_le, length-map,
  get_last?-cons, lt-of-get_elem?, get_or, set, replicate, length-set, length-replicate,
  get_or-set_self, get_or-set_ne, get_elem?-append_right,
}
use rmw_axon.Prelude.Texts.{position, bytes_eq}
use rmw_axon.PeerSync.{PeerTopicInfo, PeerNodeInfo, max_quic_addrs}

abbrev pub max_topics_per_node : ℕ
max_topics_per_node = 256

abbrev pub max_matches : ℕ
max_matches = 1024

-- `MAX_TOPIC_NAME_LEN`, `MAX_TOPIC_TYPE_LEN`, `MAX_NODE_NAME_LEN` and `MAX_NODE_NS_LEN`.
abbrev pub max_name_len : ℕ
max_name_len = 128

pub record TopicEntry : Type 0 where
  pub hash : ℕ
  pub type_hash : ℕ
  pub qos_reliability : ℕ
  pub qos_durability : ℕ
  pub qos_history_kind : ℕ
  pub qos_history_depth : ℕ
  pub qos_deadline_sec : ℕ
  pub qos_deadline_nsec : ℕ
  pub qos_lifespan_sec : ℕ
  pub qos_lifespan_nsec : ℕ
  pub qos_liveliness : ℕ
  pub qos_liveliness_lease_sec : ℕ
  pub qos_liveliness_lease_nsec : ℕ
  pub topic_name : List ℕ
  pub topic_type : List ℕ
  pub node_name : List ℕ
  pub node_namespace : List ℕ

pub record MatchEntry : Type 0 where
  pub node_id : ℕ
  pub topic_hash : ℕ
  pub port : ℕ
  pub addr : List ℕ

pub data SlotState : Type 0 where
  empty pending active leaving claiming : SlotState

pub record NodeTableEntry : Type 0 where
  pub state : SlotState
  pub domain_id : ℕ
  pub pid : ℕ
  pub proc_starttime : ℕ
  pub pub_count : ℕ
  pub sub_count : ℕ
  pub quic_port : ℕ
  pub match_count : ℕ
  pub node_id : ℕ
  pub response_gen : ℕ
  pub quic_addr_count : ℕ
  pub quic_addrs : List (List ℕ)
  pub daemon_origin : ℕ
  pub last_seen_secs : ℕ
  pub node_name : List ℕ
  pub node_namespace : List ℕ
  pub published_topics : List TopicEntry
  pub subscribed_topics : List TopicEntry
  pub remote_matches : List MatchEntry

pub record ShmDiscovery : Type 0 where
  pub generation : ℕ
  pub node_table : List NodeTableEntry

abbrev pub no_text : List ℕ
no_text = replicate max_name_len 0

unfoldable pub default_topic : TopicEntry
default_topic = record {
  hash = 0;
  type_hash = 0;
  qos_reliability = 0;
  qos_durability = 0;
  qos_history_kind = 0;
  qos_history_depth = 0;
  qos_deadline_sec = 0;
  qos_deadline_nsec = 0;
  qos_lifespan_sec = 0;
  qos_lifespan_nsec = 0;
  qos_liveliness = 0;
  qos_liveliness_lease_sec = 0;
  qos_liveliness_lease_nsec = 0;
  topic_name = no_text;
  topic_type = no_text;
  node_name = no_text;
  node_namespace = no_text;
}

unfoldable pub no_match : MatchEntry
no_match = record { node_id = 0; topic_hash = 0; port = 0; addr = replicate 4 0 }

abbrev pub is_empty : SlotState → Bool
is_empty empty = true
is_empty pending = false
is_empty active = false
is_empty leaving = false
is_empty claiming = false

abbrev pub is_active : SlotState → Bool
is_active active = true
is_active empty = false
is_active pending = false
is_active leaving = false
is_active claiming = false

-- The array filled from a list, as far as both go, the rest with a default.
abbrev pub fill {ℓ} : {A : Type ℓ} → ℕ → A → List A → List A
fill zero d xs = []
fill (suc n) d [] = d ∷ fill n d []
fill (suc n) d (x ∷ xs) = x ∷ fill n d xs

unfoldable pub copy_str : ℕ → List ℕ → List ℕ
copy_str n value = fill n 0 (take (min (length value) (n - 1)) value)

unfoldable pub topic_info_to_entry : PeerTopicInfo → TopicEntry
topic_info_to_entry t = record {
  hash = t.hash;
  type_hash = t.type_hash;
  qos_reliability = t.qos_reliability;
  qos_durability = t.qos_durability;
  qos_history_kind = t.qos_history_kind;
  qos_history_depth = t.qos_history_depth;
  qos_deadline_sec = t.qos_deadline_sec;
  qos_deadline_nsec = t.qos_deadline_nsec;
  qos_lifespan_sec = t.qos_lifespan_sec;
  qos_lifespan_nsec = t.qos_lifespan_nsec;
  qos_liveliness = t.qos_liveliness;
  qos_liveliness_lease_sec = t.qos_liveliness_lease_sec;
  qos_liveliness_lease_nsec = t.qos_liveliness_lease_nsec;
  topic_name = copy_str max_name_len t.name;
  topic_type = copy_str max_name_len t.topic_type;
  node_name = copy_str max_name_len t.node_name;
  node_namespace = copy_str max_name_len t.node_namespace;
}

unfoldable pub clear_node_entry : NodeTableEntry
clear_node_entry = record {
  state = empty;
  domain_id = 0;
  pid = 0;
  proc_starttime = 0;
  pub_count = 0;
  sub_count = 0;
  quic_port = 0;
  match_count = 0;
  node_id = 0;
  response_gen = 0;
  quic_addr_count = 0;
  quic_addrs = replicate max_quic_addrs (replicate 4 0);
  daemon_origin = 0;
  last_seen_secs = 0;
  node_name = no_text;
  node_namespace = no_text;
  published_topics = replicate max_topics_per_node default_topic;
  subscribed_topics = replicate max_topics_per_node default_topic;
  remote_matches = replicate max_matches no_match;
}

unfoldable pub find_free_slot : List NodeTableEntry → Option ℕ
find_free_slot table = position (λ e. is_empty e.state) table

abbrev pub is_node : ℕ → NodeTableEntry → Bool
is_node node_id e = not (is_empty e.state) && e.node_id == node_id

unfoldable pub find_slot_by_node_id : List NodeTableEntry → ℕ → Option ℕ
find_slot_by_node_id table node_id = position (is_node node_id) table
