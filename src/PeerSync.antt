-- ===== src/PeerSync.antt =====
-- axon_core/src/daemon/peer_sync.rs: the messages by which two daemons exchange their graphs, and the
-- structures that they carry. A string is its bytes, an `i32` its bit pattern, an address 4 bytes.
pub mod Encode
pub mod Decode
pub mod TopicTrip
pub mod NodeTrip
pub mod RoundTrip
mod Tests
use rmw_axon.Prelude.{
  ℕ, zero, suc, ◌+◌, ◌-◌, ◌*◌, ◌/◌, ◌%◌, ◌^◌, ◌≤◌, ◌<◌, min, max, ◌≡◌, refl, sym, ap, ◌∙◌, ◌≢◌, ◌↔◌,
  ◌⊎◌, inl, inr, Bool, true, false, ◌&&◌, ◌||◌, not, Option, none, some, List, [], ◌∷◌, ◌++◌, map,
  append_assoc, append-nil, arith, ltb, leb, ◌==◌, if◌then◌else◌, ltb→lt, lt→ltb, leb→le, le→leb,
  le→ltb_false, lt→leb_false, ==_iff, ==_self, Bool-cases, Option-cases, length, get_elem?, take,
  drop, get_last?, length-append, take-append, drop-append, length-take, length-drop,
  get_elem?-none, get_elem?-append_here, get_elem?-append_left, get_last?-append, drop-nil,
  drop-cons, drop_none, List-cases, subst, get_elem?-drop, drop-drop, drop-append_le, length-map,
  get_last?-cons, lt-of-get_elem?, get_or, set, replicate, length-set, length-replicate,
  get_or-set_self, get_or-set_ne, get_elem?-append_right,
}
use rmw_axon.Prelude.Bytes.{is_utf8}

abbrev pub msg_sync_request : ℕ
msg_sync_request = 0x01

abbrev pub msg_sync_response : ℕ
msg_sync_response = 0x02

abbrev pub msg_ping : ℕ
msg_ping = 0x04

abbrev pub msg_pong : ℕ
msg_pong = 0x05

-- `MAX_QUIC_ADDRS` of discovery_shm.rs.
abbrev pub max_quic_addrs : ℕ
max_quic_addrs = 8

pub record PeerTopicInfo : Type 0 where
  pub hash : ℕ
  pub type_hash : ℕ
  pub qos_reliability : ℕ
  pub qos_durability : ℕ
  pub qos_history_kind : ℕ
  pub qos_history_depth : ℕ
  pub qos_deadline_sec : ℕ
  pub qos_deadline_nsec : ℕ
  pub qos_lifespan_sec : ℕ
  pub qos_lifespan_nsec : ℕ
  pub qos_liveliness : ℕ
  pub qos_liveliness_lease_sec : ℕ
  pub qos_liveliness_lease_nsec : ℕ
  pub name : List ℕ
  pub topic_type : List ℕ
  pub node_name : List ℕ
  pub node_namespace : List ℕ

pub record PeerNodeInfo : Type 0 where
  pub node_id : ℕ
  pub domain_id : ℕ
  pub published_topics : List PeerTopicInfo
  pub subscribed_topics : List PeerTopicInfo
  pub quic_port : ℕ
  pub quic_addrs : List (List ℕ)
  pub node_name : List ℕ
  pub node_namespace : List ℕ

-- What Rust's types say of these values, and the 16 bits that a string's length is sent in.
pub record IsString (s : List ℕ) : Type 0 where
  pub utf8 : is_utf8 s ≡ true
  pub short : length s < 2 ^ 16

pub record IsTopic (t : PeerTopicInfo) : Type 0 where
  pub hash_64 : t.hash < 2 ^ 64
  pub type_hash_64 : t.type_hash < 2 ^ 64
  pub depth_32 : t.qos_history_depth < 2 ^ 32
  pub deadline_sec_32 : t.qos_deadline_sec < 2 ^ 32
  pub deadline_nsec_32 : t.qos_deadline_nsec < 2 ^ 32
  pub lifespan_sec_32 : t.qos_lifespan_sec < 2 ^ 32
  pub lifespan_nsec_32 : t.qos_lifespan_nsec < 2 ^ 32
  pub lease_sec_32 : t.qos_liveliness_lease_sec < 2 ^ 32
  pub lease_nsec_32 : t.qos_liveliness_lease_nsec < 2 ^ 32
  pub name_str : IsString t.name
  pub type_str : IsString t.topic_type
  pub node_name_str : IsString t.node_name
  pub node_namespace_str : IsString t.node_namespace

abbrev pub All {ℓ κ} : {A : Type ℓ} → (A → Type κ) → List A → Type κ
All P [] = Unit
All P (x ∷ xs) = P x × All P xs

pub record IsNode (n : PeerNodeInfo) : Type 0 where
  pub id_64 : n.node_id < 2 ^ 64
  pub domain_32 : n.domain_id < 2 ^ 32
  pub port_16 : n.quic_port < 2 ^ 16
  pub published : All IsTopic n.published_topics
  pub published_32 : length n.published_topics < 2 ^ 32
  pub subscribed : All IsTopic n.subscribed_topics
  pub subscribed_32 : length n.subscribed_topics < 2 ^ 32
  pub addrs : All (λ a. length a ≡ 4) n.quic_addrs
  pub few_addrs : length n.quic_addrs ≤ max_quic_addrs
  pub name_str : IsString n.node_name
  pub namespace_str : IsString n.node_namespace
