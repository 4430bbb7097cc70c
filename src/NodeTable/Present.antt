-- ===== src/NodeTable/Present.antt =====
-- The nodes that a daemon announced are in the table after the merge, when there is room.
use rmw_axon.Prelude.{
  ℕ, zero, suc, ◌<◌, min, ◌≡◌, refl, sym, ap, ◌∙◌, ◌≢◌, inl, inr, false, ◌&&◌, List, [], ◌∷◌, map,
  arith, ltb, Bool-cases, Option-cases, length, take, subst, length-map, replicate, length-set,
  get_or-set_ne,
}
use rmw_axon.Prelude.Texts.{position_holds}
use rmw_axon.PeerSync.{PeerNodeInfo, PeerTopicInfo, max_quic_addrs}
use rmw_axon.NodeTable.{
  fill, NodeTableEntry, active, is_empty, clear_node_entry, is_node, is_active, max_matches,
  copy_str, max_name_len, max_topics_per_node, default_topic, topic_info_to_entry,
}
use rmw_axon.NodeTable.Merge.{
  topic_array, addr_array, kept_matches, node_at, remove_matches, remove_matches_for_node,
  written_node, merge_node, or_break, merge_loop,
}
use rmw_axon.NodeTable.Step.{get_or-map, Written, merge_node-Written, length-before}

-- What the entry says of the node that a daemon announced: its own fields, its first addresses and
-- topics, as many as an entry has room for, the daemon and the time of the merge. Its matches are left
-- open.
pub record Shows (origin now : ℕ) (node : PeerNodeInfo) (e : NodeTableEntry) : Type 0 where
  pub state : e.state ≡ active
  pub id : e.node_id ≡ node.node_id
  pub domain : e.domain_id ≡ node.domain_id
  pub pid : e.pid ≡ 0
  pub proc_starttime : e.proc_starttime ≡ 0
  pub port : e.quic_port ≡ node.quic_port
  pub addr_count : e.quic_addr_count ≡ min (length node.quic_addrs) max_quic_addrs
  pub addrs : take e.quic_addr_count e.quic_addrs ≡ take max_quic_addrs node.quic_addrs
  pub origin_is : e.daemon_origin ≡ origin
  pub last_seen : e.last_seen_secs ≡ now
  pub name : e.node_name ≡ copy_str max_name_len node.node_name
  pub namespace : e.node_namespace ≡ copy_str max_name_len node.node_namespace
  pub pub_count : e.pub_count ≡ min (length node.published_topics) max_topics_per_node
  pub published :
      take e.pub_count e.published_topics
      ≡ take max_topics_per_node (map topic_info_to_entry node.published_topics)
  pub sub_count : e.sub_count ≡ min (length node.subscribed_topics) max_topics_per_node
  pub subscribed :
      take e.sub_count e.subscribed_topics
      ≡ take max_topics_per_node (map topic_info_to_entry node.subscribed_topics)

take-fill :
    {A : Type 0} (n : ℕ) (x : A) (xs : List A) → take (min (length xs) n) (fill n x xs) ≡ take n xs
take-fill zero x xs =
    let none_left : min (length xs) 0 ≡ 0 = omega arith in
    ap (λ k. take k (fill zero x xs)) none_left
take-fill (suc n) x [] =
    let none_there : min 0 (suc n) ≡ 0 = omega arith in
    ap (λ k. take k (fill (suc n) x [])) none_there
take-fill (suc n) x (y ∷ ys) =
    let next : min (length (y ∷ ys)) (suc n) ≡ suc (min (length ys) n) = omega arith in
    ap (λ k. take k (fill (suc n) x (y ∷ ys))) next ∙ ap (λ r. y ∷ r) (take-fill n x ys)

take-topic_array :
    (ts : List PeerTopicInfo)
    → take (min (length ts) max_topics_per_node) (topic_array ts)
      ≡ take max_topics_per_node (map topic_info_to_entry ts)
unfolding topic_array
take-topic_array ts =
    ap (λ k. take (min k max_topics_per_node) (topic_array ts))
      (sym (length-map topic_info_to_entry ts))
    ∙ take-fill max_topics_per_node default_topic (map topic_info_to_entry ts)

pub written_node-Shows :
    (origin now : ℕ) (node : PeerNodeInfo) (e : NodeTableEntry)
    → Shows origin now node (written_node origin now node e)
unfolding written_node addr_array
written_node-Shows origin now node e = record {
  state = refl;
  id = refl;
  domain = refl;
  pid = refl;
  proc_starttime = refl;
  port = refl;
  addr_count = refl;
  addrs = take-fill max_quic_addrs (replicate 4 0) node.quic_addrs;
  origin_is = refl;
  last_seen = refl;
  name = refl;
  namespace = refl;
  pub_count = refl;
  published = take-topic_array node.published_topics;
  sub_count = refl;
  subscribed = take-topic_array node.subscribed_topics;
}

Shows-remove_matches :
    (origin now d : ℕ) (node : PeerNodeInfo) (e : NodeTableEntry)
    → Shows origin now node e
    → Shows origin now node (remove_matches d e)
unfolding remove_matches
Shows-remove_matches origin now d node e h =
    let n = min e.match_count max_matches in
    let kept = kept_matches d (take n e.remote_matches) in
    elim (Bool-cases (is_active e.state && ltb (length kept) n)) [
      | inl t ↦ rw t (record {
        state = h.state;
        id = h.id;
        domain = h.domain;
        pid = h.pid;
        proc_starttime = h.proc_starttime;
        port = h.port;
        addr_count = h.addr_count;
        addrs = h.addrs;
        origin_is = h.origin_is;
        last_seen = h.last_seen;
        name = h.name;
        namespace = h.namespace;
        pub_count = h.pub_count;
        published = h.published;
        sub_count = h.sub_count;
        subscribed = h.subscribed;
      })
      | inr f ↦ rw f h
    ]

one_slot :
    (origin now : ℕ) (n m : PeerNodeInfo) (e : NodeTableEntry)
    → Shows origin now n e
    → m.node_id ≢ n.node_id
    → is_node m.node_id e ≡ false
one_slot origin now n m e h ne = rw (h.state, h.id) (ground (arith, ne))

shown_state :
    (origin now : ℕ) (n : PeerNodeInfo) (e : NodeTableEntry)
    → Shows origin now n e
    → is_empty e.state ≡ false
shown_state origin now n e h = rw h.state refl

-- The write of one node leaves what the entry of another shows.
Shows-Written :
    (origin now : ℕ) (n m : PeerNodeInfo) (table table' : List NodeTableEntry) (i : ℕ)
    → Written origin now m table table'
    → m.node_id ≢ n.node_id
    → i < length table
    → Shows origin now n (node_at table i)
    → (i < length table') × Shows origin now n (node_at table' i)
unfolding remove_matches_for_node
Shows-Written origin now n m table table' i w ne room h =
    let same_length = length-before origin now m table table' w in
    let new = written_node origin now m w.entry in
    let apart : w.at ≢ i = λ at. elim w.place [
      | inl own ↦
          let mine = (position_holds (is_node m.node_id) table w.at clear_node_entry own).0 in
          let other = one_slot origin now n m (node_at table i) h ne in cc (mine, other, at)
      | inr (_, free) ↦
          let used = shown_state origin now n (node_at table i) h in
          cc (free, used, ap (λ j. is_empty (node_at table j).state) at)
    ] in
    let before : Shows origin now n (node_at w.before i) = elim w.unmatched [
      | inl e ↦ subst (λ t. Shows origin now n (node_at t i)) (sym e) h
      | inr e ↦
          subst (λ t. Shows origin now n (node_at t i)) (sym e)
            (subst (Shows origin now n)
              (sym (get_or-map (remove_matches m.node_id) table i clear_node_entry room))
              (Shows-remove_matches origin now m.node_id n (node_at table i) h))
    ] in
    let at' =
      ap (λ t. node_at t i) w.written ∙ get_or-set_ne w.before w.at i new clear_node_entry apart in
    (
      omega (arith, room, same_length, ap length w.written, length-set w.before w.at new),
      subst (Shows origin now n) (sym at') before,
    )

abbrev pub Apart : PeerNodeInfo → List PeerNodeInfo → Type 0
Apart n [] = Unit
Apart n (m ∷ ms) = (m.node_id ≢ n.node_id) × Apart n ms

-- No two nodes of a list have one ID.
abbrev pub Distinct : List PeerNodeInfo → Type 0
Distinct [] = Unit
Distinct (n ∷ ns) = Apart n ns × Distinct ns

-- A node's entry, in a table.
abbrev pub ShownIn : ℕ → ℕ → List NodeTableEntry → PeerNodeInfo → Type 0
ShownIn origin now table n = (i : ℕ) × (i < length table) × Shows origin now n (node_at table i)

pub ShownIn-merge_loop :
    (origin now : ℕ) (n : PeerNodeInfo) (ms : List PeerNodeInfo) (table : List NodeTableEntry)
    → Apart n ms
    → ShownIn origin now table n
    → ShownIn origin now (merge_loop origin now ms table) n
unfolding merge_loop
ShownIn-merge_loop origin now n [] table apart h = h
ShownIn-merge_loop origin now n (m ∷ ms) table apart (i, room, h) =
    elim (Option-cases (merge_node origin now m table)) [
      | inl broke ↦
          subst (λ o. ShownIn origin now (or_break o table (merge_loop origin now ms)) n)
            (sym broke) (i, room, h)
      | inr (table', step) ↦
          let w = merge_node-Written origin now m table table' step in
          let kept = Shows-Written origin now n m table table' i w apart.0 room h in
          subst (λ o. ShownIn origin now (or_break o table (merge_loop origin now ms)) n) (sym step)
            (ShownIn-merge_loop origin now n ms table' apart.1 (i, kept.0, kept.1))
    ]
