-- ===== src/NodeTable/Room.antt =====
-- A merge with a free entry for every node ends with all of them in the table.
use rmw_axon.Prelude.{
  ℕ, ◌+◌, ◌≤◌, ◌<◌, ◌≡◌, refl, sym, ap, ◌∙◌, ◌≢◌, inl, inr, Bool, true, false, none, some, List, [],
  ◌∷◌, arith, ◌==◌, Bool-cases, Option-cases, length, subst, length-set, get_or-set_self,
}
use rmw_axon.Prelude.Texts.{position, count, count-set, count-position-none, one_if}
use rmw_axon.PeerSync.{PeerNodeInfo}
use rmw_axon.NodeTable.{
  NodeTableEntry, ShmDiscovery, is_empty, clear_node_entry, is_node, find_free_slot,
  find_slot_by_node_id,
}
use rmw_axon.NodeTable.Merge.{
  node_at, remove_matches, remove_matches_for_node, remove_matches_for_nodes, is_stale, clear_stale,
  cleared_node_ids, written_node, merge_at, merge_node, or_break, merge_loop, ids_of,
  merge_remote_nodes,
}
use rmw_axon.NodeTable.Step.{
  remove_matches-SameNode, count-map, Written, merge_node-Written, length-before,
}
use rmw_axon.NodeTable.Present.{Shows, written_node-Shows, ShownIn, ShownIn-merge_loop, Distinct}

-- The free entries of a table.
abbrev pub free_slots : List NodeTableEntry → ℕ
free_slots table = count (λ e. is_empty e.state) table

free_slots-remove_matches :
    (d : ℕ) (table : List NodeTableEntry)
    → free_slots (remove_matches_for_node d table) ≡ free_slots table
unfolding remove_matches_for_node
free_slots-remove_matches d table =
    count-map (λ e. is_empty e.state) (λ e. is_empty e.state) (remove_matches d) table
      (λ e. ap is_empty (remove_matches-SameNode d e).state)

written_node-state :
    (origin now : ℕ) (node : PeerNodeInfo) (e : NodeTableEntry)
    → is_empty (written_node origin now node e).state ≡ false
unfolding written_node
written_node-state origin now node e = refl

one_if-le : (b : Bool) → one_if (λ (e : NodeTableEntry). is_empty e.state) b ≤ 1
one_if-le true = omega arith
one_if-le false = omega arith

-- A node takes one free entry at most.
free_slots-Written :
    (origin now : ℕ) (node : PeerNodeInfo) (table table' : List NodeTableEntry)
    → Written origin now node table table'
    → free_slots table ≤ free_slots table' + 1
free_slots-Written origin now node table table' w =
    let same_length = length-before origin now node table table' w in
    let new = written_node origin now node w.entry in
    let change =
      count-set (λ e. is_empty e.state) w.before w.at new clear_node_entry
        (omega (arith, w.room, same_length)) in
    let before : free_slots w.before ≡ free_slots table = elim w.unmatched [
      | inl e ↦ ap free_slots e
      | inr e ↦ ap free_slots e ∙ free_slots-remove_matches node.node_id table
    ] in
    let used =
      ap (one_if (λ (e : NodeTableEntry). is_empty e.state))
        (written_node-state origin now node w.entry) in
    let most = one_if-le (is_empty (node_at w.before w.at).state) in
    omega (arith, change, before, used, most, ap free_slots w.written)

-- With a free entry, a node is merged.
merge_node_room :
    (origin now : ℕ) (node : PeerNodeInfo) (table : List NodeTableEntry)
    → 1 ≤ free_slots table
    → (table' : List NodeTableEntry) × (merge_node origin now node table ≡ some table')
unfolding merge_node find_slot_by_node_id find_free_slot
merge_node_room origin now node table room =
    elim (Option-cases (position (is_node node.node_id) table)) [
      | inr (i, at) ↦ (_, ap (λ o. merge_at origin now node table o (find_free_slot table)) at)
      | inl n ↦ elim (Option-cases (position (λ e. is_empty e.state) table)) [
        | inl m ↦ absurd (omega (arith, count-position-none (λ e. is_empty e.state) table m, room))
        | inr (i, m) ↦ (
          _,
          ap (λ o. merge_at origin now node table o (find_free_slot table)) n
              ∙ ap (merge_at origin now node table none) m,
        )
      ]
    ]

abbrev pub AllShown : ℕ → ℕ → List NodeTableEntry → List PeerNodeInfo → Type 0
AllShown origin now table [] = Unit
AllShown origin now table (n ∷ ns) = ShownIn origin now table n × AllShown origin now table ns

ShownIn-Written :
    (origin now : ℕ) (node : PeerNodeInfo) (table table' : List NodeTableEntry)
    → Written origin now node table table'
    → ShownIn origin now table' node
ShownIn-Written origin now node table table' w =
    let same_length = length-before origin now node table table' w in
    let new = written_node origin now node w.entry in
    let inside : w.at < length w.before = omega (arith, w.room, same_length) in
    let at =
      ap (λ t. node_at t w.at) w.written
      ∙ get_or-set_self w.before w.at new clear_node_entry inside in
    (
      w.at,
      omega (arith, inside, ap length w.written, length-set w.before w.at new),
      subst (Shows origin now node) (sym at) (written_node-Shows origin now node w.entry),
    )

AllShown-merge_loop :
    (origin now : ℕ) (nodes : List PeerNodeInfo) (table : List NodeTableEntry)
    → Distinct nodes
    → length nodes ≤ free_slots table
    → AllShown origin now (merge_loop origin now nodes table) nodes
unfolding merge_loop
AllShown-merge_loop origin now [] table d room = tt
AllShown-merge_loop origin now (n ∷ ns) table d room =
    let (table', step) = merge_node_room origin now n table (omega (arith, room)) in
    let w = merge_node-Written origin now n table table' step in
    let fewer = free_slots-Written origin now n table table' w in
    subst (λ o. AllShown origin now (or_break o table (merge_loop origin now ns)) (n ∷ ns))
      (sym step)
      (
        ShownIn-merge_loop origin now n ns table' d.0 (ShownIn-Written origin now n table table' w),
        AllShown-merge_loop origin now ns table' d.1 (omega (arith, room, fewer)),
      )

free_slots-clear_stale :
    (origin : ℕ) (ids : List ℕ) (table : List NodeTableEntry)
    → free_slots table ≤ free_slots (clear_stale origin ids table)
unfolding clear_stale clear_node_entry
free_slots-clear_stale origin ids [] = omega arith
free_slots-clear_stale origin ids (e ∷ es) =
    let rest = free_slots-clear_stale origin ids es in
    elim (Bool-cases (is_stale origin ids e)) [
      | inl gone ↦ elim (Bool-cases (is_empty e.state)) [
        | inl a ↦ rw (gone, a) (omega (arith, rest))
        | inr a ↦ rw (gone, a) (omega (arith, rest))
      ]
      | inr kept ↦ elim (Bool-cases (is_empty e.state)) [
        | inl a ↦ rw (kept, a) (omega (arith, rest))
        | inr a ↦ rw (kept, a) rest
      ]
    ]

free_slots-remove_matches_for_nodes :
    (ds : List ℕ) (table : List NodeTableEntry)
    → free_slots (remove_matches_for_nodes ds table) ≡ free_slots table
unfolding remove_matches_for_nodes
free_slots-remove_matches_for_nodes [] table = refl
free_slots-remove_matches_for_nodes (d ∷ ds) table =
    free_slots-remove_matches_for_nodes ds (remove_matches_for_node d table)
    ∙ free_slots-remove_matches d table

-- After a merge of nodes with different IDs, into a table with as many free entries as there are nodes,
-- each of them has an entry that shows it: the ports, the addresses, the names and the topics that were
-- announced, the daemon that announced them, and the time of the merge.
pub merge_remote_nodes-AllShown :
    (shm : ShmDiscovery) (origin now : ℕ) (nodes : List PeerNodeInfo)
    → origin ≢ 0
    → Distinct nodes
    → length nodes ≤ free_slots shm.node_table
    → AllShown origin now (merge_remote_nodes shm origin now nodes).node_table nodes
unfolding merge_remote_nodes
merge_remote_nodes-AllShown shm origin now nodes remote d room =
    let ids = ids_of nodes in
    let is_remote : (origin == 0) ≡ false = ground (arith, remote) in
    let gone = cleared_node_ids origin ids shm.node_table in
    let cleared = clear_stale origin ids shm.node_table in
    rw is_remote (
      AllShown-merge_loop origin now nodes (remove_matches_for_nodes gone cleared) d (
        omega (
          arith,
          room,
          free_slots-remove_matches_for_nodes gone cleared,
          free_slots-clear_stale origin ids shm.node_table,
        )))
