-- ===== src/NodeTable/Merged.antt =====
-- What a merge makes of the whole table.
use rmw_axon.Prelude.{
  ℕ, ◌≡◌, refl, sym, ap, ◌∙◌, ◌≢◌, inl, inr, true, false, List, [], ◌∷◌, arith, ◌==◌, ==_self,
  Option-cases, subst,
}
use rmw_axon.Prelude.Texts.{any}
use rmw_axon.PeerSync.{PeerNodeInfo}
use rmw_axon.NodeTable.{NodeTableEntry, ShmDiscovery}
use rmw_axon.NodeTable.Merge.{
  contains_id, remove_matches, remove_matches_for_node, remove_matches_for_nodes, clear_stale,
  cleared_node_ids, written_node, merge_node, or_break, merge_loop, ids_of, merge_remote_nodes,
}
use rmw_axon.NodeTable.Step.{Written, merge_node-Written, remove_matches-SameNode}
use rmw_axon.NodeTable.Announced.{
  UniqueNodes, UniqueNodes-merge_loop, count-remove_matches_for_nodes, count-clear_stale, is_left,
  is_left-SameNode, any-map, any-set, none_left-clear_stale, none_left-remove_matches,
}

-- Every node of a list is among the announced ones.
abbrev AllIn : List ℕ → List PeerNodeInfo → Type 0
AllIn ids [] = Unit
AllIn ids (n ∷ ns) = (contains_id n.node_id ids ≡ true) × AllIn ids ns

AllIn-cons : (i : ℕ) (ids : List ℕ) (ns : List PeerNodeInfo) → AllIn ids ns → AllIn (i ∷ ids) ns
AllIn-cons i ids [] h = tt
AllIn-cons i ids (n ∷ ns) h = (ground (arith, h.0), AllIn-cons i ids ns h.1)

AllIn-ids_of : (ns : List PeerNodeInfo) → AllIn (ids_of ns) ns
AllIn-ids_of [] = tt
AllIn-ids_of (n ∷ ns) = (ground arith, AllIn-cons n.node_id (ids_of ns) ns (AllIn-ids_of ns))

written_node-is_left :
    (origin now : ℕ) (ids : List ℕ) (node : PeerNodeInfo) (e : NodeTableEntry)
    → contains_id node.node_id ids ≡ true
    → is_left origin ids (written_node origin now node e) ≡ false
unfolding written_node
written_node-is_left origin now ids node e h = rw (h, ==_self origin) refl

none_left-Written :
    (origin now : ℕ) (ids : List ℕ) (node : PeerNodeInfo) (table table' : List NodeTableEntry)
    → Written origin now node table table'
    → contains_id node.node_id ids ≡ true
    → any (is_left origin ids) table ≡ false
    → any (is_left origin ids) table' ≡ false
unfolding remove_matches_for_node
none_left-Written origin now ids node table table' w announced h =
    let before : any (is_left origin ids) w.before ≡ false = elim w.unmatched [
      | inl e ↦ ap (any (is_left origin ids)) e ∙ h
      | inr e ↦
          ap (any (is_left origin ids)) e
          ∙ any-map (is_left origin ids) (remove_matches node.node_id) table
              (λ x. is_left-SameNode origin ids _ _ (remove_matches-SameNode node.node_id x))
          ∙ h
    ] in
    ap (any (is_left origin ids)) w.written
    ∙ any-set (is_left origin ids) w.before w.at _ before
        (written_node-is_left origin now ids node w.entry announced)

none_left-merge_loop :
    (origin now : ℕ) (ids : List ℕ) (nodes : List PeerNodeInfo) (table : List NodeTableEntry)
    → AllIn ids nodes
    → any (is_left origin ids) table ≡ false
    → any (is_left origin ids) (merge_loop origin now nodes table) ≡ false
unfolding merge_loop
none_left-merge_loop origin now ids [] table all h = h
none_left-merge_loop origin now ids (node ∷ nodes) table all h =
    elim (Option-cases (merge_node origin now node table)) [
      | inl broke ↦
          subst
            (λ o. any (is_left origin ids) (or_break o table (merge_loop origin now nodes)) ≡ false)
            (sym broke) h
      | inr (table', step) ↦
          let w = merge_node-Written origin now node table table' step in
          subst
            (λ o. any (is_left origin ids) (or_break o table (merge_loop origin now nodes)) ≡ false)
            (sym step)
            (none_left-merge_loop origin now ids nodes table' all.1
              (none_left-Written origin now ids node table table' w all.0 h))
    ]

-- A merge of what a remote daemon announces, into a table with no node twice, leaves no node twice, and
-- no node of that daemon that it did not announce.
pub merge_remote_nodes-UniqueNodes :
    (shm : ShmDiscovery) (origin now : ℕ) (nodes : List PeerNodeInfo)
    → origin ≢ 0
    → UniqueNodes shm.node_table
    → UniqueNodes (merge_remote_nodes shm origin now nodes).node_table
      × (any (is_left origin (ids_of nodes)) (merge_remote_nodes shm origin now nodes).node_table
          ≡ false)
unfolding merge_remote_nodes
merge_remote_nodes-UniqueNodes shm origin now nodes remote u =
    let ids = ids_of nodes in
    let is_remote : (origin == 0) ≡ false = ground (arith, remote) in
    let gone = cleared_node_ids origin ids shm.node_table in
    let cleared = clear_stale origin ids shm.node_table in
    rw is_remote (
      UniqueNodes-merge_loop origin now nodes (remove_matches_for_nodes gone cleared) (λ k. omega (
        arith,
        count-remove_matches_for_nodes gone cleared k,
        count-clear_stale origin ids shm.node_table k,
        u k,
      )),
      none_left-merge_loop origin now ids nodes (remove_matches_for_nodes gone cleared)
          (AllIn-ids_of nodes)
          (none_left-remove_matches origin ids gone cleared
            ∙ none_left-clear_stale origin ids shm.node_table),
    )
