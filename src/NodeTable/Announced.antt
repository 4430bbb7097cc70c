-- ===== src/NodeTable/Announced.antt =====
-- The table after a merge: no node twice, and of a daemon's nodes those that it announced.
use rmw_axon.Prelude.{
  ℕ, zero, suc, ◌≤◌, ◌≡◌, refl, sym, ap, ◌∙◌, inl, inr, Bool, false, ◌&&◌, not, List, [], ◌∷◌, map,
  arith, ◌==◌, ==_iff, Bool-cases, Option-cases, subst, set,
}
use rmw_axon.Prelude.Texts.{any, count, position_holds, count-set, count-position-none, one_if}
use rmw_axon.PeerSync.{PeerNodeInfo}
use rmw_axon.NodeTable.{NodeTableEntry, is_empty, clear_node_entry, is_node}
use rmw_axon.NodeTable.Merge.{
  contains_id, node_at, remove_matches, remove_matches_for_node, remove_matches_for_nodes, is_stale,
  clear_stale, written_node, merge_node, or_break, merge_loop,
}
use rmw_axon.NodeTable.Step.{
  SameNode, remove_matches-SameNode, is_node-remove_matches, count-map, Written, merge_node-Written,
  count-before, length-before, SameNode-before,
}

-- No two entries in use have one node.
abbrev pub UniqueNodes : List NodeTableEntry → Type 0
UniqueNodes table = (k : ℕ) → count (is_node k) table ≤ 1

written_node-is_node :
    (k origin now : ℕ) (node : PeerNodeInfo) (e : NodeTableEntry)
    → is_node k (written_node origin now node e) ≡ node.node_id == k
unfolding written_node
written_node-is_node k origin now node e = refl

is_node-SameNode : (k : ℕ) (a b : NodeTableEntry) → SameNode a b → is_node k a ≡ is_node k b
is_node-SameNode k a b s = rw (s.state, s.node_id) refl

UniqueNodes-Written :
    (origin now : ℕ) (node : PeerNodeInfo) (table table' : List NodeTableEntry)
    → Written origin now node table table'
    → UniqueNodes table
    → UniqueNodes table'
UniqueNodes-Written origin now node table table' w u k =
    let same_length = length-before origin now node table table' w in
    let new = written_node origin now node w.entry in
    let change =
      count-set (is_node k) w.before w.at new clear_node_entry
        (omega (arith, w.room, same_length)) in
    let all = count-before origin now node table table' w k in
    let result = ap (count (is_node k)) w.written in
    let here = written_node-is_node k origin now node w.entry in
    let old = is_node-SameNode k _ _ (SameNode-before origin now node table table' w w.at w.room) in
    elim (Bool-cases (node.node_id == k)) [
      | inl same ↦
          let id = (==_iff node.node_id k).0 same in
          let one = ap (one_if (is_node k)) (here ∙ same) in
          elim w.place [
            | inl at ↦
                let mine =
                  (position_holds (is_node node.node_id) table w.at clear_node_entry at).0 in
                let was =
                  ap (one_if (is_node k))
                    (old ∙ ap (λ j. is_node j (node_at table w.at)) (sym id) ∙ mine) in
                omega (arith, result, change, one, was, all, u k)
            | inr (none_here, _) ↦
                let nobody =
                  ap (λ j. count (is_node j) table) (sym id)
                  ∙ count-position-none (is_node node.node_id) table none_here in
                omega (arith, result, change, one, all, nobody)
          ]
      | inr other ↦
          let zero_more = ap (one_if (is_node k)) (here ∙ other) in
          omega (arith, result, change, zero_more, all, u k)
    ]

pub UniqueNodes-merge_loop :
    (origin now : ℕ) (nodes : List PeerNodeInfo) (table : List NodeTableEntry)
    → UniqueNodes table
    → UniqueNodes (merge_loop origin now nodes table)
unfolding merge_loop
UniqueNodes-merge_loop origin now [] table u = u
UniqueNodes-merge_loop origin now (node ∷ nodes) table u =
    elim (Option-cases (merge_node origin now node table)) [
      | inl broke ↦
          subst (λ o. UniqueNodes (or_break o table (merge_loop origin now nodes))) (sym broke) u
      | inr (table', step) ↦
          let w = merge_node-Written origin now node table table' step in
          subst (λ o. UniqueNodes (or_break o table (merge_loop origin now nodes))) (sym step)
            (UniqueNodes-merge_loop origin now nodes table'
              (UniqueNodes-Written origin now node table table' w u))
    ]

pub count-remove_matches_for_nodes :
    (ids : List ℕ) (table : List NodeTableEntry) (k : ℕ)
    → count (is_node k) (remove_matches_for_nodes ids table) ≡ count (is_node k) table
unfolding remove_matches_for_nodes remove_matches_for_node
count-remove_matches_for_nodes [] table k = refl
count-remove_matches_for_nodes (d ∷ ids) table k =
    count-remove_matches_for_nodes ids (map (remove_matches d) table) k
    ∙ count-map (is_node k) (is_node k) (remove_matches d) table (is_node-remove_matches k d)

cleared-is_node : (k : ℕ) → is_node k clear_node_entry ≡ false
unfolding clear_node_entry
cleared-is_node k = refl

pub count-clear_stale :
    (origin : ℕ) (ids : List ℕ) (table : List NodeTableEntry) (k : ℕ)
    → count (is_node k) (clear_stale origin ids table) ≤ count (is_node k) table
unfolding clear_stale
count-clear_stale origin ids [] k = omega arith
count-clear_stale origin ids (e ∷ es) k =
    let rest = count-clear_stale origin ids es k in
    elim (Bool-cases (is_stale origin ids e)) [
      | inl gone ↦ elim (Bool-cases (is_node k e)) [
        | inl a ↦ rw (gone, a, cleared-is_node k) (omega (arith, rest))
        | inr a ↦ rw (gone, a, cleared-is_node k) rest
      ]
      | inr kept ↦ elim (Bool-cases (is_node k e)) [
        | inl a ↦ rw (kept, a) (omega (arith, rest))
        | inr a ↦ rw (kept, a) rest
      ]
    ]

-- An entry of a daemon's node that the daemon did not announce.
abbrev pub is_left : ℕ → List ℕ → NodeTableEntry → Bool
is_left origin ids e =
    not (is_empty e.state) && (e.daemon_origin == origin && not (contains_id e.node_id ids))

pub is_left-SameNode :
    (origin : ℕ) (ids : List ℕ) (a b : NodeTableEntry)
    → SameNode a b
    → is_left origin ids a ≡ is_left origin ids b
is_left-SameNode origin ids a b s = rw (s.state, s.node_id, s.origin) refl

pub any-map {ℓ} :
    {A : Type ℓ} (p : A → Bool) (f : A → A) (xs : List A)
    → ((x : A) → p (f x) ≡ p x)
    → any p (map f xs) ≡ any p xs
any-map p f [] same = refl
any-map p f (x ∷ xs) same = rw (same x, any-map p f xs same) refl

pub any-set {ℓ} :
    {A : Type ℓ} (p : A → Bool) (xs : List A) (i : ℕ) (e : A)
    → any p xs ≡ false
    → p e ≡ false
    → any p (set xs i e) ≡ false
any-set p [] i e h f = h
any-set p (x ∷ xs) zero e h f = rw f (ground (arith, h))
any-set p (x ∷ xs) (suc i) e h f = elim (Bool-cases (p x)) [
  | inl t ↦ absurd (ground (arith, t, h))
  | inr t ↦ rw t (any-set p xs i e (ground (arith, t, h)) f)
]

pub none_left-clear_stale :
    (origin : ℕ) (ids : List ℕ) (table : List NodeTableEntry)
    → any (is_left origin ids) (clear_stale origin ids table) ≡ false
unfolding clear_stale clear_node_entry
none_left-clear_stale origin ids [] = refl
none_left-clear_stale origin ids (e ∷ es) =
    let rest = none_left-clear_stale origin ids es in
    elim (Bool-cases (is_stale origin ids e)) [
      | inl gone ↦ rw gone rest
      | inr kept ↦
          let here : is_left origin ids e ≡ false = ground (arith, kept) in rw (kept, here) rest
    ]

pub none_left-remove_matches :
    (origin : ℕ) (ids ds : List ℕ) (table : List NodeTableEntry)
    → any (is_left origin ids) (remove_matches_for_nodes ds table) ≡ any (is_left origin ids) table
unfolding remove_matches_for_nodes remove_matches_for_node
none_left-remove_matches origin ids [] table = refl
none_left-remove_matches origin ids (d ∷ ds) table =
    none_left-remove_matches origin ids ds (map (remove_matches d) table)
    ∙ any-map (is_left origin ids) (remove_matches d) table
        (λ e. is_left-SameNode origin ids _ _ (remove_matches-SameNode d e))
