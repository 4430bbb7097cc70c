-- ===== src/NodeTable/Step.antt =====
-- One announced node: the entry that it is written to, and what stays of the others.
use rmw_axon.Prelude.{
  ℕ, zero, suc, ◌<◌, min, ◌≡◌, refl, sym, ap, ◌∙◌, ◌⊎◌, inl, inr, Bool, true, ◌&&◌, none, some,
  List, [], ◌∷◌, map, arith, ltb, Bool-cases, Option-cases, length, take, subst, length-map, get_or,
  set,
}
use rmw_axon.Prelude.Texts.{position, count, position_holds}
use mathlib.Core.Option.{some_inj}
use rmw_axon.PeerSync.{PeerNodeInfo}
use rmw_axon.NodeTable.{
  NodeTableEntry, is_empty, is_active, clear_node_entry, find_free_slot, is_node,
  find_slot_by_node_id, max_matches,
}
use rmw_axon.NodeTable.Merge.{
  node_at, kept_matches, remove_matches, remove_matches_for_node, peer_node_endpoints_match,
  written_node, merge_at, merge_node,
}

-- What a change of the matches leaves: the fields by which an entry is found.
pub record SameNode (a b : NodeTableEntry) : Type 0 where
  pub state : a.state ≡ b.state
  pub node_id : a.node_id ≡ b.node_id
  pub origin : a.daemon_origin ≡ b.daemon_origin

pub remove_matches-SameNode : (d : ℕ) (e : NodeTableEntry) → SameNode (remove_matches d e) e
unfolding remove_matches
remove_matches-SameNode d e =
    let n = min e.match_count max_matches in
    elim (Bool-cases
      (is_active e.state && ltb (length (kept_matches d (take n e.remote_matches))) n)) [
        | inl t ↦ rw t (record { state = refl; node_id = refl; origin = refl })
        | inr f ↦ rw f (record { state = refl; node_id = refl; origin = refl })
      ]

pub is_node-remove_matches :
    (k d : ℕ) (e : NodeTableEntry) → is_node k (remove_matches d e) ≡ is_node k e
is_node-remove_matches k d e = let s = remove_matches-SameNode d e in rw (s.state, s.node_id) refl

pub count-map {ℓ κ} :
    {A : Type ℓ} {B : Type κ} (p : B → Bool) (q : A → Bool) (f : A → B) (xs : List A)
    → ((x : A) → p (f x) ≡ q x)
    → count p (map f xs) ≡ count q xs
count-map p q f [] same = refl
count-map p q f (x ∷ xs) same = rw (same x, count-map p q f xs same) refl

pub get_or-map {ℓ} :
    {A : Type ℓ} (f : A → A) (xs : List A) (i : ℕ) (d : A)
    → i < length xs
    → get_or (map f xs) i d ≡ f (get_or xs i d)
get_or-map f [] i d h = absurd (omega (arith, h))
get_or-map f (x ∷ xs) zero d h = refl
get_or-map f (x ∷ xs) (suc i) d h = get_or-map f xs i d (omega (arith, h))

module _ (origin now : ℕ) (node : PeerNodeInfo) where
  -- The table before the write, with the matches removed or not, and the entry that is written.
  pub record Written (table table' : List NodeTableEntry) : Type 0 where
    pub at : ℕ
    pub before : List NodeTableEntry
    pub entry : NodeTableEntry
    pub unmatched : (before ≡ table) ⊎ (before ≡ remove_matches_for_node node.node_id table)
    pub room : at < length table
    pub place :
        (position (is_node node.node_id) table ≡ some at)
        ⊎ ((position (is_node node.node_id) table ≡ none)
            × (is_empty (node_at table at).state ≡ true))
    pub written : table' ≡ set before at (written_node origin now node entry)

  Written-own :
      (table table' : List NodeTableEntry) (i : ℕ)
      → position (is_node node.node_id) table ≡ some i
      → merge_at origin now node table (some i) (find_free_slot table) ≡ some table'
      → Written table table'
  Written-own table table' i at h =
      let room = (position_holds (is_node node.node_id) table i clear_node_entry at).1 in
      elim (Bool-cases (peer_node_endpoints_match (node_at table i) node)) [
        | inl t ↦ record {
          at = i;
          before = table;
          entry = node_at table i;
          unmatched = inl refl;
          room = room;
          place = inl at;
          written = some_inj.0 (sym h ∙ rw t refl);
        }
        | inr f ↦ record {
          at = i;
          before = remove_matches_for_node node.node_id table;
          entry = node_at (remove_matches_for_node node.node_id table) i;
          unmatched = inr refl;
          room = room;
          place = inl at;
          written = some_inj.0 (sym h ∙ rw f refl);
        }
      ]

  pub merge_node-Written :
      (table table' : List NodeTableEntry)
      → merge_node origin now node table ≡ some table'
      → Written table table'
  unfolding merge_node find_slot_by_node_id find_free_slot
  merge_node-Written table table' h = elim (Option-cases (position (is_node node.node_id) table)) [
    | inr (i, at) ↦
        Written-own table table' i at
          (sym (ap (λ o. merge_at origin now node table o (find_free_slot table)) at) ∙ h)
    | inl n ↦ elim (Option-cases (position (λ e. is_empty e.state) table)) [
      | inl m ↦
          let broke : merge_at origin now node table none none ≡ some table' =
            sym (
              ap (λ o. merge_at origin now node table o (find_free_slot table)) n
              ∙ ap (merge_at origin now node table none) m)
            ∙ h in
          absurd (cc broke)
      | inr (i, m) ↦
          let (free, room) = position_holds (λ e. is_empty e.state) table i clear_node_entry m in
          let done : merge_at origin now node table none (some i) ≡ some table' =
            sym (
              ap (λ o. merge_at origin now node table o (find_free_slot table)) n
              ∙ ap (merge_at origin now node table none) m)
            ∙ h in
          record {
            at = i;
            before = table;
            entry = clear_node_entry;
            unmatched = inl refl;
            room = room;
            place = inr (n, free);
            written = some_inj.0 (sym done);
          }
    ]
  ]

  pub count-before :
      (table table' : List NodeTableEntry) (w : Written table table') (k : ℕ)
      → count (is_node k) w.before ≡ count (is_node k) table
  unfolding remove_matches_for_node
  count-before table table' w k = elim w.unmatched [
    | inl e ↦ ap (count (is_node k)) e
    | inr e ↦
        ap (count (is_node k)) e
        ∙ count-map (is_node k) (is_node k) (remove_matches node.node_id) table
            (is_node-remove_matches k node.node_id)
  ]

  pub length-before :
      (table table' : List NodeTableEntry) (w : Written table table')
      → length w.before ≡ length table
  unfolding remove_matches_for_node
  length-before table table' w = elim w.unmatched [
    | inl e ↦ ap length e
    | inr e ↦ ap length e ∙ length-map (remove_matches node.node_id) table
  ]

  -- An entry of the table before the write has the state, the node and the origin that it had.
  pub SameNode-before :
      (table table' : List NodeTableEntry) (w : Written table table') (i : ℕ)
      → i < length table
      → SameNode (node_at w.before i) (node_at table i)
  unfolding remove_matches_for_node
  SameNode-before table table' w i room = elim w.unmatched [
    | inl e ↦
        subst (λ t. SameNode (node_at t i) (node_at table i)) (sym e)
          (record { state = refl; node_id = refl; origin = refl })
    | inr e ↦
        subst (λ t. SameNode (node_at t i) (node_at table i)) (sym e)
          (subst (λ x. SameNode x (node_at table i))
            (sym (get_or-map (remove_matches node.node_id) table i clear_node_entry room))
            (remove_matches-SameNode node.node_id (node_at table i)))
  ]
