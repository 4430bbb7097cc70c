-- ===== src/PeerSync/NodeTrip.antt =====
-- Nodes: a reader finds what `encode_node` wrote at its offset, and stops behind it.
use rmw_axon.Prelude.{
  ℕ, ◌+◌, ◌*◌, ◌%◌, ◌^◌, ◌≤◌, ◌<◌, min, ◌≡◌, refl, sym, ◌∙◌, List, [], ◌∷◌, ◌++◌, append_assoc,
  arith, length, length-append, subst,
}
use rmw_axon.Prelude.Bytes.{
  le_bytes, from_le_bytes, slice, At, At-skip, slice-At, room-At, room-At', read-At,
}
use rmw_axon.PeerSync.{PeerNodeInfo, IsNode, All, max_quic_addrs}
use rmw_axon.PeerSync.Encode.{encode_string, encode_topics, encode_addrs, encode_node, encode_nodes}
use rmw_axon.PeerSync.Decode.{
  read_addrs, read_node, read_nodes, truncated_node_header, truncated_pub_count,
  truncated_sub_count, truncated_endpoint, truncated_addr_count, truncated_addrs,
}
use rmw_axon.PeerSync.TopicTrip.{Reads, check_room-ok, string-Reads, topics-Reads, next}

length-encode_addrs :
    (addrs : List (List ℕ))
    → All (λ a. length a ≡ 4) addrs
    → length (encode_addrs addrs) ≡ length addrs * 4
unfolding encode_addrs
length-encode_addrs [] v = refl
length-encode_addrs (a ∷ addrs) v =
    omega (arith, length-append a (encode_addrs addrs), length-encode_addrs addrs v.1, v.0)

addrs-At :
    (addrs : List (List ℕ)) (buf : List ℕ) (off : ℕ) (rest : List ℕ)
    → All (λ a. length a ≡ 4) addrs
    → At buf off (encode_addrs addrs ++ rest)
    → read_addrs (length addrs) buf off ≡ (addrs, off + length (encode_addrs addrs))
unfolding encode_addrs read_addrs
addrs-At [] buf off rest v h = let e : off ≡ off + 0 = omega arith in rw (← e)
addrs-At (a ∷ addrs) buf off rest v h =
    let h' = subst (At buf off) (append_assoc a (encode_addrs addrs) rest) h in
    let first = slice-At buf off 4 a (encode_addrs addrs ++ rest) (sym v.0) h' in
    let h₁ = At-skip buf off 4 a (encode_addrs addrs ++ rest) (sym v.0) h' in
    let others = addrs-At addrs buf (off + 4) rest v.1 h₁ in
    let e : off + length (a ++ encode_addrs addrs) ≡ off + 4 + length (encode_addrs addrs) =
      omega (arith, length-append a (encode_addrs addrs), v.0) in
    rw (e, first, others)

-- The 32 bits of a count are its value.
pub count-At :
    (buf : List ℕ) (off n : ℕ) (ys : List ℕ)
    → n < 2 ^ 32
    → At buf off (le_bytes 4 (n % 2 ^ 32) ++ ys)
    → from_le_bytes (slice buf off 4) ≡ n
count-At buf off n ys small h = read-At buf off 4 (n % 2 ^ 32) ys (omega arith) h ∙ omega arith

regroup :
    (buf : List ℕ) (off : ℕ) (a x rest : List ℕ)
    → At buf off ((a ++ x) ++ rest)
    → At buf off (a ++ (x ++ rest))
regroup buf off a x rest h = subst (At buf off) (append_assoc a x rest) h

module _ (n : PeerNodeInfo) (v : IsNode n) where
  -- What follows each part of an encoded node.
  abbrev part₁₀ : List ℕ
  part₁₀ = le_bytes 4 (length n.quic_addrs % 2 ^ 32) ++ encode_addrs n.quic_addrs

  abbrev part₉ : List ℕ
  part₉ = le_bytes 2 n.quic_port ++ part₁₀

  abbrev part₈ : List ℕ
  part₈ = encode_topics n.subscribed_topics ++ part₉

  abbrev part₇ : List ℕ
  part₇ = le_bytes 4 (length n.subscribed_topics % 2 ^ 32) ++ part₈

  abbrev part₆ : List ℕ
  part₆ = encode_topics n.published_topics ++ part₇

  abbrev part₅ : List ℕ
  part₅ = le_bytes 4 (length n.published_topics % 2 ^ 32) ++ part₆

  abbrev part₄ : List ℕ
  part₄ = encode_string n.node_namespace ++ part₅

  abbrev part₃ : List ℕ
  part₃ = encode_string n.node_name ++ part₄

  length-encode_node :
      length (encode_node n)
      ≡ 12
        + length (encode_string n.node_name)
        + length (encode_string n.node_namespace)
        + 4
        + length (encode_topics n.published_topics)
        + 4
        + length (encode_topics n.subscribed_topics)
        + 2
        + 4
        + length (encode_addrs n.quic_addrs)
  unfolding encode_node
  length-encode_node = omega (
    arith,
    length-append (encode_string n.node_name) part₄,
    length-append (encode_string n.node_namespace) part₅,
    length-append (encode_topics n.published_topics) part₇,
    length-append (encode_topics n.subscribed_topics) part₉,
  )

  -- The port and the addresses, from the offset behind the topics.
  module _ (buf : List ℕ) (off : ℕ) (rest : List ℕ) (h : At buf off (part₉ ++ rest)) where
    port-At : from_le_bytes (slice buf off 2) ≡ n.quic_port
    port-At = read-At buf off 2 n.quic_port (part₁₀ ++ rest) v.port_16 h

    addrs-from : At buf (off + 2) (part₁₀ ++ rest)
    addrs-from = At-skip buf off 2 (le_bytes 2 n.quic_port) (part₁₀ ++ rest) refl h

    addr_count-At : from_le_bytes (slice buf (off + 2) 4) ≡ length n.quic_addrs
    addr_count-At =
        count-At buf (off + 2) (length n.quic_addrs) (encode_addrs n.quic_addrs ++ rest)
          (omega (arith, v.few_addrs)) addrs-from

    limit-At : min (from_le_bytes (slice buf (off + 2) 4)) max_quic_addrs ≡ length n.quic_addrs
    limit-At = omega (arith, addr_count-At, v.few_addrs)

    addrs-start : At buf (off + 2 + 4) (encode_addrs n.quic_addrs ++ rest)
    addrs-start =
        At-skip buf (off + 2) 4 (le_bytes 4 (length n.quic_addrs % 2 ^ 32))
          (encode_addrs n.quic_addrs ++ rest) refl addrs-from

    endpoint-room :
        (off + 6 ≤ length buf)
        × (off + 2 + 4 ≤ length buf)
        × (off + 2 + 4 + length n.quic_addrs * 4 ≤ length buf)
    endpoint-room =
        let room =
          room-At buf off 6 (le_bytes 2 n.quic_port ++ le_bytes 4 (length n.quic_addrs % 2 ^ 32))
            (encode_addrs n.quic_addrs ++ rest) refl (omega arith) h in
        let inside : off + 2 + 4 ≤ length buf = omega arith in
        let size = length-encode_addrs n.quic_addrs v.addrs in
        (
          room,
          inside,
          room-At' buf (off + 2 + 4) _ (encode_addrs n.quic_addrs) rest (sym size) inside
              addrs-start,
        )

    addrs-end : At buf (off + 2 + 4 + length (encode_addrs n.quic_addrs)) rest
    addrs-end = At-skip buf (off + 2 + 4) _ (encode_addrs n.quic_addrs) rest refl addrs-start

  pub node-Reads : Reads read_node n (encode_node n)
  unfolding read_node encode_node
  node-Reads buf off rest h =
      let id = read-At buf off 8 n.node_id (le_bytes 4 n.domain_id ++ (part₃ ++ rest)) v.id_64 h in
      let h₁ =
        next buf off (off + 8) 8 (le_bytes 8 n.node_id) (le_bytes 4 n.domain_id ++ (part₃ ++ rest))
          refl refl h in
      let dom = read-At buf (off + 8) 4 n.domain_id (part₃ ++ rest) v.domain_32 h₁ in
      let room₁ =
        room-At buf off 12 (le_bytes 8 n.node_id ++ le_bytes 4 n.domain_id) (part₃ ++ rest) refl
          (omega arith) h in
      let h₂ =
        next buf (off + 8) (off + 12) 4 (le_bytes 4 n.domain_id) (part₃ ++ rest) (omega arith) refl
          h₁ in
      let (name, h₃) =
        string-Reads n.node_name v.name_str buf (off + 12) (part₄ ++ rest)
          (regroup buf (off + 12) (encode_string n.node_name) part₄ rest h₂) in
      let o₁ = off + 12 + length (encode_string n.node_name) in
      let (ns, h₄) =
        string-Reads n.node_namespace v.namespace_str buf o₁ (part₅ ++ rest)
          (regroup buf o₁ (encode_string n.node_namespace) part₅ rest h₃) in
      let o₂ = o₁ + length (encode_string n.node_namespace) in
      let room₂ =
        room-At buf o₂ 4 (le_bytes 4 (length n.published_topics % 2 ^ 32)) (part₆ ++ rest) refl
          (omega arith) h₄ in
      let pubs_n = count-At buf o₂ (length n.published_topics) (part₆ ++ rest) v.published_32 h₄ in
      let h₅ =
        At-skip buf o₂ 4 (le_bytes 4 (length n.published_topics % 2 ^ 32)) (part₆ ++ rest) refl
          h₄ in
      let (pubs, h₆) =
        topics-Reads n.published_topics v.published buf (o₂ + 4) (part₇ ++ rest)
          (regroup buf (o₂ + 4) (encode_topics n.published_topics) part₇ rest h₅) in
      let o₃ = o₂ + 4 + length (encode_topics n.published_topics) in
      let room₃ =
        room-At buf o₃ 4 (le_bytes 4 (length n.subscribed_topics % 2 ^ 32)) (part₈ ++ rest) refl
          (omega arith) h₆ in
      let subs_n =
        count-At buf o₃ (length n.subscribed_topics) (part₈ ++ rest) v.subscribed_32 h₆ in
      let h₇ =
        At-skip buf o₃ 4 (le_bytes 4 (length n.subscribed_topics % 2 ^ 32)) (part₈ ++ rest) refl
          h₆ in
      let (subs, h₈) =
        topics-Reads n.subscribed_topics v.subscribed buf (o₃ + 4) (part₉ ++ rest)
          (regroup buf (o₃ + 4) (encode_topics n.subscribed_topics) part₉ rest h₇) in
      let o₄ = o₃ + 4 + length (encode_topics n.subscribed_topics) in
      let (room₄, room₅, room₆) = endpoint-room buf o₄ rest h₈ in
      let addrs =
        addrs-At n.quic_addrs buf (o₄ + 2 + 4) rest v.addrs (addrs-start buf o₄ rest h₈) in
      let o₅ = o₄ + 2 + 4 + length (encode_addrs n.quic_addrs) in
      let e : off + length (encode_node n) ≡ o₅ = omega (arith, length-encode_node) in
      rw e (
        rw (
          check_room-ok buf off 12 truncated_node_header room₁,
          id,
          dom,
          name,
          ns,
          check_room-ok buf o₂ 4 truncated_pub_count room₂,
          pubs_n,
          pubs,
          check_room-ok buf o₃ 4 truncated_sub_count room₃,
          subs_n,
          subs,
          check_room-ok buf o₄ 6 truncated_endpoint room₄,
          port-At buf o₄ rest h₈,
          check_room-ok buf (o₄ + 2) 4 truncated_addr_count room₅,
          limit-At buf o₄ rest h₈,
          check_room-ok buf (o₄ + 2 + 4) (length n.quic_addrs * 4) truncated_addrs room₆,
          addrs,
        ),
        addrs-end buf o₄ rest h₈,
      )

pub nodes-Reads :
    (ns : List PeerNodeInfo) → All IsNode ns → Reads (read_nodes (length ns)) ns (encode_nodes ns)
unfolding read_nodes encode_nodes
nodes-Reads [] v buf off rest h = let e : off ≡ off + 0 = omega arith in rw (← e) (refl, h)
nodes-Reads (n ∷ ns) v buf off rest h =
    let (first, h₁) =
      node-Reads n v.0 buf off (encode_nodes ns ++ rest)
        (regroup buf off (encode_node n) (encode_nodes ns) rest h) in
    let (others, h₂) = nodes-Reads ns v.1 buf (off + length (encode_node n)) rest h₁ in
    let e : off + length (encode_node n ++ encode_nodes ns)
        ≡ off + length (encode_node n) + length (encode_nodes ns) =
      omega (arith, length-append (encode_node n) (encode_nodes ns)) in
    rw e (rw (first, others), h₂)
