-- ===== src/PeerSync/TopicTrip.antt =====
-- Strings and topics: a reader finds what an encoder wrote at its offset, and stops behind it.
use rmw_axon.Prelude.{
  ℕ, ◌+◌, ◌%◌, ◌^◌, ◌≤◌, ◌≡◌, refl, sym, ap, ◌∙◌, List, [], ◌∷◌, ◌++◌, append_assoc, arith,
  le→ltb_false, length, length-append, subst,
}
use rmw_axon.Prelude.Bytes.{
  le_bytes, from_le_bytes, slice, At, At-skip, slice-At, room-At, room-At', read-At, byte-At,
}
use rmw_axon.Prelude.Results.{Result, ok}
use rmw_axon.PeerSync.{PeerTopicInfo, IsString, IsTopic, All}
use rmw_axon.PeerSync.Encode.{encode_string, encode_topic_header, encode_topic, encode_topics}
use rmw_axon.PeerSync.Decode.{
  SyncError, check_room, read_string, read_topic, read_topics, topic_header, truncated_len,
  truncated_string, truncated_topic,
}

pub check_room-ok :
    (buf : List ℕ) (off n : ℕ) (e : SyncError)
    → off + n ≤ length buf
    → check_room buf off n e ≡ ok tt
check_room-ok buf off n e h = rw (le→ltb_false _ _ h)

-- What a reader makes of the bytes that encode a value: the value, the offset behind them, and the
-- rest from there on.
abbrev pub Reads {ℓ} : {A : Type ℓ} → (List ℕ → ℕ → Result SyncError (A × ℕ)) → A → List ℕ → Type ℓ
Reads read a bytes =
    (buf : List ℕ) (off : ℕ) (rest : List ℕ)
    → At buf off (bytes ++ rest)
    → (read buf off ≡ ok (a, off + length bytes)) × At buf (off + length bytes) rest

module _ (buf : List ℕ) (off : ℕ) (s rest : List ℕ) (v : IsString s)
    (h : At buf off (encode_string s ++ rest)) where
  split-string : At buf off (le_bytes 2 (length s % 2 ^ 16) ++ (s ++ rest))
  unfolding encode_string
  split-string = h

  string-len : from_le_bytes (slice buf off 2) ≡ length s
  string-len =
      read-At buf off 2 (length s % 2 ^ 16) (s ++ rest) (omega arith) split-string
      ∙ omega (arith, v.short)

  read_string-At :
      (read_string buf off ≡ ok (s, off + 2 + length s)) × At buf (off + 2 + length s) rest
  unfolding read_string
  read_string-At =
      let after =
        At-skip buf off 2 (le_bytes 2 (length s % 2 ^ 16)) (s ++ rest) refl split-string in
      let room₁ =
        room-At buf off 2 (le_bytes 2 (length s % 2 ^ 16)) (s ++ rest) refl (omega arith)
          split-string in
      let room₂ = room-At' buf (off + 2) (length s) s rest refl room₁ after in
      let text = slice-At buf (off + 2) (length s) s rest refl after in
      (
        rw (
          check_room-ok buf off 2 truncated_len room₁,
          string-len,
          check_room-ok buf (off + 2) (length s) truncated_string room₂,
          text,
          v.utf8,
        ),
        At-skip buf (off + 2) (length s) s rest refl after,
      )

pub string-Reads : (s : List ℕ) → IsString s → Reads read_string s (encode_string s)
string-Reads s v buf off rest h =
    let e : off + length (encode_string s) ≡ off + 2 + length s =
      unfold encode_string in omega (arith, length-append (le_bytes 2 (length s % 2 ^ 16)) s) in
    rw e (read_string-At buf off s rest v h)

-- The next part begins where the one before it ends.
pub next :
    (buf : List ℕ) (off off' n : ℕ) (xs ys : List ℕ)
    → off' ≡ off + n
    → n ≡ length xs
    → At buf off (xs ++ ys)
    → At buf off' ys
next buf off off' n xs ys e size h = rw e (At-skip buf off n xs ys size h)

-- The fixed part of a topic, field by field.
module _ (buf : List ℕ) (off : ℕ) (t : PeerTopicInfo) (rest : List ℕ) (v : IsTopic t)
    (h : At buf off (encode_topic_header t ++ rest)) where
  header-At :
      (topic_header buf off t.name t.topic_type t.node_name t.node_namespace ≡ t)
      × At buf (off + 48) rest
  unfolding encode_topic_header
  header-At =
      let y₁₂ = le_bytes 4 t.qos_liveliness_lease_nsec ++ rest in
      let y₁₁ = le_bytes 4 t.qos_liveliness_lease_sec ++ y₁₂ in
      let y₁₀ = t.qos_liveliness ∷ y₁₁ in
      let y₉ = le_bytes 4 t.qos_lifespan_nsec ++ y₁₀ in
      let y₈ = le_bytes 4 t.qos_lifespan_sec ++ y₉ in
      let y₇ = le_bytes 4 t.qos_deadline_nsec ++ y₈ in
      let y₆ = le_bytes 4 t.qos_deadline_sec ++ y₇ in
      let y₅ = le_bytes 4 t.qos_history_depth ++ y₆ in
      let y₄ = t.qos_history_kind ∷ y₅ in
      let y₃ = t.qos_durability ∷ y₄ in
      let y₂ = t.qos_reliability ∷ y₃ in
      let y₁ = le_bytes 8 t.type_hash ++ y₂ in
      let h₁ = next buf off (off + 8) 8 (le_bytes 8 t.hash) y₁ refl refl h in
      let h₂ = next buf (off + 8) (off + 16) 8 (le_bytes 8 t.type_hash) y₂ (omega arith) refl h₁ in
      let h₃ = next buf (off + 16) (off + 17) 1 (t.qos_reliability ∷ []) y₃ (omega arith) refl h₂ in
      let h₄ = next buf (off + 17) (off + 18) 1 (t.qos_durability ∷ []) y₄ (omega arith) refl h₃ in
      let h₅ =
        next buf (off + 18) (off + 19) 1 (t.qos_history_kind ∷ []) y₅ (omega arith) refl h₄ in
      let h₆ =
        next buf (off + 19) (off + 23) 4 (le_bytes 4 t.qos_history_depth) y₆ (omega arith) refl
          h₅ in
      let h₇ =
        next buf (off + 23) (off + 27) 4 (le_bytes 4 t.qos_deadline_sec) y₇ (omega arith) refl h₆ in
      let h₈ =
        next buf (off + 27) (off + 31) 4 (le_bytes 4 t.qos_deadline_nsec) y₈ (omega arith) refl
          h₇ in
      let h₉ =
        next buf (off + 31) (off + 35) 4 (le_bytes 4 t.qos_lifespan_sec) y₉ (omega arith) refl h₈ in
      let h₁₀ =
        next buf (off + 35) (off + 39) 4 (le_bytes 4 t.qos_lifespan_nsec) y₁₀ (omega arith) refl
          h₉ in
      let h₁₁ =
        next buf (off + 39) (off + 40) 1 (t.qos_liveliness ∷ []) y₁₁ (omega arith) refl h₁₀ in
      let h₁₂ =
        next buf (off + 40) (off + 44) 4 (le_bytes 4 t.qos_liveliness_lease_sec) y₁₂ (omega arith)
          refl h₁₁ in
      let h₁₃ =
        next buf (off + 44) (off + 48) 4 (le_bytes 4 t.qos_liveliness_lease_nsec) rest (omega arith)
          refl h₁₂ in
      let hash = read-At buf off 8 t.hash y₁ v.hash_64 h in
      let type_hash = read-At buf (off + 8) 8 t.type_hash y₂ v.type_hash_64 h₁ in
      let depth = read-At buf (off + 19) 4 t.qos_history_depth y₆ v.depth_32 h₅ in
      let d_sec = read-At buf (off + 23) 4 t.qos_deadline_sec y₇ v.deadline_sec_32 h₆ in
      let d_nsec = read-At buf (off + 27) 4 t.qos_deadline_nsec y₈ v.deadline_nsec_32 h₇ in
      let l_sec = read-At buf (off + 31) 4 t.qos_lifespan_sec y₉ v.lifespan_sec_32 h₈ in
      let l_nsec = read-At buf (off + 35) 4 t.qos_lifespan_nsec y₁₀ v.lifespan_nsec_32 h₉ in
      let lease_sec = read-At buf (off + 40) 4 t.qos_liveliness_lease_sec y₁₂ v.lease_sec_32 h₁₁ in
      let lease_nsec =
        read-At buf (off + 44) 4 t.qos_liveliness_lease_nsec rest v.lease_nsec_32 h₁₂ in
      (
        cc (
          hash,
          type_hash,
          byte-At buf (off + 16) t.qos_reliability y₃ h₂,
          byte-At buf (off + 17) t.qos_durability y₄ h₃,
          byte-At buf (off + 18) t.qos_history_kind y₅ h₄,
          depth,
          d_sec,
          d_nsec,
          l_sec,
          l_nsec,
          byte-At buf (off + 39) t.qos_liveliness y₁₁ h₁₀,
          lease_sec,
          lease_nsec,
        ),
        h₁₃,
      )

encode_topic-append :
    (t : PeerTopicInfo) (rest : List ℕ)
    → encode_topic t ++ rest
      ≡ encode_topic_header t
        ++ (encode_string t.name
            ++ (encode_string t.topic_type
                ++ (encode_string t.node_name ++ (encode_string t.node_namespace ++ rest))))
unfolding encode_topic
encode_topic-append t rest =
    let c = encode_string t.node_name in
    let d = encode_string t.node_namespace in
    let b = encode_string t.topic_type in
    let a = encode_string t.name in
    let head = encode_topic_header t in
    append_assoc head (a ++ (b ++ (c ++ d))) rest
    ∙ ap (λ x. head ++ x) (append_assoc a (b ++ (c ++ d)) rest)
    ∙ ap (λ x. head ++ (a ++ x)) (append_assoc b (c ++ d) rest)
    ∙ ap (λ x. head ++ (a ++ (b ++ x))) (append_assoc c d rest)

length-encode_topic_header : (t : PeerTopicInfo) → length (encode_topic_header t) ≡ 48
unfolding encode_topic_header
length-encode_topic_header t = refl

length-encode_topic :
    (t : PeerTopicInfo)
    → length (encode_topic t)
      ≡ 48
        + length (encode_string t.name)
        + length (encode_string t.topic_type)
        + length (encode_string t.node_name)
        + length (encode_string t.node_namespace)
length-encode_topic t =
    let c = encode_string t.node_name in
    let d = encode_string t.node_namespace in
    let b = encode_string t.topic_type in
    let a = encode_string t.name in
    let head = encode_topic_header t in
    omega (
      arith,
      ap length (encode_topic-append t []),
      length-append (encode_topic t) [],
      length-append head (a ++ (b ++ (c ++ (d ++ [])))),
      length-append a (b ++ (c ++ (d ++ []))),
      length-append b (c ++ (d ++ [])),
      length-append c (d ++ []),
      length-append d [],
      length-encode_topic_header t,
    )

pub topic-Reads : (t : PeerTopicInfo) → IsTopic t → Reads read_topic t (encode_topic t)
unfolding read_topic
topic-Reads t v buf off rest h =
    let h₀ = subst (At buf off) (encode_topic-append t rest) h in
    let r₄ = encode_string t.node_namespace ++ rest in
    let r₃ = encode_string t.node_name ++ r₄ in
    let r₂ = encode_string t.topic_type ++ r₃ in
    let r₁ = encode_string t.name ++ r₂ in
    let room =
      room-At buf off 48 (encode_topic_header t) r₁ (sym (length-encode_topic_header t))
        (omega arith) h₀ in
    let (fields, h₁) = header-At buf off t r₁ v h₀ in
    let (s₁, h₂) = string-Reads t.name v.name_str buf (off + 48) r₂ h₁ in
    let (s₂, h₃) = string-Reads t.topic_type v.type_str buf _ r₃ h₂ in
    let (s₃, h₄) = string-Reads t.node_name v.node_name_str buf _ r₄ h₃ in
    let (s₄, h₅) = string-Reads t.node_namespace v.node_namespace_str buf _ rest h₄ in
    let end =
      off
      + 48
      + length (encode_string t.name)
      + length (encode_string t.topic_type)
      + length (encode_string t.node_name)
      + length (encode_string t.node_namespace) in
    let e : off + length (encode_topic t) ≡ end = omega (arith, length-encode_topic t) in
    rw e (rw (check_room-ok buf off 48 truncated_topic room, s₁, s₂, s₃, s₄, fields), h₅)

-- A list behind its count.
pub topics-Reads :
    (ts : List PeerTopicInfo)
    → All IsTopic ts
    → Reads (read_topics (length ts)) ts (encode_topics ts)
unfolding read_topics encode_topics
topics-Reads [] v buf off rest h = let e : off ≡ off + 0 = omega arith in rw (← e) (refl, h)
topics-Reads (t ∷ ts) v buf off rest h =
    let h' = subst (At buf off) (append_assoc (encode_topic t) (encode_topics ts) rest) h in
    let (first, h₁) = topic-Reads t v.0 buf off (encode_topics ts ++ rest) h' in
    let (others, h₂) = topics-Reads ts v.1 buf (off + length (encode_topic t)) rest h₁ in
    let e : off + length (encode_topic t ++ encode_topics ts)
        ≡ off + length (encode_topic t) + length (encode_topics ts) =
      omega (arith, length-append (encode_topic t) (encode_topics ts)) in
    rw e (rw (first, others), h₂)
