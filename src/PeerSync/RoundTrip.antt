-- ===== src/PeerSync/RoundTrip.antt =====
-- The messages: a daemon reads back the graph that another one sent.
use rmw_axon.Prelude.{
  ℕ, ◌%◌, ◌^◌, ◌≤◌, ◌<◌, ◌≡◌, refl, false, some, List, [], ◌++◌, append-nil, arith, ltb, ◌==◌,
  le→ltb_false, length, length-append,
}
use rmw_axon.Prelude.Bytes.{le_bytes, read-At}
use rmw_axon.Prelude.Results.{ok}
use rmw_axon.PeerSync.{PeerNodeInfo, IsNode, All}
use rmw_axon.PeerSync.Encode.{
  encode_nodes, encode_sync_response, encode_sync_request, encode_sync_request_with_nodes,
}
use rmw_axon.PeerSync.Decode.{
  decode_sync_response, decode_sync_request, decode_sync_request_push, sync_request_daemon_id,
}
use rmw_axon.PeerSync.NodeTrip.{count-At, nodes-Reads}

length-encode_sync_response :
    (domain_id : ℕ) (nodes : List PeerNodeInfo) → 9 ≤ length (encode_sync_response domain_id nodes)
unfolding encode_sync_response
length-encode_sync_response domain_id nodes = omega arith

-- A response is long enough for its header, whatever follows it.
response-guard :
    (domain_id : ℕ) (nodes : List PeerNodeInfo) (rest : List ℕ)
    → ltb (length (encode_sync_response domain_id nodes ++ rest)) 9 ≡ false
response-guard domain_id nodes rest = le→ltb_false _ _ (
    omega (
      arith,
      length-encode_sync_response domain_id nodes,
      length-append (encode_sync_response domain_id nodes) rest,
    ))

-- Decoding an encoded response gives back the domain and the nodes, in their order, whatever bytes
-- follow it. The nodes hold what their types allow, strings shorter than 2^16 bytes and at most 8
-- addresses each; there are fewer than 2^32 nodes.
pub decode-encode_sync_response :
    (domain_id : ℕ) (nodes : List PeerNodeInfo) (rest : List ℕ)
    → domain_id < 2 ^ 32
    → length nodes < 2 ^ 32
    → All IsNode nodes
    → decode_sync_response (encode_sync_response domain_id nodes ++ rest) ≡ ok (domain_id, nodes)
unfolding decode_sync_response encode_sync_response
decode-encode_sync_response domain_id nodes rest d small v =
    let buf = encode_sync_response domain_id nodes ++ rest in
    let tail = encode_nodes nodes ++ rest in
    let domain = read-At buf 1 4 domain_id (le_bytes 4 (length nodes % 2 ^ 32) ++ tail) d refl in
    let count = count-At buf 5 (length nodes) tail small refl in
    let (read, _) = nodes-Reads nodes v buf 9 rest refl in
    rw (response-guard domain_id nodes rest, domain, count, read)

long-request :
    (domain_id daemon_id : ℕ) (nodes : List PeerNodeInfo)
    → 14 ≤ length (encode_sync_request_with_nodes domain_id daemon_id nodes)
unfolding encode_sync_request_with_nodes encode_sync_request
long-request domain_id daemon_id nodes = omega (arith, length-encode_sync_response domain_id nodes)

-- A length that the checks of all three decoders let through.
request-guards :
    (n : ℕ)
    → 14 ≤ n
    → (ltb n 5 ≡ false) × (ltb n 13 ≡ false) × (ltb n 14 ≡ false) × ((n == 5) ≡ false)
request-guards n h = ground arith

-- Decoding a request that carries nodes gives back its three parts: the domain, the daemon and the
-- nodes, for nodes with at most 8 addresses each and strings shorter than 2^16 bytes.
pub decode-encode_sync_request_with_nodes :
    (domain_id daemon_id : ℕ) (nodes : List PeerNodeInfo)
    → domain_id < 2 ^ 32
    → daemon_id < 2 ^ 64
    → length nodes < 2 ^ 32
    → All IsNode nodes
    → let buf = encode_sync_request_with_nodes domain_id daemon_id nodes in
      (decode_sync_request buf ≡ ok domain_id)
      × (sync_request_daemon_id buf ≡ ok (some daemon_id))
      × (decode_sync_request_push buf ≡ ok (some (daemon_id, nodes)))
unfolding decode_sync_request sync_request_daemon_id decode_sync_request_push
    encode_sync_request_with_nodes encode_sync_request
decode-encode_sync_request_with_nodes domain_id daemon_id nodes d i small v =
    let buf = encode_sync_request_with_nodes domain_id daemon_id nodes in
    let response = encode_sync_response domain_id nodes in
    let (g5, g13, g14, n5) = request-guards (length buf) (long-request domain_id daemon_id nodes) in
    let domain = read-At buf 1 4 domain_id (le_bytes 8 daemon_id ++ response) d refl in
    let daemon = read-At buf 5 8 daemon_id response i refl in
    let read = decode-encode_sync_response domain_id nodes [] d small v in
    (rw (g5, domain), rw (g5, n5, g13, daemon), rw (n5, g14, ← append-nil response, read, daemon))
