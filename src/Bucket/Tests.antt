-- ===== src/Bucket/Tests.antt =====
-- Runs of the bucket, and its theorem at concrete calls.
use rmw_axon.Prelude.{◌+◌, ◌*◌, ◌≤◌, ◌≡◌, refl, List, [], ◌∷◌, arith}
use rmw_axon.Bucket.{make, refilled, try_send}
use rmw_axon.Bucket.Rate.{Send, send_all, send_all-rate}

abbrev sends : List Send
sends = (600, 0) ∷ (500, 10) ∷ (400, 20) ∷ (15, 25) ∷ []

sent : (send_all (make 1000) sends).0 ≡ 1015
unfolding make send_all try_send refilled
sent = refl

send_all-rate_example : 1000 * (send_all (make 1000) sends).0 ≤ 1000 * (1000 + 30)
send_all-rate_example =
    send_all-rate 1000 sends 30
      (omega arith, (omega arith, (omega arith, (omega arith, omega arith))))
