-- ===== src/Ring/Interleave/Tests.antt =====
-- A run of a writer and a reader on one slot.
use rmw_axon.Prelude.{
  ℕ, zero, suc, ◌<◌, ◌≡◌, refl, List, [], ◌∷◌, arith, ◌==◌, if◌then◌else◌, get_or,
}
use rmw_axon.Ring.Interleave.{
  perform, copy_stores, stores, waiting, delivered, System, begin_write, go_on_writing, load_seq,
  load_len, load_byte, load_seq_again, Steps, stop, more,
}
use rmw_axon.Ring.Interleave.NoTear.{no_torn_read}

abbrev payload_of : ℕ → List ℕ
payload_of n = if n == 0 then 5 ∷ [] else 7 ∷ 8 ∷ []

-- Number 0 is published in a slot of three bytes.
abbrev published : System
published = record {
  slot = record { seq = 0; len = 1; bytes = 5 ∷ 0 ∷ 0 ∷ [] };
  pending = [];
  current = 0;
  reader = waiting;
}

abbrev rewritten : System
rewritten = record {
  slot = record { seq = 2; len = 2; bytes = 7 ∷ 8 ∷ 0 ∷ [] };
  pending = [];
  current = 2;
  reader = delivered 2 (7 ∷ 8 ∷ []);
}

-- A read of number 0 is overtaken by the write of number 2, and a read of that one succeeds.
run : Steps payload_of 4 published rewritten
unfolding stores copy_stores perform
run = more (load_seq 0 (omega arith) refl) (
    more (load_len 0 refl (omega arith) (omega arith)) (
      more (begin_write 2 refl (omega arith) (omega arith) (omega arith) (omega arith)) (
        more (go_on_writing _ _ refl) (
          more (load_byte 0 1 [] refl (omega arith)) (
            more (go_on_writing _ _ refl) (
              more (go_on_writing _ _ refl) (
                more (go_on_writing _ _ refl) (
                  more (go_on_writing _ _ refl) (
                    more (load_seq 2 (omega arith) refl) (
                      more (load_len 2 refl (omega arith) (omega arith)) (
                        more (load_byte 2 2 [] refl (omega arith)) (
                          more (load_byte 2 2 (7 ∷ []) refl (omega arith))
                            (more (load_seq_again 2 2 (7 ∷ 8 ∷ []) refl refl refl) stop)))))))))))))

published_bytes :
    (i : ℕ) → i < 1 → get_or {A = ℕ} (5 ∷ 0 ∷ 0 ∷ []) i 0 ≡ get_or {A = ℕ} (5 ∷ []) i 0
published_bytes zero h = refl
published_bytes (suc i) h = absurd (omega arith)

no_torn_read_example : 7 ∷ 8 ∷ [] ≡ payload_of 2
no_torn_read_example =
    no_torn_read payload_of 4 published rewritten 2 (7 ∷ 8 ∷ []) refl refl (omega arith)
      (record { seq_is = refl; len_is = refl; bytes_are = published_bytes }) run refl
