-- ===== src/Ring/Interleave/NoTear.antt =====
-- A read that succeeds has not seen parts of two writes.
use rmw_axon.Prelude.{
  ℕ, zero, suc, ◌+◌, ◌%◌, ◌^◌, ◌≤◌, ◌<◌, ◌≡◌, refl, sym, ap, ◌∙◌, ◌≢◌, ◌⊎◌, inl, inr, List, [], ◌∷◌,
  ◌++◌, arith, length, take, length-append, subst, get_or, set, length-set, get_or-set_self,
  get_or-set_ne,
}
use rmw_axon.Ring.{Slot, u64_max}
use rmw_axon.Ring.Interleave.{
  Store, clear_len, store_byte, store_len, store_seq, perform, perform_all, copy_stores, stores,
  Reader, waiting, opened, copying, delivered, System, Step, begin_write, go_on_writing, load_seq,
  load_len, load_byte, load_seq_again, Steps, stop, more,
}

-- The slot after the payload was copied to it from the offset `i` on.
record Copied (seq n i : ℕ) (bs : List ℕ) (s s' : Slot) : Type 0 where
  seq_is : s'.seq ≡ seq
  len_is : s'.len ≡ n
  size_is : length s'.bytes ≡ length s.bytes
  before : (j : ℕ) → j < i → get_or s'.bytes j 0 ≡ get_or s.bytes j 0
  copied : (j : ℕ) → j < length bs → get_or s'.bytes (i + j) 0 ≡ get_or bs j 0

copy_stores-Copied :
    (seq n i : ℕ) (bs : List ℕ) (s : Slot)
    → i + length bs ≤ length s.bytes
    → Copied seq n i bs s (perform_all (copy_stores seq n i bs) s)
unfolding perform_all perform copy_stores
copy_stores-Copied seq n i [] s h = record {
  seq_is = refl;
  len_is = refl;
  size_is = refl;
  before = λ j k. refl;
  copied = λ j k. absurd (omega arith);
}
copy_stores-Copied seq n i (b ∷ bs) s h =
    let size = length-set s.bytes i b in
    let rest =
      copy_stores-Copied seq n (suc i) bs (record s { bytes = set s.bytes i b }) (omega arith) in
    record {
      seq_is = rest.seq_is;
      len_is = rest.len_is;
      size_is = rest.size_is ∙ size;
      before = λ j k. rest.before j (omega arith) ∙ get_or-set_ne s.bytes i j b 0 (omega arith);
      copied = λ j k. copied_at rest j k;
    }
  where
    copied_at :
        Copied seq n
          (suc i)
          bs
          (record s { bytes = set s.bytes i b })
          (perform_all (copy_stores seq n (suc i) bs) (record s { bytes = set s.bytes i b }))
        → (j : ℕ) → j < length (b ∷ bs)
        → get_or
            (perform_all
              (copy_stores seq n (suc i) bs)
              (record s { bytes = set s.bytes i b })).bytes
            (i + j)
            0
          ≡ get_or (b ∷ bs) j 0
    copied_at rest zero k =
        let e : i + 0 ≡ i = omega arith in
        rw e (rest.before i (omega arith) ∙ get_or-set_self s.bytes i b 0 (omega arith))
    copied_at rest (suc j) k =
        let e : i + suc j ≡ suc i + j = omega arith in rw e (rest.copied j (omega arith))

-- The stores that are left end in the one that publishes, and no other publishes.
abbrev Unfinished : List Store → Type 0
Unfinished [] = ⊥
Unfinished (store_seq seq ∷ ms) = ms ≡ []
Unfinished (clear_len ∷ ms) = Unfinished ms
Unfinished (store_byte i b ∷ ms) = Unfinished ms
Unfinished (store_len n ∷ ms) = Unfinished ms

copy_stores-Unfinished : (seq n i : ℕ) (bs : List ℕ) → Unfinished (copy_stores seq n i bs)
unfolding copy_stores
copy_stores-Unfinished seq n i [] = refl
copy_stores-Unfinished seq n i (b ∷ bs) = copy_stores-Unfinished seq n (suc i) bs

take-snoc : (p : List ℕ) (k : ℕ) → k < length p → take k p ++ get_or p k 0 ∷ [] ≡ take (k + 1) p
take-snoc [] k h = absurd (omega arith)
take-snoc (x ∷ p) zero h = refl
take-snoc (x ∷ p) (suc k) h =
    let e : suc k + 1 ≡ suc (k + 1) = omega arith in
    rw e (ap (λ r. x ∷ r) (take-snoc p k (omega arith)))

-- A prefix with the next element is a prefix.
take-next :
    (p got : List ℕ) (x : ℕ)
    → length got < length p
    → got ≡ take (length got) p
    → x ≡ get_or p (length got) 0
    → got ++ x ∷ [] ≡ take (length (got ++ x ∷ [])) p
take-next p got x h e next =
    ap (λ y. got ++ y ∷ []) next
    ∙ ap (λ g. g ++ get_or p (length got) 0 ∷ []) e
    ∙ take-snoc p (length got) h
    ∙ ap (λ k. take k p) (omega (arith, length-append got (x ∷ [])))

take-length : (p : List ℕ) → take (length p) p ≡ p
take-length [] = refl
take-length (x ∷ p) = ap (λ r. x ∷ r) (take-length p)

module _ (payload_of : ℕ → List ℕ) where
  -- The write of the number `n` is in the slot.
  pub record Written (s : Slot) (n : ℕ) : Type 0 where
    pub seq_is : s.seq ≡ n
    pub len_is : s.len ≡ length (payload_of n)
    pub bytes_are :
        (i : ℕ) → i < length (payload_of n) → get_or s.bytes i 0 ≡ get_or (payload_of n) i 0

  -- Either no write is under way and the last one is in the slot, or the slot is marked as
  -- unpublished and the stores that are left will put it there.
  abbrev Writing : System → Type 0
  Writing t =
      (t.current < u64_max)
      × (((t.pending ≡ []) × Written t.slot t.current)
          ⊎ ((t.slot.seq ≡ u64_max)
              × Unfinished t.pending
              × Written (perform_all t.pending t.slot) t.current))

  -- The reader has seen the marker of `n`: unless another write was begun since, none is under way.
  abbrev Seen : ℕ → System → Type 0
  Seen n t = (n ≤ t.current) × ((t.current ≡ n) → t.pending ≡ [])

  abbrev Reading : Reader → System → Type 0
  Reading waiting t = Unit
  Reading (opened n) t = Seen n t
  Reading (copying n len got) t =
      Seen n t
      × ((t.current ≡ n) → (len ≡ length (payload_of n)) × (got ≡ take (length got) (payload_of n)))
  Reading (delivered n got) t = got ≡ payload_of n

  -- A writer's step leaves nothing of what a reader under way relies on but the order of the numbers.
  stale-Reading :
      (r : Reader) (t u : System)
      → ((n : ℕ) → Seen n t → (n ≤ u.current) × (u.current ≢ n))
      → Reading r t
      → Reading r u
  stale-Reading waiting t u h v = tt
  stale-Reading (opened n) t u h v = let (le, ne) = h n v in (le, λ e. absurd (ne e))
  stale-Reading (copying n len got) t u h v =
      let (le, ne) = h n v.0 in ((le, λ e. absurd (ne e)), λ e. absurd (ne e))
  stale-Reading (delivered n got) t u h v = v

  stores-Written :
      (seq : ℕ) (s : Slot)
      → length (payload_of seq) ≤ length s.bytes
      → length (payload_of seq) < 2 ^ 32
      → Written (perform_all (stores seq (payload_of seq)) s) seq
  unfolding stores perform_all perform
  stores-Written seq s fits small =
      let p = payload_of seq in
      let done =
        copy_stores-Copied seq (length p % 2 ^ 32) 0 p (record s { len = 0 }) (omega arith) in
      record {
        seq_is = done.seq_is;
        len_is = omega (arith, done.len_is);
        bytes_are = λ i h. (let e : 0 + i ≡ i = omega arith in rw e at (done.copied i h));
      }

  -- The slot that shows a number other than the mark of a write under way is settled.
  settled :
      (t : System) (n : ℕ)
      → Writing t
      → n < u64_max
      → t.slot.seq ≡ n
      → (t.pending ≡ []) × (t.current ≡ n) × Written t.slot t.current
  settled t n (small, inl (rest, done)) h e = (rest, sym done.seq_is ∙ e, done)
  settled t n (small, inr (mark, _, _)) h e = absurd (omega arith)

  at_rest : (t : System) → Writing t → t.pending ≡ [] → Written t.slot t.current
  at_rest t (small, inl (rest, done)) e = done
  at_rest t (small, inr (mark, left, _)) e = absurd (subst Unfinished e left)

  -- One store of a write under way is done.
  performed :
      (m : Store) (ms : List Store) (s : Slot) (n : ℕ)
      → s.seq ≡ u64_max
      → Unfinished (m ∷ ms)
      → Written (perform_all (m ∷ ms) s) n
      → ((ms ≡ []) × Written (perform m s) n)
        ⊎ (((perform m s).seq ≡ u64_max) × Unfinished ms × Written (perform_all ms (perform m s)) n)
  unfolding perform_all perform
  performed (store_seq seq) [] s n mark left done = inl (refl, done)
  performed (store_seq seq) (m ∷ ms) s n mark left done = absurd (cc left)
  performed clear_len ms s n mark left done = inr (mark, left, done)
  performed (store_byte i b) ms s n mark left done = inr (mark, left, done)
  performed (store_len len) ms s n mark left done = inr (mark, left, done)

  module _ (room : ℕ) where
    Step-Writing : (t u : System) → Step payload_of room t u → Writing t → Writing u
    Step-Writing t _ (begin_write seq rest larger small fits short) v = (
      small,
      inr (
        refl,
        unfold stores in copy_stores-Unfinished seq _ 0 (payload_of seq),
        stores-Written seq (record (t.slot) { seq = u64_max }) fits short,
      ),
    )
    Step-Writing t _ (go_on_writing m ms e) (small, inl (rest, done)) = absurd (cc (e, rest))
    Step-Writing t _ (go_on_writing m ms e) (small, inr (mark, left, done)) =
        (small, performed m ms t.slot t.current mark (subst Unfinished e left) (rw e at done))
    Step-Writing t _ (load_seq n small e) v = v
    Step-Writing t _ (load_len n e some_len fits) v = v
    Step-Writing t _ (load_byte n len got e more_left) v = v
    Step-Writing t _ (load_seq_again n len got e all same) v = v

    Step-Reading :
        (t u : System)
        → Step payload_of room t u
        → Writing t
        → Reading t.reader t
        → Reading u.reader u
    Step-Reading t _ (begin_write seq rest larger small fits short) w v =
        stale-Reading t.reader t _ (λ n s. (omega arith, omega arith)) v
    Step-Reading t _ (go_on_writing m ms e) w v =
        stale-Reading t.reader t _ (λ n s. (s.0, λ same. cc (s.1 same, e))) v
    Step-Reading t _ (load_seq n small e) w v =
        let (rest, same, _) = settled t n w small e in (omega arith, λ _. rest)
    Step-Reading t _ (load_len n e some_len fits) w v =
        let seen = rw e at v in
        (
          seen,
          λ same. ((at_rest t w (seen.1 same)).len_is ∙ ap (λ k. length (payload_of k)) same, refl),
        )
    Step-Reading t _ (load_byte n len got e more_left) w v =
        let (seen, good) = rw e at v in
        (
          seen,
          λ same.
              let (len_is, got_is) = good same in
              let b = (at_rest t w (seen.1 same)).bytes_are (length got) (rw same (omega arith)) in
              (
                len_is,
                take-next (payload_of n) got _ (omega arith) got_is
                    (b ∙ ap (λ k. get_or (payload_of k) (length got) 0) same),
              ),
        )
    Step-Reading t _ (load_seq_again n len got e all same) w v =
        let (seen, good) = rw e at v in
        let (_, now, _) = settled t n w (omega arith) same in
        let (len_is, got_is) = good now in
        got_is ∙ ap (λ k. take k (payload_of n)) (omega arith) ∙ take-length (payload_of n)

    Steps-Reading :
        (t u : System)
        → Steps payload_of room t u
        → Writing t
        → Reading t.reader t
        → Reading u.reader u
    Steps-Reading t _ stop w v = v
    Steps-Reading t v (more {u = u} s ss) w r =
        Steps-Reading u v ss (Step-Writing t u s w) (Step-Reading t u s w r)

-- On a slot in which the number `current` is published, with no write under way and no reader, let
-- writes with growing numbers and reads take place in any interleaving of their loads and stores,
-- one writer at a time. Whenever a read of the number `n` succeeds, what it has copied is the whole
-- payload of the write of `n`.
pub no_torn_read :
    (payload_of : ℕ → List ℕ) (room : ℕ) (t u : System) (n : ℕ) (got : List ℕ)
    → t.pending ≡ []
    → t.reader ≡ waiting
    → t.current < u64_max
    → Written payload_of t.slot t.current
    → Steps payload_of room t u
    → u.reader ≡ delivered n got
    → got ≡ payload_of n
no_torn_read payload_of room t u n got rest idle small done steps e =
    let start : Reading payload_of t.reader t = rw idle tt in
    rw e at (Steps-Reading payload_of room t u steps (small, inl (rest, done)) start)
