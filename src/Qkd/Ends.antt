-- ===== src/Qkd/Ends.antt =====
-- How a call of `claim_message_key` ends: that it does, and what it leaves when it fails.
use rmw_axon.Prelude.{
  ℕ, zero, suc, ◌≤◌, ◌<◌, ◌≡◌, refl, sym, ap, ◌∙◌, ◌≢◌, ◌⊎◌, inl, inr, Bool, true, false, Option,
  none, some, List, [], ◌∷◌, arith, ◌==◌, if◌then◌else◌, ==_iff, Bool-cases, Option-cases, length,
  subst, get_or, set, get_or-set_self, get_or-set_ne,
}
use rmw_axon.Prelude.Results.{err, result_cases}
use rmw_axon.Qkd.{QkdError, atomic_string}
use rmw_axon.Qkd.Store.{
  MessageState, empty, writing, pending, ready, QkdMessageShmEntry, QkdKeyStore, entry_at,
  set_entry, clear_message_entry, Visit, pass_pending, pass_ready, busy, recover, take_empty,
  clear_stale, found_pending, found_ready, visit, visit_state, is_gone, stopped, reached_end,
  end_pass, returned, Claim, message_entry_matches, copy_message_key, text_is, claim_loop,
  claim_message_key, checked_ids, checked_claim, QkdKeyMaterial,
}
use rmw_axon.Qkd.Probe.{stops, contains-first}
use rmw_axon.Qkd.Turns.{
  path_of, probe_of, turn-probe, turn-probe-none, Emptied, turn-Emptied, probe_of-set_entry,
  lt-of-probe_order,
}
use rmw_axon.Qkd.Loop.{turn_of, turn_cases, loop-returned, loop-again}

abbrev pub is_empty_state : MessageState → Bool
is_empty_state empty = true
is_empty_state writing = false
is_empty_state pending = false
is_empty_state ready = false

-- How many entries are in use.
abbrev pub used : List QkdMessageShmEntry → ℕ
used [] = 0
used (e ∷ es) = let rest = used es in if is_empty_state e.state then rest else suc rest

used-le : (es : List QkdMessageShmEntry) → used es ≤ length es
used-le [] = omega arith
used-le (e ∷ es) = ground (arith, used-le es)

used-set :
    (es : List QkdMessageShmEntry) (i : ℕ) (e d : QkdMessageShmEntry)
    → i < length es
    → is_empty_state (get_or es i d).state ≡ false
    → e.state ≡ empty
    → used es ≡ suc (used (set es i e))
used-set [] i e d room was now = absurd (omega arith)
used-set (x ∷ xs) zero e d room was now = rw (was, now) refl
used-set (x ∷ xs) (suc i) e d room was now =
    let rest = used-set xs i e d (omega (arith, room)) was now in ground (arith, rest)

same_claim : {a b : Claim} → some a ≡ some b → a ≡ b
same_claim e = cc

module _ (is_alive : ℕ → Bool) (sender_sae_id key_id : List ℕ) where
  in_use-visit :
      (state : MessageState) (m g : Bool)
      → (visit_state is_alive state m g ≡ recover) ⊎ (visit_state is_alive state m g ≡ clear_stale)
      → is_empty_state state ≡ false
  in_use-visit empty m g h = elim h [ inl e ↦ absurd (cc e) | inr e ↦ absurd (cc e) ]
  in_use-visit writing m g h = refl
  in_use-visit pending m g h = refl
  in_use-visit ready m g h = refl

  -- No live process is in the middle of a claim.
  abbrev pub NoWriter : QkdKeyStore → Type 0
  NoWriter s =
      (i : ℕ) → (entry_at s i).state ≡ writing → is_gone is_alive (entry_at s i).writer_pid ≡ true

  idle-visit :
      (state : MessageState) (m g : Bool)
      → (state ≡ writing → g ≡ true)
      → visit_state is_alive state m g ≢ busy
  idle-visit empty m g h e = cc
  idle-visit writing m true h e = cc
  idle-visit writing m false h e = cc (h refl)
  idle-visit pending true true h e = cc
  idle-visit pending true false h e = cc
  idle-visit pending false g h e = cc
  idle-visit ready true g h e = cc
  idle-visit ready false g h e = cc

  in_use-Emptied :
      (s s' : QkdKeyStore)
      → Emptied is_alive sender_sae_id key_id s s'
      → used s.message_entries ≡ suc (used s'.message_entries)
  unfolding visit
  in_use-Emptied s s' e =
      let on_path = (contains-first _ (path_of is_alive sender_sae_id key_id s) e.at e.ended).0 in
      let room = lt-of-probe_order s sender_sae_id key_id e.at on_path in
      used-set s.message_entries e.at e.entry clear_message_entry room (in_use-visit _ _ _ e.was)
        e.is_empty
      ∙ ap (λ x. suc (used x.message_entries)) (sym e.written)

  NoWriter-Emptied :
      (s s' : QkdKeyStore) → Emptied is_alive sender_sae_id key_id s s' → NoWriter s → NoWriter s'
  NoWriter-Emptied s s' e idle = subst NoWriter (sym e.written) (λ j w.
      elim (Bool-cases (e.at == j)) [
        | inl same ↦
            let at = (==_iff e.at j).0 same in
            let on_path =
              (contains-first _ (path_of is_alive sender_sae_id key_id s) e.at e.ended).0 in
            let room = lt-of-probe_order s sender_sae_id key_id e.at on_path in
            let here = get_or-set_self s.message_entries e.at e.entry clear_message_entry room in
            let there = ap (λ k. (entry_at (set_entry s e.at e.entry) k).state) at in
            absurd (cc (w, there, here, e.is_empty))
        | inr other ↦
            let ne : e.at ≢ j = ground (arith, other) in
            let kept = get_or-set_ne s.message_entries e.at j e.entry clear_message_entry ne in
            ap (λ x. is_gone is_alive x.writer_pid) kept ∙ idle j (sym (ap (λ x. x.state) kept) ∙ w)
      ])

  loop-returns :
      (fuel pid : ℕ) (s : QkdKeyStore)
      → NoWriter s
      → used s.message_entries < fuel
      → (c : Claim) × (claim_loop is_alive fuel pid s sender_sae_id key_id ≡ some c)
  unfolding visit
  loop-returns zero pid s idle room = absurd (omega arith)
  loop-returns (suc fuel) pid s idle room =
      elim (turn_cases (turn_of is_alive sender_sae_id key_id pid s)) [
        | inl (c, e) ↦ (c, loop-returned is_alive sender_sae_id key_id fuel pid s c e)
        | inr (s', e) ↦ elim (turn-Emptied is_alive sender_sae_id key_id pid s s' e) [
          | inl (_, i, b) ↦ absurd (idle-visit (entry_at s i).state _ _ (idle i) b)
          | inr emptied ↦
              let less = in_use-Emptied s s' emptied in
              let (c, r) =
                loop-returns fuel pid s' (NoWriter-Emptied s s' emptied idle)
                  (omega (arith, less, room)) in
              (c, loop-again is_alive sender_sae_id key_id fuel pid s s' e ∙ r)
        ]
      ]

  -- When no live process is in the middle of a claim, a call ends, within one pass more than there are
  -- entries.
  pub claim_message_key-returns :
      (pid : ℕ) (s : QkdKeyStore)
      → ((i : ℕ)
          → (entry_at s i).state ≡ writing
          → is_gone is_alive (entry_at s i).writer_pid ≡ true)
      → (c : Claim) × (claim_message_key is_alive
            (suc (length s.message_entries))
            pid
            s
            sender_sae_id
            key_id
          ≡ some c)
  unfolding claim_message_key
  claim_message_key-returns pid s idle =
      let loop = claim_loop is_alive (suc (length s.message_entries)) pid s sender_sae_id key_id in
      elim (result_cases (checked_ids sender_sae_id key_id)) [
        | inl (e, bad) ↦ ((err e, s), ap (λ r. checked_claim r s loop) bad)
        | inr (u, good) ↦
            let few = used-le s.message_entries in
            let (c, r) =
              loop-returns (suc (length s.message_entries)) pid s idle (omega (arith, few)) in
            (c, ap (λ r. checked_claim r s loop) good ∙ r)
      ]

  matched-visit :
      (state : MessageState) (m g : Bool)
      → visit_state is_alive state m g ≡ found_ready
      → (state ≡ ready) × (m ≡ true)
  matched-visit empty m g e = absurd (cc e)
  matched-visit writing m true e = absurd (cc e)
  matched-visit writing m false e = absurd (cc e)
  matched-visit pending true true e = absurd (cc e)
  matched-visit pending true false e = absurd (cc e)
  matched-visit pending false g e = absurd (cc e)
  matched-visit ready true g e = (refl, refl)
  matched-visit ready false g e = absurd (cc e)

  -- A key that a pass finds can be copied.
  copied-visit :
      (e : QkdMessageShmEntry)
      → visit is_alive e sender_sae_id key_id ≡ found_ready
      → (m : QkdKeyMaterial) × (copy_message_key e ≡ some m)
  unfolding visit copy_message_key message_entry_matches
  copied-visit e h =
      let (r, m) = matched-visit e.state _ _ h in
      elim (Option-cases (atomic_string e.key_id e.key_id_len)) [
        | inl n ↦ absurd (ground (arith, m, ap (λ o. text_is o key_id) n))
        | inr (text, t) ↦ (record { key_id = text; key = e.key }, rw (r, t) refl)
      ]

  failed-stopped :
      (pid : ℕ) (s s' : QkdKeyStore) (i : ℕ) (v : Visit) (e : QkdError)
      → visit is_alive (entry_at s i) sender_sae_id key_id ≡ v
      → end_pass pid s sender_sae_id key_id (stopped v i) ≢ returned (err e, s')
  unfolding end_pass
  failed-stopped pid s s' i busy e at h = cc
  failed-stopped pid s s' i recover e at h = cc
  failed-stopped pid s s' i take_empty e at h = cc
  failed-stopped pid s s' i clear_stale e at h = cc
  failed-stopped pid s s' i found_pending e at h = cc
  failed-stopped pid s s' i found_ready e at h =
      let (m, copied) = copied-visit (entry_at s i) at in cc (copied, h)
  failed-stopped pid s s' i pass_pending e at h = cc
  failed-stopped pid s s' i pass_ready e at h = cc

  failed-reached_end :
      (pid : ℕ) (s s' : QkdKeyStore) (o : Option (ℕ × ℕ)) (e : QkdError)
      → end_pass pid s sender_sae_id key_id (reached_end o) ≡ returned (err e, s')
      → s' ≡ s
  unfolding end_pass
  failed-reached_end pid s s' none e h = cc
  failed-reached_end pid s s' (some r) e h = cc

  visit-is_empty :
      (e : QkdMessageShmEntry)
      → e.state ≡ empty
      → visit is_alive e sender_sae_id key_id ≡ take_empty
  unfolding visit
  visit-is_empty e h = rw h refl

  failed_loop :
      (fuel pid : ℕ) (s s' : QkdKeyStore) (e : QkdError)
      → claim_loop is_alive fuel pid s sender_sae_id key_id ≡ some (err e, s')
      → (probe_of is_alive sender_sae_id key_id s ≡ none) × (s' ≡ s)
  unfolding claim_loop
  failed_loop zero pid s s' e h = cc
  failed_loop (suc fuel) pid s s' e h =
      elim (turn_cases (turn_of is_alive sender_sae_id key_id pid s)) [
        | inl (c, t) ↦
            let same : c ≡ (err e, s') =
              same_claim (sym (loop-returned is_alive sender_sae_id key_id fuel pid s c t) ∙ h) in
            let now = t ∙ ap returned same in
            elim (Option-cases (probe_of is_alive sender_sae_id key_id s)) [
              | inl n ↦ (
                n,
                failed-reached_end pid s s' _ e
                    (sym (turn-probe-none is_alive sender_sae_id key_id pid s n) ∙ now),
              )
              | inr (i, p) ↦ absurd (
                  failed-stopped pid s s' i _ e refl
                    (sym (turn-probe is_alive sender_sae_id key_id pid s i p) ∙ now))
            ]
        | inr (s1, t) ↦
            let on = sym (loop-again is_alive sender_sae_id key_id fuel pid s s1 t) ∙ h in
            let (n, kept) = failed_loop fuel pid s1 s' e on in
            elim (turn-Emptied is_alive sender_sae_id key_id pid s s1 t) [
              | inl (same, _, _) ↦
                  (ap (probe_of is_alive sender_sae_id key_id) (sym same) ∙ n, kept ∙ same)
              | inr emptied ↦
                  let on_path =
                    (contains-first _ (path_of is_alive sender_sae_id key_id s) emptied.at
                      emptied.ended).0 in
                  let found =
                    probe_of-set_entry is_alive sender_sae_id key_id s emptied.at emptied.entry
                      s.generation on_path (inr emptied.ended)
                      (ap stops (visit-is_empty emptied.entry emptied.is_empty)) in
                  let both : some emptied.at ≡ none =
                    sym found
                    ∙ sym (ap (probe_of is_alive sender_sae_id key_id) emptied.written)
                    ∙ n in
                  absurd (cc both)
            ]
      ]

  -- A call of `claim_message_key` that fails leaves the store as it is.
  pub error-unchanged :
      (fuel pid : ℕ) (s s' : QkdKeyStore) (e : QkdError)
      → claim_message_key is_alive fuel pid s sender_sae_id key_id ≡ some (err e, s')
      → s' ≡ s
  unfolding claim_message_key
  error-unchanged fuel pid s s' e h = elim (result_cases (checked_ids sender_sae_id key_id)) [
    | inl (x, bad) ↦
        let loop = claim_loop is_alive fuel pid s sender_sae_id key_id in
        let same = same_claim (sym (ap (λ r. checked_claim r s loop) bad) ∙ h) in
        sym (ap (λ c. c.1) same)
    | inr (u, good) ↦
        let loop = claim_loop is_alive fuel pid s sender_sae_id key_id in
        (failed_loop fuel pid s s' e (sym (ap (λ r. checked_claim r s loop) good) ∙ h)).1
  ]
