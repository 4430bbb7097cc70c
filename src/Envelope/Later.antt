-- ===== src/Envelope/Later.antt =====
-- A message that was opened is not opened again, while the cache of seen keys has room.
use rmw_axon.Prelude.{
  ℕ, suc, ◌+◌, ◌≤◌, ◌<◌, ◌≡◌, refl, sym, ap, ◌∙◌, ◌⊎◌, inl, inr, Bool, true, false, Option, none,
  some, List, [], ◌∷◌, arith, leb, if◌then◌else◌, lt→leb_false, Bool-cases, length, subst,
}
use mathlib.Core.Option.{some_inj}
use rmw_axon.Prelude.Results.{Result, ok, err}
use rmw_axon.Prelude.Texts.{bytes_eq, bytes_eq_self}
use rmw_axon.Qkd.{QkdError}
use rmw_axon.Qkd.Store.{
  QkdKeyStore, QkdKeyMaterial, Claim, ready_key, claimed, pending_key, claim_message_key,
}
use rmw_axon.Envelope.{
  WireContext, WireError, already_used, Aead, Envelope, parse_wire, replay_key, replay_cache_size,
  OpenState, forget, has_seen, remember, Opened, OpenedPayload, published, opened_with,
  fetched_or_error, open_claimed, open_parsed, open_wire,
}
use rmw_axon.Envelope.Replay.{opened-seen, seen-refused}

-- The client of a process over its later calls, with their results, while the other processes change
-- the store. Each call has its own fuel, its own answers of the key server, and the processes that
-- live then. The number is that of the calls.
pub data Later (aead : Aead) (first_of : List (List ℕ) → Option (List ℕ)) (pid : ℕ) (s : OpenState)
    : ℕ → OpenState → Type 0 where
  at_once : Later aead first_of pid s 0 s
  others :
      {n : ℕ} {t : OpenState} (store : QkdKeyStore)
      → Later aead first_of pid s n t
      → Later aead first_of pid s n (record t { store = store })
  call :
      {n : ℕ} {t u : OpenState} (is_alive : ℕ → Bool)
      (get_decryption_key : List ℕ → List ℕ → Result QkdError QkdKeyMaterial) (fuel : ℕ)
      (wire : List ℕ) (context : WireContext) (r : Result WireError OpenedPayload)
      → Later aead first_of pid s n t
      → open_wire aead is_alive get_decryption_key first_of fuel pid t wire context ≡ some (r, u)
      → Later aead first_of pid s (suc n) u

forget-unseen : (k : List ℕ) (seen : List (List ℕ)) → has_seen k seen ≡ false → forget k seen ≡ seen
forget-unseen k [] h = refl
forget-unseen k (x ∷ xs) h = elim (Bool-cases (bytes_eq x k)) [
  | inl same ↦ absurd (ground (arith, h, same))
  | inr other ↦ rw other (ap (λ r. x ∷ r) (forget-unseen k xs (ground (arith, h, other))))
]

-- What a call leaves of the set that it has put its key into.
abbrev Leaves : Envelope → List (List ℕ) → Opened → Type 0
Leaves e seen o =
    (o.1.seen_message_keys ≡ seen) ⊎ (o.1.seen_message_keys ≡ forget (replay_key e) seen)

Leaves-published :
    (e : Envelope) (q : OpenedPayload) (s : OpenState)
    (r : Result {0, 0} QkdError Unit × QkdKeyStore)
    → Leaves e s.seen_message_keys (published e q s r)
Leaves-published e q s (err x, store) = inr refl
Leaves-published e q s (ok u, store) = inl refl

Leaves-opened_with :
    (fetched : Bool) (m : QkdKeyMaterial) (e : Envelope) (s : OpenState) (o : Option OpenedPayload)
    → Leaves e s.seen_message_keys (opened_with fetched m e s o)
Leaves-opened_with false m e s none = inr refl
Leaves-opened_with true m e s none = inr refl
Leaves-opened_with false m e s (some q) = inl refl
Leaves-opened_with true m e s (some q) = Leaves-published e q s _

module _ (aead : Aead) (is_alive : ℕ → Bool)
    (get_decryption_key : List ℕ → List ℕ → Result QkdError QkdKeyMaterial)
    (first_of : List (List ℕ) → Option (List ℕ)) where
  Leaves-fetched :
      (context : WireContext) (e : Envelope) (s : OpenState) (r : Result QkdError QkdKeyMaterial)
      → Leaves e s.seen_message_keys
          (fetched_or_error aead is_alive get_decryption_key first_of context e s r)
  Leaves-fetched context e s (err x) = inr refl
  Leaves-fetched context e s (ok m) = Leaves-opened_with true m e s _

  Leaves-open_claimed :
      (context : WireContext) (e : Envelope) (seen : List (List ℕ)) (c : Option Claim) (o : Opened)
      → open_claimed aead is_alive get_decryption_key first_of context e seen c ≡ some o
      → Leaves e seen o
  Leaves-open_claimed context e seen none o h = absurd (cc h)
  Leaves-open_claimed context e seen (some (err x, store)) o h =
      subst (Leaves e seen) (some_inj.0 h) (inr refl)
  Leaves-open_claimed context e seen (some (ok (ready_key m), store)) o h =
      subst (Leaves e seen) (some_inj.0 h)
        (Leaves-opened_with false m e (record { seen_message_keys = seen; store = store }) _)
  Leaves-open_claimed context e seen (some (ok claimed, store)) o h =
      subst (Leaves e seen) (some_inj.0 h)
        (Leaves-fetched context e (record { seen_message_keys = seen; store = store }) _)
  Leaves-open_claimed context e seen (some (ok pending_key, store)) o h = absurd (cc h)

-- The seen keys before and after a call of a cache that is not full: as they were, or with one more.
abbrev Grows : OpenState → OpenState → Type 0
Grows s s' =
    (s'.seen_message_keys ≡ s.seen_message_keys)
    ⊎ ((k : List ℕ) × (s'.seen_message_keys ≡ k ∷ s.seen_message_keys))

module _ (aead : Aead) (is_alive : ℕ → Bool)
    (get_decryption_key : List ℕ → List ℕ → Result QkdError QkdKeyMaterial)
    (first_of : List (List ℕ) → Option (List ℕ)) (fuel pid : ℕ) (context : WireContext)
    (s s' : OpenState) (r : Result WireError OpenedPayload) where
  Grows-open_parsed :
      (p : Result WireError Envelope)
      → length s.seen_message_keys < replay_cache_size
      → open_parsed aead is_alive get_decryption_key first_of fuel pid context s p ≡ some (r, s')
      → Grows s s'
  Grows-open_parsed (err x) room h = inl (sym (ap (λ o. o.1.seen_message_keys) (some_inj.0 h)))
  Grows-open_parsed (ok e) room h =
      let k = replay_key e in
      let seen = remember first_of k s.seen_message_keys in
      let go =
        open_claimed aead is_alive get_decryption_key first_of context e seen
          (claim_message_key is_alive fuel pid s.store e.sender_sae_id e.key_id) in
      let has_room : leb replay_cache_size (length s.seen_message_keys) ≡ false =
        lt→leb_false _ _ room in
      let added : seen ≡ k ∷ s.seen_message_keys = rw has_room refl in
      elim (Bool-cases (has_seen k s.seen_message_keys)) [
        | inl t ↦
            let same = sym (ap (λ b. if b then some (err already_used, s) else go) t) ∙ h in
            inl (sym (ap (λ o. o.1.seen_message_keys) (some_inj.0 same)))
        | inr f ↦
            let on = sym (ap (λ b. if b then some (err already_used, s) else go) f) ∙ h in
            let taken_back : forget k (k ∷ s.seen_message_keys) ≡ s.seen_message_keys =
              rw (bytes_eq_self k) (forget-unseen k s.seen_message_keys f) in
            elim (Leaves-open_claimed aead is_alive get_decryption_key first_of context e seen _ _
              on) [
                | inl kept ↦ inr (k, kept ∙ added)
                | inr gone ↦ inl (gone ∙ ap (forget k) added ∙ taken_back)
              ]
      ]

  Grows-open_wire :
      (wire : List ℕ)
      → length s.seen_message_keys < replay_cache_size
      → open_wire aead is_alive get_decryption_key first_of fuel pid s wire context ≡ some (r, s')
      → Grows s s'
  unfolding open_wire
  Grows-open_wire wire room h = Grows-open_parsed (parse_wire context wire) room h

has_seen-Grows :
    (k : List ℕ) (s s' : OpenState)
    → Grows s s'
    → has_seen k s.seen_message_keys ≡ true
    → (has_seen k s'.seen_message_keys ≡ true)
      × (length s'.seen_message_keys ≤ length s.seen_message_keys + 1)
has_seen-Grows k s s' (inl e) h = (ap (has_seen k) e ∙ h, omega (arith, ap length e))
has_seen-Grows k s s' (inr (j, e)) h = elim (Bool-cases (bytes_eq j k)) [
  | inl same ↦ (ap (has_seen k) e ∙ rw same refl, omega (arith, ap length e))
  | inr other ↦ (ap (has_seen k) e ∙ rw other h, omega (arith, ap length e))
]

seen-Later :
    (aead : Aead) (first_of : List (List ℕ) → Option (List ℕ)) (pid : ℕ) (k : List ℕ)
    (s : OpenState) (n : ℕ) (t : OpenState)
    → Later aead first_of pid s n t
    → length s.seen_message_keys + n ≤ replay_cache_size
    → has_seen k s.seen_message_keys ≡ true
    → (has_seen k t.seen_message_keys ≡ true)
      × (length t.seen_message_keys ≤ length s.seen_message_keys + n)
seen-Later aead first_of pid k s _ t at_once room h = (h, omega arith)
seen-Later aead first_of pid k s n t (others {t = t'} store l) room h =
    seen-Later aead first_of pid k s n t' l room h
seen-Later aead first_of pid k s n u
      (call {n = m} {t = t} is_alive get_decryption_key fuel wire context r l e) room h =
    let (seen, few) = seen-Later aead first_of pid k s m t l (omega (arith, room)) h in
    let grows =
      Grows-open_wire aead is_alive get_decryption_key first_of fuel pid context t u r wire
        (omega (arith, room, few)) e in
    let (seen', more) = has_seen-Grows k t u grows seen in (seen', omega (arith, few, more))

-- Once a client has opened a message by `open_wire`, it refuses the message as a replay and changes
-- nothing, also after later calls for other messages and changes of the store by other processes, as long
-- as the keys that it had seen then and the calls since are no more than the cache has places.
pub open_wire-replayed :
    (aead : Aead) (is_alive is_alive' : ℕ → Bool)
    (get_decryption_key get_decryption_key' : List ℕ → List ℕ → Result QkdError QkdKeyMaterial)
    (first_of : List (List ℕ) → Option (List ℕ)) (fuel fuel' pid n : ℕ) (s s' t : OpenState)
    (wire : List ℕ) (opened : OpenedPayload) (context : WireContext)
    → open_wire aead is_alive get_decryption_key first_of fuel pid s wire context
      ≡ some (ok opened, s')
    → Later aead first_of pid s' n t
    → length s'.seen_message_keys + n ≤ replay_cache_size
    → open_wire aead is_alive' get_decryption_key' first_of fuel' pid t wire context
      ≡ some (err already_used, t)
open_wire-replayed aead is_alive is_alive' get_decryption_key get_decryption_key' first_of fuel
      fuel' pid n s s' t wire opened context h later room =
    let (e, good, seen) =
      opened-seen aead is_alive get_decryption_key first_of fuel pid s s' wire opened context h in
    seen-refused aead is_alive' get_decryption_key' first_of fuel' pid t wire context e good
      (seen-Later aead first_of pid (replay_key e) s' n t later room seen).0
