-- ===== src/Envelope/Replay.antt =====
-- What a call of `open_wire` has seen, when it opens a message.
use rmw_axon.Prelude.{
  ℕ, ◌≡◌, refl, sym, ap, ◌∙◌, ◌≢◌, inl, inr, Bool, true, false, Option, none, some, List,
  if◌then◌else◌, Bool-cases,
}
use mathlib.Core.Option.{some_inj}
use rmw_axon.Prelude.Results.{Result, ok, err, result_cases}
use rmw_axon.Prelude.Texts.{bytes_eq_self}
use rmw_axon.Qkd.{QkdError}
use rmw_axon.Qkd.Store.{
  QkdKeyStore, QkdKeyMaterial, Claim, ready_key, claimed, pending_key, claim_message_key,
}
use rmw_axon.Envelope.{
  WireContext, WireError, already_used, Aead, Envelope, parse_wire, replay_key, OpenState, has_seen,
  remember, Opened, OpenedPayload, published, opened_with, fetched_or_error, open_claimed,
  open_parsed, open_wire,
}

-- What a call that opens a message has seen.
abbrev seen_of : Opened → Option (List (List ℕ))
seen_of (ok p, s) = some s.seen_message_keys
seen_of (err e, s) = none

abbrev Keeps : Opened → List (List ℕ) → Type 0
Keeps o seen = (p : OpenedPayload) (s' : OpenState) → o ≡ (ok p, s') → s'.seen_message_keys ≡ seen

Keeps-err : (x : WireError) (s : OpenState) (seen : List (List ℕ)) → Keeps (err x, s) seen
Keeps-err x s seen p s' h =
    let bad : none ≡ some s'.seen_message_keys = ap seen_of h in absurd (cc bad)

Keeps-ok : (q : OpenedPayload) (s : OpenState) → Keeps (ok q, s) s.seen_message_keys
Keeps-ok q s p s' h = sym (some_inj.0 (ap seen_of h))

Keeps-published :
    (e : Envelope) (q : OpenedPayload) (s : OpenState)
    (r : Result {0, 0} QkdError Unit × QkdKeyStore)
    → Keeps (published e q s r) s.seen_message_keys
Keeps-published e q s (err x, store) = Keeps-err _ _ s.seen_message_keys
Keeps-published e q s (ok u, store) = Keeps-ok q (record s { store = store })

Keeps-opened_with :
    (fetched : Bool) (m : QkdKeyMaterial) (e : Envelope) (s : OpenState) (o : Option OpenedPayload)
    → Keeps (opened_with fetched m e s o) s.seen_message_keys
Keeps-opened_with false m e s none = Keeps-err _ _ s.seen_message_keys
Keeps-opened_with true m e s none = Keeps-err _ _ s.seen_message_keys
Keeps-opened_with false m e s (some q) = Keeps-ok q s
Keeps-opened_with true m e s (some q) = Keeps-published e q s _

failed_err :
    (x : WireError) (s s' : OpenState) (p : OpenedPayload) → ◌≢◌ {A = Opened} (err x, s) (ok p, s')
failed_err x s s' p h = let bad : none ≡ some s'.seen_message_keys = ap seen_of h in cc bad

module _ (aead : Aead) (is_alive : ℕ → Bool)
    (get_decryption_key : List ℕ → List ℕ → Result QkdError QkdKeyMaterial)
    (first_of : List (List ℕ) → Option (List ℕ)) where
  Keeps-fetched :
      (context : WireContext) (e : Envelope) (s : OpenState) (r : Result QkdError QkdKeyMaterial)
      → Keeps
          (fetched_or_error aead is_alive get_decryption_key first_of context e s r)
          s.seen_message_keys
  Keeps-fetched context e s (err x) = Keeps-err _ _ s.seen_message_keys
  Keeps-fetched context e s (ok m) = Keeps-opened_with true m e s _

  Keeps-open_claimed :
      (context : WireContext) (e : Envelope) (seen : List (List ℕ)) (c : Option Claim)
      (p : OpenedPayload) (s' : OpenState)
      → open_claimed aead is_alive get_decryption_key first_of context e seen c ≡ some (ok p, s')
      → s'.seen_message_keys ≡ seen
  Keeps-open_claimed context e seen none p s' h = absurd (cc h)
  Keeps-open_claimed context e seen (some (err x, store)) p s' h =
      Keeps-err _ _ seen p s' (some_inj.0 h)
  Keeps-open_claimed context e seen (some (ok (ready_key m), store)) p s' h =
      Keeps-opened_with false m e (record { seen_message_keys = seen; store = store }) _ p s'
        (some_inj.0 h)
  Keeps-open_claimed context e seen (some (ok claimed, store)) p s' h =
      Keeps-fetched context e (record { seen_message_keys = seen; store = store }) _ p s'
        (some_inj.0 h)
  Keeps-open_claimed context e seen (some (ok pending_key, store)) p s' h = absurd (cc h)

  seen_once :
      (fuel pid : ℕ) (context : WireContext) (s s' : OpenState) (e : Envelope) (p : OpenedPayload)
      → open_parsed aead is_alive get_decryption_key first_of fuel pid context s (ok e)
        ≡ some (ok p, s')
      → has_seen (replay_key e) s'.seen_message_keys ≡ true
  seen_once fuel pid context s s' e p h =
      let k = replay_key e in
      let seen = remember first_of k s.seen_message_keys in
      let go =
        open_claimed aead is_alive get_decryption_key first_of context e seen
          (claim_message_key is_alive fuel pid s.store e.sender_sae_id e.key_id) in
      elim (Bool-cases (has_seen k s.seen_message_keys)) [
        | inl t ↦
            let replayed = sym (ap (λ b. if b then some (err already_used, s) else go) t) ∙ h in
            absurd (failed_err already_used s s' p (some_inj.0 replayed))
        | inr f ↦
            let go_on = sym (ap (λ b. if b then some (err already_used, s) else go) f) ∙ h in
            let kept = Keeps-open_claimed context e seen _ p s' go_on in
            ap (has_seen k) kept ∙ rw (bytes_eq_self k) refl
      ]

  -- A message that was opened could be parsed, and its key is among the seen ones.
  pub opened-seen :
      (fuel pid : ℕ) (s s' : OpenState) (wire : List ℕ) (opened : OpenedPayload)
      (context : WireContext)
      → open_wire aead is_alive get_decryption_key first_of fuel pid s wire context
        ≡ some (ok opened, s')
      → (e : Envelope) × (parse_wire context wire ≡ ok e)
        × (has_seen (replay_key e) s'.seen_message_keys ≡ true)
  unfolding open_wire
  opened-seen fuel pid s s' wire opened context h =
      let parsed = open_parsed aead is_alive get_decryption_key first_of fuel pid context s in
      elim (result_cases (parse_wire context wire)) [
        | inl (x, bad) ↦
            let failed : parsed (err x) ≡ some (ok opened, s') = sym (ap parsed bad) ∙ h in
            absurd (failed_err x s s' opened (some_inj.0 failed))
        | inr (e, good) ↦
            let on : parsed (ok e) ≡ some (ok opened, s') = sym (ap parsed good) ∙ h in
            (e, good, seen_once fuel pid context s s' e opened on)
      ]

  -- A message whose key is among the seen ones is refused.
  pub seen-refused :
      (fuel pid : ℕ) (s : OpenState) (wire : List ℕ) (context : WireContext) (e : Envelope)
      → parse_wire context wire ≡ ok e
      → has_seen (replay_key e) s.seen_message_keys ≡ true
      → open_wire aead is_alive get_decryption_key first_of fuel pid s wire context
        ≡ some (err already_used, s)
  unfolding open_wire
  seen-refused fuel pid s wire context e good seen =
      ap (open_parsed aead is_alive get_decryption_key first_of fuel pid context s) good
      ∙ rw seen refl
