-- ===== src/Qkd/Probe.antt =====
-- The entry at which a pass of `claim_message_key` ends, and what a write of that entry changes.
use rmw_axon.Prelude.{
  ℕ, ◌<◌, ◌≡◌, refl, sym, ap, ◌∙◌, ◌≢◌, ◌⊎◌, inl, inr, Bool, true, false, ◌||◌, Option, none, some,
  List, [], ◌∷◌, arith, ◌==◌, if◌then◌else◌, ==_iff, Bool-cases, length, get_or-set_self,
  get_or-set_ne,
}
use rmw_axon.Qkd.Store.{
  QkdMessageShmEntry, QkdKeyStore, entry_at, set_entry, clear_message_entry, Visit, pass_pending,
  pass_ready, busy, recover, take_empty, clear_stale, found_pending, found_ready, visit, Pass,
  stopped, reached_end, older, pass_step, scan,
}

abbrev pub stops : Visit → Bool
stops pass_pending = false
stops pass_ready = false
stops busy = true
stops recover = true
stops take_empty = true
stops clear_stale = true
stops found_pending = true
stops found_ready = true

abbrev pub contains : ℕ → List ℕ → Bool
contains i [] = false
contains i (j ∷ js) = (j == i) || contains i js

-- The first index that passes a test.
unfoldable pub first : (ℕ → Bool) → List ℕ → Option ℕ
first p [] = none
first p (i ∷ is) = let rest = first p is in if p i then some i else rest

some-injective : {a b : ℕ} → some a ≡ some b → a ≡ b
some-injective e = cc

pub contains-first :
    (p : ℕ → Bool) (path : List ℕ) (i : ℕ)
    → first p path ≡ some i
    → (contains i path ≡ true) × (p i ≡ true)
unfolding first
contains-first p [] i h = cc
contains-first p (j ∷ js) i h = elim (Bool-cases (p j)) [
  | inl stop ↦
      let here : j ≡ i = some-injective (ground (arith, stop, h)) in
      (ground (arith, here), ap p (sym here) ∙ stop)
  | inr go ↦ let (c, q) = contains-first p js i (ground (arith, go, h)) in (ground (arith, c), q)
]

-- A test that comes to hold at one index of the path: that index is first, if none was before.
pub first-change :
    (p q : ℕ → Bool) (i : ℕ) (path : List ℕ)
    → ((j : ℕ) → j ≢ i → q j ≡ p j)
    → q i ≡ true
    → contains i path ≡ true
    → (first p path ≡ none) ⊎ (first p path ≡ some i)
    → first q path ≡ some i
unfolding first
first-change p q i [] same now c f = cc
first-change p q i (j ∷ js) same now c f = elim (Bool-cases (j == i)) [
  | inl e ↦
      let here : j ≡ i = (==_iff j i).0 e in
      let stop : q j ≡ true = ap q here ∙ now in rw stop (ap some here)
  | inr e ↦
      let other : j ≢ i = ground (arith, e) in
      elim (Bool-cases (p j)) [
        | inl stop ↦
            let here : first p (j ∷ js) ≡ some j = rw stop refl in
            elim f [
              | inl h ↦ absurd (cc (here, h))
              | inr h ↦ absurd (other (some-injective (sym here ∙ h)))
            ]
        | inr go ↦
            let on : first p (j ∷ js) ≡ first p js = rw go refl in
            let go' : q j ≡ false = same j other ∙ go in
            rw go' (
              first-change p q i js same now (ground (arith, e, c))
                (elim f [ inl h ↦ inl (sym on ∙ h) | inr h ↦ inr (sym on ∙ h) ]))
      ]
]

abbrev pub oldest_step : Visit → Option (ℕ × ℕ) → ℕ → ℕ → Option (ℕ × ℕ)
oldest_step pass_ready oldest i generation = older oldest i generation
oldest_step pass_pending oldest i generation = oldest
oldest_step busy oldest i generation = oldest
oldest_step recover oldest i generation = oldest
oldest_step take_empty oldest i generation = oldest
oldest_step clear_stale oldest i generation = oldest
oldest_step found_pending oldest i generation = oldest
oldest_step found_ready oldest i generation = oldest

pass_step-stops :
    (v : Visit) (i g : ℕ) (o : Option (ℕ × ℕ)) (next : Option (ℕ × ℕ) → Pass)
    → stops v ≡ true
    → pass_step v i o g next ≡ stopped v i
pass_step-stops pass_pending i g o next h = cc
pass_step-stops pass_ready i g o next h = cc
pass_step-stops busy i g o next h = refl
pass_step-stops recover i g o next h = refl
pass_step-stops take_empty i g o next h = refl
pass_step-stops clear_stale i g o next h = refl
pass_step-stops found_pending i g o next h = refl
pass_step-stops found_ready i g o next h = refl

pass_step-goes_on :
    (v : Visit) (i g : ℕ) (o : Option (ℕ × ℕ)) (next : Option (ℕ × ℕ) → Pass)
    → stops v ≡ false
    → pass_step v i o g next ≡ next (oldest_step v o i g)
pass_step-goes_on pass_pending i g o next h = refl
pass_step-goes_on pass_ready i g o next h = refl
pass_step-goes_on busy i g o next h = cc
pass_step-goes_on recover i g o next h = cc
pass_step-goes_on take_empty i g o next h = cc
pass_step-goes_on clear_stale i g o next h = cc
pass_step-goes_on found_pending i g o next h = cc
pass_step-goes_on found_ready i g o next h = cc

module _ (is_alive : ℕ → Bool) (sender_sae_id key_id : List ℕ) where
  abbrev pub stops_at : QkdKeyStore → ℕ → Bool
  stops_at s i = stops (visit is_alive (entry_at s i) sender_sae_id key_id)

  abbrev pub probe : QkdKeyStore → List ℕ → Option ℕ
  probe s path = first (stops_at s) path

  unfoldable pub oldest_on : QkdKeyStore → List ℕ → Option (ℕ × ℕ) → Option (ℕ × ℕ)
  oldest_on s [] oldest = oldest
  oldest_on s (i ∷ is) oldest =
      let e = entry_at s i in
      oldest_on s is (oldest_step (visit is_alive e sender_sae_id key_id) oldest i e.generation)

  pub scan-probe :
      (s : QkdKeyStore) (path : List ℕ) (oldest : Option (ℕ × ℕ)) (i : ℕ)
      → probe s path ≡ some i
      → scan is_alive s sender_sae_id key_id path oldest
        ≡ stopped (visit is_alive (entry_at s i) sender_sae_id key_id) i
  unfolding scan first
  scan-probe s [] oldest i h = cc
  scan-probe s (j ∷ js) oldest i h = elim (Bool-cases (stops_at s j)) [
    | inl stop ↦
        let here : some j ≡ some i = ground (arith, stop, h) in
        pass_step-stops _ j _ oldest _ stop ∙ cc
    | inr go ↦
        let rest : probe s js ≡ some i = ground (arith, go, h) in
        pass_step-goes_on _ j _ oldest _ go ∙ scan-probe s js _ i rest
  ]

  pub scan-probe-none :
      (s : QkdKeyStore) (path : List ℕ) (oldest : Option (ℕ × ℕ))
      → probe s path ≡ none
      → scan is_alive s sender_sae_id key_id path oldest ≡ reached_end (oldest_on s path oldest)
  unfolding scan first oldest_on
  scan-probe-none s [] oldest h = refl
  scan-probe-none s (j ∷ js) oldest h = elim (Bool-cases (stops_at s j)) [
    | inl stop ↦ absurd (ground (arith, stop, h))
    | inr go ↦
        let rest : probe s js ≡ none = ground (arith, go, h) in
        pass_step-goes_on _ j _ oldest _ go ∙ scan-probe-none s js _ rest
  ]

  -- A write of an entry at which a pass then stops: the pass stops there, if it did not stop before.
  pub probe-set_entry :
      (s : QkdKeyStore) (path : List ℕ) (i : ℕ) (e : QkdMessageShmEntry)
      → i < length s.message_entries
      → contains i path ≡ true
      → (probe s path ≡ none) ⊎ (probe s path ≡ some i)
      → stops (visit is_alive e sender_sae_id key_id) ≡ true
      → probe (set_entry s i e) path ≡ some i
  probe-set_entry s path i e room c f stop =
      let at = get_or-set_self s.message_entries i e clear_message_entry room in
      first-change (stops_at s) (stops_at (set_entry s i e)) i path
        (λ j other.
          ap (λ x. stops (visit is_alive x sender_sae_id key_id))
            (get_or-set_ne s.message_entries i j e clear_message_entry (λ eq. other (sym eq))))
        (ap (λ x. stops (visit is_alive x sender_sae_id key_id)) at ∙ stop) c f
