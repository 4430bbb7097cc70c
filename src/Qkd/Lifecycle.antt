-- ===== src/Qkd/Lifecycle.antt =====
-- The sessions of the key store, over their lives: which entry a session is put in, and how many
-- sessions a daemon has.
use rmw_axon.Prelude.{
  ℕ, ◌≤◌, ◌<◌, ◌≡◌, refl, sym, ap, ◌∙◌, ◌⊎◌, inl, inr, Bool, true, false, ◌&&◌, not, none, some,
  List, [], ◌∷◌, arith, ◌==◌, ==_iff, Bool-cases, Option-cases, length, subst, get_or,
}
use rmw_axon.Prelude.Results.{Result, ok, err}
use rmw_axon.Prelude.Texts.{position, count, count-set, count-position-none, position_holds, one_if}
use rmw_axon.Qkd.{
  QkdShmEntry, QkdError, max_sae_id_len, max_key_id_len, IsName, validate_identifier-IsName,
}
use rmw_axon.Qkd.Store.{QkdKeyStore, QkdKeyMaterial}
use rmw_axon.Qkd.Sessions.{
  is_empty, is_active_state, next_generation, cleared_entry, session_entry, is_session_of, stored,
  if_checked, put_index, put, activates, activated, activate_at, activate, remove_entries, remove,
}

-- No daemon has two sessions.
abbrev pub Unique : QkdKeyStore → Type 0
Unique s = (d : ℕ) → count (is_session_of d) s.entries ≤ 1

session_entry-is_session_of :
    (d e : ℕ) (r : List ℕ) (m : QkdKeyMaterial) (b : Bool)
    → is_session_of e (session_entry d r m b) ≡ d == e
unfolding session_entry
session_entry-is_session_of d e r m true = refl
session_entry-is_session_of d e r m false = refl

-- The entry that a session is put in: that of its daemon, or one when the daemon has none.
pub put_index_cases :
    (es : List QkdShmEntry) (d : ℕ)
    → 1 ≤ length es
    → (put_index es d < length es)
      × ((position (is_session_of d) es ≡ none)
          ⊎ (position (is_session_of d) es ≡ some (put_index es d)))
unfolding put_index
put_index_cases es d some_entries = elim (Option-cases (position (is_session_of d) es)) [
  | inr (i, e) ↦
      let (_, room) = position_holds (is_session_of d) es i cleared_entry e in rw e (room, inr refl)
  | inl n ↦ elim (Option-cases (position (λ e. is_empty e.state) es)) [
    | inl m ↦ rw (n, m) (some_entries, inl refl)
    | inr (j, m) ↦
        let (_, room) = position_holds (λ e. is_empty e.state) es j cleared_entry m in
        rw (n, m) (room, inl refl)
  ]
]

pub put-IsName :
    (s : QkdKeyStore) (d : ℕ) (r : List ℕ) (m : QkdKeyMaterial) (b : Bool)
    → IsName max_sae_id_len r
    → IsName max_key_id_len m.key_id
    → put s d r m b ≡ (ok tt, stored s d r m b)
unfolding put
put-IsName s d r m b sender name =
    rw
      (
        validate_identifier-IsName max_sae_id_len r sender,
        validate_identifier-IsName max_key_id_len m.key_id name,
      )
      refl

if_checked_cases :
    (c : Result {0, 0} QkdError Unit) (s s' : QkdKeyStore)
    → ((if_checked c s s').1 ≡ s) ⊎ ((if_checked c s s').1 ≡ s')
if_checked_cases (ok u) s s' = inr refl
if_checked_cases (err e) s s' = inl refl

put_cases :
    (s : QkdKeyStore) (d : ℕ) (r : List ℕ) (m : QkdKeyMaterial) (b : Bool)
    → ((put s d r m b).1 ≡ s) ⊎ ((put s d r m b).1 ≡ stored s d r m b)
unfolding put
put_cases s d r m b = if_checked_cases _ s (stored s d r m b)

Unique-stored :
    (s : QkdKeyStore) (d : ℕ) (r : List ℕ) (m : QkdKeyMaterial) (b : Bool)
    → 1 ≤ length s.entries
    → Unique s
    → Unique (stored s d r m b)
Unique-stored s d r m b some_entries u e =
    let i = put_index s.entries d in
    let (room, h) = put_index_cases s.entries d some_entries in
    let change =
      count-set (is_session_of e) s.entries i (session_entry d r m b) cleared_entry room in
    let new = session_entry-is_session_of d e r m b in
    elim (Bool-cases (d == e)) [
      | inl same ↦
          let one : one_if (is_session_of e) (is_session_of e (session_entry d r m b)) ≡ 1 =
            ap (one_if (is_session_of e)) (new ∙ same) in
          let here : d ≡ e = (==_iff d e).0 same in
          elim h [
            | inl n ↦
                let zero_now =
                  ap (λ k. count (is_session_of k) s.entries) (sym here)
                  ∙ count-position-none (is_session_of d) s.entries n in
                omega (arith, change, one, zero_now)
            | inr at ↦
                let (mine, _) = position_holds (is_session_of d) s.entries i cleared_entry at in
                let was = ap (one_if (is_session_of e)) (
                  ap (λ k. is_session_of k (get_or s.entries i cleared_entry)) (sym here) ∙ mine) in
                omega (arith, change, one, was, u e)
          ]
      | inr other ↦
          let zero_more : one_if (is_session_of e) (is_session_of e (session_entry d r m b)) ≡ 0 =
            ap (one_if (is_session_of e)) (new ∙ other) in
          omega (arith, change, zero_more, u e)
    ]

pub cleared-is_session_of : (e : ℕ) → is_session_of e cleared_entry ≡ false
unfolding cleared_entry
cleared-is_session_of e = refl

count-remove_entries :
    (d g e : ℕ) (es : List QkdShmEntry)
    → count (is_session_of e) (remove_entries d g es).1 ≤ count (is_session_of e) es
count-remove_entries d g e [] = omega arith
count-remove_entries d g e (x ∷ xs) = elim (Bool-cases (is_session_of d x)) [
  | inl gone ↦ elim (Bool-cases (is_session_of e x)) [
    | inl a ↦
        rw (gone, a, cleared-is_session_of e)
          (omega (arith, count-remove_entries d (next_generation g) e xs))
    | inr a ↦
        rw (gone, a, cleared-is_session_of e) (count-remove_entries d (next_generation g) e xs)
  ]
  | inr kept ↦ elim (Bool-cases (is_session_of e x)) [
    | inl a ↦ rw (kept, a) (omega (arith, count-remove_entries d g e xs))
    | inr a ↦ rw (kept, a) (count-remove_entries d g e xs)
  ]
]

in_use-activates :
    (d : ℕ) (k : List ℕ) (e : QkdShmEntry) → activates d k e ≡ true → is_empty e.state ≡ false
in_use-activates d k e h = ground arith

Unique-activated :
    (s : QkdKeyStore) (i : ℕ)
    → Unique s
    → i < length s.entries
    → is_empty (get_or s.entries i cleared_entry).state ≡ false
    → Unique (activate_at s (some i)).1
Unique-activated s i u room used =
    elim (Bool-cases (is_active_state (get_or s.entries i cleared_entry).state)) [
      | inl a ↦ rw a u
      | inr a ↦ rw a (λ e.
          let change =
            count-set (is_session_of e) s.entries i (activated (get_or s.entries i cleared_entry))
              cleared_entry room in
          let was =
            ap
              (λ b.
                one_if (is_session_of e)
                  (not b && (get_or s.entries i cleared_entry).remote_daemon_id == e))
              used in
          omega (arith, change, was, u e))
    ]

Unique-activate_at : (s : QkdKeyStore) (d : ℕ) (k : List ℕ) → Unique s → Unique (activate s d k).1
unfolding activate
Unique-activate_at s d k u = elim (Option-cases (position (activates d k) s.entries)) [
  | inl n ↦ subst (λ o. Unique (activate_at s o).1) (sym n) u
  | inr (i, at) ↦
      let (holds, room) = position_holds (activates d k) s.entries i cleared_entry at in
      subst (λ o. Unique (activate_at s o).1) (sym at)
        (Unique-activated s i u room
          (in_use-activates d k (get_or s.entries i cleared_entry) holds))
]

-- No operation gives a daemon a second session.
pub one_session :
    (s : QkdKeyStore) (d : ℕ) (r k : List ℕ) (m : QkdKeyMaterial) (b : Bool)
    → 1 ≤ length s.entries
    → Unique s
    → Unique (put s d r m b).1 × Unique (activate s d k).1 × Unique (remove s d)
unfolding remove
one_session s d r k m b some_entries u = (
  elim (put_cases s d r m b) [
    | inl same ↦ subst Unique (sym same) u
    | inr new ↦ subst Unique (sym new) (Unique-stored s d r m b some_entries u)
  ],
  Unique-activate_at s d k u,
  λ e. omega (arith, count-remove_entries d s.generation e s.entries, u e),
)
