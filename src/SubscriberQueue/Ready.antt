-- ===== src/SubscriberQueue/Ready.antt =====
-- The readiness test and the peeks against `read_at`.
use rmw_axon.Prelude.{
  ℕ, zero, suc, ◌-◌, ◌<◌, ◌≡◌, refl, sym, ◌∙◌, ◌⊎◌, inl, inr, true, false, Option, none, some, List,
  [], ◌∷◌, arith, ltb, leb, if◌then◌else◌, Bool-cases, length, get_elem?, get_last?, get_last?-cons,
}
use mathlib.Core.Option
use rmw_axon.SubscriberQueue.{
  Message, SubscriberQueue, message_at, deliver, read_at, data_available_from, peek_size,
}
use rmw_axon.SubscriberQueue.Inv.{Consecutive, first, is_some, IsValid, Consecutive-last}

get_elem?-is_some : (ms : List Message) (i : ℕ) → i < length ms → is_some (get_elem? ms i) ≡ true
get_elem?-is_some [] i h = absurd (omega arith)
get_elem?-is_some (m ∷ ms) zero h = refl
get_elem?-is_some (m ∷ ms) (suc i) h = get_elem?-is_some ms i (omega arith)

is_some-map {ℓ κ} :
    {A : Type ℓ} {B : Type κ} (f : A → B) (o : Option A) → is_some (Option.map f o) ≡ is_some o
is_some-map f none = refl
is_some-map f (some a) = refl

message_at-is_some :
    (s : ℕ) (ms : List Message) (seq : ℕ)
    → Consecutive s ms
    → is_some (message_at ms seq) ≡ elim (get_last? ms) [ none ↦ false | some m ↦ leb seq m.0 ]
unfolding message_at
message_at-is_some s [] seq c = refl
message_at-is_some s ((t, p) ∷ ms) seq c =
    let (m, g) = get_last?-cons (t, p) ms in
    let top = Consecutive-last s ((t, p) ∷ ms) c g in
    let at = (if ltb seq t then m.0 else seq) - t in
    let inside : m.0 < seq ⊎ at < length ((t, p) ∷ ms) = ground (arith, c.0, top) in
    rw (g, message_at)
      (elim (Bool-cases (ltb m.0 seq)) [
        | inl ahead ↦ rw ahead (ground arith)
        | inr here ↦
            let found = get_elem?-is_some ((t, p) ∷ ms) at (ground (arith, inside)) in
            rw (here, is_some-map) (ground (arith, found))
      ])

is_some-deliver : (out : List ℕ) (o : Option Message) → is_some (deliver out o).0 ≡ is_some o
is_some-deliver out none = refl
is_some-deliver out (some (seq, payload)) = ground arith

size-deliver :
    (out : List ℕ) (o : Option Message)
    → Option.map {B = ℕ × ℕ} (λ m. (length m.1, m.0)) o ≡ (deliver out o).0
size-deliver out none = refl
size-deliver out (some (seq, payload)) = ground arith

-- On a valid queue `data_available_from` holds at a cursor exactly when `read_at` finds a message
-- there, whatever the output slice; and what `peek_size` reports is what `read_at` reports.
pub read_at-ready :
    (q : SubscriberQueue) (seq : ℕ) (out : List ℕ)
    → IsValid q
    → (data_available_from q seq ≡ is_some (read_at q seq out).0)
      × (peek_size q seq ≡ (read_at q seq out).0)
unfolding read_at data_available_from peek_size
read_at-ready q seq out v = (
  sym (
      is_some-deliver out (message_at q.messages seq)
      ∙ message_at-is_some (first q) q.messages seq v.in_order),
  size-deliver out (message_at q.messages seq),
)
