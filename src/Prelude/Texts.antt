-- ===== src/Prelude/Texts.antt =====
-- Texts as their bytes: equality, positions in a list, and fixed arrays of bytes.
use Prim.Native.Nat.{ℕ, zero, suc, ◌+◌, ◌<◌}
use mathlib.Core.Path.{◌≡◌, refl, sym, ap, subst, ◌∙◌}
use mathlib.Core.Logic.{◌⊎◌, inl, inr}
use mathlib.Core.Bool.{Bool, true, false, ◌&&◌, ◌||◌}
use mathlib.Core.Option.{Option, none, some, some_inj}
use mathlib.Core.List.{List, [], ◌∷◌}
use native.Mathlib.Omega.{arith}
use rmw_axon.Prelude.Tests.{◌==◌, if◌then◌else◌, ==_iff, ==_self, Bool-cases, Option-cases}
use rmw_axon.Prelude.Lists.{length, take, set, get_or}

unfoldable pub bytes_eq : List ℕ → List ℕ → Bool
bytes_eq [] [] = true
bytes_eq [] (y ∷ ys) = false
bytes_eq (x ∷ xs) [] = false
bytes_eq (x ∷ xs) (y ∷ ys) = (x == y) && bytes_eq xs ys

pub bytes_eq_self : (xs : List ℕ) → bytes_eq xs xs ≡ true
unfolding bytes_eq
bytes_eq_self [] = refl
bytes_eq_self (x ∷ xs) = rw (==_self x) (bytes_eq_self xs)

pub same-bytes : (xs ys : List ℕ) → bytes_eq xs ys ≡ true → xs ≡ ys
unfolding bytes_eq
same-bytes [] [] h = refl
same-bytes [] (y ∷ ys) h = cc
same-bytes (x ∷ xs) [] h = cc
same-bytes (x ∷ xs) (y ∷ ys) h = elim (Bool-cases (x == y)) [
  | inl e ↦
      let rest : bytes_eq xs ys ≡ true = ground (arith, e, h) in
      ground (arith, (==_iff x y).0 e, same-bytes xs ys rest)
  | inr e ↦ absurd (cc (e, h))
]

abbrev pub or_next {ℓ} : {A : Type ℓ} → Option A → Option A → Option A
or_next none rest = rest
or_next (some b) rest = some b

module _ {ℓ} {A : Type ℓ} where
  abbrev pub any : (A → Bool) → List A → Bool
  any p [] = false
  any p (x ∷ xs) = p x || any p xs

  -- `iter().position`.
  unfoldable pub position : (A → Bool) → List A → Option ℕ
  position p [] = none
  position p (x ∷ xs) =
      let rest = position p xs in
      if p x then some 0 else elim rest [ none ↦ none | some i ↦ some (suc i) ]

  -- `iter().find_map`.
  unfoldable pub find_map {κ} : {B : Type κ} → (A → Option B) → List A → Option B
  find_map f [] = none
  find_map f (x ∷ xs) = let rest = find_map f xs in or_next (f x) rest

  pub position-cons-none :
      (p : A → Bool) (x : A) (xs : List A)
      → position p (x ∷ xs) ≡ none
      → (p x ≡ false) × (position p xs ≡ none)
  unfolding position
  position-cons-none p x xs h = elim (Bool-cases (p x)) [
    | inl t ↦ let here : position p (x ∷ xs) ≡ some 0 = rw t refl in absurd (cc (here, h))
    | inr f ↦ elim (Option-cases (position p xs)) [
      | inl n ↦ (f, n)
      | inr (i, e) ↦
          let there : position p (x ∷ xs) ≡ some (suc i) = rw (f, e) refl in absurd (cc (there, h))
    ]
  ]

  pub position-cons-some :
      (p : A → Bool) (x : A) (xs : List A) (i : ℕ)
      → p x ≡ false
      → position p (x ∷ xs) ≡ some (suc i)
      → position p xs ≡ some i
  unfolding position
  position-cons-some p x xs i f h = elim (Option-cases (position p xs)) [
    | inl n ↦
        let none_here : position p (x ∷ xs) ≡ none = rw (f, n) refl in absurd (cc (none_here, h))
    | inr (j, e) ↦
        let there : position p (x ∷ xs) ≡ some (suc j) = rw (f, e) refl in e ∙ cc (there, h)
  ]

  pub position-set-none :
      (p : A → Bool) (xs : List A) (i : ℕ) (e : A)
      → position p xs ≡ none
      → p e ≡ false
      → position p (set xs i e) ≡ none
  unfolding position
  position-set-none p [] i e h f = h
  position-set-none p (x ∷ xs) zero e h f = ground (arith, h, f)
  position-set-none p (x ∷ xs) (suc i) e h f =
      let (g, n) = position-cons-none p x xs h in rw (g, position-set-none p xs i e n f) refl

  pub position-set :
      (p : A → Bool) (xs : List A) (i : ℕ) (e : A)
      → position p xs ≡ none
      → i < length xs
      → p e ≡ true
      → position p (set xs i e) ≡ some i
  unfolding position
  position-set p [] i e h room t = absurd (omega arith)
  position-set p (x ∷ xs) zero e h room t = rw t refl
  position-set p (x ∷ xs) (suc i) e h room t =
      let (g, n) = position-cons-none p x xs h in
      rw (g, position-set p xs i e n (omega (arith, room)) t) refl

  pub set-set : (xs : List A) (i : ℕ) (a b : A) → set (set xs i a) i b ≡ set xs i b
  set-set [] i a b = refl
  set-set (x ∷ xs) zero a b = refl
  set-set (x ∷ xs) (suc i) a b = ap (◌∷◌ x) (set-set xs i a b)

pub store-whole : (bs : List ℕ) → take (length bs) bs ≡ bs
store-whole [] = refl
store-whole (b ∷ bs) = ap (◌∷◌ b) (store-whole bs)

module _ {ℓ κ} {A : Type ℓ} {B : Type κ} (f : A → Option B) where
  -- A write at the first place that passes a test, or where none does, is what a search for it finds.
  pub find_map-set :
      (p : A → Bool) (xs : List A) (i : ℕ) (e : A) (b : B)
      → ((x : A) → p x ≡ false → f x ≡ none)
      → (position p xs ≡ none) ⊎ (position p xs ≡ some i)
      → i < length xs
      → f e ≡ some b
      → find_map f (set xs i e) ≡ some b
  unfolding find_map position
  find_map-set p [] i e b skip h room found = absurd (omega (arith, room))
  find_map-set p (x ∷ xs) zero e b skip h room found = rw found refl
  find_map-set p (x ∷ xs) (suc i) e b skip h room found = elim (Bool-cases (p x)) [
    | inl t ↦
        let here : position p (x ∷ xs) ≡ some 0 = rw t refl in
        elim h [ inl n ↦ absurd (cc (here, n)) | inr n ↦ absurd (cc (here, n)) ]
    | inr t ↦
        let rest =
          find_map-set p xs i e b skip
            (elim h [
              | inl n ↦ inl (position-cons-none p x xs n).1
              | inr n ↦ inr (position-cons-some p x xs i t n)
            ])
            (omega (arith, room)) found in
        rw (skip x t) rest
  ]

  pub find_map-none :
      (p : A → Bool) (xs : List A)
      → ((x : A) → p x ≡ false → f x ≡ none)
      → position p xs ≡ none
      → find_map f xs ≡ none
  unfolding find_map
  find_map-none p [] skip h = refl
  find_map-none p (x ∷ xs) skip h =
      let (t, n) = position-cons-none p x xs h in rw (skip x t) (find_map-none p xs skip n)

  pub find_map-set_skip :
      (xs : List A) (i : ℕ) (e d : A)
      → f (get_or xs i d) ≡ none
      → f e ≡ none
      → find_map f (set xs i e) ≡ find_map f xs
  unfolding find_map
  find_map-set_skip [] i e d old new = refl
  find_map-set_skip (x ∷ xs) zero e d old new =
      let head : f x ≡ none = old in rw (head, new, find_map, set) refl
  find_map-set_skip (x ∷ xs) (suc i) e d old new = elim (Option-cases (f x)) [
    | inl n ↦ rw n (find_map-set_skip xs i e d old new)
    | inr (b, s) ↦ rw s refl
  ]

module _ {ℓ} {A : Type ℓ} (p : A → Bool) where
  abbrev pub count : List A → ℕ
  count [] = 0
  count (x ∷ xs) = let rest = count xs in if p x then suc rest else rest

  abbrev pub one_if : Bool → ℕ
  one_if true = 1
  one_if false = 0

  pub count-set :
      (xs : List A) (i : ℕ) (e d : A)
      → i < length xs
      → count (set xs i e) + one_if (p (get_or xs i d)) ≡ count xs + one_if (p e)
  count-set [] i e d room = absurd (omega (arith, room))
  count-set (x ∷ xs) zero e d room = elim (Bool-cases (p x)) [
    | inl a ↦ elim (Bool-cases (p e)) [ inl b ↦ rw (a, b) refl | inr b ↦ rw (a, b) (omega arith) ]
    | inr a ↦ elim (Bool-cases (p e)) [ inl b ↦ rw (a, b) (omega arith) | inr b ↦ rw (a, b) refl ]
  ]
  count-set (x ∷ xs) (suc i) e d room =
      let rest = count-set xs i e d (omega (arith, room)) in
      elim (Bool-cases (p x)) [ inl a ↦ rw a (omega (arith, rest)) | inr a ↦ rw a rest ]

  pub count-position-none : (xs : List A) → position p xs ≡ none → count xs ≡ 0
  count-position-none [] h = refl
  count-position-none (x ∷ xs) h =
      let (f, n) = position-cons-none p x xs h in rw f (count-position-none xs n)

  pub position_holds :
      (xs : List A) (i : ℕ) (d : A)
      → position p xs ≡ some i
      → (p (get_or xs i d) ≡ true) × (i < length xs)
  unfolding position
  position_holds [] i d h = cc
  position_holds (x ∷ xs) i d h = elim (Bool-cases (p x)) [
    | inl t ↦
        let here : position p (x ∷ xs) ≡ some 0 = rw t refl in
        subst (λ k. (p (get_or (x ∷ xs) k d) ≡ true) × (k < length (x ∷ xs)))
          (some_inj.0 (sym here ∙ h)) (t, omega arith)
    | inr t ↦ elim (Option-cases (position p xs)) [
      | inl n ↦
          let none_here : position p (x ∷ xs) ≡ none = rw (t, n) refl in absurd (cc (none_here, h))
      | inr (j, e) ↦
          let there : position p (x ∷ xs) ≡ some (suc j) = rw (t, e) refl in
          let (holds, room) = position_holds xs j d e in
          subst (λ k. (p (get_or (x ∷ xs) k d) ≡ true) × (k < length (x ∷ xs)))
            (some_inj.0 (sym there ∙ h)) (holds, omega (arith, room))
    ]
  ]

module _ {ℓ} {A : Type ℓ} where
  pub position-none-at :
      (p : A → Bool) (xs : List A) (i : ℕ) (d : A)
      → position p xs ≡ none
      → i < length xs
      → p (get_or xs i d) ≡ false
  position-none-at p [] i d h room = absurd (omega (arith, room))
  position-none-at p (x ∷ xs) zero d h room = (position-cons-none p x xs h).0
  position-none-at p (x ∷ xs) (suc i) d h room =
      position-none-at p xs i d (position-cons-none p x xs h).1 (omega (arith, room))

  pub position_mono :
      (p q : A → Bool) (xs : List A)
      → ((x : A) → p x ≡ false → q x ≡ false)
      → position p xs ≡ none
      → position q xs ≡ none
  unfolding position
  position_mono p q [] less h = refl
  position_mono p q (x ∷ xs) less h =
      let (t, n) = position-cons-none p x xs h in rw (less x t, position_mono p q xs less n) refl
