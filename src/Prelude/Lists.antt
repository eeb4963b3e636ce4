-- ===== src/Prelude/Lists.antt =====
-- Iterator methods over lists, with Boolean closures as in the source, and a membership that
-- computes to a sum.
use Prim.Native.Nat.{ℕ, zero, suc, ◌+◌, ◌≤◌, ◌<◌}
use mathlib.Core.Path.{◌≡◌, refl, ap, subst}
use mathlib.Core.Logic.{◌⊎◌, inl, inr}
use mathlib.Core.Bool.{Bool, true, false, ◌&&◌, ◌||◌}
use mathlib.Core.List.{List, [], ◌∷◌, ◌++◌, map}
use mathlib.Core.Option.{Option, none, some}
use native.Mathlib.Omega.{arith}
use butido.Prelude.Tests.{if◌then◌else◌, Bool-cases, Eq, ◌==◌}

module _ {ℓ} {A : Type ℓ} where
  abbrev pub length : List A → ℕ
  length [] = 0
  length (x ∷ xs) = suc (length xs)

  abbrev pub get_elem? : List A → ℕ → Option A
  get_elem? [] i = none
  get_elem? (x ∷ xs) zero = some x
  get_elem? (x ∷ xs) (suc i) = get_elem? xs i

  abbrev pub is_empty : List A → Bool
  is_empty [] = true
  is_empty (x ∷ xs) = false

  abbrev pub any : (A → Bool) → List A → Bool
  any p [] = false
  any p (x ∷ xs) = p x || any p xs

  abbrev pub all : (A → Bool) → List A → Bool
  all p [] = true
  all p (x ∷ xs) = p x && all p xs

  abbrev pub filter : (A → Bool) → List A → List A
  filter p [] = []
  filter p (x ∷ xs) = let rest = filter p xs in if p x then x ∷ rest else rest

  abbrev pub find : (A → Bool) → List A → Option A
  find p [] = none
  find p (x ∷ xs) = if p x then some x else find p xs

  abbrev pub count : (A → Bool) → List A → ℕ
  count p [] = 0
  count p (x ∷ xs) = (if p x then 1 else 0) + count p xs

  abbrev pub All {κ} : (A → Type κ) → List A → Type κ
  All P [] = Unit
  All P (x ∷ xs) = P x × All P xs

module _ {ℓ κ} {A : Type ℓ} {K : Type κ} ⦃e : Eq K⦄ where
  -- itertools' `unique_by`, by the keys that were seen before
  abbrev pub unique_after : (A → K) → List K → List A → List A
  unique_after f seen [] = []
  unique_after f seen (x ∷ xs) =
      let dropped = unique_after f seen xs in
      let kept = x ∷ unique_after f (f x ∷ seen) xs in
      if any (λ k. k == f x) seen then dropped else kept

  abbrev pub unique_by : (A → K) → List A → List A
  unique_by f = unique_after f []

-- Membership with the position kept.
pub data In {ℓ} {A : Type ℓ} (a : A) : List A → Type ℓ where
  here : {x : A} {xs : List A} → x ≡ a → In a (x ∷ xs)
  there : {x : A} {xs : List A} → In a xs → In a (x ∷ xs)

module _ {ℓ} {A : Type ℓ} where
  pub All-In {κ} : (P : A → Type κ) (xs : List A) {a : A} → All P xs → In a xs → P a
  All-In P [] h m = elim m [ ]
  All-In P (x ∷ xs) h (here e) = rw e at (h.0)
  All-In P (x ∷ xs) h (there m) = All-In P xs h.1 m

  pub All-of_In {κ} : (P : A → Type κ) (xs : List A) → ((a : A) → In a xs → P a) → All P xs
  All-of_In P [] h = tt
  All-of_In P (x ∷ xs) h = (h x (here refl), All-of_In P xs (λ a m. h a (there m)))

  pub In-append_left : (ys : List A) {a : A} {xs : List A} → In a xs → In a (xs ++ ys)
  In-append_left ys (here e) = here e
  In-append_left ys (there m) = there (In-append_left ys m)

  pub In-append_right : (xs : List A) {ys : List A} {a : A} → In a ys → In a (xs ++ ys)
  In-append_right [] m = m
  In-append_right (x ∷ xs) m = there (In-append_right xs m)

  pub In-append : (xs : List A) {ys : List A} {a : A} → In a (xs ++ ys) → In a xs ⊎ In a ys
  In-append [] m = inr m
  In-append (x ∷ xs) (here e) = inl (here e)
  In-append (x ∷ xs) (there m) = elim (In-append xs m) [ inl l ↦ inl (there l) | inr r ↦ inr r ]

  pub not-In-nil : {a : A} → ¬ In a []
  not-In-nil m = elim m [ ]

  pub In-singleton : {a x : A} → In a (x ∷ []) → x ≡ a
  In-singleton (here e) = e
  In-singleton (there m) = absurd (not-In-nil m)

  kept_or_left :
      (p : A → Bool) (x : A) (rest xs : List A) {a : A}
      → (In a rest → In a xs × (p a ≡ true))
      → (b : Bool) → p x ≡ b
      → In a (if b then x ∷ rest else rest)
      → In a (x ∷ xs) × (p a ≡ true)
  kept_or_left p x rest xs below true t (here e) = (here e, rw (← e) t)
  kept_or_left p x rest xs below true t (there m) = let (l, h) = below m in (there l, h)
  kept_or_left p x rest xs below false t m = let (l, h) = below m in (there l, h)

  pub In-filter : (p : A → Bool) (xs : List A) {a : A} → In a (filter p xs) → In a xs × (p a ≡ true)
  In-filter p [] m = absurd (not-In-nil m)
  In-filter p (x ∷ xs) m = kept_or_left p x (filter p xs) xs (λ l. In-filter p xs l) (p x) refl m

  pub In-filter_intro :
      (p : A → Bool) {a : A} {xs : List A} → In a xs → p a ≡ true → In a (filter p xs)
  In-filter_intro p (here {x = x} e) h = let t : p x ≡ true = rw e h in rw t (here e)
  In-filter_intro p (there {x = x} m) h =
      let rest = In-filter_intro p m h in
      elim (Bool-cases (p x)) [ inl t ↦ rw t (there rest) | inr f ↦ rw f rest ]

  pub any_of_In : (p : A → Bool) {a : A} {xs : List A} → In a xs → p a ≡ true → any p xs ≡ true
  any_of_In p (here {x = x} e) h = let t : p x ≡ true = rw e h in rw t
  any_of_In p (there {x = x} m) h =
      let rest = any_of_In p m h in elim (Bool-cases (p x)) [ inl t ↦ rw t | inr f ↦ rw f rest ]

  pub In-of_any : (p : A → Bool) (xs : List A) → any p xs ≡ true → (a : A) × In a xs × (p a ≡ true)
  In-of_any p [] h = cc
  In-of_any p (x ∷ xs) h = elim (Bool-cases (p x)) [
    | inl t ↦ (x, here refl, t)
    | inr f ↦ let (a, m, pa) = In-of_any p xs (rw f at h) in (a, there m, pa)
  ]

  pub In-of_all : (p : A → Bool) {a : A} {xs : List A} → all p xs ≡ true → In a xs → p a ≡ true
  In-of_all p h (here {x = x} e) = rw (← e) (ground arith)
  In-of_all p h (there {x = x} m) = In-of_all p (ground arith) m

  pub all_of_In : (p : A → Bool) (xs : List A) → ((a : A) → In a xs → p a ≡ true) → all p xs ≡ true
  all_of_In p [] h = refl
  all_of_In p (x ∷ xs) h = rw (h x (here refl)) (all_of_In p xs (λ a m. h a (there m)))

  pub count-le :
      (p q : A → Bool) (xs : List A)
      → ((a : A) → In a xs → p a ≡ true → q a ≡ true)
      → count p xs ≤ count q xs
  count-le p q [] h = omega arith
  count-le p q (x ∷ xs) h = ground (arith, h x (here refl), count-le p q xs (λ a m. h a (there m)))

  pub count-lt :
      (p q : A → Bool) {w : A} {xs : List A}
      → In w xs
      → p w ≡ false
      → q w ≡ true
      → ((a : A) → In a xs → p a ≡ true → q a ≡ true)
      → count p xs < count q xs
  count-lt p q (here {x = x} {xs = xs} e) pf qt h =
      let pf' : p x ≡ false = rw e pf in
      let qt' : q x ≡ true = rw e qt in
      ground (arith, pf', qt', count-le p q xs (λ a m. h a (there m)))
  count-lt p q (there {x = x} m) pf qt h =
      ground (arith, h x (here refl), count-lt p q m pf qt (λ a m'. h a (there m')))

module _ {ℓ κ} {A : Type ℓ} {B : Type κ} where
  pub In-map : (f : A → B) (xs : List A) {b : B} → In b (map f xs) → (a : A) × In a xs × (f a ≡ b)
  In-map f [] m = absurd (not-In-nil m)
  In-map f (x ∷ xs) (here e) = (x, here refl, e)
  In-map f (x ∷ xs) (there m) = let (a, at, e) = In-map f xs m in (a, there at, e)

  pub In-map_intro : (f : A → B) {a : A} {xs : List A} → In a xs → In (f a) (map f xs)
  In-map_intro f (here e) = here (ap f e)
  In-map_intro f (there m) = there (In-map_intro f m)

module _ {ℓ} {A : Type ℓ} where
  dropped_or_kept :
      (x : A) (dropped kept xs : List A) {a : A}
      → (In a dropped → In a xs)
      → (In a kept → In a (x ∷ xs))
      → (b : Bool) → In a (if b then dropped else kept)
      → In a (x ∷ xs)
  dropped_or_kept x dropped kept xs f g true m = there (f m)
  dropped_or_kept x dropped kept xs f g false m = g m

  In-cons_of : {xs ys : List A} {x a : A} → (In a xs → In a ys) → In a (x ∷ xs) → In a (x ∷ ys)
  In-cons_of f (here e) = here e
  In-cons_of f (there m) = there (f m)

module _ {ℓ κ} {A : Type ℓ} {K : Type κ} ⦃e : Eq K⦄ where
  In-unique_after :
      (f : A → K) (seen : List K) (xs : List A) {a : A} → In a (unique_after f seen xs) → In a xs
  In-unique_after f seen [] m = m
  In-unique_after f seen (x ∷ xs) m =
      dropped_or_kept x (unique_after f seen xs) (x ∷ unique_after f (f x ∷ seen) xs) xs
        (λ d. In-unique_after f seen xs d)
        (λ k. In-cons_of (λ d. In-unique_after f (f x ∷ seen) xs d) k) (any (λ k. k == f x) seen) m

  -- What `unique_by` returns was among what it was given.
  pub In-unique_by : (f : A → K) (xs : List A) {a : A} → In a (unique_by f xs) → In a xs
  In-unique_by f xs m = In-unique_after f [] xs m

  -- A member of the list has a key that was seen before, or it is kept or another with its key is.
  pub In-unique_after_intro :
      (f : A → K) {a : A} (seen : List K) {xs : List A}
      → In a xs
      → (any (λ k. k == f a) seen ≡ true) ⊎ ((b : A) × In b (unique_after f seen xs) × (f b ≡ f a))
  In-unique_after_intro f {a} seen (here {x = x} e) = elim (Bool-cases (any (λ k. k == f x) seen)) [
    | inl old ↦ inl (subst (λ (y : A). any (λ k. k == f y) seen ≡ true) e old)
    | inr new ↦ inr (x, rw new (here refl), ap f e)
  ]
  In-unique_after_intro f {a} seen (there {x = x} m) =
      let dropped = In-unique_after_intro f seen m in
      let kept = In-unique_after_intro f (f x ∷ seen) m in
      elim (Bool-cases (any (λ k. k == f x) seen)) [
        | inl old ↦ elim dropped [
          | inl before ↦ inl before
          | inr (b, at, same) ↦ inr (b, rw old at, same)
        ]
        | inr new ↦ elim kept [
          | inr (b, at, same) ↦ inr (b, rw new (there at), same)
          | inl before ↦ elim (Bool-cases (f x == f a)) [
            | inl same ↦ inr (x, rw new (here refl), (e.beq_iff (f x) (f a)).0 same)
            | inr other ↦ inl (rw (other, if◌then◌else◌) at before)
          ]
        ]
      ]

  -- What is given to `unique_by` is returned, or something else with the same key.
  pub In-unique_by_intro :
      (f : A → K) {a : A} {xs : List A} → In a xs → (b : A) × In b (unique_by f xs) × (f b ≡ f a)
  In-unique_by_intro f m = elim (In-unique_after_intro f [] m) [
    | inl before ↦ absurd (cc)
    | inr kept ↦ kept
  ]
