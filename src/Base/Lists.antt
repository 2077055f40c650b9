-- ===== src/Base/Lists.antt =====
-- Lists measured by native numbers and searched by Boolean tests.
use Prim.Native.Nat.{ℕ, zero, suc, ◌+◌, ◌≤◌}
use mathlib.Core.Path.{◌≡◌, refl}
use mathlib.Core.Bool.{Bool, true, false, ◌||◌}
use mathlib.Core.List.{List, [], ◌∷◌, ◌++◌}
use mathlib.Core.Option.{Option, none, some}
use native.Mathlib.Omega.{arith}
use mathlib.Core.Logic.{◌⊎◌, inl, inr, ◌↔◌}
use caddy_agent_gateway.Base.Tests.{if◌then◌else◌, Eq, ◌==◌, Bool-cases}

module _ {ℓ} {A : Type ℓ} where
  abbrev pub length : List A → ℕ
  length [] = 0
  length (x ∷ xs) = suc (length xs)

  abbrev pub get_elem? : List A → ℕ → Option A
  get_elem? [] i = none
  get_elem? (x ∷ xs) zero = some x
  get_elem? (x ∷ xs) (suc i) = get_elem? xs i

  abbrev pub drop : ℕ → List A → List A
  drop zero xs = xs
  drop (suc n) [] = []
  drop (suc n) (x ∷ xs) = drop n xs

  abbrev pub any : (A → Bool) → List A → Bool
  any p [] = false
  any p (x ∷ xs) = p x || any p xs

  -- The elements that pass a test, in their order.
  abbrev pub keep_if : (A → Bool) → List A → List A
  keep_if p [] = []
  keep_if p (x ∷ xs) = if p x then x ∷ keep_if p xs else keep_if p xs

  pub length-append : (xs ys : List A) → length (xs ++ ys) ≡ length xs + length ys
  length-append [] ys = omega arith
  length-append (x ∷ xs) ys = omega (arith, length-append xs ys)

  pub length-keep_if-le : (p : A → Bool) (xs : List A) → length (keep_if p xs) ≤ length xs
  length-keep_if-le p [] = omega arith
  length-keep_if-le p (x ∷ xs) = ground (arith, length-keep_if-le p xs)

module _ {ℓ κ} {A : Type ℓ} (P : A → Type κ) where
  abbrev pub All : List A → Type κ
  All [] = Unit
  All (x ∷ xs) = P x × All xs

module _ {ℓ κ} {A : Type ℓ} (P : A → Type κ) where
  pub All-append : (xs ys : List A) → All P xs → All P ys → All P (xs ++ ys)
  All-append [] ys hx hy = hy
  All-append (x ∷ xs) ys hx hy = (hx.0, All-append xs ys hx.1 hy)

  pub All-keep_if : (p : A → Bool) (xs : List A) → All P xs → All P (keep_if p xs)
  All-keep_if p [] h = tt
  All-keep_if p (x ∷ xs) h = ground (arith, All-keep_if p xs h.1)

-- Membership in a slice, as `slices.Contains` tests it, and as a type that keeps the place.
module _ {ℓ} {A : Type ℓ} where
  pub data Member (a : A) : List A → Type ℓ where
    here : {xs : List A} → Member a (a ∷ xs)
    there : {x : A} {xs : List A} → Member a xs → Member a (x ∷ xs)

  abbrev pub contains : ⦃e : Eq A⦄ → List A → A → Bool
  contains [] a = false
  contains (x ∷ xs) a = x == a || contains xs a

module _ {ℓ} {A : Type ℓ} ⦃e : Eq A⦄ where
  -- No element occurs twice.
  abbrev pub Distinct : List A → Type 0
  Distinct [] = Unit
  Distinct (x ∷ xs) = (contains xs x ≡ false) × Distinct xs

  -- A loop that carries what it has seen finds each element new when none occurs twice and none
  -- was seen before.
  pub fresh-cons :
      (x : A) (seen xs : List A)
      → All (λ y. contains (x ∷ seen) y ≡ false) xs
        ↔ ((contains xs x ≡ false) × All (λ y. contains seen y ≡ false) xs)
  fresh-cons x seen [] = (λ h. (refl, tt), λ h. tt)
  fresh-cons x seen (y ∷ ys) = (
    λ h.
        let (apart, rest) = (fresh-cons x seen ys).0 h.1 in
        (ground (arith, h.0, apart, e.beq_iff x y, e.beq_iff y x), (ground (arith, h.0), rest)),
    λ h. (
      ground (arith, h.0, h.1.0, e.beq_iff x y, e.beq_iff y x),
      (fresh-cons x seen ys).1 (ground (arith, h.0), h.1.1),
    ),
  )

module _ {ℓ} {A : Type ℓ} where
  pub Member-uncons : {a x : A} {xs : List A} → Member a (x ∷ xs) → (a ≡ x) ⊎ Member a xs
  Member-uncons here = inl refl
  Member-uncons (there m) = inr m

  pub Member-cons : {a x : A} {xs : List A} → (a ≡ x) ⊎ Member a xs → Member a (x ∷ xs)
  Member-cons (inl e) = rw e here
  Member-cons (inr m) = there m

  pub Member-middle : (a : A) (xs ys : List A) → Member a (xs ++ a ∷ ys)
  Member-middle a [] ys = here
  Member-middle a (x ∷ xs) ys = there (Member-middle a xs ys)

  pub Member-keep_if :
      (p : A → Bool) {a : A} (xs : List A) → Member a (keep_if p xs) → Member a xs × (p a ≡ true)
  Member-keep_if p [] m = elim m [ ]
  Member-keep_if p {a} (x ∷ xs) m = elim (Bool-cases (p x)) [
    | inl e ↦ elim (Member-uncons (rw e at m)) [
      | inl same ↦ (rw same here, rw same e)
      | inr m' ↦ let (m'', h) = Member-keep_if p xs m' in (there m'', h)
    ]
    | inr e ↦ let (m', h) = Member-keep_if p xs (rw e at m) in (there m', h)
  ]

  pub keep_if-Member :
      (p : A → Bool) {a : A} {xs : List A} → Member a xs → p a ≡ true → Member a (keep_if p xs)
  keep_if-Member p here h = rw h here
  keep_if-Member p {a} (there {x} {xs} m) h = elim (Bool-cases (p x)) [
    | inl e ↦ rw e (there (keep_if-Member p m h))
    | inr e ↦ rw e (keep_if-Member p m h)
  ]

  pub All-Member {κ} : (P : A → Type κ) {a : A} (xs : List A) → All P xs → Member a xs → P a
  All-Member P [] h m = elim m [ ]
  All-Member P (x ∷ xs) h m = elim (Member-uncons m) [
    | inl e ↦ rw e h.0
    | inr m' ↦ All-Member P xs h.1 m'
  ]
