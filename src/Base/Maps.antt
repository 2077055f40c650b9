-- ===== src/Base/Maps.antt =====
-- Go's maps as association lists. The order of a list stands for the order in which `range` meets
-- the entries, which Go leaves open: theorems hold for every list, so for every order.
use mathlib.Core.Path.{◌≡◌, refl, sym, ap, ◌∙◌}
use mathlib.Core.Logic.{◌≢◌}
use mathlib.Core.Bool.{true, false}
use mathlib.Core.List.{List, [], ◌∷◌}
use mathlib.Core.Option.{Option, none, some}
use mathlib.Core.Option
use native.Mathlib.Omega.{arith}
use mathlib.Core.Logic.{inl, inr}
use caddy_agent_gateway.Base.Tests.{if◌then◌else◌, Eq, ◌==◌, Bool-cases}
use caddy_agent_gateway.Base.Lists.{Member, here, there, Member-uncons}

module _ {ℓ κ} {K : Type ℓ} {V : Type κ} where
  abbrev pub keys : List (K × V) → List K
  keys [] = []
  keys ((k, v) ∷ m) = k ∷ keys m

  abbrev pub values : List (K × V) → List V
  values [] = []
  values ((k, v) ∷ m) = v ∷ values m

module _ {ℓ κ μ} {K : Type ℓ} {V : Type κ} {W : Type μ} where
  unfoldable pub map_values : (V → W) → List (K × V) → List (K × W)
  map_values f [] = []
  map_values f ((k, v) ∷ m) = (k, f v) ∷ map_values f m

module _ {ℓ κ} {K : Type ℓ} ⦃e : Eq K⦄ {V : Type κ} where
  unfoldable pub lookup : K → List (K × V) → Option V
  lookup k [] = none
  lookup k ((i, w) ∷ rest) = if i == k then some w else lookup k rest

  -- `m[k] = v`
  unfoldable pub insert : K → V → List (K × V) → List (K × V)
  insert k v [] = (k, v) ∷ []
  insert k v ((i, w) ∷ rest) = if i == k then (k, v) ∷ rest else (i, w) ∷ insert k v rest

  -- `delete(m, k)`
  unfoldable pub delete : K → List (K × V) → List (K × V)
  delete k [] = []
  delete k ((i, w) ∷ rest) = if i == k then delete k rest else (i, w) ∷ delete k rest

  pub lookup-insert :
      (k q : K) (v : V) (m : List (K × V))
      → lookup q (insert k v m) ≡ (if k == q then some v else lookup q m)
  unfolding lookup insert
  lookup-insert k q v [] = refl
  lookup-insert k q v ((i, w) ∷ rest) =
      ground (arith, e.beq_iff k q, e.beq_iff i k, e.beq_iff i q, lookup-insert k q v rest)

  pub lookup-delete :
      (k j : K) (m : List (K × V)) → lookup j (delete k m) ≡ (if k == j then none else lookup j m)
  unfolding lookup delete
  lookup-delete k j [] = ground arith
  lookup-delete k j ((i, w) ∷ m) =
      ground (arith, e.beq_iff k j, e.beq_iff i k, e.beq_iff i j, lookup-delete k j m)

pub eq_self {ℓ} : {K : Type ℓ} ⦃e : Eq K⦄ (k : K) → (k == k) ≡ true
eq_self ⦃e⦄ k = (e.beq_iff k k).1 refl

module _ {ℓ κ} {K : Type ℓ} ⦃e : Eq K⦄ {V : Type κ} where
  pub lookup-insert_self : (k : K) (v : V) (m : List (K × V)) → lookup k (insert k v m) ≡ some v
  lookup-insert_self k v m = rw (lookup-insert k k v m, eq_self k)

  pub lookup-insert_ne :
      (k j : K) (v : V) (m : List (K × V)) → j ≢ k → lookup j (insert k v m) ≡ lookup j m
  lookup-insert_ne k j v m ne = ground (arith, lookup-insert k j v m, e.beq_iff k j)

  pub lookup-delete_self : (k : K) (m : List (K × V)) → lookup k (delete k m) ≡ none
  lookup-delete_self k m = rw (lookup-delete k k m, eq_self k)

  pub lookup-delete_ne : (k j : K) (m : List (K × V)) → j ≢ k → lookup j (delete k m) ≡ lookup j m
  lookup-delete_ne k j m ne = ground (arith, lookup-delete k j m, e.beq_iff k j)

  pub lookup-Member : (k : K) (v : V) (m : List (K × V)) → lookup k m ≡ some v → Member (k, v) m
  unfolding lookup
  lookup-Member k v [] h = cc
  lookup-Member k v ((i, w) ∷ rest) h = elim (Bool-cases (i == k)) [
    | inl same ↦
        let hw : Path (Option V) (some w) (some v) = rw same at h in
        let ev : w ≡ v = cc in let ek : i ≡ k = (e.beq_iff i k).0 same in rw (← ek, ← ev) here
    | inr other ↦ there (lookup-Member k v rest (rw other at h))
  ]

  pub insert-same : (k : K) (v : V) (m : List (K × V)) → lookup k m ≡ some v → insert k v m ≡ m
  unfolding lookup insert
  insert-same k v [] h = cc
  insert-same k v ((i, w) ∷ rest) h = elim (Bool-cases (i == k)) [
    | inl same ↦
        let hw : Path (Option V) (some w) (some v) = rw same at h in
        let ev : w ≡ v = cc in let ek : i ≡ k = (e.beq_iff i k).0 same in rw same (rw (ek, ev) refl)
    | inr other ↦ rw other (rw (insert-same k v rest (rw other at h)) refl)
  ]

  pub lookup-keys : (k : K) {v : V} (m : List (K × V)) → lookup k m ≡ some v → Member k (keys m)
  unfolding lookup
  lookup-keys k [] h = cc
  lookup-keys k ((i, w) ∷ rest) h = elim (Bool-cases (i == k)) [
    | inl same ↦ let ek : i ≡ k = (e.beq_iff i k).0 same in rw ek here
    | inr other ↦ there (lookup-keys k rest (rw other at h))
  ]

module _ {ℓ κ} {K : Type ℓ} ⦃e : Eq K⦄ {V : Type κ} where
  pub lookup-map_values :
      {W : Type κ} (f : V → W) (k : K) (m : List (K × V))
      → lookup k (map_values f m) ≡ Option.map f (lookup k m)
  unfolding lookup map_values
  lookup-map_values f k [] = refl
  lookup-map_values f k ((i, w) ∷ m) = elim (Bool-cases (i == k)) [
    | inl same ↦ rw same refl
    | inr other ↦ rw other (lookup-map_values f k m)
  ]

  -- No key stands twice.
  pub data IsMap : List (K × V) → Type (ℓ ⊔ κ) where
    empty_map : IsMap []
    with_entry :
        {k : K} {v : V} {m : List (K × V)} → lookup k m ≡ none → IsMap m → IsMap ((k, v) ∷ m)

  pub insert-IsMap : (k : K) (v : V) {m : List (K × V)} → IsMap m → IsMap (insert k v m)
  unfolding insert lookup
  insert-IsMap k v empty_map = with_entry refl empty_map
  insert-IsMap k v (with_entry {k = i} {v = w} {m = m} fresh rest) = elim (Bool-cases (i == k)) [
    | inl same ↦
        let ik : i ≡ k = (e.beq_iff i k).0 same in rw same (with_entry (rw (← ik) fresh) rest)
    | inr other ↦
        let differs : (k == i) ≡ false = ground (arith, e.beq_iff i k, e.beq_iff k i) in
        rw other (with_entry (lookup-insert k i v m ∙ rw differs fresh) (insert-IsMap k v rest))
  ]

  pub delete-IsMap : (k : K) {m : List (K × V)} → IsMap m → IsMap (delete k m)
  unfolding delete
  delete-IsMap k empty_map = empty_map
  delete-IsMap k (with_entry {k = i} {v = w} {m = m} fresh rest) = elim (Bool-cases (i == k)) [
    | inl same ↦ rw same (delete-IsMap k rest)
    | inr other ↦
        let differs : (k == i) ≡ false = ground (arith, e.beq_iff i k, e.beq_iff k i) in
        rw other (with_entry (lookup-delete k i m ∙ rw differs fresh) (delete-IsMap k rest))
  ]

  pub IsMap-lookup :
      {k : K} {v : V} {m : List (K × V)} → IsMap m → Member (k, v) m → lookup k m ≡ some v
  unfolding lookup
  IsMap-lookup empty_map mem = elim mem [ ]
  IsMap-lookup {k = k} {v = v} (with_entry {k = i} {v = w} {m = m} fresh rest) mem =
      elim (Member-uncons mem) [
        | inl same ↦
            let ek : k ≡ i = ap (λ p. p.0) same in
            let ev : v ≡ w = ap (λ p. p.1) same in rw (ek, ev, eq_self i) refl
        | inr later ↦
            let there_is = IsMap-lookup rest later in
            elim (Bool-cases (i == k)) [
              | inl same ↦
                  let ek : i ≡ k = (e.beq_iff i k).0 same in
                  let gone : lookup k m ≡ none = rw (← ek) fresh in
                  let clash : Path (Option V) none (some v) = sym gone ∙ there_is in absurd cc
              | inr other ↦ rw other there_is
            ]
      ]
