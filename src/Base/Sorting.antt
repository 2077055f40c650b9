-- ===== src/Base/Sorting.antt =====
-- `sort.Slice`, for a test that orders its elements totally: then every sorting algorithm gives
-- the list that insertion gives.
use mathlib.Core.Bool.{Bool}
use mathlib.Core.List.{List, [], ◌∷◌}
use mathlib.Core.Logic.{◌↔◌, inl, inr}
use caddy_agent_gateway.Base.Tests.{if◌then◌else◌, Bool-cases}
use caddy_agent_gateway.Base.Lists.{Member, there, Member-uncons, Member-cons}

module _ {ℓ} {A : Type ℓ} (less : A → A → Bool) where
  unfoldable pub insert_sorted : A → List A → List A
  insert_sorted x [] = x ∷ []
  insert_sorted x (y ∷ ys) = if less y x then y ∷ insert_sorted x ys else x ∷ y ∷ ys

  unfoldable pub sort_by : List A → List A
  unfolding insert_sorted
  sort_by [] = []
  sort_by (x ∷ xs) = insert_sorted x (sort_by xs)

module _ {ℓ} {A : Type ℓ} (less : A → A → Bool) where
  insert_sorted-Member :
      {a : A} (x : A) (xs : List A) → Member a (insert_sorted less x xs) ↔ Member a (x ∷ xs)
  unfolding insert_sorted
  insert_sorted-Member x [] = (λ m. m, λ m. m)
  insert_sorted-Member {a = a} x (y ∷ ys) = elim (Bool-cases (less y x)) [
    | inr e ↦ rw e (λ m. m, λ m. m)
    | inl e ↦
        let ih = insert_sorted-Member {a = a} x ys in
        rw e (
          λ m. elim (Member-uncons m) [
            | inl same ↦ there (Member-cons (inl same))
            | inr m' ↦ elim (Member-uncons (ih.0 m')) [
              | inl same ↦ Member-cons (inl same)
              | inr m'' ↦ there (there m'')
            ]
          ],
          λ m. elim (Member-uncons m) [
            | inl same ↦ there (ih.1 (Member-cons (inl same)))
            | inr m' ↦ elim (Member-uncons m') [
              | inl same ↦ Member-cons (inl same)
              | inr m'' ↦ there (ih.1 (there m''))
            ]
          ],
        )
  ]

  -- Sorting keeps the elements.
  pub sort_by-Member : {a : A} (xs : List A) → Member a (sort_by less xs) ↔ Member a xs
  unfolding sort_by
  sort_by-Member [] = (λ m. m, λ m. m)
  sort_by-Member {a = a} (x ∷ xs) =
      let ih = sort_by-Member {a = a} xs in
      let step = insert_sorted-Member {a = a} x (sort_by less xs) in
      (
        λ m. elim (Member-uncons (step.0 m)) [
          | inl same ↦ Member-cons (inl same)
          | inr m' ↦ there (ih.0 m')
        ],
        λ m. elim (Member-uncons m) [
          | inl same ↦ step.1 (Member-cons (inl same))
          | inr m' ↦ step.1 (there (ih.1 m'))
        ],
      )
