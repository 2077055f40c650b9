-- ===== src/LlmRoute/Choose/Laws.antt =====
-- pkg/gateway/llmroute/policy.go: which candidate each strategy may choose.
use text.Mathlib.TextEquality.{eq_iff}
use caddy_agent_gateway.Base.{
  ℕ, ◌+◌, ◌-◌, ◌%◌, ◌≤◌, ◌<◌, ◌≡◌, ◌≢◌, refl, ap, ◌∙◌, String, true, List, [], ◌∷◌, ◌++◌, Option,
  some, arith, ℤ, ◌≤ℤ◌, ltb_ℤ, beq_ℤ_iff, int_eq, ltb, if◌then◌else◌, ◌==◌, string_eq, All, Member,
  here, there, Member-keep_if, keep_if-Member, Bool-cases, ◌⊎◌, inl, inr,
}
use caddy_agent_gateway.LlmRoute.Choose.{
  ResolvedCandidate, normalized_weight, total_weight, is_positive, first, weighted_loop,
  choose_weighted_binding, priority_loop, choose_priority_binding, best_priority,
  has_positive_weight, top_tier, choose_from_tier, choose_auto_binding, choose_candidate,
}

-- The weights added up without a bound.
unfoldable pub weight_sum : List ResolvedCandidate → ℕ
weight_sum [] = 0
weight_sum (c ∷ cs) = normalized_weight c.weight + weight_sum cs

-- The code's total is the sum, reduced to 64 bits.
total_weight-sum :
    (total : ℕ) (cs : List ResolvedCandidate)
    → total < 18446744073709551616
    → total_weight total cs ≡ (total + weight_sum cs) % 18446744073709551616
unfolding total_weight weight_sum
total_weight-sum total [] h = omega arith
total_weight-sum total (c ∷ cs) h =
    total_weight-sum ((total + normalized_weight c.weight) % 18446744073709551616) cs (omega arith)
    ∙ omega arith

-- The candidate whose share of the sum of the weights holds the number drawn.
pub record Drawn (cs : List ResolvedCandidate) (pick : ℕ) (c : ResolvedCandidate) : Type 0 where
  pub before : List ResolvedCandidate
  pub after : List ResolvedCandidate
  pub split : cs ≡ before ++ c ∷ after
  pub low : weight_sum before ≤ pick
  pub high : pick < weight_sum before + normalized_weight c.weight

Drawn-cons :
    {cs : List ResolvedCandidate} {pick : ℕ} {d : ResolvedCandidate} (c : ResolvedCandidate)
    → normalized_weight c.weight ≤ pick
    → Drawn cs (pick - normalized_weight c.weight) d
    → Drawn (c ∷ cs) pick d
unfolding weight_sum
Drawn-cons c le drawn = record {
  before = c ∷ drawn.before;
  after = drawn.after;
  split = ap (λ l. c ∷ l) drawn.split;
  low = omega arith;
  high = omega arith;
}

weighted_loop-Drawn :
    (fallback : Option ResolvedCandidate) (pick : ℕ) (cs : List ResolvedCandidate)
    → pick < weight_sum cs
    → (c : ResolvedCandidate) × (weighted_loop fallback pick cs ≡ some c) × Drawn cs pick c
unfolding weighted_loop weight_sum
weighted_loop-Drawn fallback pick [] h = absurd (omega arith)
weighted_loop-Drawn fallback pick (c ∷ cs) h =
    elim (Bool-cases (ltb pick (normalized_weight c.weight))) [
      | inl hit ↦ (
        c,
        rw hit,
        record { before = []; after = cs; split = refl; low = omega arith; high = ground arith },
      )
      | inr miss ↦
          let (d, chosen, drawn) =
            weighted_loop-Drawn fallback (pick - normalized_weight c.weight) cs (ground arith) in
          (d, rw miss chosen, Drawn-cons c (ground arith) drawn)
    ]

if_lt {ℓ} :
    {A : Type ℓ} (n : ℕ) (x y : A)
    → 0 < n
    → n < 9223372036854775808
    → (if is_positive n then x else y) ≡ x
if_lt n x y h k = let t : is_positive n ≡ true = ground arith in rw t

-- rand.Intn returns a number below its argument.
abbrev pub Draws : (ℕ → ℕ) → Type 0
Draws intn = (n : ℕ) → 0 < n → intn n < n

-- Weighted choice: where the sum of the weights is more than zero and fits an int of 64 bits, each
-- candidate is chosen for exactly its weight's share of the numbers that may be drawn, and so never
-- one without weight.
pub choose_weighted_binding-Drawn :
    (intn : ℕ → ℕ) (bindings : List ResolvedCandidate)
    → Draws intn
    → 0 < weight_sum bindings
    → weight_sum bindings < 9223372036854775808
    → (c : ResolvedCandidate) × (choose_weighted_binding intn bindings ≡ some c)
      × Drawn bindings (intn (weight_sum bindings)) c
unfolding choose_weighted_binding weight_sum
choose_weighted_binding-Drawn intn [] draws h fits = absurd (omega arith)
choose_weighted_binding-Drawn intn (c ∷ []) draws h fits = (
  c,
  refl,
  record {
    before = [];
    after = [];
    split = refl;
    low = omega arith;
    high = omega (arith, draws (normalized_weight c.weight + 0) (omega arith));
  },
)
choose_weighted_binding-Drawn intn (c ∷ d ∷ cs) draws h fits =
    let all = c ∷ d ∷ cs in
    let total : total_weight 0 all ≡ weight_sum all =
      total_weight-sum 0 all (omega arith) ∙ omega arith in
    let (e, chosen, drawn) =
      weighted_loop-Drawn (some c) (intn (weight_sum all)) all (draws (weight_sum all) h) in
    (e, rw total (if_lt (weight_sum all) _ _ h fits ∙ chosen), drawn)

skip_second {ℓ} : {A : Type ℓ} {a x y : A} {xs : List A} → Member a (x ∷ xs) → Member a (x ∷ y ∷ xs)
skip_second here = here
skip_second (there m) = there (there m)

priority_loop-Member :
    (best : ResolvedCandidate) (cs : List ResolvedCandidate)
    → Member (priority_loop best cs) (best ∷ cs)
unfolding priority_loop
priority_loop-Member best [] = here
priority_loop-Member best (c ∷ cs) = elim (Bool-cases (ltb_ℤ best.priority c.priority)) [
  | inl higher ↦ rw higher (there (priority_loop-Member c cs))
  | inr not_higher ↦ rw not_higher (skip_second (priority_loop-Member best cs))
]

best_priority-top :
    (best : ℤ) (cs : List ResolvedCandidate) (top : ℤ)
    → top ≡ best_priority best cs
    → (best ≤ℤ top) × All (λ d. d.priority ≤ℤ top) cs
unfolding best_priority
best_priority-top best [] top e = rw e (omega arith, tt)
best_priority-top best (c ∷ cs) top e = elim (Bool-cases (ltb_ℤ best c.priority)) [
  | inl higher ↦
      let (le, rest) = best_priority-top c.priority cs top (rw higher at e) in
      (ground arith, (le, rest))
  | inr not_higher ↦
      let (le, rest) = best_priority-top best cs top (rw not_higher at e) in
      (le, (ground arith, rest))
]

priority_loop-priority :
    (best : ResolvedCandidate) (cs : List ResolvedCandidate)
    → (priority_loop best cs).priority ≡ best_priority best.priority cs
unfolding priority_loop best_priority
priority_loop-priority best [] = refl
priority_loop-priority best (c ∷ cs) =
    ground (arith, priority_loop-priority best cs, priority_loop-priority c cs)

-- Some candidate attains it, so the tier is not empty.
best_priority-attained :
    (c : ResolvedCandidate) (best : ℤ) (cs : List ResolvedCandidate)
    → c.priority ≡ best
    → (d : ResolvedCandidate) × Member d (c ∷ cs) × (d.priority ≡ best_priority best cs)
unfolding best_priority
best_priority-attained c best [] e = (c, here, e)
best_priority-attained c best (d ∷ cs) e = elim (Bool-cases (ltb_ℤ best d.priority)) [
  | inl higher ↦
      let (f, m, same) = best_priority-attained d d.priority cs refl in (f, there m, rw higher same)
  | inr not_higher ↦
      let (f, m, same) = best_priority-attained c best cs e in
      (f, skip_second m, rw not_higher same)
]

first-Member :
    {d : ResolvedCandidate} (cs : List ResolvedCandidate)
    → Member d cs
    → (c : ResolvedCandidate) × (first cs ≡ some c) × Member c cs
first-Member [] m = elim m [ ]
first-Member (c ∷ cs) m = (c, refl, here)

abbrev Chooses : Option ResolvedCandidate → List ResolvedCandidate → Type 0
Chooses o cs = (c : ResolvedCandidate) × (o ≡ some c) × Member c cs

abbrev pub IsTop : ResolvedCandidate → List ResolvedCandidate → Type 0
IsTop c = All (λ d. d.priority ≤ℤ c.priority)

weighted_loop-Chooses :
    (all : List ResolvedCandidate) (fallback : ResolvedCandidate) (pick : ℕ)
    (cs : List ResolvedCandidate)
    → Member fallback all
    → ((e : ResolvedCandidate) → Member e cs → Member e all)
    → Chooses (weighted_loop (some fallback) pick cs) all
unfolding weighted_loop
weighted_loop-Chooses all fallback pick [] m within = (fallback, refl, m)
weighted_loop-Chooses all fallback pick (c ∷ cs) m within =
    elim (Bool-cases (ltb pick (normalized_weight c.weight))) [
      | inl hit ↦ rw hit (c, refl, within c here)
      | inr miss ↦ rw miss (
          weighted_loop-Chooses all fallback (pick - normalized_weight c.weight) cs m
            (λ e k. within e (there k)))
    ]

module _ (intn : ℕ → ℕ) where
  -- Whatever is drawn, and however the total wraps around.
  choose_weighted_binding-Chooses :
      (cs : List ResolvedCandidate) → cs ≢ [] → Chooses (choose_weighted_binding intn cs) cs
  unfolding choose_weighted_binding
  choose_weighted_binding-Chooses [] ne = absurd (ne refl)
  choose_weighted_binding-Chooses (c ∷ []) ne = (c, refl, here)
  choose_weighted_binding-Chooses (c ∷ d ∷ cs) ne =
      let all = c ∷ d ∷ cs in
      elim (Bool-cases (is_positive (total_weight 0 all))) [
        | inl some_weight ↦
            rw some_weight
              (weighted_loop-Chooses all c (intn (total_weight 0 all)) all here (λ e m. m))
        | inr none_weight ↦ rw none_weight (c, refl, here)
      ]

  choose_from_tier-Chooses :
      (d : ResolvedCandidate) (cs : List ResolvedCandidate)
      → Member d cs
      → Chooses (choose_from_tier intn cs) cs
  unfolding choose_from_tier
  choose_from_tier-Chooses d [] m = elim m [ ]
  choose_from_tier-Chooses d (c ∷ cs) m = elim (Bool-cases (has_positive_weight (c ∷ cs))) [
    | inl e ↦ rw e (choose_weighted_binding-Chooses (c ∷ cs) (λ nil. cc))
    | inr e ↦ rw e (c, refl, here)
  ]

  choose_auto_binding-IsTop :
      (c : ResolvedCandidate) (cs : List ResolvedCandidate)
      → (d : ResolvedCandidate) × (choose_auto_binding intn (c ∷ cs) ≡ some d)
        × Member d (c ∷ cs)
        × IsTop d (c ∷ cs)
  unfolding choose_auto_binding
  choose_auto_binding-IsTop c cs =
      let best = best_priority c.priority cs in
      let in_tier = λ (d : ResolvedCandidate). d.priority == best in
      let (f, m, same) = best_priority-attained c c.priority cs refl in
      let (d, chosen, m') =
        choose_from_tier-Chooses f (top_tier c cs)
          (keep_if-Member in_tier m ((beq_ℤ_iff f.priority best).1 same)) in
      let (m'', h) = Member-keep_if in_tier (c ∷ cs) m' in
      (d, chosen, m'', best_priority-top c.priority cs d.priority ((beq_ℤ_iff d.priority best).0 h))

  choose_priority_binding-IsTop :
      (c : ResolvedCandidate) (cs : List ResolvedCandidate)
      → (d : ResolvedCandidate) × (choose_priority_binding (c ∷ cs) ≡ some d)
        × Member d (c ∷ cs)
        × IsTop d (c ∷ cs)
  unfolding choose_priority_binding
  choose_priority_binding-IsTop c cs = (
    priority_loop c cs,
    refl,
    priority_loop-Member c cs,
    best_priority-top c.priority cs _ (priority_loop-priority c cs),
  )

-- With at least one eligible candidate the choice never panics and is one of them; unless the
-- strategy is "weighted", no candidate has a higher priority than the chosen one.
pub choose_candidate-IsTop :
    (intn : ℕ → ℕ) (c : ResolvedCandidate) (cs : List ResolvedCandidate) (strategy : String)
    → (d : ResolvedCandidate) × (choose_candidate intn (c ∷ cs) strategy ≡ some d)
      × Member d (c ∷ cs)
      × ((strategy ≡ "weighted") ⊎ IsTop d (c ∷ cs))
unfolding choose_candidate
choose_candidate-IsTop intn c [] strategy = (c, refl, here, inr (omega arith, tt))
choose_candidate-IsTop intn c (c' ∷ cs) strategy = elim (Bool-cases (strategy == "priority")) [
  | inl e ↦
      let (d, chosen, m, top) = choose_priority_binding-IsTop intn c (c' ∷ cs) in
      (d, rw e chosen, m, inr top)
  | inr e ↦ elim (Bool-cases (strategy == "weighted")) [
    | inl w ↦
        let (d, chosen, m) = choose_weighted_binding-Chooses intn (c ∷ c' ∷ cs) (λ nil. cc) in
        (d, rw (e, w) chosen, m, inl ((eq_iff strategy "weighted").0 w))
    | inr w ↦
        let (d, chosen, m, top) = choose_auto_binding-IsTop intn c (c' ∷ cs) in
        (d, rw (e, w) chosen, m, inr top)
  ]
]
