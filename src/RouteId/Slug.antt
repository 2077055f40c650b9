-- ===== src/RouteId/Slug.antt =====
-- pkg/gateway/routecore/routeid.go: the shape of the slugs that slugifyPath makes.
use Prim.Native.Char.{Char}
use Prim.Native.String.{[], ◌∷◌}
use text.Mathlib.TextLemmas.{cons≢nil}
use caddy_agent_gateway.Base.{
  String, ◌≡◌, refl, ◌⊎◌, inl, inr, Bool, true, false, not, ◌&&◌, arith, if◌then◌else◌, ◌==◌,
  string_eq, contains_any, ◌||◌, trim_left, trim_right, cons_trimmed, to_lower, trim_space, trim,
  Bool-cases,
}
use caddy_agent_gateway.RouteId.Defs.{is_slug_rune, is_dash, slug_loop, slugify_path}

-- Slug letters and single dashes, no dash first where one has just been read; `ends` says whether
-- the text may end there.
dashes_apart : (ends : Bool → Bool) → Bool → String → Bool
dashes_apart ends after_dash [] = ends after_dash
dashes_apart ends after_dash (c ∷ s) =
    let word = dashes_apart ends false s in
    let gap = dashes_apart ends true s in
    if is_slug_rune c then word else is_dash c && not after_dash && gap

-- The language [a-z0-9]+(-[a-z0-9]+)*, read by an automaton.
pub is_slug : String → Bool
unfolding dashes_apart
is_slug = dashes_apart not true

abbrev anywhere : Bool → Bool
anywhere _ = true

rune_not_dash : (c : Char) → is_slug_rune c ≡ true → is_dash c ≡ false
unfolding is_slug_rune is_dash
rune_not_dash c h = ground arith

dash_is_dash : is_dash "-" ≡ true
unfolding is_dash
dash_is_dash = refl

dash_not_rune : is_slug_rune "-" ≡ false
unfolding is_slug_rune
dash_not_rune = refl

slug_loop-apart : (last : Bool) (s : String) → dashes_apart anywhere last (slug_loop last s) ≡ true
unfolding dashes_apart slug_loop
slug_loop-apart last [] = refl
slug_loop-apart last (c ∷ s) =
    ground (arith, slug_loop-apart false s, slug_loop-apart true s, dash_is_dash, dash_not_rune)

abbrev Readable : Bool → Char → Type 0
Readable after c = (is_slug_rune c ≡ true) ⊎ ((is_dash c ≡ true) × (after ≡ false))

dashes_apart-cons :
    (ends : Bool → Bool) (after : Bool) (c : Char) (s : String)
    → Readable after c
    → dashes_apart ends (not (is_slug_rune c)) s ≡ true
    → dashes_apart ends after (c ∷ s) ≡ true
unfolding dashes_apart
dashes_apart-cons ends after c s (inl w) h = ground (arith, w)
dashes_apart-cons ends after c s (inr (d, e)) h = ground (arith, rune_not_dash c)

dashes_apart-uncons :
    (ends : Bool → Bool) (after : Bool) (c : Char) (s : String)
    → dashes_apart ends after (c ∷ s) ≡ true
    → Readable after c × (dashes_apart ends (not (is_slug_rune c)) s ≡ true)
unfolding dashes_apart
dashes_apart-uncons ends after c s h = elim (Bool-cases (is_slug_rune c)) [
  | inl w ↦ (inl w, rw w (ground arith))
  | inr w ↦ (inr (ground arith, ground arith), rw w (ground arith))
]

cons_trimmed-apart :
    (after : Bool) (c : Char) (r : String)
    → Readable after c
    → (r ≡ []) ⊎ (dashes_apart not (not (is_slug_rune c)) r ≡ true)
    → (cons_trimmed is_dash c r ≡ []) ⊎ (dashes_apart not after (cons_trimmed is_dash c r) ≡ true)
unfolding cons_trimmed dashes_apart
cons_trimmed-apart after c [] (inl w) h = inr (rw (rune_not_dash c w) (rw w))
cons_trimmed-apart after c [] (inr (d, _)) h = inl (rw d)
cons_trimmed-apart after c (d ∷ s) w (inl e) = absurd (cons≢nil e)
cons_trimmed-apart after c (d ∷ s) w (inr h) = inr (dashes_apart-cons not after c (d ∷ s) w h)

trim_right-apart :
    (after : Bool) (s : String)
    → dashes_apart anywhere after s ≡ true
    → (trim_right is_dash s ≡ []) ⊎ (dashes_apart not after (trim_right is_dash s) ≡ true)
unfolding trim_right
trim_right-apart after [] h = inl refl
trim_right-apart after (c ∷ s) h =
    let (readable, rest) = dashes_apart-uncons anywhere after c s h in
    cons_trimmed-apart after c (trim_right is_dash s) readable
      (trim_right-apart (not (is_slug_rune c)) s rest)

-- After a dash there is nothing to trim.
trim_left_after_dash : (s : String) → dashes_apart not true s ≡ true → trim_left is_dash s ≡ s
unfolding trim_left dashes_apart
trim_left_after_dash [] h = refl
trim_left_after_dash (c ∷ s) h = ground (arith, rune_not_dash c)

trim_left-apart :
    (s : String)
    → dashes_apart not false s ≡ true
    → (trim_left is_dash s ≡ []) ⊎ (dashes_apart not true (trim_left is_dash s) ≡ true)
unfolding trim_left
trim_left-apart [] h = inl refl
trim_left-apart (c ∷ s) h = go (dashes_apart-uncons not false c s h)
  where
    go :
        Readable false c × (dashes_apart not (not (is_slug_rune c)) s ≡ true)
        → (trim_left is_dash (c ∷ s) ≡ [])
          ⊎ (dashes_apart not true (trim_left is_dash (c ∷ s)) ≡ true)
    go (inl w, rest) = inr (rw (rune_not_dash c w) (dashes_apart-cons not true c s (inl w) rest))
    go (inr (d, e), rest) =
        let word : is_slug_rune c ≡ false = ground (arith, rune_not_dash c) in
        let rest' : dashes_apart not true s ≡ true = rw word at rest in
        inr (rw d (rw (trim_left_after_dash s rest') rest'))

trimmed_slug :
    (s : String)
    → dashes_apart anywhere false s ≡ true
    → (trim is_dash s ≡ []) ⊎ (dashes_apart not true (trim is_dash s) ≡ true)
unfolding trim
trimmed_slug s h = elim (trim_right-apart false s h) [
  | inl e ↦ inl (rw (e, trim_left))
  | inr apart ↦ trim_left-apart (trim_right is_dash s) apart
]

root-is_slug : is_slug "root" ≡ true
unfolding is_slug is_slug_rune
root-is_slug = refl

or_root :
    (slug : String)
    → (slug ≡ []) ⊎ (is_slug slug ≡ true)
    → is_slug (if slug == "" then "root" else slug) ≡ true
or_root slug (inl e) = rw e root-is_slug
or_root slug (inr h) = elim (Bool-cases (slug == "")) [ inl e ↦ rw e root-is_slug | inr e ↦ rw e h ]

-- Whatever the path prefix, its slug is in [a-z0-9]+(-[a-z0-9]+)*: never empty, no slash, no
-- percent sign, no dash at an end and no two dashes in a row.
pub slugify_path-is_slug :
    (fold : Char → Char) (path : String) → is_slug (slugify_path fold path) ≡ true
unfolding slugify_path is_slug
slugify_path-is_slug fold path = or_root _ (
    trimmed_slug (slug_loop false (to_lower fold (trim_space path)))
      (slug_loop-apart false (to_lower fold (trim_space path))))

abbrev pub is_other : Char → Bool
is_other c = not (is_slug_rune c || is_dash c)

dashes_apart-letters :
    (after : Bool) (s : String) → dashes_apart not after s ≡ true → contains_any is_other s ≡ false
unfolding dashes_apart contains_any
dashes_apart-letters after [] h = refl
dashes_apart-letters after (c ∷ s) h =
    ground (arith, dashes_apart-letters false s, dashes_apart-letters true s)

pub is_slug-letters : (s : String) → is_slug s ≡ true → contains_any is_other s ≡ false
unfolding is_slug
is_slug-letters = dashes_apart-letters true
