-- ===== src/Base/Strings.antt =====
-- Go's strings, as texts of code points (valid UTF-8), and the functions of package `strings` that
-- the gateway calls.
use Prim.Native.Char.{Char, code}
use Prim.Native.Nat.{Ordering}
use Prim.Native.String.{String, [], ◌∷◌, compare}
use mathlib.Core.Path.{◌≡◌, refl}
use mathlib.Core.Logic.{inl, inr}
use mathlib.Core.Bool.{Bool, true, false, ◌&&◌, ◌||◌}
use native.Mathlib.Omega.{arith}
use caddy_agent_gateway.Base.Tests.{ltb, leb, nat_beq, if◌then◌else◌, Bool-cases}

-- unicode.IsSpace
pub is_space : Char → Bool
is_space c =
    (leb 9 (code c) && leb (code c) 13)
    || nat_beq (code c) 32
    || nat_beq (code c) 0x85
    || nat_beq (code c) 0xA0
    || nat_beq (code c) 0x1680
    || (leb 0x2000 (code c) && leb (code c) 0x200A)
    || nat_beq (code c) 0x2028
    || nat_beq (code c) 0x2029
    || nat_beq (code c) 0x202F
    || nat_beq (code c) 0x205F
    || nat_beq (code c) 0x3000

module _ (drops : Char → Bool) where
  unfoldable pub trim_left : String → String
  trim_left [] = []
  trim_left (c ∷ s) = if drops c then trim_left s else c ∷ s

  -- `c ∷ s` with `s` already trimmed at its right end.
  unfoldable pub cons_trimmed : Char → String → String
  cons_trimmed c [] = if drops c then [] else c ∷ []
  cons_trimmed c (d ∷ s) = c ∷ d ∷ s

  unfoldable pub trim_right : String → String
  trim_right [] = []
  trim_right (c ∷ s) = cons_trimmed c (trim_right s)

  -- strings.Trim, with the cut set as a test.
  unfoldable pub trim : String → String
  unfolding trim_left trim_right cons_trimmed
  trim s = trim_left (trim_right s)

-- strings.TrimSpace
unfoldable pub trim_space : String → String
unfolding is_space trim
trim_space = trim is_space

-- The lower-case letter at the place where an upper-case one stands.
translate : String → String → Char → Char
translate (u ∷ us) (l ∷ ls) c = if nat_beq (code u) (code c) then l else translate us ls c
translate _ _ c = c

-- strings.ToLower: exact on ASCII; `fold` is Unicode's table for the other characters.
module _ (fold : Char → Char) where
  unfoldable pub lower_char : Char → Char
  unfolding translate
  lower_char c =
      if ltb (code c) 128
      then translate "ABCDEFGHIJKLMNOPQRSTUVWXYZ" "abcdefghijklmnopqrstuvwxyz" c
      else fold c

  unfoldable pub to_lower : String → String
  unfolding lower_char
  to_lower [] = []
  to_lower (c ∷ s) = lower_char c ∷ to_lower s

-- Whether a text begins with another, and whether it holds it: strings.HasPrefix and Contains.
unfoldable pub has_prefix : String → String → Bool
has_prefix s [] = true
has_prefix [] (p ∷ ps) = false
has_prefix (c ∷ s) (p ∷ ps) = nat_beq (code c) (code p) && has_prefix s ps

unfoldable pub contains_text : String → String → Bool
unfolding has_prefix
contains_text [] sub = has_prefix [] sub
contains_text (c ∷ s) sub = has_prefix (c ∷ s) sub || contains_text s sub

-- strings.ContainsAny, with the set as a test.
unfoldable pub contains_any : (Char → Bool) → String → Bool
contains_any p [] = false
contains_any p (c ∷ s) = p c || contains_any p s

-- Go's `<` on strings: the order of code points is that of their bytes.
abbrev pub str_less : String → String → Bool
str_less s t = elim (compare s t) [ Ordering.lt ↦ true | _ ↦ false ]

module _ (drops : Char → Bool) where
  -- Nothing at the right end that `trim` would drop.
  right_trimmed : String → Bool
  right_trimmed [] = true
  right_trimmed (c ∷ []) = if drops c then false else true
  right_trimmed (c ∷ d ∷ s) = right_trimmed (d ∷ s)

  cons_trimmed-trimmed :
      (c : Char) (s : String)
      → right_trimmed s ≡ true
      → right_trimmed (cons_trimmed drops c s) ≡ true
  unfolding cons_trimmed right_trimmed
  cons_trimmed-trimmed c [] h = elim (Bool-cases (drops c)) [ inl e ↦ rw e | inr e ↦ rw e (rw e) ]
  cons_trimmed-trimmed c (d ∷ s) h = h

  trim_right-trimmed : (s : String) → right_trimmed (trim_right drops s) ≡ true
  unfolding trim_right right_trimmed
  trim_right-trimmed [] = refl
  trim_right-trimmed (c ∷ s) = cons_trimmed-trimmed c (trim_right drops s) (trim_right-trimmed s)

  right_trimmed-tail :
      (c : Char) (s : String) → right_trimmed (c ∷ s) ≡ true → right_trimmed s ≡ true
  unfolding right_trimmed
  right_trimmed-tail c [] h = refl
  right_trimmed-tail c (d ∷ s) h = h

  trim_right_of_trimmed : (s : String) → right_trimmed s ≡ true → trim_right drops s ≡ s
  unfolding trim_right cons_trimmed right_trimmed
  trim_right_of_trimmed [] h = refl
  trim_right_of_trimmed (c ∷ []) h = ground arith
  trim_right_of_trimmed (c ∷ d ∷ s) h = rw (trim_right_of_trimmed (d ∷ s) h)

  trim_left-trimmed :
      (s : String) → right_trimmed s ≡ true → right_trimmed (trim_left drops s) ≡ true
  unfolding trim_left
  trim_left-trimmed [] h = h
  trim_left-trimmed (c ∷ s) h = ground (arith, trim_left-trimmed s (right_trimmed-tail c s h))

  trim_left_idem : (s : String) → trim_left drops (trim_left drops s) ≡ trim_left drops s
  unfolding trim_left
  trim_left_idem [] = refl
  trim_left_idem (c ∷ s) = ground (arith, trim_left_idem s)

  pub trim_idem : (s : String) → trim drops (trim drops s) ≡ trim drops s
  unfolding trim
  trim_idem s =
      rw (trim_right_of_trimmed _ (trim_left-trimmed _ (trim_right-trimmed s)))
        (trim_left_idem (trim_right drops s))

pub trim_space_idem : (s : String) → trim_space (trim_space s) ≡ trim_space s
unfolding trim_space
trim_space_idem = trim_idem is_space

trim_space_example : trim_space "  a b " ≡ "a b"
unfolding trim_space
trim_space_example = refl

to_lower_example : to_lower (λ c. c) "Fill_First" ≡ "fill_first"
unfolding to_lower
to_lower_example = refl
