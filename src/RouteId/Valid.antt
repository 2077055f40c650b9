-- ===== src/RouteId/Valid.antt =====
-- pkg/gateway/routecore/routeid.go: generated ids pass ValidateRouteID.
use Prim.Native.Char.{Char, code}
use Prim.Native.String.{[], ◌∷◌}
use text.Mathlib.TextLemmas.{nil-append, cons-append}
use caddy_agent_gateway.Base.{
  String, ◌≡◌, refl, sym, ap, ◌∙◌, Bool, true, false, ◌||◌, arith, nat_beq, lower_char, to_lower,
  contains_any, contains_text, has_prefix, ok,
}
use caddy_agent_gateway.RouteId.Defs.{
  ◌++◌, is_slug_rune, is_dash, is_slash, generate_route_id, validate_route_id,
}
use caddy_agent_gateway.RouteId.Slug.{is_slug, slugify_path-is_slug, is_other, is_slug-letters}

contains_any-append :
    (p : Char → Bool) (s t : String)
    → contains_any p (s ++ t) ≡ (contains_any p s || contains_any p t)
unfolding contains_any
contains_any-append p [] t = rw nil-append
contains_any-append p (c ∷ s) t = rw cons-append (ground (arith, contains_any-append p s t))

to_lower-append :
    (fold : Char → Char) (s t : String)
    → to_lower fold (s ++ t) ≡ to_lower fold s ++ to_lower fold t
unfolding to_lower
to_lower-append fold [] t = rw (nil-append t, nil-append (to_lower fold t))
to_lower-append fold (c ∷ s) t =
    rw (cons-append c s t, to_lower-append fold s t)
      (sym (cons-append (lower_char fold c) (to_lower fold s) (to_lower fold t)))

-- A separator that the pattern does not hold splits the search.
lacks : Char → String → Bool
lacks c s = contains_any (λ d. nat_beq (code c) (code d)) s

has_prefix-separated :
    (c : Char) (s t sub : String)
    → lacks c sub ≡ false
    → has_prefix (s ++ c ∷ t) sub ≡ has_prefix s sub
unfolding has_prefix lacks contains_any
has_prefix-separated c [] t [] h = refl
has_prefix-separated c (d ∷ s) t [] h = refl
has_prefix-separated c [] t (p ∷ ps) h = rw nil-append (ground arith)
has_prefix-separated c (d ∷ s) t (p ∷ ps) h =
    rw cons-append (ground (arith, has_prefix-separated c s t ps))

lacks_first :
    (c p : Char) (ps : String) → lacks c (p ∷ ps) ≡ false → nat_beq (code c) (code p) ≡ false
unfolding lacks contains_any
lacks_first c p ps h = ground arith

lacks_rest : (c p : Char) (ps : String) → lacks c (p ∷ ps) ≡ false → lacks c ps ≡ false
unfolding lacks contains_any
lacks_rest c p ps h = ground arith

contains_text-separated :
    (c : Char) (s t : String) (p : Char) (ps : String)
    → lacks c (p ∷ ps) ≡ false
    → contains_text (s ++ c ∷ t) (p ∷ ps) ≡ (contains_text s (p ∷ ps) || contains_text t (p ∷ ps))
unfolding contains_text has_prefix
contains_text-separated c [] t p ps h = rw nil-append (ground (arith, lacks_first c p ps h))
contains_text-separated c (d ∷ s) t p ps h = rw cons-append (
    ground (
      arith,
      has_prefix-separated c s t ps (lacks_rest c p ps h),
      contains_text-separated c s t p ps h,
    ))

-- The texts that ValidateRouteID lets through.
module _ (fold : Char → Char) where
  record IsClean (id : String) : Type 0 where
    no_slash : contains_any is_slash id ≡ false
    no_2f : contains_text (to_lower fold id) "%2f" ≡ false
    no_5c : contains_text (to_lower fold id) "%5c" ≡ false

  IsClean-of-ok : (id : String) → validate_route_id fold id ≡ ok tt → IsClean id
  unfolding validate_route_id
  IsClean-of-ok id h = record {
    no_slash = ground arith;
    no_2f = ground arith;
    no_5c = ground arith;
  }

  IsClean-ok : (id : String) → IsClean id → validate_route_id fold id ≡ ok tt
  unfolding validate_route_id
  IsClean-ok id h = rw (h.no_slash, h.no_2f, h.no_5c)

  colon_append : (s t : String) → s ++ ":" ++ t ≡ s ++ (":" ∷ t)
  colon_append s t = ap (λ u. s ++ u) (cons-append ":" [] t ∙ ap (λ u. ":" ∷ u) (nil-append t))

  colon_lower : to_lower fold ":" ≡ ":"
  unfolding to_lower
  colon_lower = refl

  lower_colon : (t : String) → to_lower fold (":" ∷ t) ≡ ":" ∷ to_lower fold t
  unfolding to_lower
  lower_colon t = refl

  colon_no_slash : (contains_any is_slash ":" || false) ≡ false
  unfolding contains_any is_slash
  colon_no_slash = refl

  IsClean-join : (s t : String) → IsClean s → IsClean t → IsClean (s ++ ":" ++ t)
  unfolding lacks contains_any
  IsClean-join s t h k = record {
    no_slash =
        rw (contains_any-append is_slash s (":" ++ t), contains_any-append is_slash ":" t)
          (rw (h.no_slash, k.no_slash) colon_no_slash);
    no_2f = rw lowered (rw (contains_text-separated ":" _ _ "%" "2f" refl) (rw (h.no_2f, k.no_2f)));
    no_5c = rw lowered (rw (contains_text-separated ":" _ _ "%" "5c" refl) (rw (h.no_5c, k.no_5c)));
  }
    where
      lowered : to_lower fold (s ++ ":" ++ t) ≡ to_lower fold s ++ (":" ∷ to_lower fold t)
      lowered =
          to_lower-append fold s (":" ++ t)
          ∙ ap (λ u. to_lower fold s ++ u)
              (ap (to_lower fold) (cons-append ":" [] t ∙ ap (λ u. ":" ∷ u) (nil-append t))
                ∙ lower_colon t)

  -- The letters of a slug are no slashes, and stay as they are, and so no percent signs, in lower
  -- case.
  letter_no_slash : (c : Char) → is_other c ≡ false → is_slash c ≡ false
  unfolding is_slash is_slug_rune is_dash
  letter_no_slash c h = ground arith

  letter_lower :
      (c : Char) → is_other c ≡ false → nat_beq (code "%") (code (lower_char fold c)) ≡ false
  unfolding lower_char is_slug_rune is_dash
  letter_lower c h = ground arith

  letters_no_slash :
      (s : String) → contains_any is_other s ≡ false → contains_any is_slash s ≡ false
  unfolding contains_any
  letters_no_slash [] h = refl
  letters_no_slash (c ∷ s) h = ground (arith, letter_no_slash c, letters_no_slash s)

  letters_no_percent :
      (s : String) → contains_any is_other s ≡ false → lacks "%" (to_lower fold s) ≡ false
  unfolding contains_any lacks to_lower
  letters_no_percent [] h = refl
  letters_no_percent (c ∷ s) h = ground (arith, letter_lower c, letters_no_percent s)

  lacks-contains_text :
      (c : Char) (ps s : String) → lacks c s ≡ false → contains_text s (c ∷ ps) ≡ false
  unfolding contains_text has_prefix lacks contains_any
  lacks-contains_text c ps [] h = refl
  lacks-contains_text c ps (d ∷ s) h = ground (arith, lacks-contains_text c ps s)

  IsClean-slug : (s : String) → is_slug s ≡ true → IsClean s
  IsClean-slug s h =
      let letters = is_slug-letters s h in
      record {
        no_slash = letters_no_slash s letters;
        no_2f = lacks-contains_text "%" "2f" _ (letters_no_percent s letters);
        no_5c = lacks-contains_text "%" "5c" _ (letters_no_percent s letters);
      }

-- A generated id is addressable as one path segment whenever the protocol tag and the service id
-- are, whatever the path prefix.
pub generate_route_id-valid :
    (fold : Char → Char) (prefix service_id path_prefix : String)
    → validate_route_id fold prefix ≡ ok tt
    → validate_route_id fold service_id ≡ ok tt
    → validate_route_id fold (generate_route_id fold prefix service_id path_prefix) ≡ ok tt
unfolding generate_route_id
generate_route_id-valid fold prefix service_id path_prefix h k = IsClean-ok fold _ (
    IsClean-join fold prefix _ (IsClean-of-ok fold prefix h) (
      IsClean-join fold service_id _ (IsClean-of-ok fold service_id k)
        (IsClean-slug fold _ (slugify_path-is_slug fold path_prefix))))
