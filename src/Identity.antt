-- ===== src/Identity.antt =====
-- pkg/agent/runtime/identity.go: correlation identities and run ids.
pub mod Laws
use Prim.Native.Char.{Char, code}
use Prim.Native.String.{String, [], ◌∷◌}
use caddy_agent_gateway.Base.{
  ℕ, zero, suc, ◌-◌, ◌+◌, ◌*◌, ◌/◌, ◌%◌, ◌≡◌, refl, Bool, true, false, ◌&&◌, ◌||◌, not, List,
  Option, none, some, if◌then◌else◌, ◌==◌, string_eq, nat_beq, leb, has_prefix, is_some,
}
use mathlib.Core.List as L

pub record Identities : Type 0 where
  pub agent_id : String
  pub runtime_type : String
  pub run_id : String
  pub session_id : String
  pub request_id : String
  pub trace_id : String
  pub span_id : String
  pub parent_span_id : String
  pub segment_index : ℕ

abbrev pub overlay_field : String → String → String
overlay_field base over = if not (over == "") then over else base

-- The value that MergeIdentities stores in the context, from the one stored there.
unfoldable pub merge_identities : Identities → Identities → Identities
merge_identities base overlay = record {
  agent_id = overlay_field base.agent_id overlay.agent_id;
  runtime_type = overlay_field base.runtime_type overlay.runtime_type;
  run_id = overlay_field base.run_id overlay.run_id;
  session_id = overlay_field base.session_id overlay.session_id;
  request_id = overlay_field base.request_id overlay.request_id;
  trace_id = overlay_field base.trace_id overlay.trace_id;
  span_id = overlay_field base.span_id overlay.span_id;
  parent_span_id = overlay_field base.parent_span_id overlay.parent_span_id;
  segment_index = overlay.segment_index;
}

-- encoding/hex: the value of a digit, in either case, and the text of a value.
unfoldable pub from_hex : Char → Option ℕ
from_hex c =
    if leb 48 (code c) && leb (code c) 57
    then some (code c - 48)
    else (if leb 97 (code c) && leb (code c) 102
        then some (code c - 87)
        else (if leb 65 (code c) && leb (code c) 70 then some (code c - 55) else none))

char_at : String → ℕ → Char
char_at [] n = "0"
char_at (c ∷ s) zero = c
char_at (c ∷ s) (suc n) = char_at s n

unfoldable pub to_hex : ℕ → Char
unfolding char_at
to_hex n = char_at "0123456789abcdef" n

join_digits : Option ℕ → Option ℕ → Option (List ℕ) → Option (List ℕ)
join_digits (some high) (some low) (some rest) = some (L.◌∷◌ (high * 16 + low) rest)
join_digits _ _ _ = none

-- hex.DecodeString, whose error is `none`: two digits for each byte.
unfoldable pub decode_hex : String → Option (List ℕ)
unfolding from_hex join_digits
decode_hex [] = some L.[]
decode_hex (c ∷ []) = none
decode_hex (c ∷ d ∷ s) = let rest = decode_hex s in join_digits (from_hex c) (from_hex d) rest

-- hex.EncodeToString
unfoldable pub encode_hex : List ℕ → String
unfolding to_hex
encode_hex L.[] = []
encode_hex (L.◌∷◌ b bs) = to_hex (b / 16) ∷ to_hex (b % 16) ∷ encode_hex bs

abbrev pub text_length : String → ℕ
text_length [] = 0
text_length (c ∷ s) = suc (text_length s)

abbrev pub run_id_prefix : String
run_id_prefix = "run-"

-- `raw` is what rand.Read filled in: 16 bytes. The prefix is spelled out.
unfoldable pub new_run_id : List ℕ → String
unfolding encode_hex
new_run_id raw = "r" ∷ "u" ∷ "n" ∷ "-" ∷ encode_hex raw

-- strings.TrimPrefix
abbrev pub drop_text : ℕ → String → String
drop_text zero s = s
drop_text (suc n) [] = []
drop_text (suc n) (c ∷ s) = drop_text n s

-- The code counts bytes and the model code points: a text in which they differ is no hexadecimal
-- number, and is rejected either way.
unfoldable pub valid_run_id : String → Bool
unfolding has_prefix decode_hex
valid_run_id id =
    if not (has_prefix id run_id_prefix)
      || not (nat_beq (text_length id) (text_length run_id_prefix + 32))
    then false
    else is_some (decode_hex (drop_text 4 id))
