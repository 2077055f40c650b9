-- ===== src/Identity/Laws.antt =====
-- pkg/agent/runtime/identity.go: run ids round trip, and what merging keeps.
use Prim.Native.String.{String}
use mathlib.Core.List as L
use text.Mathlib.TextEquality.{eq_iff}
use caddy_agent_gateway.Base.{
  ℕ, zero, suc, ◌*◌, ◌/◌, ◌%◌, ◌<◌, ◌≡◌, ◌≢◌, refl, sym, ap, ◌∙◌, inl, inr, Bool-cases, List, true,
  false, some, arith, ◌==◌, string_eq, All, length, map, ◌++◌, has_prefix,
}
use caddy_agent_gateway.Identity.{
  Identities, overlay_field, merge_identities, from_hex, to_hex, char_at, join_digits, decode_hex,
  encode_hex, text_length, new_run_id, valid_run_id,
}

from_hex-to_hex : (n : ℕ) → n < 16 → from_hex (to_hex n) ≡ some n
unfolding from_hex to_hex char_at
from_hex-to_hex zero h = refl
from_hex-to_hex (suc zero) h = refl
from_hex-to_hex (suc (suc zero)) h = refl
from_hex-to_hex (suc (suc (suc zero))) h = refl
from_hex-to_hex (suc (suc (suc (suc zero)))) h = refl
from_hex-to_hex (suc (suc (suc (suc (suc zero))))) h = refl
from_hex-to_hex (suc (suc (suc (suc (suc (suc zero)))))) h = refl
from_hex-to_hex (suc (suc (suc (suc (suc (suc (suc zero))))))) h = refl
from_hex-to_hex (suc (suc (suc (suc (suc (suc (suc (suc zero)))))))) h = refl
from_hex-to_hex (suc (suc (suc (suc (suc (suc (suc (suc (suc zero))))))))) h = refl
from_hex-to_hex (suc (suc (suc (suc (suc (suc (suc (suc (suc (suc zero)))))))))) h = refl
from_hex-to_hex (suc (suc (suc (suc (suc (suc (suc (suc (suc (suc (suc zero))))))))))) h = refl
from_hex-to_hex (suc (suc (suc (suc (suc (suc (suc (suc (suc (suc (suc (suc zero)))))))))))) h =
    refl
from_hex-to_hex (suc (suc (suc (suc (suc (suc (suc (suc (suc (suc (suc (suc (suc zero)))))))))))))
      h =
    refl
from_hex-to_hex
      (suc (suc (suc (suc (suc (suc (suc (suc (suc (suc (suc (suc (suc (suc zero)))))))))))))) h =
    refl
from_hex-to_hex
      (suc (suc (suc (suc (suc (suc (suc (suc (suc (suc (suc (suc (suc (suc (suc zero)))))))))))))))
      h =
    refl
from_hex-to_hex
      (suc
        (suc (suc (suc (suc (suc (suc (suc (suc (suc (suc (suc (suc (suc (suc (suc n))))))))))))))))
      h =
    absurd (omega arith)

-- Bytes, each below 256, come back from their hexadecimal text.
pub decode_hex-encode_hex :
    (bytes : List ℕ) → All (λ b. b < 256) bytes → decode_hex (encode_hex bytes) ≡ some bytes
unfolding decode_hex encode_hex join_digits
decode_hex-encode_hex L.[] h = refl
decode_hex-encode_hex (L.◌∷◌ b bs) h =
    rw
      (
        from_hex-to_hex (b / 16) (omega (arith, h.0)),
        from_hex-to_hex (b % 16) (omega arith),
        decode_hex-encode_hex bs h.1,
      )
      (ap (λ x. some (L.◌∷◌ x bs)) (omega arith))

text_length-encode_hex : (bytes : List ℕ) → text_length (encode_hex bytes) ≡ length bytes * 2
unfolding encode_hex
text_length-encode_hex L.[] = refl
text_length-encode_hex (L.◌∷◌ b bs) = omega (arith, text_length-encode_hex bs)

-- A fresh run id, made from 16 bytes, is a valid one.
pub valid_run_id-new_run_id :
    (raw : List ℕ) → length raw ≡ 16 → All (λ b. b < 256) raw → valid_run_id (new_run_id raw) ≡ true
unfolding valid_run_id new_run_id has_prefix
valid_run_id-new_run_id raw len bytes =
    rw (valid_run_id, new_run_id, text_length-encode_hex raw, len, decode_hex-encode_hex raw bytes)
      refl

-- What several merges in turn store.
pub merge_all : Identities → List Identities → Identities
unfolding merge_identities
merge_all base L.[] = base
merge_all base (L.◌∷◌ o os) = merge_all (merge_identities base o) os

-- `v` is the last of the texts that is not empty, or `base` where all of them are empty.
pub data IsLastSet (base : String) (texts : List String) (v : String) : Type 0 where
  unset : All (λ t. t ≡ "") texts → base ≡ v → IsLastSet base texts v
  set :
      (before after : List String)
      → texts ≡ before ++ L.◌∷◌ v after
      → v ≢ ""
      → All (λ t. t ≡ "") after
      → IsLastSet base texts v

IsLastSet-cons :
    (base t : String) (texts : List String) (v : String)
    → IsLastSet (overlay_field base t) texts v
    → IsLastSet base (L.◌∷◌ t texts) v
IsLastSet-cons base t texts v (set before after split named rest) =
    set (L.◌∷◌ t before) after (ap (λ l. L.◌∷◌ t l) split) named rest
IsLastSet-cons base t texts v (unset rest same) = elim (Bool-cases (t == "")) [
  | inl blank ↦ unset ((eq_iff t "").0 blank, rest) (rw blank at same)
  | inr named ↦
      let is_v : t ≡ v = rw named at same in
      set L.[] texts (ap (λ x. L.◌∷◌ x texts) is_v)
        (λ empty.
          let hit = (eq_iff t "").1 (is_v ∙ empty) in
          let clash : true ≡ false = sym hit ∙ named in cc)
        rest
]

-- Each text of the result comes from the last overlay that sets it, and the index from the last one.
pub record Overlaid (base : Identities) (overlays : List Identities) (merged : Identities)
    : Type 0 where
  pub agent_id : IsLastSet base.agent_id (map (λ o. o.agent_id) overlays) merged.agent_id
  pub runtime_type :
      IsLastSet base.runtime_type (map (λ o. o.runtime_type) overlays) merged.runtime_type
  pub run_id : IsLastSet base.run_id (map (λ o. o.run_id) overlays) merged.run_id
  pub session_id : IsLastSet base.session_id (map (λ o. o.session_id) overlays) merged.session_id
  pub request_id : IsLastSet base.request_id (map (λ o. o.request_id) overlays) merged.request_id
  pub trace_id : IsLastSet base.trace_id (map (λ o. o.trace_id) overlays) merged.trace_id
  pub span_id : IsLastSet base.span_id (map (λ o. o.span_id) overlays) merged.span_id
  pub parent_span_id :
      IsLastSet base.parent_span_id (map (λ o. o.parent_span_id) overlays) merged.parent_span_id
  pub segment_index :
      (before : List Identities) (last : Identities)
      → overlays ≡ before ++ L.◌∷◌ last L.[]
      → merged.segment_index ≡ last.segment_index

merge_all-append :
    (base : Identities) (before : List Identities) (last : Identities)
    → (merge_all base (before ++ L.◌∷◌ last L.[])).segment_index ≡ last.segment_index
unfolding merge_all merge_identities
merge_all-append base L.[] last = refl
merge_all-append base (L.◌∷◌ o os) last = merge_all-append (merge_identities base o) os last

merge_all-texts :
    (text : Identities → String)
    → ((a b : Identities) → text (merge_identities a b) ≡ overlay_field (text a) (text b))
    → (base : Identities) (overlays : List Identities)
    → IsLastSet (text base) (map text overlays) (text (merge_all base overlays))
unfolding merge_all
merge_all-texts text step base L.[] = unset tt refl
merge_all-texts text step base (L.◌∷◌ o os) =
    IsLastSet-cons (text base) (text o) (map text os) _
      (rw (← step base o) (merge_all-texts text step (merge_identities base o) os))

-- Identities merged in turn: each text of the result is the last one that is not empty among the
-- overlays', and the base's where all of them are empty; the segment index is the last overlay's.
pub merge_all-Overlaid :
    (base : Identities) (overlays : List Identities)
    → Overlaid base overlays (merge_all base overlays)
unfolding merge_identities
merge_all-Overlaid base overlays = record {
  agent_id = merge_all-texts (λ o. o.agent_id) (λ a b. refl) base overlays;
  runtime_type = merge_all-texts (λ o. o.runtime_type) (λ a b. refl) base overlays;
  run_id = merge_all-texts (λ o. o.run_id) (λ a b. refl) base overlays;
  session_id = merge_all-texts (λ o. o.session_id) (λ a b. refl) base overlays;
  request_id = merge_all-texts (λ o. o.request_id) (λ a b. refl) base overlays;
  trace_id = merge_all-texts (λ o. o.trace_id) (λ a b. refl) base overlays;
  span_id = merge_all-texts (λ o. o.span_id) (λ a b. refl) base overlays;
  parent_span_id = merge_all-texts (λ o. o.parent_span_id) (λ a b. refl) base overlays;
  segment_index = λ before last split.
      ap (λ os. (merge_all base os).segment_index) split ∙ merge_all-append base before last;
}
