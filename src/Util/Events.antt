-- ===== src/Util/Events.antt =====
-- `event_description` of common/util.c, against the codes that it names.
use Prim.Native.String.{String}
use text.Mathlib.Text.{◌==◌ as str_eq}
use sql_code.Common.{
  ℕ, ◌≡◌, ◌≤◌, ◌<◌, ◌↔◌, ◌⊎◌, inl, inr, refl, ap, true, List, [], ◌∷◌, arith, ◌==◌, ==_iff,
  if◌then◌else◌, ltb, ltb→lt, Bool-cases, every_below, every_below_passes,
}
use sql_code.Util.{event_names, event_description}

-- The code that a description stands for; 0, which the library uses for nothing, if for none.
decode : List (ℕ × String) → String → ℕ
decode [] text = 0
decode ((label, name) ∷ cases) text = if str_eq text name then label else decode cases text

abbrev known : ℕ
known = 26

decode_table : every_below (λ t. decode event_names (event_description t) == t) known ≡ true
unfolding decode event_description every_below
decode_table = refl

decode-event_description : (t : ℕ) → t < known → decode event_names (event_description t) ≡ t
decode-event_description t h = (==_iff _ t).0 (every_below_passes _ known t decode_table h)

-- Behind the last label the `switch` falls through.
event_description-unknown : (t : ℕ) → known ≤ t → event_description t ≡ "UNKNOWN EVENT"
unfolding event_description
event_description-unknown t h = ground arith

decode_unknown : decode event_names "UNKNOWN EVENT" ≡ 0
unfolding decode
decode_unknown = refl

decode-event_description_all :
    (u : ℕ) → decode event_names (event_description u) ≡ (if ltb u known then u else 0)
decode-event_description_all u = elim (Bool-cases (ltb u known)) [
  | inl below ↦ rw below (decode-event_description u (ltb→lt u known below))
  | inr above ↦ rw (above, event_description-unknown u (ground arith)) decode_unknown
]

-- The description of an action code from 1 to 25 is that of no other code.
pub event_description-eq_iff :
    (t u : ℕ) → 1 ≤ t → t ≤ 25 → (event_description t ≡ event_description u) ↔ (t ≡ u)
event_description-eq_iff t u lo hi = (
  λ e. ground (
    arith,
    decode-event_description_all t,
    decode-event_description_all u,
    ap (decode event_names) e,
  ),
  λ e. ap event_description e,
)

-- "UNKNOWN EVENT" is said of 0 and of every code above 25, and of no other.
pub event_description-unknown_iff :
    (t : ℕ) → (event_description t ≡ "UNKNOWN EVENT") ↔ ((t ≡ 0) ⊎ (26 ≤ t))
event_description-unknown_iff t = (
  λ e. ground (arith, decode-event_description_all t, ap (decode event_names) e, decode_unknown),
  λ h. unfold event_description in ground arith,
)
