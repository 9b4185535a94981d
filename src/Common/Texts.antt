-- ===== src/Common/Texts.antt =====
-- Texts as the code builds and cuts them: concatenation by `fmt.Sprintf`, `strings.Split` at one
-- character.
use Prim.Native.Char.{Char, code}
use Prim.Native.String
use Prim.Native.String.{String}
use Prim.Native.Nat.{ℕ}
use mathlib.Core.Path.{◌≡◌, refl, ap, ◌∙◌}
use mathlib.Core.Logic.{◌≢◌, ◌⊎◌, inl, inr}
use mathlib.Core.Bool.{true, false}
use text.Mathlib.Text.{◌==◌}
use text.Mathlib.TextEquality.{eq_iff}
use mathlib.Core.Option.{Option, none, some}
use mathlib.Core.List.{List, [], ◌∷◌}
use native.Mathlib.Omega.{arith}
use text.Mathlib.TextLemmas.{nil-append, cons-append}
use k8s_mtp.Common.Tests.{nat_eq, if◌then◌else◌, Bool-cases}

infixr 65 ◌<>◌
abbrev pub ◌<>◌ : String → String → String
s <> t = String.◌++◌ s t

-- Whether two texts are the same, with the value of the test.
pub text_cases : (s t : String) → (((s == t) ≡ true) × (s ≡ t)) ⊎ (((s == t) ≡ false) × (s ≢ t))
text_cases s t = elim (Bool-cases (s == t)) [
  | inl e ↦ inl (e, ground (arith, e, eq_iff s t))
  | inr e ↦ inr (e, λ p. ground (arith, e, p, eq_iff s t))
]

-- Puts a character in front of the first part.
prepend : Char → List String → List String
prepend c [] = String.◌∷◌ c "" ∷ []
prepend c (p ∷ ps) = String.◌∷◌ c p ∷ ps

-- `strings.Split(s, sep)` for a separator of one character.
unfoldable pub split : ℕ → String → List String
unfolding prepend
split sep String.[] = "" ∷ []
split sep (String.◌∷◌ c s) =
    let rest = split sep s in if nat_eq (code c) sep then "" ∷ rest else prepend c rest

-- Puts a character in front of the first of two parts.
prepend_first : Char → Option (String × String) → Option (String × String)
prepend_first c none = none
prepend_first c (some (a, b)) = some (String.◌∷◌ c a, b)

-- The two parts of `strings.SplitN(s, sep, 2)` for a separator of one character; `none` is one part.
unfoldable pub split_two : ℕ → String → Option (String × String)
unfolding prepend_first
split_two sep String.[] = none
split_two sep (String.◌∷◌ c s) =
    let rest = split_two sep s in if nat_eq (code c) sep then some ("", s) else prepend_first c rest

-- The text behind a prefix.
unfoldable pub behind : String → String → Option String
behind String.[] s = some s
behind (String.◌∷◌ p prefix) String.[] = none
behind (String.◌∷◌ p prefix) (String.◌∷◌ c s) =
    let rest = behind prefix s in if nat_eq (code p) (code c) then rest else none

-- The text that `strings.CutPrefix` returns.
unfoldable pub strip : String → String → String
unfolding behind
strip prefix s = elim (behind prefix s) [ none ↦ s | some rest ↦ rest ]

-- The text does not hold the separator.
abbrev pub IsFree : ℕ → String → Type 0
IsFree sep String.[] = Unit {0}
IsFree sep (String.◌∷◌ c s) = (code c ≢ sep) × IsFree sep s

pub split-IsFree : (sep : ℕ) (s : String) → IsFree sep s → split sep s ≡ s ∷ []
unfolding split
split-IsFree sep String.[] h = refl
split-IsFree sep (String.◌∷◌ c s) (p, h) = ground (arith, split-IsFree sep s h)

pub split-append :
    (sep : ℕ) (c : Char) (a s : String)
    → code c ≡ sep
    → IsFree sep a
    → split sep (a <> String.◌∷◌ c s) ≡ a ∷ split sep s
unfolding split
split-append sep c String.[] s e h = rw nil-append (ground arith)
split-append sep c (String.◌∷◌ d a) s e (p, h) =
    rw cons-append (ground (arith, split-append sep c a s e h))

dash-append : (s : String) → Path String ("-" <> s) (String.◌∷◌ "-" s)
dash-append s = cons-append "-" "" s ∙ ap (String.◌∷◌ "-") (nil-append s)

-- Cutting at dashes takes the text up to the first dash as the first part.
pub split_dash : (a s : String) → IsFree b'-' a → split b'-' (a <> ("-" <> s)) ≡ a ∷ split b'-' s
split_dash a s h = rw (dash-append s) (split-append b'-' "-" a s refl h)
