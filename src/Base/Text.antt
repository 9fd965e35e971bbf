-- ===== src/Base/Text.antt =====
-- Go strings are sequences of bytes, so a text is a list of numbers. The functions of package
-- strings that the code calls.
use Prim.Native.Nat.{ℕ}
use Prim.Native.Char.{code}
use Prim.Native.String.{String}
use mathlib.Core.Path.{◌≡◌, refl}
use mathlib.Core.Logic.{◌↔◌, inl, inr}
use mathlib.Core.Bool.{Bool, true, false, ◌&&◌}
use mathlib.Core.Option.{Option, none, some}
use mathlib.Core.List.{List, [], ◌∷◌, ◌++◌}
use native.Mathlib.Omega.{arith}
use queue_ti.Base.Tests.{◌==◌, if◌then◌else◌, Bool-cases, Option-cases}

abbrev pub Text : Type 0
Text = List ℕ

-- The bytes of an ASCII literal.
abbrev pub bytes : String → Text
bytes String.[] = []
bytes (String.◌∷◌ c s) = code c ∷ bytes s

unfoldable pub text_eq : Text → Text → Bool
text_eq [] [] = true
text_eq [] (b ∷ t) = false
text_eq (a ∷ s) [] = false
text_eq (a ∷ s) (b ∷ t) = a == b && text_eq s t

pub text_eq_iff : (s t : Text) → (text_eq s t ≡ true) ↔ (s ≡ t)
unfolding text_eq
text_eq_iff [] [] = ground arith
text_eq_iff [] (b ∷ t) = ground arith
text_eq_iff (a ∷ s) [] = ground arith
text_eq_iff (a ∷ s) (b ∷ t) = ground (arith, text_eq_iff s t)

pub text_eq_refl : (s : Text) → text_eq s s ≡ true
text_eq_refl s = (text_eq_iff s s).1 refl

-- strings.HasPrefix
unfoldable pub has_prefix : Text → Text → Bool
has_prefix s [] = true
has_prefix [] (b ∷ p) = false
has_prefix (a ∷ s) (b ∷ p) = a == b && has_prefix s p

-- strings.HasSuffix: some tail of the text is the suffix.
unfoldable pub has_suffix : Text → Text → Bool
unfolding text_eq
has_suffix [] p = text_eq [] p
has_suffix (a ∷ s) p = if text_eq (a ∷ s) p then true else has_suffix s p

-- strings.CutSuffix; `none` where the suffix is not there.
unfoldable pub cut_suffix : Text → Text → Option Text
unfolding text_eq
cut_suffix [] p = if text_eq [] p then some [] else none
cut_suffix (a ∷ s) p =
    if text_eq (a ∷ s) p
    then some []
    else elim (cut_suffix s p) [ none ↦ none | some r ↦ some (a ∷ r) ]

pub has_suffix-append : (s p : Text) → has_suffix (s ++ p) p ≡ true
unfolding has_suffix
has_suffix-append [] [] = refl
has_suffix-append [] (b ∷ p) = rw (text_eq_refl (b ∷ p)) refl
has_suffix-append (a ∷ s) p = ground (arith, has_suffix-append s p)

pub has_prefix-append : (s t : Text) → has_prefix (s ++ t) s ≡ true
unfolding has_prefix
has_prefix-append [] [] = refl
has_prefix-append [] (b ∷ t) = refl
has_prefix-append (a ∷ s) t = ground (arith, has_prefix-append s t)

-- A prefix leaves a rest.
pub has_prefix-split : (s p : Text) → has_prefix s p ≡ true → (r : Text) × (s ≡ p ++ r)
unfolding has_prefix
has_prefix-split s [] h = (s, refl)
has_prefix-split [] (b ∷ p) h = cc
has_prefix-split (a ∷ s) (b ∷ p) h =
    let (r, e) = has_prefix-split s p (ground arith) in (r, ground arith)

-- What is cut off is the suffix.
pub cut_suffix-append : (s p : Text) {r : Text} → cut_suffix s p ≡ some r → s ≡ r ++ p
unfolding cut_suffix
cut_suffix-append [] p h = ground (arith, text_eq_iff [] p)
cut_suffix-append (a ∷ s) p {r} h = elim (Bool-cases (text_eq (a ∷ s) p)) [
  | inl whole ↦ ground (arith, text_eq_iff (a ∷ s) p)
  | inr part ↦ elim (Option-cases (cut_suffix s p)) [
    | inl e ↦ ground arith
    | inr (t, e) ↦ ground (arith, cut_suffix-append s p e)
  ]
]
