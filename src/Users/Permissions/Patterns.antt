-- ===== src/Users/Permissions/Patterns.antt =====
-- Which topics a pattern matches.
use queue_ti.Base.{
  ℕ, suc, ◌+◌, true, false, some, [], ◌∷◌, ◌++◌, ◌≡◌, refl, ◌∙◌, ap, inl, inr, ◌↔◌, arith,
  Bool-cases, Option-cases,
}
use queue_ti.Base.Text.{
  Text, bytes, text_eq, text_eq_iff, text_eq_refl, cut_suffix, has_prefix-append, has_prefix-split,
  cut_suffix-append,
}
use queue_ti.Base.Table.{length}
use queue_ti.Users.Permissions.{matches_pattern}

-- The three ways to match: everything, a prefix and a dot, or the topic itself.
pub data Match : Text → Text → Type 0 where
  everything : {topic : Text} → Match (bytes "*") topic
  under : (prefix rest : Text) → Match (prefix ++ bytes ".*") ((prefix ++ bytes ".") ++ rest)
  itself : {topic : Text} → Match topic topic

pub matches_pattern-Match :
    (pattern topic : Text) → matches_pattern pattern topic ≡ true → Match pattern topic
unfolding matches_pattern
matches_pattern-Match pattern topic h = elim (Bool-cases (text_eq pattern (bytes "*"))) [
  | inl e ↦ rw ((text_eq_iff pattern (bytes "*")).0 e) everything
  | inr e ↦ elim (Option-cases (cut_suffix pattern (bytes ".*"))) [
    | inl cut ↦
        let same : pattern ≡ topic = (text_eq_iff pattern topic).0 (rw (e, cut) at h) in
        rw same itself
    | inr (prefix, cut) ↦
        let (rest, split) = has_prefix-split topic (prefix ++ bytes ".") (rw (e, cut) at h) in
        rw (cut_suffix-append pattern (bytes ".*") cut, split) (under prefix rest)
  ]
]

length-append : (s t : Text) → length (s ++ t) ≡ length s + length t
length-append [] t = omega arith
length-append (b ∷ s) t = omega (arith, length-append s t)

longer : (b : ℕ) (s t : Text) → text_eq (b ∷ (s ++ t)) t ≡ false
longer b s t = elim (Bool-cases (text_eq (b ∷ (s ++ t)) t)) [
  | inl e ↦
      let same : suc (length (s ++ t)) ≡ length t =
        ap length ((text_eq_iff (b ∷ (s ++ t)) t).0 e) in
      absurd (omega (arith, length-append s t))
  | inr e ↦ e
]

cut_suffix-of : (s t : Text) → cut_suffix (s ++ t) t ≡ some s
unfolding cut_suffix
cut_suffix-of [] [] = refl
cut_suffix-of [] (b ∷ t) = rw (text_eq_refl (b ∷ t)) refl
cut_suffix-of (a ∷ s) t = rw (longer a s t) (rw (cut_suffix-of s t) refl)

dotted : (s : Text) → s ++ bytes ".*" ≡ (s ++ bytes ".") ++ bytes "*"
dotted [] = refl
dotted (b ∷ s) = ap (λ t. b ∷ t) (dotted s)

Match-matches_pattern :
    (pattern topic : Text) → Match pattern topic → matches_pattern pattern topic ≡ true
unfolding matches_pattern text_eq
Match-matches_pattern pattern topic everything = refl
Match-matches_pattern pattern topic (under prefix rest) =
    elim (Bool-cases (text_eq (prefix ++ bytes ".*") (bytes "*"))) [
      | inl e ↦ rw e refl
      | inr e ↦
          rw e
            (rw (cut_suffix-of prefix (bytes ".*")) (has_prefix-append (prefix ++ bytes ".") rest))
    ]
Match-matches_pattern pattern topic itself = elim (Bool-cases (text_eq topic (bytes "*"))) [
  | inl e ↦ rw e refl
  | inr e ↦ elim (Option-cases (cut_suffix topic (bytes ".*"))) [
    | inl cut ↦ rw e (rw cut (text_eq_refl topic))
    | inr (prefix, cut) ↦ rw e (
        rw cut (
          rw (cut_suffix-append topic (bytes ".*") cut ∙ dotted prefix)
            (has_prefix-append (prefix ++ bytes ".") (bytes "*"))))
  ]
]

-- A pattern matches a topic exactly if it is "*", if it ends in ".*" and the topic begins with what
-- stands before the star, the dot included, or if it is the topic itself.
pub matches_pattern_iff :
    (pattern topic : Text) → (matches_pattern pattern topic ≡ true) ↔ Match pattern topic
matches_pattern_iff pattern topic =
    (matches_pattern-Match pattern topic, Match-matches_pattern pattern topic)
