-- ===== src/Caddy/Admin/Overlaps.antt =====
-- Which policies make room for the wildcard policy.
use mathlib.Core.List.{reverse, reverse-append, reverse-reverse}
use dun_tunel.Prelude.{
  ℕ, true, false, ◌≡◌, refl, ap, ◌∙◌, [], ◌∷◌, ◌++◌, some, Text, text, trim_end_by, trim_start_by,
  strip_prefix, strip_suffix, contains_char, arith, All,
}
use dun_tunel.Prelude.Trim.{All-reverse, trim_start_by-none}
use dun_tunel.Prelude.Json.{string, only, obj, ◌:=◌}
use dun_tunel.Caddy.Admin.Policies.{
  is_dot, one_label, subject_overlaps, any_overlaps, policy_subject_overlaps,
}

strip_prefix-append : (p s : Text) → strip_prefix p (p ++ s) ≡ some s
unfolding strip_prefix
strip_prefix-append [] s = refl
strip_prefix-append (c ∷ p) s = ground (arith, strip_prefix-append p s)

pub strip_suffix-append : (p s : Text) → strip_suffix p (s ++ p) ≡ some s
unfolding strip_suffix
strip_suffix-append p s =
    rw (reverse-append s p, strip_prefix-append (reverse p) (reverse s), reverse-reverse s) refl

-- No dot, and only dots.
abbrev pub NoDot : Text → Type 0
NoDot = All (λ c. is_dot c ≡ false)

abbrev pub OnlyDots : Text → Type 0
OnlyDots = All (λ c. is_dot c ≡ true)

trim_start_by-dots :
    (dots s : Text) → OnlyDots dots → trim_start_by is_dot (dots ++ s) ≡ trim_start_by is_dot s
unfolding trim_start_by
trim_start_by-dots [] s h = refl
trim_start_by-dots (c ∷ dots) s h = rw h.0 (trim_start_by-dots dots s h.1)

trim_end_by-label :
    (label dots : Text) → NoDot label → OnlyDots dots → trim_end_by is_dot (label ++ dots) ≡ label
unfolding trim_end_by
trim_end_by-label label dots g h =
    ap reverse (
      ap (trim_start_by is_dot) (reverse-append label dots)
      ∙ trim_start_by-dots (reverse dots) (reverse label) (All-reverse _ dots h)
      ∙ trim_start_by-none is_dot (reverse label) (All-reverse _ label g))
    ∙ reverse-reverse label

contains_char-label : (s : Text) → NoDot s → contains_char b'.' s ≡ false
unfolding contains_char
contains_char-label [] h = refl
contains_char-label (c ∷ s) h = rw h.0 (contains_char-label s h.1)

pub one_label-dots :
    (c : ℕ) (label dots suffix : Text)
    → NoDot (c ∷ label)
    → OnlyDots dots
    → one_label (strip_suffix suffix (((c ∷ label) ++ dots) ++ suffix)) ≡ true
unfolding one_label
one_label-dots c label dots suffix g h =
    rw
      (
        strip_suffix-append suffix ((c ∷ label) ++ dots),
        trim_end_by-label (c ∷ label) dots g h,
        contains_char-label (c ∷ label) g,
      )
      refl

-- A policy for a host that is one label, any number of dots and what the wildcard covers makes room:
-- for the hosts directly under the wildcard, with one dot, and also for those with none.
pub policy_subject_overlaps-label :
    (c : ℕ) (label dots suffix : Text)
    → NoDot (c ∷ label)
    → OnlyDots dots
    → policy_subject_overlaps
        (obj ("subjects" := only (string (((c ∷ label) ++ dots) ++ suffix)) ∷ []))
        (text "*." ++ suffix)
      ≡ true
unfolding policy_subject_overlaps any_overlaps subject_overlaps strip_prefix
policy_subject_overlaps-label c label dots suffix g h =
    ground (arith, one_label-dots c label dots suffix g h)
