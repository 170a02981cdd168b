-- ===== src/Prelude/Trim.antt =====
-- Texts that trimming leaves as they are.
use mathlib.Core.List.{reverse, reverse-cons, reverse-reverse}
use dun_tunel.Prelude.{
  ℕ, Bool, false, ◌≡◌, refl, ap, ◌∙◌, [], ◌∷◌, ◌++◌, Text, All, trim, trim_start_by, trim_end_by,
  is_whitespace,
}

module _ (P : ℕ → Type 0) where
  pub All-append : (s t : Text) → All P s → All P t → All P (s ++ t)
  All-append [] t g h = h
  All-append (c ∷ s) t g h = (g.0, All-append s t g.1 h)

  pub All-reverse : (s : Text) → All P s → All P (reverse s)
  All-reverse [] h = tt
  All-reverse (c ∷ s) h =
      rw (reverse-cons c s) (All-append (reverse s) (c ∷ []) (All-reverse s h.1) (h.0, tt))

module _ (p : ℕ → Bool) where
  pub trim_start_by-none : (s : Text) → All (λ c. p c ≡ false) s → trim_start_by p s ≡ s
  unfolding trim_start_by
  trim_start_by-none [] h = refl
  trim_start_by-none (c ∷ s) h = rw h.0 refl

  pub trim_end_by-none : (s : Text) → All (λ c. p c ≡ false) s → trim_end_by p s ≡ s
  unfolding trim_end_by
  trim_end_by-none s h =
      ap reverse (trim_start_by-none (reverse s) (All-reverse _ s h)) ∙ reverse-reverse s

pub trim-none : (s : Text) → All (λ c. is_whitespace c ≡ false) s → trim s ≡ s
unfolding trim
trim-none s h =
    ap (trim_end_by is_whitespace) (trim_start_by-none is_whitespace s h)
    ∙ trim_end_by-none is_whitespace s h
