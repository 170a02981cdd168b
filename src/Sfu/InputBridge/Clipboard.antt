-- ===== src/Sfu/InputBridge/Clipboard.antt =====
-- Clipboard text is cut at a character.
use dun_tunel.Prelude.{
  ℕ, zero, suc, ◌≤◌, ◌<◌, ◌≡◌, refl, true, List, leb, length, take, length-take, arith, Bool-cases,
  inl, inr,
}
use dun_tunel.Sfu.InputBridge.{is_char_boundary, walk_back, truncate_clipboard, max_clipboard_bytes}

-- The greatest boundary that is not beyond `end`.
pub record IsGreatest (s : List ℕ) (end k : ℕ) : Type 0 where
  pub boundary : is_char_boundary s k ≡ true
  pub within : k ≤ end
  pub greatest : (j : ℕ) → is_char_boundary s j ≡ true → j ≤ end → j ≤ k

walk_back-IsGreatest : (s : List ℕ) (end : ℕ) → IsGreatest s end (walk_back s end)
unfolding walk_back
walk_back-IsGreatest s zero = record {
  boundary = unfold is_char_boundary in refl;
  within = omega arith;
  greatest = λ j b h. h;
}
walk_back-IsGreatest s (suc end) = elim (Bool-cases (is_char_boundary s (suc end))) [
  | inl e ↦ rw e (record { boundary = e; within = omega arith; greatest = λ j b h. h })
  | inr e ↦
      let below = walk_back-IsGreatest s end in
      rw e (record {
        boundary = below.boundary;
        within = omega (arith, below.within);
        greatest = λ j b h. elim (Bool-cases (leb j end)) [
          | inl le ↦ below.greatest j b (ground (arith, le))
          | inr gt ↦
              let top : j ≡ suc end = ground (arith, gt) in absurd (ground (arith, rw top at b, e))
        ];
      })
]

-- Clipboard text of more than 8192 bytes is cut to its first `k` bytes, where `k` is the greatest
-- character boundary that is at most 8192. Shorter text is unchanged. The result has at most 8192
-- bytes.
pub truncate_clipboard-cuts :
    (s : List ℕ)
    → (length (truncate_clipboard s) ≤ max_clipboard_bytes)
      × (length s ≤ max_clipboard_bytes → truncate_clipboard s ≡ s)
      × (max_clipboard_bytes < length s
          → (k : ℕ) × IsGreatest s max_clipboard_bytes k × (truncate_clipboard s ≡ take k s))
unfolding truncate_clipboard
truncate_clipboard-cuts s =
    let cut = walk_back s max_clipboard_bytes in
    let greatest = walk_back-IsGreatest s max_clipboard_bytes in
    (
      ground (arith, length-take cut s, greatest.within),
      λ h. ground arith,
      λ h. (cut, greatest, ground arith),
    )
