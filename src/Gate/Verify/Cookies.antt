-- ===== src/Gate/Verify/Cookies.antt =====
-- `extract_cookie` reads back what a browser writes.
use mathlib.Core.List.{reverse, reverse-reverse, reverse-cons, append_assoc}
use dun_tunel.Prelude.{
  ℕ, Text, text_eq, lookup, Assoc, none, some, Bool, false, List, [], ◌∷◌, ◌++◌, ◌≡◌, refl, ap, ◌∙◌,
  All, ◌||◌, ◌==◌, if◌then◌else◌, trim, trim_start_by, trim_end_by, is_whitespace, split,
  split_once, arith,
}
use dun_tunel.Gate.Verify.{extract_cookie, find_cookie, cookie_or}

abbrev pub Avoids : (ℕ → Bool) → Text → Type 0
Avoids p = All (λ c. p c ≡ false)

abbrev pub in_value : ℕ → Bool
in_value c = c == b';' || is_whitespace c

abbrev pub in_name : ℕ → Bool
in_name c = c == b'=' || in_value c

-- A `Cookie` header: the pairs, with a semicolon and a space between them.
unfoldable pub render : Assoc Text → Text
render [] = []
render ((k, v) ∷ []) = k ++ b'=' ∷ v
render ((k, v) ∷ c ∷ cs) = (k ++ b'=' ∷ v) ++ b';' ∷ b' ' ∷ render (c ∷ cs)

abbrev pub IsClean : Text × Text → Type 0
IsClean (k, v) = Avoids in_name k × Avoids in_value v

Avoids-weaken :
    (p q : ℕ → Bool) → ((c : ℕ) → p c ≡ false → q c ≡ false) → (s : Text) → Avoids p s → Avoids q s
Avoids-weaken p q imp [] h = tt
Avoids-weaken p q imp (c ∷ s) h = (imp c h.0, Avoids-weaken p q imp s h.1)

Avoids-append : (p : ℕ → Bool) (s t : Text) → Avoids p s → Avoids p t → Avoids p (s ++ t)
Avoids-append p [] t hs ht = ht
Avoids-append p (c ∷ s) t hs ht = (hs.0, Avoids-append p s t hs.1 ht)

Avoids-reverse : (p : ℕ → Bool) (s : Text) → Avoids p s → Avoids p (reverse s)
Avoids-reverse p [] h = tt
Avoids-reverse p (c ∷ s) h =
    rw (reverse-cons c s) (Avoids-append p (reverse s) (c ∷ []) (Avoids-reverse p s h.1) (h.0, tt))

trim_start_by-clean : (p : ℕ → Bool) (s : Text) → Avoids p s → trim_start_by p s ≡ s
unfolding trim_start_by
trim_start_by-clean p [] h = refl
trim_start_by-clean p (c ∷ s) h = rw h.0

trim_end_by-clean : (p : ℕ → Bool) (s : Text) → Avoids p s → trim_end_by p s ≡ s
unfolding trim_end_by
trim_end_by-clean p s h =
    rw (trim_start_by-clean p (reverse s) (Avoids-reverse p s h)) (reverse-reverse s)

trim-clean : (s : Text) → Avoids is_whitespace s → trim s ≡ s
unfolding trim
trim-clean s h = rw (trim_start_by-clean is_whitespace s h) (trim_end_by-clean is_whitespace s h)

trim-space : (s : Text) → trim (b' ' ∷ s) ≡ trim s
unfolding trim trim_start_by
trim-space s = refl

split-one : (d : ℕ) (s : Text) → Avoids (λ c. c == d) s → split d s ≡ s ∷ []
unfolding split
split-one d [] h = refl
split-one d (c ∷ s) h = rw (h.0, split-one d s h.1)

split-append : (d : ℕ) (s t : Text) → Avoids (λ c. c == d) s → split d (s ++ d ∷ t) ≡ s ∷ split d t
unfolding split
split-append d [] t h = ground arith
split-append d (c ∷ s) t h = rw (h.0, split-append d s t h.1)

split_once-append :
    (d : ℕ) (s t : Text) → Avoids (λ c. c == d) s → split_once d (s ++ d ∷ t) ≡ some (s, t)
unfolding split_once
split_once-append d [] t h = ground arith
split_once-append d (c ∷ s) t h = rw (h.0, split_once-append d s t h.1)

or-false : (a b : Bool) → (a || b) ≡ false → (a ≡ false) × (b ≡ false)
or-false a b h = ground arith

in_name-in_value : (c : ℕ) → in_name c ≡ false → in_value c ≡ false
in_name-in_value c h = (or-false (c == b'=') (in_value c) h).1

in_name-eq : (c : ℕ) → in_name c ≡ false → (c == b'=') ≡ false
in_name-eq c h = (or-false (c == b'=') (in_value c) h).0

in_value-semicolon : (c : ℕ) → in_value c ≡ false → (c == b';') ≡ false
in_value-semicolon c h = (or-false (c == b';') (is_whitespace c) h).0

in_value-whitespace : (c : ℕ) → in_value c ≡ false → is_whitespace c ≡ false
in_value-whitespace c h = (or-false (c == b';') (is_whitespace c) h).1

-- A piece of the header is one pair.
pair-Avoids : (k v : Text) → IsClean (k, v) → Avoids in_value (k ++ b'=' ∷ v)
unfolding is_whitespace
pair-Avoids k v h =
    Avoids-append in_value k (b'=' ∷ v) (Avoids-weaken in_name in_value in_name-in_value k h.0)
      (refl, h.1)

trim-part : (s : Text) → Avoids in_value s → trim s ≡ s
trim-part s h = trim-clean s (Avoids-weaken in_value is_whitespace in_value-whitespace s h)

find_cookie-pair :
    (name k v : Text) (rest : List Text) (piece : Text)
    → IsClean (k, v)
    → trim piece ≡ k ++ b'=' ∷ v
    → find_cookie name (piece ∷ rest) ≡ (if text_eq k name then some v else find_cookie name rest)
unfolding find_cookie cookie_or
find_cookie-pair name k v rest piece h e =
    let name_clean = Avoids-weaken in_name in_value in_name-in_value k h.0 in
    let no_eq = Avoids-weaken in_name (λ c. c == b'=') in_name-eq k h.0 in
    rw (e, split_once-append b'=' k v no_eq, trim-part k name_clean, trim-part v h.1)

no_semicolon : (k v : Text) → IsClean (k, v) → Avoids (λ c. c == b';') (k ++ b'=' ∷ v)
no_semicolon k v h =
    Avoids-weaken in_value (λ c. c == b';') in_value-semicolon (k ++ b'=' ∷ v) (pair-Avoids k v h)

-- What stands before a pair: nothing, or a space.
abbrev IsBlank : Text → Type 0
IsBlank = All (λ c. c ≡ b' ')

trim-IsBlank : (lead s : Text) → IsBlank lead → trim (lead ++ s) ≡ trim s
trim-IsBlank [] s h = refl
trim-IsBlank (c ∷ lead) s h = rw h.0 (trim-space (lead ++ s) ∙ trim-IsBlank lead s h.1)

IsBlank-Avoids : (lead : Text) → IsBlank lead → Avoids (λ c. c == b';') lead
IsBlank-Avoids [] h = tt
IsBlank-Avoids (c ∷ lead) h = (rw h.0, IsBlank-Avoids lead h.1)

lead_no_semicolon :
    (lead k v : Text)
    → IsBlank lead
    → IsClean (k, v)
    → Avoids (λ c. c == b';') (lead ++ (k ++ b'=' ∷ v))
lead_no_semicolon lead k v b h =
    Avoids-append (λ c. c == b';') lead (k ++ b'=' ∷ v) (IsBlank-Avoids lead b) (no_semicolon k v h)

trim-pair :
    (lead k v : Text)
    → IsBlank lead
    → IsClean (k, v)
    → trim (lead ++ (k ++ b'=' ∷ v)) ≡ k ++ b'=' ∷ v
trim-pair lead k v b h =
    trim-IsBlank lead (k ++ b'=' ∷ v) b ∙ trim-part (k ++ b'=' ∷ v) (pair-Avoids k v h)

find_cookie-nil : (name piece : Text) → trim piece ≡ trim [] → find_cookie name (piece ∷ []) ≡ none
unfolding find_cookie
find_cookie-nil name piece e =
    rw e (unfold cookie_or split_once trim trim_start_by trim_end_by in refl)

find_cookie-render :
    (lead : Text) (cs : Assoc Text) (name : Text)
    → IsBlank lead
    → All IsClean cs
    → find_cookie name (split b';' (lead ++ render cs)) ≡ lookup name cs
unfolding render lookup find_cookie
find_cookie-render lead [] name b h =
    rw (split-one b';' (lead ++ []) (Avoids-append _ lead [] (IsBlank-Avoids lead b) tt))
      (find_cookie-nil name (lead ++ []) (trim-IsBlank lead [] b))
find_cookie-render lead ((k, v) ∷ []) name b h =
    rw (split-one b';' (lead ++ (k ++ b'=' ∷ v)) (lead_no_semicolon lead k v b h.0))
      (find_cookie-pair name k v [] _ h.0 (trim-pair lead k v b h.0))
find_cookie-render lead ((k, v) ∷ c ∷ cs) name b h =
    let rest = b' ' ∷ render (c ∷ cs) in
    rw (← append_assoc lead (k ++ b'=' ∷ v) (b';' ∷ rest)) (
      rw (split-append b';' (lead ++ (k ++ b'=' ∷ v)) rest (lead_no_semicolon lead k v b h.0)) (
        find_cookie-pair name k v (split b';' rest) _ h.0 (trim-pair lead k v b h.0)
        ∙ ap (λ o. if text_eq k name then some v else o)
            (find_cookie-render (b' ' ∷ []) (c ∷ cs) name (refl, tt) h.1)))

-- Let no name hold `=`, `;` or white space, and no value `;` or white space. Then the value that is
-- read from the header under a name is that of the first pair with the name, and there is none
-- exactly when no pair has it.
pub extract_cookie-render :
    (cs : Assoc Text) (name : Text)
    → All IsClean cs
    → extract_cookie (render cs) name ≡ lookup name cs
unfolding extract_cookie
extract_cookie-render cs name h = find_cookie-render [] cs name tt h
