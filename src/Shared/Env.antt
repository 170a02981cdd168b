-- ===== src/Shared/Env.antt =====
-- How the configurations of the crates read the environment, with what the program uses of `str` for
-- that. An environment gives the value of a variable, where it is set to Unicode text.
use Prim.Native.String.{String}
use dun_tunel.Prelude.{
  ℕ, ◌+◌, Bool, ◌&&◌, [], ◌∷◌, Option, none, some, Text, text, text_eq, leb, if◌then◌else◌,
}
use dun_tunel.Storage.Numbers.{parse_u64}

abbrev pub Env : Type 0
Env = Text → Option Text

abbrev pub var : Env → String → Option Text
var env name = env (text name)

abbrev pub or_default {ℓ} : {A : Type ℓ} → Option A → A → A
or_default none a = a
or_default (some b) a = b

abbrev pub at_most : ℕ → Option ℕ → Option ℕ
at_most bound none = none
at_most bound (some n) = if leb n bound then some n else none

-- `parse` of an unsigned type whose largest number is `bound`, at most that of 64 bits.
unfoldable pub parse_up_to : ℕ → Text → Option ℕ
unfolding parse_u64
parse_up_to bound s = at_most bound (parse_u64 s)

abbrev pub u16_max : ℕ
u16_max = 65535

abbrev pub parsed : ℕ → Option Text → Option ℕ
parsed bound none = none
parsed bound (some s) = parse_up_to bound s

abbrev pub lower : ℕ → ℕ
lower c = if leb 65 c && leb c 90 then c + 32 else c

unfoldable pub to_ascii_lowercase : Text → Text
to_ascii_lowercase [] = []
to_ascii_lowercase (c ∷ s) = lower c ∷ to_ascii_lowercase s

unfoldable pub eq_ignore_ascii_case : Text → Text → Bool
unfolding to_ascii_lowercase text_eq
eq_ignore_ascii_case s t = text_eq (to_ascii_lowercase s) (to_ascii_lowercase t)
