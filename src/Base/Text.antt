-- ===== src/Base/Text.antt =====
-- Texts as lists of bytes, without the terminator: what the C library's string functions find.
use Prim.Native.Nat.{ℕ}
use mathlib.Core.Path.{◌≡◌, refl, ap₂}
use mathlib.Core.Bool.{Bool, true, false, ◌&&◌, ◌||◌}
use mathlib.Core.Option.{Option, none, some}
use mathlib.Core.List.{List, [], ◌∷◌}
use native.Mathlib.Omega.{arith}
use feng.Base.Tests.{◌==◌, if◌then◌else◌}

abbrev pub Text : Type 0
Text = List ℕ

-- `strcmp(...) == 0`.
abbrev pub text_eq : Text → Text → Bool
text_eq [] [] = true
text_eq (a ∷ s) (b ∷ t) = (a == b) && text_eq s t
text_eq _ _ = false

-- `strncmp(text, prefix, strlen(prefix)) == 0`.
abbrev pub starts_with : Text → Text → Bool
starts_with [] text = true
starts_with (a ∷ prefix) [] = false
starts_with (a ∷ prefix) (b ∷ text) = (a == b) && starts_with prefix text

-- `strstr(text, part) != NULL`.
abbrev pub strstr : Text → Text → Bool
strstr [] part = starts_with part []
strstr (a ∷ text) part = starts_with part (a ∷ text) || strstr text part

abbrev after_first : ℕ → Text → Option (Text × Text) → Option (Text × Text)
after_first a text none = if a == 47 then some ([], text) else none
after_first a text (some (before, after)) = some (a ∷ before, after)

-- `strrchr(text, '/')`: what stands before the last slash, and behind it.
abbrev pub split_last_slash : Text → Option (Text × Text)
split_last_slash [] = none
split_last_slash (a ∷ text) = after_first a text (split_last_slash text)

pub text_eq_refl : (s : Text) → text_eq s s ≡ true
text_eq_refl [] = refl
text_eq_refl (a ∷ s) = let e : (a == a) ≡ true = ground arith in rw (e, text_eq_refl s) refl

pub text_eq→≡ : (s t : Text) → text_eq s t ≡ true → s ≡ t
text_eq→≡ [] [] h = refl
text_eq→≡ [] (b ∷ t) h = absurd (cc h)
text_eq→≡ (a ∷ s) [] h = absurd (cc h)
text_eq→≡ (a ∷ s) (b ∷ t) h =
    let e : a ≡ b = ground arith in
    let f : text_eq s t ≡ true = ground arith in ap₂ (λ x xs. x ∷ xs) e (text_eq→≡ s t f)
