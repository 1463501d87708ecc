-- ===== src/Agent/Cursor/Texts.antt =====
-- `text.split('.')`
use Prim.Native.Char.{Char, code}
use Prim.Native.String.{String, ◌++◌, char_at}
use text.Mathlib.TextLemmas.{nil-append, cons-append}
use okx.Prelude.{Bool, false, ◌||◌, List, [], ◌∷◌, ◌≡◌, refl, ◌∙◌, ap, ◌==◌, arith, if◌then◌else◌}

abbrev dot : Char
dot = char_at "." 0

abbrev is_dot : Char → Bool
is_dot c = code c == 46

-- A character in front of the first part.
abbrev push : Char → List String → List String
push c [] = (String.◌∷◌ c String.[]) ∷ []
push c (part ∷ parts) = (String.◌∷◌ c part) ∷ parts

unfoldable pub split : String → List String
split String.[] = String.[] ∷ []
split (String.◌∷◌ c s) = let rest = split s in if is_dot c then String.[] ∷ rest else push c rest

unfoldable pub has_dot : String → Bool
has_dot String.[] = false
has_dot (String.◌∷◌ c s) = is_dot c || has_dot s

-- A text without a dot is one part.
pub split_part : (s : String) → has_dot s ≡ false → split s ≡ s ∷ []
unfolding split has_dot
split_part String.[] h = refl
split_part (String.◌∷◌ c s) h = ground (arith, split_part s)

-- A text without a dot, a dot and more: the text is the first part.
pub split_dot : (s t : String) → has_dot s ≡ false → split (s ++ ("." ++ t)) ≡ s ∷ split t
unfolding split has_dot
split_dot String.[] t h =
    ap split
      (nil-append ("." ++ t) ∙ cons-append dot "" t ∙ ap (λ s. String.◌∷◌ dot s) (nil-append t))
split_dot (String.◌∷◌ c s) t h =
    ap split (cons-append c s ("." ++ t)) ∙ ground (arith, split_dot s t)
