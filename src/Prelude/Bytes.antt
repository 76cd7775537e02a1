-- ===== src/Prelude/Bytes.antt =====
-- Byte strings. A Go string is a sequence of bytes, so a text is a list of numbers.
use Prim.Native.Char.{code}
use Prim.Native.String.{String}
use Prim.Native.Nat.{ℕ, ◌+◌}
use mathlib.Core.Path.{refl, ap₂}
use mathlib.Core.Bool.{Bool, true, false, ◌&&◌}
use mathlib.Core.List.{List, [], ◌∷◌, ◌++◌, map}
use mathlib.Core.List
use native.Mathlib.Decide.{ℕ_discrete}
use ssh_chat.Prelude.Tests.{◌==◌, ltb, leb, if◌then◌else◌}

abbrev pub Text : Type 0
Text = List ℕ

-- The code points of a literal: its bytes, if it is ASCII.
abbrev pub codes : String → Text
codes String.[] = []
codes (String.◌∷◌ c s) = code c ∷ codes s

unfoldable pub text_discrete : Discrete Text
unfolding ℕ_discrete
text_discrete [] [] = yes refl
text_discrete [] (y ∷ ys) = no (λ e. cc)
text_discrete (x ∷ xs) [] = no (λ e. cc)
text_discrete (x ∷ xs) (y ∷ ys) = elim (ℕ_discrete x y) [
  | no h ↦ no (λ e. h (List.head-eq_of_cons-eq e))
  | yes h ↦ elim (text_discrete xs ys) [
    | no k ↦ no (λ e. k (List.tail-eq_of_cons-eq e))
    | yes k ↦ yes (ap₂ ◌∷◌ h k)
  ]
]

abbrev pub is_ascii : Text → Bool
is_ascii [] = true
is_ascii (c ∷ s) = ltb c 128 && is_ascii s

unfoldable pub ascii_lower : ℕ → ℕ
ascii_lower c = if leb b'A' c && leb c b'Z' then c + 32 else c

-- `strings.ToLower`: the bytes A to Z of an ASCII text become a to z. What the library's Unicode
-- tables make of any other text is the parameter `beyond`.
unfoldable pub to_lower : (Text → Text) → Text → Text
unfolding ascii_lower
to_lower beyond s = if is_ascii s then map ascii_lower s else beyond s

-- `strings.HasPrefix`.
unfoldable pub has_prefix : Text → Text → Bool
has_prefix s [] = true
has_prefix [] (p ∷ ps) = false
has_prefix (c ∷ s) (p ∷ ps) = c == p && has_prefix s ps
