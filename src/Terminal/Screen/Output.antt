-- ===== src/Terminal/Screen/Output.antt =====
-- What a terminal writes for a text: every newline with a carriage return before it.
use ssh_chat.Prelude.{
  ℕ, ◌+◌, ◌≡◌, sym, ap, ap₂, ◌∙◌, Bool-cases, inl, inr, Bool, false, if◌then◌else◌, ◌==◌, [], ◌∷◌,
  ◌++◌, length, length-append, Text, arith,
}
use mathlib.Core.List.{append_assoc, append-nil}
use ssh_chat.Terminal.Screen.{write_crlf_from, write_with_crlf}

-- The text with `\r\n` for `\n`.
unfoldable pub crlf : Text → Text
crlf [] = []
crlf (c ∷ s) = if c == 10 then 13 ∷ 10 ∷ crlf s else c ∷ crlf s

-- A writer that takes all that it is given and keeps it.
abbrev pub keeps : Text → Text → Text × ℕ × Bool
keeps s t = (s ++ t, length t, false)

crlf_from :
    (s : Text) (n : ℕ) (line buf : Text)
    → write_crlf_from keeps s n line buf
      ≡ (s ++ (line ++ crlf buf), n + (length line + length buf), false)
unfolding write_crlf_from crlf
crlf_from s n [] [] = ap₂ (λ (t : Text) (k : ℕ). (t, k, false)) (sym (append-nil s)) (omega arith)
crlf_from s n (c ∷ line) [] =
    ap₂ (λ (t : Text) (k : ℕ). (s ++ t, n + k, false)) (sym (append-nil (c ∷ line))) (omega arith)
crlf_from s n line (b ∷ buf) = elim (Bool-cases (b == 10)) [
  | inl e ↦
      rw (e, write_crlf_from)
        (crlf_from ((s ++ line) ++ 13 ∷ 10 ∷ []) (n + length line + 1) [] buf
          ∙ ap₂ (λ (t : Text) (k : ℕ). (t, k, false))
              (append_assoc (s ++ line) (13 ∷ 10 ∷ []) (crlf buf)
                ∙ append_assoc s line (13 ∷ 10 ∷ crlf buf))
              (omega arith))
  | inr e ↦
      rw (e, write_crlf_from)
        (crlf_from s n (line ++ b ∷ []) buf
          ∙ ap₂ (λ (t : Text) (k : ℕ). (s ++ t, n + k, false))
              (append_assoc line (b ∷ []) (crlf buf)) (omega (arith, length-append line (b ∷ []))))
]

-- Over a writer that takes all that it is given, `writeWithCRLF` writes the text with every newline
-- as `\r\n`, and counts the bytes of the text.
pub write_with_crlf_lem :
    (s buf : Text) → write_with_crlf keeps s buf ≡ (s ++ crlf buf, length buf, false)
unfolding write_with_crlf
write_with_crlf_lem s buf =
    crlf_from s 0 [] buf ∙ ap (λ (k : ℕ). (s ++ crlf buf, k, false)) (omega arith)
