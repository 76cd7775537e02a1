-- ===== src/Program/Motd.antt =====
-- cmd/ssh-chat/cmd.go: the line ends of the message of the day.
use ssh_chat.Prelude.{
  ℕ, ◌≡◌, refl, ap, Bool, true, false, ◌&&◌, if◌then◌else◌, ◌==◌, Bool-cases, inl, inr, [], ◌∷◌,
  Text, codes, has_prefix, replace_all, replace_from, arith,
}

unfoldable pub lf_of_crlf : Text → Text
unfolding replace_all
lf_of_crlf s = replace_all s (codes "\r\n") (codes "\n")

unfoldable pub crlf_of_lf : Text → Text
unfolding replace_all
crlf_of_lf s = replace_all s (codes "\n") (codes "\r\n")

-- What `GetMOTD` does with the text of the file.
unfoldable pub normalize_ends : Text → Text
unfolding lf_of_crlf crlf_of_lf
normalize_ends s = crlf_of_lf (lf_of_crlf s)

-- Every byte 10 stands right behind a byte 13; the flag tells whether the last byte was one.
unfoldable pub ends_crlf : Bool → Text → Bool
ends_crlf after_cr [] = true
ends_crlf after_cr (c ∷ s) =
    let rest = ends_crlf (c == 13) s in if c == 10 then after_cr && rest else rest

crlf_of_lf-cons :
    (c : ℕ) (s : Text)
    → crlf_of_lf (c ∷ s) ≡ (if c == 10 then 13 ∷ 10 ∷ crlf_of_lf s else c ∷ crlf_of_lf s)
unfolding crlf_of_lf replace_all replace_from has_prefix
crlf_of_lf-cons c s = ground arith

both_empty : lf_of_crlf (crlf_of_lf []) ≡ []
unfolding lf_of_crlf crlf_of_lf replace_all replace_from
both_empty = refl

no_ends : (b : Bool) → ends_crlf b (crlf_of_lf []) ≡ true
unfolding ends_crlf crlf_of_lf replace_all replace_from
no_ends b = refl

-- A line end never stands at the front.
no_lf_first : (s : Text) → has_prefix (crlf_of_lf s) (10 ∷ []) ≡ false
unfolding has_prefix crlf_of_lf replace_all replace_from
no_lf_first [] = refl
no_lf_first (c ∷ s) = ground arith

lf_of_crlf-pair : (s : Text) → lf_of_crlf (13 ∷ 10 ∷ s) ≡ 10 ∷ lf_of_crlf s
unfolding lf_of_crlf replace_all replace_from has_prefix
lf_of_crlf-pair s = refl

lf_of_crlf-other :
    (c : ℕ) (s : Text) → has_prefix s (10 ∷ []) ≡ false → lf_of_crlf (c ∷ s) ≡ c ∷ lf_of_crlf s
unfolding lf_of_crlf replace_all replace_from has_prefix
lf_of_crlf-other c s h = ground (arith, h)

-- Turning the line ends of a text into CRLF and back gives the text.
pub lf_of_crlf-crlf_of_lf : (s : Text) → lf_of_crlf (crlf_of_lf s) ≡ s
lf_of_crlf-crlf_of_lf [] = both_empty
lf_of_crlf-crlf_of_lf (c ∷ s) = elim (Bool-cases (c == 10)) [
  | inl e ↦
      rw (crlf_of_lf-cons c s, e, lf_of_crlf-pair (crlf_of_lf s), lf_of_crlf-crlf_of_lf s)
        (ground (arith, e))
  | inr e ↦
      rw
        (
          crlf_of_lf-cons c s,
          e,
          lf_of_crlf-other c (crlf_of_lf s) (no_lf_first s),
          lf_of_crlf-crlf_of_lf s,
        )
        refl
]

crlf_of_lf-ends_crlf : (b : Bool) (s : Text) → ends_crlf b (crlf_of_lf s) ≡ true
unfolding ends_crlf
crlf_of_lf-ends_crlf b [] = no_ends b
crlf_of_lf-ends_crlf b (c ∷ s) = elim (Bool-cases (c == 10)) [
  | inl e ↦ rw (crlf_of_lf-cons c s, e) (crlf_of_lf-ends_crlf false s)
  | inr e ↦ rw (crlf_of_lf-cons c s, e) (ground (arith, e, crlf_of_lf-ends_crlf (c == 13) s))
]

-- Every line of the message of the day ends in CRLF, however its file has them, and normalizing the
-- line ends of what is normalized already changes nothing.
pub normalize_ends_lem :
    (s : Text)
    → (ends_crlf false (normalize_ends s) ≡ true)
      × (normalize_ends (normalize_ends s) ≡ normalize_ends s)
unfolding normalize_ends
normalize_ends_lem s = (
  crlf_of_lf-ends_crlf false (lf_of_crlf s),
  ap crlf_of_lf (lf_of_crlf-crlf_of_lf (lf_of_crlf s)),
)
