-- ===== src/Sanitize.antt =====
-- internal/sanitize/sanitize.go: the cleaning of names and of client data. The source strips the
-- characters that a regular expression matches. Over bytes both expressions match each byte above
-- 127, alone or as a part of a character, so they are tests of single bytes here.
mod Tests
use ssh_chat.Prelude.{
  ℕ, zero, suc, ◌<◌, ◌≤◌, ◌≡◌, refl, Bool, true, false, ◌&&◌, ◌||◌, ◌==◌, ltb, leb, leb→le,
  Bool-cases, inl, inr, if◌then◌else◌, List, [], ◌∷◌, Text, codes, length, take, arith,
}

abbrev pub max_length : ℕ
max_length = 16

-- The bytes that `[^\w.-]` does not match.
abbrev pub name_byte : ℕ → Bool
name_byte c =
    (leb b'0' c && leb c b'9')
    || (leb b'A' c && leb c b'Z')
    || (leb b'a' c && leb c b'z')
    || c == b'_'
    || c == b'.'
    || c == b'-'

-- The bytes that `[^[:ascii:]]|[[:cntrl:]]` does not match.
abbrev pub data_byte : ℕ → Bool
data_byte c = leb 32 c && ltb c 127

-- `ReplaceAllString(s, "")`, which leaves the bytes that are not matched.
unfoldable pub strip : (ℕ → Bool) → Text → Text
strip keep [] = []
strip keep (c ∷ s) = if keep c then c ∷ strip keep s else strip keep s

unfoldable pub name : Text → Text
unfolding strip
name s =
    let r = strip name_byte s in take (if leb (length r) max_length then length r else max_length) r

unfoldable pub data_text : Text → ℕ → Text
unfolding strip
data_text s maxlen = strip data_byte (if ltb maxlen (length s) then take maxlen s else s)

abbrev pub All : (ℕ → Bool) → Text → Type 0
All p [] = Unit
All p (c ∷ s) = (p c ≡ true) × All p s

strip-All : (p : ℕ → Bool) (s : Text) → All p (strip p s)
unfolding strip
strip-All p [] = tt
strip-All p (c ∷ s) = ground (arith, strip-All p s)

strip_id : (p : ℕ → Bool) (s : Text) → All p s → strip p s ≡ s
unfolding strip
strip_id p [] a = refl
strip_id p (c ∷ s) a = rw (a.0, strip_id p s a.1)

length-strip-le : (p : ℕ → Bool) (s : Text) → length (strip p s) ≤ length s
unfolding strip
length-strip-le p [] = omega arith
length-strip-le p (c ∷ s) = ground (arith, length-strip-le p s)

take-All : (p : ℕ → Bool) (n : ℕ) (s : Text) → All p s → All p (take n s)
take-All p zero s a = tt
take-All p (suc n) [] a = tt
take-All p (suc n) (c ∷ s) a = (a.0, take-All p n s a.1)

length-take-le : (n : ℕ) (s : Text) → length (take n s) ≤ n
length-take-le zero s = omega arith
length-take-le (suc n) [] = omega arith
length-take-le (suc n) (c ∷ s) = omega (arith, length-take-le n s)

take-length : (s : Text) → take (length s) s ≡ s
take-length [] = refl
take-length (c ∷ s) = rw (take-length s)

length-take_short-le :
    (r : Text) → length (take (if leb (length r) 16 then length r else 16) r) ≤ 16
length-take_short-le r = elim (Bool-cases (leb (length r) 16)) [
  | inl e ↦ rw e (omega (arith, length-take-le (length r) r, leb→le (length r) 16 e))
  | inr e ↦ rw e (length-take-le 16 r)
]

le→leb : (a b : ℕ) → a ≤ b → leb a b ≡ true
le→leb a b h = ground arith

le→ltb_false : (m n : ℕ) → n ≤ m → ltb m n ≡ false
le→ltb_false m n h = ground arith

length-name-le : (s : Text) → length (name s) ≤ 16
unfolding name
length-name-le s = length-take_short-le (strip name_byte s)

name-All : (s : Text) → All name_byte (name s)
unfolding name
name-All s = take-All name_byte _ (strip name_byte s) (strip-All name_byte s)

-- A text of at most 16 allowed bytes is left as it is.
pub name_fixed : (s : Text) → length s ≤ 16 → All name_byte s → name s ≡ s
unfolding name
name_fixed s h a = rw (strip_id name_byte s a, le→leb (length s) 16 h) (take-length s)

-- A cleaned name has at most 16 bytes, only letters, digits, `_`, `.` and `-`, and cleaning it once
-- more changes nothing.
pub name_clean :
    (s : Text) → (length (name s) ≤ 16) × All name_byte (name s) × (name (name s) ≡ name s)
unfolding name
name_clean s = (length-name-le s, name-All s, name_fixed (name s) (length-name-le s) (name-All s))

length-data_text-le : (s : Text) (m : ℕ) → length (data_text s m) ≤ m
unfolding data_text
length-data_text-le s m =
    ground
      (arith, length-strip-le data_byte s, length-strip-le data_byte (take m s), length-take-le m s)

data_text-All : (s : Text) (m : ℕ) → All data_byte (data_text s m)
unfolding data_text
data_text-All s m = strip-All data_byte (if ltb m (length s) then take m s else s)

data_text_fixed : (s : Text) (m : ℕ) → length s ≤ m → All data_byte s → data_text s m ≡ s
unfolding data_text
data_text_fixed s m h a = rw (le→ltb_false m (length s) h) (strip_id data_byte s a)

-- Cleaned client data has at most `maxlen` bytes, all printable ASCII, and cleaning it once more
-- with the same limit changes nothing.
pub data_text_clean :
    (s : Text) (maxlen : ℕ)
    → (length (data_text s maxlen) ≤ maxlen)
      × All data_byte (data_text s maxlen)
      × (data_text (data_text s maxlen) maxlen ≡ data_text s maxlen)
unfolding data_text
data_text_clean s m = (
  length-data_text-le s m,
  data_text-All s m,
  data_text_fixed (data_text s m) m (length-data_text-le s m) (data_text-All s m),
)
