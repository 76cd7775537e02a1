-- ===== src/Keys.antt =====
-- sshd/terminal/terminal.go: the keys of a terminal, and `bytesToKey`, which reads one from the
-- bytes of the input. What package unicode/utf8 does is a parameter.
pub mod Progress
pub mod Paste
mod Tests
use ssh_chat.Prelude.{
  ℕ, ◌≤◌, Bool, true, false, not, ◌&&◌, ◌||◌, if◌then◌else◌, ◌==◌, leb, Option, none, some, List,
  [], ◌∷◌, length, drop,
}

abbrev pub rune_error : ℕ
rune_error = 65533

abbrev pub key_escape : ℕ
key_escape = 27

abbrev pub key_backspace : ℕ
key_backspace = 127

abbrev pub key_unknown : ℕ
key_unknown = 55301

abbrev pub key_up : ℕ
key_up = 55302

abbrev pub key_down : ℕ
key_down = 55303

abbrev pub key_left : ℕ
key_left = 55304

abbrev pub key_right : ℕ
key_right = 55305

abbrev pub key_alt_left : ℕ
key_alt_left = 55306

abbrev pub key_alt_right : ℕ
key_alt_right = 55307

abbrev pub key_alt_f : ℕ
key_alt_f = 55308

abbrev pub key_alt_b : ℕ
key_alt_b = 55309

abbrev pub key_home : ℕ
key_home = 55310

abbrev pub key_end : ℕ
key_end = 55311

abbrev pub key_delete_word : ℕ
key_delete_word = 55312

abbrev pub key_delete_line : ℕ
key_delete_line = 55313

abbrev pub key_clear_screen : ℕ
key_clear_screen = 55314

abbrev pub key_paste_start : ℕ
key_paste_start = 55315

abbrev pub key_paste_end : ℕ
key_paste_end = 55316

abbrev pub paste_start : List ℕ
paste_start = 27 ∷ 91 ∷ 50 ∷ 48 ∷ 48 ∷ 126 ∷ []

abbrev pub paste_end : List ℕ
paste_end = 27 ∷ 91 ∷ 50 ∷ 48 ∷ 49 ∷ 126 ∷ []

-- The switch on the first byte.
unfoldable pub control_key : ℕ → Option ℕ
control_key c =
    if c == 1
    then some key_home
    else if c == 2
    then some key_left
    else if c == 5
    then some key_end
    else if c == 6
    then some key_right
    else if c == 8
    then some key_backspace
    else if c == 11
    then some key_delete_line
    else if c == 12
    then some key_clear_screen
    else if c == 23
    then some key_delete_word
    else if c == 14
    then some key_down
    else if c == 16
    then some key_up
    else none

-- The switch on the byte after `ESC [`.
unfoldable pub arrow_key : ℕ → Option ℕ
arrow_key c =
    if c == 65
    then some key_up
    else if c == 66
    then some key_down
    else if c == 67
    then some key_right
    else if c == 68
    then some key_left
    else if c == 72
    then some key_home
    else if c == 70
    then some key_end
    else none

-- The switch on the byte after `ESC [ 1 ; 3`.
unfoldable pub alt_arrow_key : ℕ → Option ℕ
alt_arrow_key c =
    if c == 67 then some key_alt_right else if c == 68 then some key_alt_left else none

-- The switch on the byte after `ESC`.
unfoldable pub alt_letter_key : ℕ → Option ℕ
alt_letter_key c = if c == 102 then some key_alt_f else if c == 98 then some key_alt_b else none

abbrev pub with_rest : List ℕ → Option ℕ → Option (ℕ × List ℕ)
with_rest rest none = none
with_rest rest (some k) = some (k, rest)

-- The text after a prefix.
unfoldable pub drop_prefix : List ℕ → List ℕ → Option (List ℕ)
drop_prefix [] b = some b
drop_prefix (p ∷ ps) [] = none
drop_prefix (p ∷ ps) (c ∷ cs) = let rest = drop_prefix ps cs in if p == c then rest else none

-- A key whose bytes are a prefix and one byte more.
unfoldable pub prefixed_key : List ℕ → (ℕ → Option ℕ) → List ℕ → Option (ℕ × List ℕ)
unfolding drop_prefix
prefixed_key prefix key b = elim (drop_prefix prefix b) [
  | none ↦ none
  | some [] ↦ none
  | some (c ∷ rest) ↦ with_rest rest (key c)
]

unfoldable pub marker : List ℕ → ℕ → List ℕ → Option (ℕ × List ℕ)
unfolding drop_prefix
marker mark key b = elim (drop_prefix mark b) [ none ↦ none | some rest ↦ some (key, rest) ]

abbrev pub ends_sequence : ℕ → Bool
ends_sequence c = (leb 97 c && leb c 122) || (leb 65 c && leb c 90) || (c == 126)

-- The loop at the end: a key that is not known goes on to the first letter or tilde.
unfoldable pub unknown_key : List ℕ → Option (ℕ × List ℕ)
unknown_key [] = none
unknown_key (c ∷ cs) =
    let rest = unknown_key cs in if ends_sequence c then some (key_unknown, cs) else rest

abbrev pub or_else {ℓ} : {A : Type ℓ} → Option A → Option A → Option A
or_else none b = b
or_else (some x) b = some x

-- The sequences that are read while nothing is pasted.
unfoldable pub typed_key : List ℕ → Option (ℕ × List ℕ)
unfolding prefixed_key marker
typed_key b = or_else (prefixed_key (27 ∷ 91 ∷ []) arrow_key b) (
    or_else (prefixed_key (27 ∷ 91 ∷ 49 ∷ 59 ∷ 51 ∷ []) alt_arrow_key b)
      (or_else (prefixed_key (27 ∷ []) alt_letter_key b) (marker paste_start key_paste_start b)))

unfoldable pub escape_key : Bool → List ℕ → Option (ℕ × List ℕ)
unfolding typed_key marker unknown_key
escape_key paste b =
    or_else (if paste then marker paste_end key_paste_end b else typed_key b) (unknown_key b)

module _ (full_rune : List ℕ → Bool) (decode_rune : List ℕ → ℕ × ℕ) where
  -- The rest of `bytesToKey` for bytes that no control key starts.
  unfoldable pub sequence_key : Bool → ℕ → List ℕ → ℕ × List ℕ
  unfolding escape_key
  sequence_key paste c cs =
      let b = c ∷ cs in
      if not (c == key_escape)
      then (if not (full_rune b)
          then (rune_error, b)
          else ((decode_rune b).0, drop (decode_rune b).1 b))
      else elim (escape_key paste b) [ none ↦ (rune_error, b) | some r ↦ r ]

  unfoldable pub bytes_to_key : List ℕ → Bool → ℕ × List ℕ
  unfolding control_key sequence_key
  bytes_to_key [] paste = (rune_error, [])
  bytes_to_key (c ∷ cs) paste = elim (if paste then none else control_key c) [
    | none ↦ sequence_key paste c cs
    | some key ↦ (key, cs)
  ]
