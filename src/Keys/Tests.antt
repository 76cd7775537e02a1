-- ===== src/Keys/Tests.antt =====
-- Keys read from concrete bytes, with a decoder for bytes below 128 in the place of unicode/utf8.
use ssh_chat.Prelude.{ℕ, ◌≤◌, ◌≡◌, ◌≢◌, ◌⊎◌, refl, Bool, true, false, List, [], ◌∷◌, length, arith}
use ssh_chat.Keys.{rune_error, key_left, bytes_to_key, control_key, arrow_key}
use ssh_chat.Keys.Progress.{Takes, bytes_to_key-progress}

abbrev full : List ℕ → Bool
full [] = false
full (c ∷ cs) = true

abbrev first_byte : List ℕ → ℕ × ℕ
first_byte [] = (rune_error, 0)
first_byte (c ∷ cs) = (c, 1)

-- ESC [ D, then x.
abbrev left_x : List ℕ
left_x = 27 ∷ 91 ∷ 68 ∷ 120 ∷ []

left : bytes_to_key full first_byte left_x false ≡ (key_left, 120 ∷ [])
unfolding bytes_to_key control_key arrow_key
left = refl

first_byte-bounds :
    left_x ≢ [] → ((1 ≤ (first_byte left_x).1) × ((first_byte left_x).1 ≤ length left_x))
first_byte-bounds h = (omega arith, omega arith)

bytes_to_key-progress_example :
    Takes left_x (bytes_to_key full first_byte left_x false).1
    ⊎ (bytes_to_key full first_byte left_x false ≡ (rune_error, left_x))
bytes_to_key-progress_example = bytes_to_key-progress full first_byte left_x false first_byte-bounds
