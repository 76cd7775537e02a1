-- ===== src/Terminal/Tests.antt =====
-- A terminal with the cursor in a line, and what keys do there.
use ssh_chat.Prelude.{
  ◌≢◌, refl, ℕ, ◌≤◌, ◌≡◌, Bool, true, false, List, none, some, [], ◌∷◌, length, take, Text, after,
  if◌then◌else◌, ltb, get_elem?, arith,
}
use ssh_chat.Terminal.{Terminal, Runes, new_terminal, nth_previous_entry}
use ssh_chat.Terminal.Editor.{completion}
use ssh_chat.Terminal.Bounds.{Sound}
use ssh_chat.Terminal.Entered.{push_all, capacity, nth_previous_entry-push_all}
use ssh_chat.Terminal.Screen.{resize}
use ssh_chat.Terminal.Screen.Sizes.{resize-Sound}
use ssh_chat.Terminal.Reading.{Reader, bytes, broken, key_loop, read_line}
use ssh_chat.Terminal.Reading.Enough.{key_loop_enough}
use ssh_chat.Terminal.Reading.Rounds.{read_line-Sound}

abbrev narrow : ℕ → Bool
narrow r = false

abbrev as_it_is : Runes → Text
as_it_is rs = rs

-- The line is "ab c", with the cursor before its c.
abbrev typed : Terminal
typed = record (new_terminal []) { line = 97 ∷ 98 ∷ 32 ∷ 99 ∷ []; pos = 3; cursor_x = 3 }

typed-Sound : Sound typed
unfolding new_terminal
typed-Sound = record { in_line = omega arith; in_width = omega arith }

no_completion :
    (t : Terminal) (key : ℕ) (new_line : Text) (new_pos : ℕ)
    → completion narrow as_it_is as_it_is none t key ≡ some (new_line, new_pos)
    → length (as_it_is (take new_pos new_line)) ≤ length (as_it_is new_line)
unfolding completion
no_completion t key new_line new_pos h = ground arith

nth_previous_entry-push_all_example :
    nth_previous_entry (push_all ((98 ∷ []) ∷ (97 ∷ []) ∷ [])) 1
    ≡ (if ltb 1 capacity then get_elem? ((98 ∷ []) ∷ (97 ∷ []) ∷ []) 1 else none)
nth_previous_entry-push_all_example = nth_previous_entry-push_all ((98 ∷ []) ∷ (97 ∷ []) ∷ []) 1

resize-Sound_example : Sound (after (resize narrow typed 2 10))
resize-Sound_example = resize-Sound narrow typed 2 10 typed-Sound

-- Every byte is a rune.
abbrev decode : List ℕ → ℕ × ℕ
decode [] = (0, 0)
decode (c ∷ cs) = (c, 1)

abbrev waiting : Reader
waiting = record { terminal = typed; remainder = []; screen = [] }

read_line-Sound_example :
    Sound
      (after (
        read_line narrow as_it_is as_it_is none
          (λ b. true)
          decode
          waiting
          (bytes (120 ∷ 13 ∷ []) ∷ broken ∷ []))).terminal
read_line-Sound_example =
    read_line-Sound narrow as_it_is as_it_is none (λ b. true) decode no_completion waiting
      (bytes (120 ∷ 13 ∷ []) ∷ broken ∷ []) typed-Sound

decodes : (b : List ℕ) → b ≢ [] → (1 ≤ (decode b).1) × ((decode b).1 ≤ length b)
decodes [] n = absurd (n refl)
decodes (c ∷ cs) n = (omega arith, omega arith)

key_loop_enough_example :
    key_loop narrow as_it_is as_it_is none (λ b. true) decode 3 typed (120 ∷ 121 ∷ []) false
    ≡ key_loop narrow as_it_is as_it_is none (λ b. true) decode 9 typed (120 ∷ 121 ∷ []) false
key_loop_enough_example =
    key_loop_enough narrow as_it_is as_it_is none (λ b. true) decode decodes 3 9 typed
      (120 ∷ 121 ∷ []) false (omega arith) (omega arith)
