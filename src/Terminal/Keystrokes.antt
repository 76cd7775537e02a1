-- ===== src/Terminal/Keystrokes.antt =====
-- The keys of the line editor of sshd/terminal/terminal.go keep the cursor in the line and on the
-- screen.
use ssh_chat.Prelude.{
  ℕ, zero, suc, ◌+◌, ◌-◌, ◌≤◌, ◌≡◌, inl, inr, Bool-cases, Option-cases, Bool, not, ◌&&◌, ◌||◌, ◌==◌,
  Option, none, some, length, take, Text, after, arith,
}
use ssh_chat.Keys.{
  key_backspace, key_up, key_down, key_left, key_right, key_alt_left, key_alt_right, key_alt_f,
  key_alt_b, key_home, key_end, key_delete_word, key_delete_line, key_clear_screen,
}
use ssh_chat.Terminal.{
  key_ctrl_d, key_ctrl_u, key_enter, Terminal, Runes, nth_previous_entry, is_printable,
}
use ssh_chat.Terminal.Editor.{
  count_to_left_word, count_to_right_word, history_up, history_down, history_down_from, completion,
  type_key, edit_key, press_key, handle_key,
}
use ssh_chat.Terminal.Bounds.{Sound}
use ssh_chat.Terminal.Cursor.{
  if-Sound, count_to_right_word-bound, set_line-Sound, add_key_to_line-Sound,
  erase_n_previous_chars-Sound, delete_next-Sound, delete_line-Sound, clear_screen-Sound,
  place-Sound, go_to-Sound, move_right-Sound, enter-Sound,
}

module _ (wide : ℕ → Bool) where
  module _ (to_text : Runes → Text) (to_runes : Text → Runes)
      (auto_complete : Option (Text → ℕ → ℕ → Option (Text × ℕ))) where
    history_up-Sound :
        (t : Terminal) → Sound t → Sound (history_up wide to_text to_runes auto_complete t)
    unfolding history_up
    history_up-Sound t s =
        elim (Option-cases
          (nth_previous_entry t.history (elim t.history_index [ none ↦ 0 | some i ↦ suc i ]))) [
            | inl e ↦ rw (e, history_up) s
            | inr (entry, e) ↦
                rw (e, history_up)
                  (set_line-Sound wide _ (to_runes entry) (length (to_runes entry)) (omega arith)
                    (record { in_line = s.in_line; in_width = s.in_width }))
          ]

    history_down_from-Sound :
        (t : Terminal) (index : Option ℕ)
        → Sound t
        → Sound (history_down_from wide to_text to_runes auto_complete t index)
    unfolding history_down_from
    history_down_from-Sound t none s = s
    history_down_from-Sound t (some zero) s =
        let r =
          set_line-Sound wide t (to_runes t.history_pending) (length (to_runes t.history_pending))
            (omega arith) s in
        record { in_line = r.in_line; in_width = r.in_width }
    history_down_from-Sound t (some (suc i)) s =
        elim (Option-cases (nth_previous_entry t.history i)) [
          | inl e ↦ rw (e, history_down_from) s
          | inr (entry, e) ↦
              rw (e, history_down_from)
                (set_line-Sound wide _ (to_runes entry) (length (to_runes entry)) (omega arith)
                  (record { in_line = s.in_line; in_width = s.in_width }))
        ]

    module _
        (completes : (t : Terminal) (key : ℕ) (new_line : Text) (new_pos : ℕ)
          → completion wide to_text to_runes auto_complete t key ≡ some (new_line, new_pos)
          → length (to_runes (take new_pos new_line)) ≤ length (to_runes new_line)) where
      type_key-Sound :
          (t : Terminal) (key : ℕ)
          → Sound t
          → Sound (type_key wide to_text to_runes auto_complete t key)
      unfolding type_key
      type_key-Sound t key s =
          elim (Option-cases (completion wide to_text to_runes auto_complete t key)) [
            | inl e ↦
                rw (e, type_key)
                  (if-Sound (not (is_printable key)) s
                    (if-Sound (length t.line == 4096) s (add_key_to_line-Sound wide t key s)))
            | inr ((new_line, new_pos), e) ↦
                rw (e, type_key)
                  (set_line-Sound wide t (to_runes new_line) _ (completes t key new_line new_pos e)
                    s)
          ]

      edit_key-Sound :
          (t : Terminal) (key : ℕ)
          → Sound t
          → Sound (edit_key wide to_text to_runes auto_complete t key)
      unfolding edit_key
      edit_key-Sound t key s =
          let erased = erase_n_previous_chars-Sound wide in
          if-Sound (key == key_backspace) (if-Sound (t.pos == 0) s (erased t 1 s)) (
            if-Sound (key == key_delete_word) (erased t (count_to_left_word t) s) (
              if-Sound (key == key_delete_line) (delete_line-Sound wide t s) (
                if-Sound (key == key_ctrl_d) (delete_next-Sound wide t s) (
                  if-Sound (key == key_ctrl_u) (erased t t.pos s) (
                    if-Sound (key == key_clear_screen) (clear_screen-Sound wide t s)
                      (type_key-Sound t key s))))))

      press_key-Sound :
          (t : Terminal) (key : ℕ)
          → Sound t
          → Sound (press_key wide to_text to_runes auto_complete t key)
      unfolding press_key history_down
      press_key-Sound t key s =
          let right = count_to_right_word-bound t in
          if-Sound (key == key_alt_b || key == key_alt_left)
            (place-Sound wide t (t.pos - count_to_left_word t) (omega (arith, s.in_line))
              s.in_width)
            (if-Sound (key == key_alt_f || key == key_alt_right)
              (place-Sound wide t (t.pos + count_to_right_word t) (omega (arith, s.in_line, right))
                s.in_width)
              (if-Sound (key == key_left)
                (go_to-Sound wide t (t.pos - 1) (omega (arith, s.in_line)) s)
                (if-Sound (key == key_right) (move_right-Sound wide t s) (
                  if-Sound (key == key_home) (go_to-Sound wide t 0 (omega arith) s) (
                    if-Sound (key == key_end) (go_to-Sound wide t (length t.line) (omega arith) s) (
                      if-Sound (key == key_up) (history_up-Sound t s) (
                        if-Sound (key == key_down) (history_down_from-Sound t t.history_index s)
                          (edit_key-Sound t key s))))))))

      -- Every key, typed or pasted, keeps the cursor in the line and on the screen, if a completion
      -- never answers with a position behind the end of the line that it answers with, counted in
      -- runes.
      pub handle_key-Sound :
          (t : Terminal) (key : ℕ)
          → Sound t
          → Sound (after (handle_key wide to_text to_runes auto_complete t key))
      unfolding handle_key
      handle_key-Sound t key s = elim (Bool-cases (t.paste_active && not (key == key_enter))) [
        | inl e ↦ rw (e, handle_key) (add_key_to_line-Sound wide t key s)
        | inr e ↦ elim (Bool-cases (key == key_enter)) [
          | inl f ↦ rw (e, f, handle_key) (enter-Sound wide t s)
          | inr f ↦ rw (e, f, handle_key) (press_key-Sound t key s)
        ]
      ]
