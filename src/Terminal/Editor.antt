-- ===== src/Terminal/Editor.antt =====
-- sshd/terminal/terminal.go: `handleKey` and what it does to the line.
use ssh_chat.Prelude.{
  ℕ, zero, suc, ◌+◌, ◌-◌, min, Bool, not, ◌&&◌, ◌||◌, if◌then◌else◌, ◌==◌, ltb, Option, none, some,
  [], ◌∷◌, ◌++◌, length, take, drop, Text,
}
use ssh_chat.Keys.{
  key_backspace, key_up, key_down, key_left, key_right, key_alt_left, key_alt_right, key_alt_f,
  key_alt_b, key_home, key_end, key_delete_word, key_delete_line, key_clear_screen,
}
use ssh_chat.Terminal.{
  Terminal, Runes, key_ctrl_d, key_ctrl_u, key_enter, space, queue, is_printable, advance_cursor,
  visual_length, move_cursor_to_pos, write_line, nth_previous_entry,
}

abbrev pub max_line_length : ℕ
max_line_length = 4096

unfoldable pub spaces : ℕ → Runes
spaces zero = []
spaces (suc n) = space ∷ spaces n

-- The number of runes at the front of a text for which a test holds.
unfoldable pub run_length : (ℕ → Bool) → Runes → ℕ
run_length p [] = 0
run_length p (r ∷ rs) = let n = run_length p rs in if p r then suc n else 0

-- The first loop of `countToLeftWord` from the position `pos`, over spaces. It stops at 0.
unfoldable pub skip_left : (ℕ → Bool) → Runes → ℕ → ℕ
skip_left stop line zero = 0
skip_left stop line (suc pos) =
    let rest = skip_left stop line pos in
    elim (drop (suc pos) line) [ [] ↦ rest | r ∷ rs ↦ if stop r then suc pos else rest ]

-- The second loop: it leaves the position after the space that it stops at.
unfoldable pub word_left : Runes → ℕ → ℕ
word_left line zero = 0
word_left line (suc pos) =
    let rest = word_left line pos in
    elim (drop (suc pos) line) [ [] ↦ rest | r ∷ rs ↦ if r == space then suc (suc pos) else rest ]

unfoldable pub count_to_left_word : Terminal → ℕ
unfolding skip_left word_left
count_to_left_word t =
    if t.pos == 0
    then 0
    else t.pos - word_left t.line (skip_left (λ r. not (r == space)) t.line (t.pos - 1))

-- Both loops go to the end of the line at most.
unfoldable pub count_to_right_word : Terminal → ℕ
unfolding run_length
count_to_right_word t =
    let after_pos = drop t.pos t.line in
    let word = run_length (λ r. not (r == space)) after_pos in
    word + run_length (λ r. r == space) (drop word after_pos)

module _ (wide : ℕ → Bool) where
  abbrev move_cursor : Terminal → Terminal
  move_cursor t = move_cursor_to_pos wide t t.pos

  unfoldable pub write_spaces : ℕ → Terminal → Terminal
  write_spaces zero t = t
  write_spaces (suc n) t = write_spaces n (write_line wide t (space ∷ []))

  unfoldable pub set_line : Terminal → Runes → ℕ → Terminal
  unfolding write_spaces
  set_line t new_line new_pos =
      let t' =
        if t.echo
        then (let t1 = write_line wide (move_cursor_to_pos wide t 0) new_line in
            let t2 = write_spaces (length t.line - length new_line) t1 in
            move_cursor_to_pos wide (record t2 { line = new_line }) new_pos)
        else t in
      record t' { line = new_line; pos = new_pos }

  -- What `eraseNPreviousChars` does on a terminal that echoes, once the runes are removed.
  unfoldable pub repaint_erased : Terminal → ℕ → Terminal
  unfolding spaces
  repaint_erased t n =
      if t.echo
      then move_cursor (advance_cursor (queue (write_line wide t (drop t.pos t.line)) (spaces n)) n)
      else t

  unfoldable pub erase_n_previous_chars : Terminal → ℕ → Terminal
  unfolding repaint_erased
  erase_n_previous_chars t n =
      if n == 0
      then t
      else (let k = min n t.pos in
          let pos = t.pos - k in
          let t1 = move_cursor_to_pos wide (record t { pos = pos }) pos in
          repaint_erased (record t1 { line = take pos t.line ++ drop t.pos t.line }) k)

  unfoldable pub add_key_to_line : Terminal → ℕ → Terminal
  add_key_to_line t key =
      let line = take t.pos t.line ++ key ∷ drop t.pos t.line in
      let t1 = record t { line = line } in
      let t2 = if t.echo then write_line wide t1 (drop t.pos line) else t1 in
      move_cursor (record t2 { pos = suc t.pos })

  -- The cursor goes to a position, unless it is there.
  unfoldable pub go_to : Terminal → ℕ → Terminal
  go_to t pos = if t.pos == pos then t else move_cursor (record t { pos = pos })

  -- The loop of `keyDeleteLine`.
  unfoldable pub blank_out : ℕ → Terminal → Terminal
  blank_out zero t = t
  blank_out (suc n) t = blank_out n (advance_cursor (queue t (space ∷ [])) 1)

  -- The case `keyEnter`.
  unfoldable pub enter : Terminal → Terminal
  enter t =
      let t1 =
        if t.enter_clear
        then queue t (27 ∷ 91 ∷ 50 ∷ 75 ∷ 27 ∷ 91 ∷ 74 ∷ [])
        else (let t2 = queue (move_cursor_to_pos wide t (length t.line)) (13 ∷ 10 ∷ []) in
            record t2 { cursor_x = 0; cursor_y = 0 }) in
      record t1 { line = []; pos = 0; max_line = 0 }

  -- The case `keyClearScreen`.
  unfoldable pub clear_screen : Terminal → Terminal
  unfolding set_line
  clear_screen t =
      let t1 = queue (queue t (27 ∷ 91 ∷ 50 ∷ 74 ∷ 27 ∷ 91 ∷ 72 ∷ [])) t.prompt in
      let t2 =
        advance_cursor (record t1 { cursor_x = 0; cursor_y = 0 }) (visual_length wide t.prompt) in
      set_line t2 t2.line t2.pos

  -- The conversions of Go between a string and its runes, and `AutoCompleteCallback`, which may be
  -- nil.
  module _ (to_text : Runes → Text) (to_runes : Text → Runes)
      (auto_complete : Option (Text → ℕ → ℕ → Option (Text × ℕ))) where
    abbrev whole_line : Terminal → Runes → Terminal
    whole_line t runes = set_line t runes (length runes)

    -- The case `keyUp`.
    unfoldable pub history_up : Terminal → Terminal
    unfolding set_line
    history_up t =
        elim (nth_previous_entry t.history (elim t.history_index [ none ↦ 0 | some i ↦ suc i ])) [
          | none ↦ t
          | some entry ↦
              let pending : Text = elim t.history_index [
                | none ↦ to_text t.line
                | some i ↦ t.history_pending
              ] in
              let index : ℕ = elim t.history_index [ none ↦ 0 | some i ↦ suc i ] in
              whole_line (record t { history_pending = pending; history_index = some index })
                (to_runes entry)
        ]

    -- The case `keyDown`, at a history index.
    unfoldable pub history_down_from : Terminal → Option ℕ → Terminal
    unfolding set_line
    history_down_from t none = t
    history_down_from t (some zero) = record (whole_line t (to_runes t.history_pending)) {
      history_index = none;
    }
    history_down_from t (some (suc i)) = elim (nth_previous_entry t.history i) [
      | none ↦ t
      | some entry ↦ whole_line (record t { history_index = some i }) (to_runes entry)
    ]

    unfoldable pub history_down : Terminal → Terminal
    unfolding history_down_from
    history_down t = history_down_from t t.history_index

    unfoldable pub completion : Terminal → ℕ → Option (Text × ℕ)
    completion t key = elim auto_complete [
      | none ↦ none
      | some callback ↦
          let prefix = to_text (take t.pos t.line) in
          callback (prefix ++ to_text (drop t.pos t.line)) (length prefix) key
    ]

    -- The default case.
    unfoldable pub type_key : Terminal → ℕ → Terminal
    unfolding completion set_line add_key_to_line
    type_key t key = elim (completion t key) [
      | some (new_line, new_pos) ↦
          set_line t (to_runes new_line) (length (to_runes (take new_pos new_line)))
      | none ↦
          if not (is_printable key)
          then t
          else if length t.line == max_line_length
          then t
          else add_key_to_line t key
    ]

    -- The cases of the keys that change the line.
    unfoldable pub edit_key : Terminal → ℕ → Terminal
    unfolding erase_n_previous_chars blank_out type_key clear_screen
    edit_key t key =
        if key == key_backspace
        then (if t.pos == 0 then t else erase_n_previous_chars t 1)
        else if key == key_delete_word
        then erase_n_previous_chars t (count_to_left_word t)
        else if key == key_delete_line
        then (let t1 = blank_out (length t.line - t.pos) t in
            move_cursor (record t1 { line = take t1.pos t1.line }))
        else if key == key_ctrl_d
        then (if ltb t.pos (length t.line)
            then erase_n_previous_chars (record t { pos = suc t.pos }) 1
            else t)
        else if key == key_ctrl_u
        then erase_n_previous_chars t t.pos
        else if key == key_clear_screen
        then clear_screen t
        else type_key t key

    -- The cases of the keys that move the cursor or go through the history, and then the others.
    unfoldable pub press_key : Terminal → ℕ → Terminal
    unfolding go_to history_up history_down edit_key count_to_left_word count_to_right_word
    press_key t key =
        if key == key_alt_b || key == key_alt_left
        then move_cursor (record t { pos = t.pos - count_to_left_word t })
        else if key == key_alt_f || key == key_alt_right
        then move_cursor (record t { pos = t.pos + count_to_right_word t })
        else if key == key_left
        then go_to t (t.pos - 1)
        else if key == key_right
        then (if t.pos == length t.line then t else move_cursor (record t { pos = suc t.pos }))
        else if key == key_home
        then go_to t 0
        else if key == key_end
        then go_to t (length t.line)
        else if key == key_up
        then history_up t
        else if key == key_down
        then history_down t
        else edit_key t key

    -- `handleKey`, with the line if the user has entered one.
    unfoldable pub handle_key : Terminal → ℕ → Terminal × Option Text
    unfolding enter press_key add_key_to_line
    handle_key t key =
        if t.paste_active && not (key == key_enter)
        then (add_key_to_line t key, none)
        else if key == key_enter
        then (enter t, some (to_text t.line))
        else (press_key t key, none)
