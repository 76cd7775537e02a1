-- ===== src/Terminal/Screen.antt =====
-- sshd/terminal/terminal.go: what is written around the line that is edited, and the settings of a
-- terminal. The writer behind the terminal is a state with the bytes that it takes of a slice, and
-- whether it fails; runes are encoded for it by a parameter.
pub mod Sizes
pub mod Output
use ssh_chat.Prelude.{
  ℕ, zero, suc, ◌+◌, ◌-◌, ◌*◌, Bool, true, false, ◌&&◌, if◌then◌else◌, ◌==◌, ltb, List, [], ◌∷◌,
  ◌++◌, length, Text,
}
use ssh_chat.Terminal.{
  Terminal, Runes, queue, move, advance_cursor, visual_length, write_line, move_cursor_to_pos,
}

-- `clearLineToRight`.
unfoldable pub clear_line_to_right : Terminal → Terminal
unfolding queue
clear_line_to_right t = queue t (27 ∷ 91 ∷ 75 ∷ [])

-- `SetPrompt` and `SetEnterClear`.
unfoldable pub set_prompt : Terminal → Runes → Terminal
set_prompt t prompt = record t { prompt = prompt }

unfoldable pub set_enter_clear : Terminal → Bool → Terminal
set_enter_clear t on = record t { enter_clear = on }

-- The loop of `clearAndRepaintLinePlusNPrevious`, for the lines that are left.
unfoldable pub clear_down : ℕ → Terminal → Terminal
unfolding move clear_line_to_right
clear_down zero t = t
clear_down (suc n) t =
    let t1 = move t 0 1 0 0 in
    clear_down n (clear_line_to_right (record t1 { cursor_y = suc t1.cursor_y }))

-- The loop of `Write` that clears the line above the cursor, as long as there is one.
unfoldable pub clear_up : ℕ → Terminal → Terminal
unfolding move clear_line_to_right
clear_up zero t = t
clear_up (suc n) t =
    let t1 = move t 1 0 0 0 in clear_up n (clear_line_to_right (record t1 { cursor_y = n }))

module _ {σ : Type 0} (put : σ → Text → σ × ℕ × Bool) where
  -- `writeWithCRLF`: the writer, what is counted, and whether it failed. `line` is what comes before
  -- the next newline.
  unfoldable pub write_crlf_from : σ → ℕ → Text → Text → σ × ℕ × Bool
  write_crlf_from s n [] [] = (s, n, false)
  write_crlf_from s n (c ∷ line) [] =
      let (s1, nn, failed) = put s (c ∷ line) in (s1, n + nn, failed)
  write_crlf_from s n line (b ∷ buf) =
      let longer = write_crlf_from s n (line ++ b ∷ []) buf in
      let (s1, nn, failed) = put s line in
      let (s2, mm, refused) = put s1 (13 ∷ 10 ∷ []) in
      let rest = write_crlf_from s2 (n + nn + 1) [] buf in
      if b == 10
      then (if failed then (s1, n + nn, true) else if refused then (s2, n + nn, true) else rest)
      else longer

  unfoldable pub write_with_crlf : σ → Text → σ × ℕ × Bool
  unfolding write_crlf_from
  write_with_crlf s buf = write_crlf_from s 0 [] buf

  -- `SetBracketedPasteMode`.
  unfoldable pub set_bracketed_paste_mode : σ → Bool → σ
  set_bracketed_paste_mode s on =
      (put s (27 ∷ 91 ∷ 63 ∷ 50 ∷ 48 ∷ 48 ∷ 52 ∷ (if on then 104 else 108) ∷ [])).0

module _ (wide : ℕ → Bool) where
  unfoldable pub clear_and_repaint : Terminal → ℕ → Terminal
  unfolding clear_down move clear_line_to_right queue advance_cursor write_line move_cursor_to_pos
  clear_and_repaint t lines =
      let t1 = move t t.cursor_y 0 t.cursor_x 0 in
      let t2 = clear_down lines (clear_line_to_right (record t1 { cursor_x = 0; cursor_y = 0 })) in
      let t3 = record (move t2 t2.cursor_y 0 0 0) { cursor_x = 0; cursor_y = 0 } in
      let t4 = advance_cursor (queue t3 t3.prompt) (visual_length wide t3.prompt) in
      let t5 = write_line wide t4 t4.line in move_cursor_to_pos wide t5 t5.pos

  -- `SetSize` before it writes, and whether it writes.
  unfoldable pub resize : Terminal → ℕ → ℕ → Terminal × Bool
  unfolding clear_and_repaint
  resize t w height =
      let width = if w == 0 then 1 else w in
      let old_width = t.term_width in
      let t1 = record t { term_width = width; term_height = height } in
      if width == old_width
      then (t1, false)
      else if length t1.line == 0 && t1.cursor_x == 0 && t1.cursor_y == 0
      then (t1, false)
      else if ltb width old_width
      then (let x = if ltb t1.cursor_x width then t1.cursor_x else width - 1 in
          (
            clear_and_repaint (record t1 { cursor_x = x; cursor_y = t1.cursor_y * 2 })
                (t1.max_line * 2),
            true,
          ))
      else (clear_and_repaint t1 t1.max_line, true)

  module _ {σ : Type 0} (put : σ → Text → σ × ℕ × Bool) (encode : Runes → Text) where
    -- `Write`. What is queued stays queued when the writer fails.
    unfoldable pub write : σ → Terminal → Text → σ × Terminal × ℕ × Bool
    unfolding write_with_crlf move clear_line_to_right clear_up write_line move_cursor_to_pos
    write s t buf =
        if t.cursor_x == 0 && t.cursor_y == 0
        then (let (s1, n, failed) = write_with_crlf put s buf in (s1, t, n, failed))
        else (let t1 = clear_line_to_right (record (move t 0 0 t.cursor_x 0) { cursor_x = 0 }) in
            let t2 = clear_up t1.cursor_y t1 in
            let (s1, m, failed) = put s (encode t2.out_buf) in
            let t3 = record t2 { out_buf = [] } in
            let (s2, n, failed') = write_with_crlf put s1 buf in
            let t4 = write_line wide t3 t3.prompt in
            let t5 = if t4.echo then write_line wide t4 t4.line else t4 in
            let t6 = move_cursor_to_pos wide t5 t5.pos in
            let (s3, k, failed'') = put s2 (encode t6.out_buf) in
            if failed
            then (s1, t2, 0, true)
            else if failed'
            then (s2, t3, n, true)
            else if failed''
            then (s3, t6, n, true)
            else (s3, record t6 { out_buf = [] }, n, false))

    -- `SetSize`, and whether it failed.
    unfoldable pub set_size : σ → Terminal → ℕ → ℕ → σ × Terminal × Bool
    unfolding resize
    set_size s t width height =
        let (t1, writes) = resize t width height in
        let (s1, n, failed) = put s (encode t1.out_buf) in
        if writes then (s1, record t1 { out_buf = [] }, failed) else (s, t1, false)

-- One `Read` of one byte by `readPasswordLine`: the byte, the end of the input or another error. A
-- read of no bytes and no error is tried again.
pub data ByteRead : Type 0 where
  got_byte : ℕ → ByteRead
  end_of_file failed_read : ByteRead

-- `readPasswordLine`: what was read, and the error. It waits if the reads run out.
pub data PasswordLine : Type 0 where
  password : Text → PasswordLine
  password_error : Text → ByteRead → PasswordLine
  password_waits : Text → PasswordLine

unfoldable pub read_password_line : Text → List ByteRead → PasswordLine
read_password_line ret [] = password_waits ret
read_password_line ret (got_byte b ∷ reads) =
    let skipped = read_password_line ret reads in
    let longer = read_password_line (ret ++ b ∷ []) reads in
    if b == 10 then password ret else if b == 13 then skipped else longer
read_password_line [] (end_of_file ∷ reads) = password_error [] end_of_file
read_password_line (c ∷ ret) (end_of_file ∷ reads) = password (c ∷ ret)
read_password_line ret (failed_read ∷ reads) = password_error ret failed_read
