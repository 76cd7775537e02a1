-- ===== src/Terminal/Screen/Sizes.antt =====
-- A terminal of another size keeps its cursor on the screen.
use ssh_chat.Prelude.{
  ℕ, zero, suc, ◌-◌, ◌*◌, ◌<◌, refl, Bool-cases, inl, inr, Bool, ◌&&◌, if◌then◌else◌, ◌==◌, ltb,
  length, after, arith,
}
use ssh_chat.Terminal.{Terminal, queue, move, advance_cursor, visual_length, write_line}
use ssh_chat.Terminal.Bounds.{
  Sound, Draws, Draws-refl, Draws-trans, advance_cursor-Draws, move_cursor_to_pos-Draws,
  write_line-Draws,
}
use ssh_chat.Terminal.Cursor.{Draws-Sound}
use ssh_chat.Terminal.Screen.{clear_line_to_right, clear_down, clear_and_repaint, resize}

-- Nothing of the size of the terminal changes, nor where the cursor is in the line.
clear_down-Draws : (n : ℕ) (t : Terminal) → Draws t (clear_down n t)
unfolding clear_down move clear_line_to_right queue
clear_down-Draws zero t = Draws-refl t
clear_down-Draws (suc n) t =
    Draws-trans (record { line = refl; pos = refl; inside = λ h. h }) (clear_down-Draws n _)

module _ (wide : ℕ → Bool) where
  clear_and_repaint-Draws :
      (t : Terminal) (n : ℕ) → t.cursor_x < t.term_width → Draws t (clear_and_repaint wide t n)
  unfolding clear_and_repaint clear_line_to_right move queue
  clear_and_repaint-Draws t n h =
      let t1 = record (move t t.cursor_y 0 t.cursor_x 0) { cursor_x = 0; cursor_y = 0 } in
      let t2 = clear_down n (clear_line_to_right t1) in
      let t3 = record (move t2 t2.cursor_y 0 0 0) { cursor_x = 0; cursor_y = 0 } in
      let t4 = advance_cursor (queue t3 t3.prompt) (visual_length wide t3.prompt) in
      let t5 = write_line wide t4 t4.line in
      let d1 : Draws t (clear_line_to_right t1) = record {
        line = refl;
        pos = refl;
        inside = λ l. omega (arith, l);
      } in
      let d2 : Draws t t2 = Draws-trans d1 (clear_down-Draws n _) in
      let d3 : Draws t2 (queue t3 t3.prompt) = record {
        line = refl;
        pos = refl;
        inside = λ l. omega (arith, l);
      } in
      let d5 : Draws t2 t5 =
        Draws-trans d3
          (Draws-trans (advance_cursor-Draws _ _) (write_line-Draws wide t4 t4.line)) in
      Draws-trans d2 (Draws-trans d5 (move_cursor_to_pos-Draws wide t5 t5.pos))

  -- A terminal that gets another size keeps its cursor in the line and on the screen.
  pub resize-Sound :
      (t : Terminal) (width height : ℕ) → Sound t → Sound (after (resize wide t width height))
  unfolding resize
  resize-Sound t w height s =
      let width = if w == 0 then 1 else w in
      let t1 = record t { term_width = width; term_height = height } in
      let some_width : 0 < width = ground arith in
      let repainted : (u : Terminal) (n : ℕ) → Sound u → Sound (clear_and_repaint wide u n) =
        λ u n v. Draws-Sound (clear_and_repaint-Draws u n v.in_width) v in
      elim (Bool-cases (width == t.term_width)) [
        | inl same ↦
            rw (same, resize)
              (record { in_line = s.in_line; in_width = ground (arith, same, s.in_width) })
        | inr other ↦ elim (Bool-cases (length t.line == 0 && t.cursor_x == 0 && t.cursor_y == 0)) [
          | inl empty ↦
              rw (other, empty, resize)
                (record { in_line = s.in_line; in_width = ground (arith, empty, some_width) })
          | inr drawn ↦ elim (Bool-cases (ltb width t.term_width)) [
            | inl less ↦
                let x = if ltb t1.cursor_x width then t1.cursor_x else width - 1 in
                let inside : x < width = ground (arith, some_width) in
                rw (other, drawn, less, resize)
                  (repainted (record t1 { cursor_x = x; cursor_y = t1.cursor_y * 2 })
                    (t1.max_line * 2) (record { in_line = s.in_line; in_width = inside }))
            | inr more ↦
                rw (other, drawn, more, resize)
                  (repainted t1 t1.max_line
                    (record { in_line = s.in_line; in_width = ground (arith, more, s.in_width) }))
          ]
        ]
      ]
