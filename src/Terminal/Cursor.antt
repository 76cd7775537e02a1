-- ===== src/Terminal/Cursor.antt =====
-- What the line editor of sshd/terminal/terminal.go does to the line keeps the cursor in the line
-- and on the screen.
use ssh_chat.Prelude.{
  ℕ, zero, suc, ◌-◌, ◌<◌, ◌≤◌, min, inl, inr, Bool-cases, Bool, true, false, not, if◌then◌else◌,
  ◌==◌, ltb, [], ◌∷◌, ◌++◌, length, take, drop, length-append, length-take, length-drop, arith,
}
use ssh_chat.Terminal.{Terminal, Runes, space, queue, visual_length, move_cursor_to_pos, write_line}
use ssh_chat.Terminal.Editor.{
  spaces, run_length, count_to_right_word, write_spaces, set_line, repaint_erased,
  erase_n_previous_chars, add_key_to_line, go_to, blank_out, enter, clear_screen,
}
use ssh_chat.Terminal.Bounds.{
  Sound, Draws, Draws-refl, Draws-trans, queue-Draws, advance_cursor-Draws,
  move_cursor_to_pos-Draws, write_line-Draws,
}

run_length-bound : (p : ℕ → Bool) (rs : Runes) → run_length p rs ≤ length rs
unfolding run_length
run_length-bound p [] = omega arith
run_length-bound p (r ∷ rs) = let h = run_length-bound p rs in ground (arith, h)

pub count_to_right_word-bound : (t : Terminal) → count_to_right_word t ≤ length t.line - t.pos
unfolding count_to_right_word
count_to_right_word-bound t =
    let word = run_length (λ r. not (r == space)) (drop t.pos t.line) in
    omega (
      arith,
      run_length-bound (λ r. not (r == space)) (drop t.pos t.line),
      run_length-bound (λ r. r == space) (drop word (drop t.pos t.line)),
      length-drop t.pos t.line,
      length-drop word (drop t.pos t.line),
    )

pub if-Sound : (b : Bool) {t u : Terminal} → Sound t → Sound u → Sound (if b then t else u)
if-Sound true s r = s
if-Sound false s r = r

if-inside :
    (b : Bool) (t u : Terminal)
    → t.cursor_x < t.term_width
    → u.cursor_x < u.term_width
    → (if b then t else u).cursor_x < (if b then t else u).term_width
if-inside true t u h g = h
if-inside false t u h g = g

if-Draws : (b : Bool) {s t u : Terminal} → Draws s t → Draws s u → Draws s (if b then t else u)
if-Draws true f g = f
if-Draws false f g = g

pub Draws-Sound : {t t' : Terminal} → Draws t t' → Sound t → Sound t'
Draws-Sound d s = record { in_line = rw (d.line, d.pos) s.in_line; in_width = d.inside s.in_width }

module _ (wide : ℕ → Bool) where
  -- The cursor goes to any place in the line.
  pub place-Sound :
      (t : Terminal) (pos : ℕ)
      → pos ≤ length t.line
      → t.cursor_x < t.term_width
      → Sound (move_cursor_to_pos wide (record t { pos = pos }) pos)
  place-Sound t pos h inside =
      Draws-Sound (move_cursor_to_pos-Draws wide (record t { pos = pos }) pos)
        (record { in_line = h; in_width = inside })

  pub go_to-Sound :
      (t : Terminal) (pos : ℕ) → pos ≤ length t.line → Sound t → Sound (go_to wide t pos)
  unfolding go_to
  go_to-Sound t pos h s = if-Sound (t.pos == pos) s (place-Sound t pos h s.in_width)

  write_spaces-Draws : (n : ℕ) (t : Terminal) → Draws t (write_spaces wide n t)
  unfolding write_spaces
  write_spaces-Draws zero t = Draws-refl t
  write_spaces-Draws (suc n) t = Draws-trans (write_line-Draws wide t _) (write_spaces-Draws n _)

  blank_out-Draws : (n : ℕ) (t : Terminal) → Draws t (blank_out wide n t)
  unfolding blank_out
  blank_out-Draws zero t = Draws-refl t
  blank_out-Draws (suc n) t =
      Draws-trans (Draws-trans (queue-Draws t _) (advance_cursor-Draws _ 1)) (blank_out-Draws n _)

  pub set_line-Sound :
      (t : Terminal) (rs : Runes) (pos : ℕ)
      → pos ≤ length rs
      → Sound t
      → Sound (set_line wide t rs pos)
  unfolding set_line
  set_line-Sound t rs pos h s =
      let t1 = write_line wide (move_cursor_to_pos wide t 0) rs in
      let d1 = Draws-trans (move_cursor_to_pos-Draws wide t 0) (write_line-Draws wide _ rs) in
      let t2 = write_spaces wide (length t.line - length rs) t1 in
      let d2 = Draws-trans d1 (write_spaces-Draws (length t.line - length rs) t1) in
      let d3 = move_cursor_to_pos-Draws wide (record t2 { line = rs }) pos in
      record {
        in_line = h;
        in_width =
            if-inside t.echo (move_cursor_to_pos wide (record t2 { line = rs }) pos) t
              (d3.inside (d2.inside s.in_width)) s.in_width;
      }

  repaint_erased-Draws : (t : Terminal) (n : ℕ) → Draws t (repaint_erased wide t n)
  unfolding repaint_erased
  repaint_erased-Draws t n =
      if-Draws t.echo
        (Draws-trans
          (Draws-trans (Draws-trans (write_line-Draws wide t _) (queue-Draws _ (spaces n)))
            (advance_cursor-Draws _ n))
          (move_cursor_to_pos-Draws wide _ _))
        (Draws-refl t)

  pub erase_n_previous_chars-Sound :
      (t : Terminal) (n : ℕ) → Sound t → Sound (erase_n_previous_chars wide t n)
  unfolding erase_n_previous_chars
  erase_n_previous_chars-Sound t n s =
      let pos = t.pos - min n t.pos in
      let d = move_cursor_to_pos-Draws wide (record t { pos = pos }) pos in
      let line = take pos t.line ++ drop t.pos t.line in
      if-Sound (n == 0) s (
        Draws-Sound
          (repaint_erased-Draws
            (record (move_cursor_to_pos wide (record t { pos = pos }) pos) { line = line }) _)
          (record {
            in_line = rw (d.pos) (
                omega (
                  arith,
                  s.in_line,
                  length-append (take pos t.line) (drop t.pos t.line),
                  length-take pos t.line,
                ));
            in_width = d.inside s.in_width;
          }))

  pub add_key_to_line-Sound :
      (t : Terminal) (key : ℕ) → Sound t → Sound (add_key_to_line wide t key)
  unfolding add_key_to_line
  add_key_to_line-Sound t key s =
      let line = take t.pos t.line ++ key ∷ drop t.pos t.line in
      let t1 = record t { line = line } in
      let d = if-Draws t.echo (write_line-Draws wide t1 (drop t.pos line)) (Draws-refl t1) in
      place-Sound (if t.echo then write_line wide t1 (drop t.pos line) else t1) (suc t.pos)
        (rw (d.line) (
          omega (
            arith,
            s.in_line,
            length-append (take t.pos t.line) (key ∷ drop t.pos t.line),
            length-take t.pos t.line,
            length-drop t.pos t.line,
          )))
        (d.inside s.in_width)

  pub delete_line-Sound :
      (t : Terminal)
      → Sound t
      → let t1 = blank_out wide (length t.line - t.pos) t in
        Sound (move_cursor_to_pos wide (record t1 { line = take t1.pos t1.line }) t1.pos)
  delete_line-Sound t s =
      let t1 = blank_out wide (length t.line - t.pos) t in
      let r = Draws-Sound (blank_out-Draws (length t.line - t.pos) t) s in
      Draws-Sound (move_cursor_to_pos-Draws wide (record t1 { line = take t1.pos t1.line }) t1.pos)
        (record {
          in_line = omega (arith, length-take t1.pos t1.line, r.in_line);
          in_width = r.in_width;
        })

  pub clear_screen-Sound : (t : Terminal) → Sound t → Sound (clear_screen wide t)
  unfolding clear_screen queue
  clear_screen-Sound t s =
      let t1 = queue (queue t (27 ∷ 91 ∷ 50 ∷ 74 ∷ 27 ∷ 91 ∷ 72 ∷ [])) t.prompt in
      let t0 = record t1 { cursor_x = 0; cursor_y = 0 } in
      let r =
        Draws-Sound (advance_cursor-Draws t0 (visual_length wide t.prompt))
          (record { in_line = s.in_line; in_width = omega (arith, s.in_width) }) in
      set_line-Sound _ _ _ r.in_line r

  pub enter-Sound : (t : Terminal) → Sound t → Sound (enter wide t)
  unfolding enter queue
  enter-Sound t s =
      let d = move_cursor_to_pos-Draws wide t (length t.line) in
      let t1 = queue t (27 ∷ 91 ∷ 50 ∷ 75 ∷ 27 ∷ 91 ∷ 74 ∷ []) in
      let t2 = queue (move_cursor_to_pos wide t (length t.line)) (13 ∷ 10 ∷ []) in
      record {
        in_line = omega arith;
        in_width =
            if-inside t.enter_clear t1 (record t2 { cursor_x = 0; cursor_y = 0 }) s.in_width
              (omega (arith, d.inside s.in_width));
      }

  pub delete_next-Sound :
      (t : Terminal)
      → Sound t
      → Sound (
          if ltb t.pos (length t.line)
          then erase_n_previous_chars wide (record t { pos = suc t.pos }) 1
          else t)
  delete_next-Sound t s = elim (Bool-cases (ltb t.pos (length t.line))) [
    | inl e ↦
        if-Sound (ltb t.pos (length t.line))
          (erase_n_previous_chars-Sound (record t { pos = suc t.pos }) 1
            (record { in_line = ground (arith, e); in_width = s.in_width }))
          s
    | inr e ↦ rw e s
  ]

  pub move_right-Sound :
      (t : Terminal)
      → Sound t
      → Sound (
          if t.pos == length t.line
          then t
          else move_cursor_to_pos wide (record t { pos = suc t.pos }) (suc t.pos))
  move_right-Sound t s = elim (Bool-cases (t.pos == length t.line)) [
    | inl e ↦ rw e s
    | inr e ↦
        if-Sound (t.pos == length t.line) s
          (place-Sound t (suc t.pos) (ground (arith, e, s.in_line)) s.in_width)
  ]
