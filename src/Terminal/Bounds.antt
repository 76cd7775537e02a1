-- ===== src/Terminal/Bounds.antt =====
-- The cursor of the line editor of sshd/terminal/terminal.go stays in the line and on the screen.
use ssh_chat.Prelude.{
  ℕ, zero, suc, ◌+◌, ◌-◌, ◌%◌, ◌<◌, ◌≤◌, min, ◌≡◌, refl, ◌∙◌, inl, inr, Bool-cases, Bool, [], ◌∷◌,
  length, take, drop, length-drop, arith,
}
use ssh_chat.Terminal.{
  Terminal, Runes, queue, move, advance_cursor, visual_length, move_cursor_to_pos, write_loop,
  write_line,
}

-- The cursor stands in the line, and on the screen.
pub record Sound (t : Terminal) : Type 0 where
  pub in_line : t.pos ≤ length t.line
  pub in_width : t.cursor_x < t.term_width

-- What drawing does: it leaves the line as it is, and the cursor on the screen.
pub record Draws (t t' : Terminal) : Type 0 where
  pub line : t'.line ≡ t.line
  pub pos : t'.pos ≡ t.pos
  pub inside : t.cursor_x < t.term_width → t'.cursor_x < t'.term_width

pub Draws-refl : (t : Terminal) → Draws t t
Draws-refl t = record { line = refl; pos = refl; inside = λ h. h }

pub Draws-trans : {a b c : Terminal} → Draws a b → Draws b c → Draws a c
Draws-trans f g = record {
  line = g.line ∙ f.line;
  pos = g.pos ∙ f.pos;
  inside = λ h. g.inside (f.inside h);
}

pub queue-Draws : (t : Terminal) (rs : Runes) → Draws t (queue t rs)
unfolding queue
queue-Draws t rs = record { line = refl; pos = refl; inside = λ h. h }

mod_bound : (x w c : ℕ) → c < w → x % w < w
mod_bound x w c h = ground arith

pub advance_cursor-Draws : (t : Terminal) (n : ℕ) → Draws t (advance_cursor t n)
unfolding advance_cursor
advance_cursor-Draws t n = record {
  line = refl;
  pos = refl;
  inside = λ h. mod_bound (t.cursor_x + n) t.term_width t.cursor_x h;
}

module _ (wide : ℕ → Bool) where
  pub move_cursor_to_pos-Draws : (t : Terminal) (pos : ℕ) → Draws t (move_cursor_to_pos wide t pos)
  unfolding move_cursor_to_pos move queue
  move_cursor_to_pos-Draws t pos = elim (Bool-cases t.echo) [
    | inl e ↦
        rw e
          (record { line = refl; pos = refl; inside = λ h. mod_bound _ t.term_width t.cursor_x h })
    | inr e ↦ rw e (record { line = refl; pos = refl; inside = λ h. h })
  ]

  write_loop-Draws : (fuel : ℕ) (t : Terminal) (rs : Runes) → Draws t (write_loop wide fuel t rs)
  unfolding write_loop
  write_loop-Draws zero t rs = Draws-refl t
  write_loop-Draws (suc fuel) t [] = Draws-refl t
  write_loop-Draws (suc fuel) t (r ∷ rs) =
      Draws-trans (Draws-trans (queue-Draws t _) (advance_cursor-Draws _ _))
        (write_loop-Draws fuel _ _)

  pub write_line-Draws : (t : Terminal) (rs : Runes) → Draws t (write_line wide t rs)
  unfolding write_line
  write_line-Draws t rs = write_loop-Draws (length rs) t rs

  drop_less :
      (r : ℕ) (rs : Runes) (todo fuel : ℕ)
      → 1 ≤ todo
      → length (r ∷ rs) ≤ suc fuel
      → length (drop todo (r ∷ rs)) ≤ fuel
  drop_less r rs todo fuel h g = omega (arith, length-drop todo (r ∷ rs))

  -- On a terminal whose cursor is on the screen, the loop of `writeLine` is over after as many rounds
  -- as the text has runes: more rounds change nothing.
  pub write_loop_enough :
      (fuel more : ℕ) (t : Terminal) (rs : Runes)
      → t.cursor_x < t.term_width
      → length rs ≤ fuel
      → length rs ≤ more
      → write_loop wide fuel t rs ≡ write_loop wide more t rs
  unfolding write_loop
  write_loop_enough zero zero t rs h f g = refl
  write_loop_enough zero (suc more) t [] h f g = refl
  write_loop_enough zero (suc more) t (r ∷ rs) h f g = ground arith
  write_loop_enough (suc fuel) zero t [] h f g = refl
  write_loop_enough (suc fuel) zero t (r ∷ rs) h f g = ground arith
  write_loop_enough (suc fuel) (suc more) t [] h f g = refl
  write_loop_enough (suc fuel) (suc more) t (r ∷ rs) h f g =
      let todo = min (length (r ∷ rs)) (t.term_width - t.cursor_x) in
      let d =
        Draws-trans (queue-Draws t (take todo (r ∷ rs)))
          (advance_cursor-Draws _ (visual_length wide (take todo (r ∷ rs)))) in
      let one : 1 ≤ todo = omega (arith, h) in
      write_loop_enough fuel more _ (drop todo (r ∷ rs)) (d.inside h)
        (drop_less r rs todo fuel one f) (drop_less r rs todo more one g)
