-- ===== src/Terminal/Reading/Rounds.antt =====
-- What holds of a terminal while it reads a line.
use ssh_chat.Prelude.{
  ℕ, zero, suc, ◌≤◌, ◌≡◌, ◌⊎◌, refl, Bool-cases, inl, inr, Bool, true, false, not, ◌&&◌,
  if◌then◌else◌, ◌==◌, Option, some, Option-cases, List, [], ◌∷◌, ◌++◌, length, take, Text, after,
  result,
}
use ssh_chat.Keys.{rune_error, key_paste_start, key_paste_end, bytes_to_key}
use ssh_chat.Terminal.{Terminal, Runes, key_ctrl_d}
use ssh_chat.Terminal.Editor.{completion, handle_key}
use ssh_chat.Terminal.Bounds.{Sound, write_line-Draws}
use ssh_chat.Terminal.Cursor.{Draws-Sound}
use ssh_chat.Terminal.Keystrokes.{handle_key-Sound}
use ssh_chat.Terminal.Reading.{
  Round, Reader, Arrival, bytes, broken, Ended, partial, left_off, entered, LineRead, waits,
  read_failed, finish_key, key_loop, remember, settle, keys_of, read_loop, read_line,
}

Ended-cases : (e : Ended) → (e ≡ partial) ⊎ ((e ≡ left_off) ⊎ ((line : Text) × (e ≡ entered line)))
Ended-cases partial = inl refl
Ended-cases left_off = inr (inl refl)
Ended-cases (entered line) = inr (inr (line, refl))

module _ (wide : ℕ → Bool) (to_text : Runes → Text) (to_runes : Text → Runes)
    (auto_complete : Option (Text → ℕ → ℕ → Option (Text × ℕ))) (full_rune : List ℕ → Bool)
    (decode_rune : List ℕ → ℕ × ℕ)
    (completes : (t : Terminal) (key : ℕ) (new_line : Text) (new_pos : ℕ)
      → completion wide to_text to_runes auto_complete t key ≡ some (new_line, new_pos)
      → length (to_runes (take new_pos new_line)) ≤ length (to_runes new_line)) where
  abbrev loop : ℕ → Terminal → List ℕ → Bool → Round
  loop = key_loop wide to_text to_runes auto_complete full_rune decode_rune

  abbrev finish : Terminal → List ℕ → Bool → ℕ → (Terminal → Bool → Round) → Round
  finish = finish_key wide to_text to_runes auto_complete full_rune decode_rune

  record SoundRound (r : Round) : Type 0 where
    sound : Sound r.terminal

  if-SoundRound :
      (b : Bool) {r q : Round} → SoundRound r → SoundRound q → SoundRound (if b then r else q)
  if-SoundRound true s t = s
  if-SoundRound false s t = t

  finish-Sound :
      (t : Terminal) (rest : List ℕ) (p : Bool) (key : ℕ) (next : Terminal → Bool → Round)
      → Sound t
      → ((t' : Terminal) (q : Bool) → Sound t' → SoundRound (next t' q))
      → SoundRound (finish t rest p key next)
  finish-Sound t rest p key next s later =
      let pressed = handle_key-Sound wide to_text to_runes auto_complete completes t key s in
      elim (Option-cases (result (handle_key wide to_text to_runes auto_complete t key))) [
        | inl e ↦ rw (e, finish_key) (later _ _ pressed)
        | inr (line, e) ↦ rw (e, finish_key) (record { sound = pressed })
      ]

  loop-Sound :
      (fuel : ℕ) (t : Terminal) (input : List ℕ) (p : Bool)
      → Sound t
      → SoundRound (loop fuel t input p)
  unfolding key_loop
  loop-Sound zero t input p s = record { sound = s }
  loop-Sound (suc fuel) t input p s =
      let (key, rest) = bytes_to_key full_rune decode_rune input t.paste_active in
      if-SoundRound (key == rune_error) (record { sound = s })
        (if-SoundRound (not t.paste_active && key == key_ctrl_d && length t.line == 0)
          (record { sound = s })
          (if-SoundRound (not t.paste_active && key == key_paste_start)
            (loop-Sound fuel (record t { paste_active = true }) rest _
              (record { in_line = s.in_line; in_width = s.in_width }))
            (if-SoundRound (t.paste_active && key == key_paste_end)
              (loop-Sound fuel (record t { paste_active = false }) rest _
                (record { in_line = s.in_line; in_width = s.in_width }))
              (finish-Sound t rest p key _ s (λ t' q h. loop-Sound fuel t' rest q h)))))

  record SoundReader (r : Reader × LineRead) : Type 0 where
    sound : Sound r.0.terminal

  settle-Sound :
      (r : Reader) (round : Round) (next : Reader → Reader × LineRead)
      → SoundRound round
      → ((f : Reader) → Sound f.terminal → SoundReader (next f))
      → SoundReader (settle wide to_text to_runes auto_complete full_rune decode_rune r round next)
  unfolding settle remember
  settle-Sound r round next s later = elim (Ended-cases round.ended) [
    | inl e ↦
        rw (e, settle) (later _ (record { in_line = s.sound.in_line; in_width = s.sound.in_width }))
    | inr (inl e) ↦ rw (e, settle) (record { sound = s.sound })
    | inr (inr (line, e)) ↦ elim (Bool-cases round.terminal.echo) [
      | inl b ↦
          rw (e, b, settle)
            (record { sound = record { in_line = s.sound.in_line; in_width = s.sound.in_width } })
      | inr b ↦
          rw (e, b, settle)
            (record { sound = record { in_line = s.sound.in_line; in_width = s.sound.in_width } })
    ]
  ]

  abbrev keys : Reader → Bool → Round
  keys = keys_of wide to_text to_runes auto_complete full_rune decode_rune

  keys-Sound : (r : Reader) (p : Bool) → Sound r.terminal → SoundRound (keys r p)
  keys-Sound r p s = loop-Sound (suc (length r.remainder)) r.terminal r.remainder p s

  abbrev loop_on : Reader → Bool → List Arrival → Reader × LineRead
  loop_on = read_loop wide to_text to_runes auto_complete full_rune decode_rune

  read_loop-Sound :
      (r : Reader) (p : Bool) (reads : List Arrival)
      → Sound r.terminal
      → SoundReader (loop_on r p reads)
  unfolding read_loop
  read_loop-Sound r p [] s =
      settle-Sound r (keys r p) (λ f. (f, waits)) (keys-Sound r p s) (λ f h. record { sound = h })
  read_loop-Sound r p (broken ∷ later) s =
      settle-Sound r (keys r p) (λ f. (f, read_failed)) (keys-Sound r p s)
        (λ f h. record { sound = h })
  read_loop-Sound r p (bytes bs ∷ later) s =
      settle-Sound r (keys r p)
        (λ f. loop_on (record f { remainder = f.remainder ++ bs }) (keys r p).is_pasted later)
        (keys-Sound r p s)
        (λ f h.
          read_loop-Sound (record f { remainder = f.remainder ++ bs }) (keys r p).is_pasted later h)

  -- Reading a line keeps the cursor in the line and on the screen, whatever the reads return, if a
  -- completion never answers with a position behind the end of the line that it answers with.
  pub read_line-Sound :
      (r : Reader) (reads : List Arrival)
      → Sound r.terminal
      → Sound
          (after
            (read_line wide to_text to_runes auto_complete full_rune decode_rune r reads)).terminal
  unfolding read_line
  read_line-Sound r reads s =
      let t = r.terminal in
      elim (Bool-cases (t.cursor_x == 0 && t.cursor_y == 0)) [
        | inl e ↦
            let drawn = Draws-Sound (write_line-Draws wide t t.prompt) s in
            rw (e, read_line)
              (read_loop-Sound _ t.paste_active reads
                (record { in_line = drawn.in_line; in_width = drawn.in_width })).sound
        | inr e ↦ rw (e, read_line) (read_loop-Sound r t.paste_active reads s).sound
      ]
