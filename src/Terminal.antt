-- ===== src/Terminal.antt =====
-- sshd/terminal/terminal.go: the line editor of a terminal. Lines are lists of runes, and what is
-- queued for the client is a list of runes too; the encoding of runes as bytes, the widths of runes
-- and the completion of the line are parameters. Where the source slices a line with a bound out of
-- range it panics; `take` and `drop` stop at the end there.
pub mod Editor
pub mod Bounds
pub mod Cursor
pub mod Keystrokes
pub mod Entered
pub mod Screen
pub mod Reading
mod Tests
use ssh_chat.Prelude.{
  ℕ, zero, suc, ◌+◌, ◌-◌, ◌*◌, ◌/◌, ◌%◌, min, Bool, true, false, not, ◌&&◌, ◌||◌, if◌then◌else◌,
  ◌==◌, ltb, leb, Option, none, some, List, [], ◌∷◌, ◌++◌, length, take, drop, get_elem?, Text,
  codes, decimal, after, result,
}
use ssh_chat.Prelude
use ssh_chat.Keys.{
  key_backspace, key_up, key_down, key_left, key_right, key_alt_left, key_alt_right, key_alt_f,
  key_alt_b, key_home, key_end, key_delete_word, key_delete_line, key_clear_screen,
}

abbrev pub Runes : Type 0
Runes = List ℕ

-- `stRingBuffer`. An entry that is not set yet is the empty string, as in Go.
pub record Ring : Type 0 where
  pub entries : List Text
  pub max : ℕ
  pub head : ℕ
  pub size : ℕ

abbrev default_num_entries : ℕ
default_num_entries = 100

unfoldable pub empty_strings : ℕ → List Text
empty_strings zero = []
empty_strings (suc n) = [] ∷ empty_strings n

-- The first lines of `Add`, for a ring with no entries yet.
unfoldable pub allocated : Ring → Ring
allocated s = elim s.entries [
  | [] ↦ record s { entries = empty_strings default_num_entries; max = default_num_entries }
  | a ∷ entries ↦ s
]

unfoldable pub push : Ring → Text → Ring
unfolding allocated
push s a =
    let t = allocated s in
    let head = (t.head + 1) % t.max in
    record t {
      entries = Prelude.set t.entries head a;
      head = head;
      size = if ltb t.size t.max then t.size + 1 else t.size;
    }

-- `NthPreviousEntry`.
unfoldable pub nth_previous_entry : Ring → ℕ → Option Text
nth_previous_entry s n =
    if leb s.size n
    then none
    else get_elem? s.entries (if ltb s.head n then s.head + s.max - n else s.head - n)

-- `historyIndex` is `none` for -1.
pub record Terminal : Type 0 where
  pub prompt : Runes
  pub line : Runes
  pub pos : ℕ
  pub echo : Bool
  pub paste_active : Bool
  pub cursor_x : ℕ
  pub cursor_y : ℕ
  pub max_line : ℕ
  pub term_width : ℕ
  pub term_height : ℕ
  pub out_buf : Runes
  pub history : Ring
  pub history_index : Option ℕ
  pub history_pending : Text
  pub enter_clear : Bool

abbrev pub key_ctrl_d : ℕ
key_ctrl_d = 4

abbrev pub key_ctrl_u : ℕ
key_ctrl_u = 21

abbrev pub key_enter : ℕ
key_enter = 13

abbrev pub space : ℕ
space = 32

unfoldable pub new_terminal : Runes → Terminal
new_terminal prompt = record {
  prompt = prompt;
  line = [];
  pos = 0;
  echo = true;
  paste_active = false;
  cursor_x = 0;
  cursor_y = 0;
  max_line = 0;
  term_width = 80;
  term_height = 24;
  out_buf = [];
  history = record { entries = []; max = 0; head = 0; size = 0 };
  history_index = none;
  history_pending = [];
  enter_clear = false;
}

unfoldable pub queue : Terminal → Runes → Terminal
queue t rs = record t { out_buf = t.out_buf ++ rs }

unfoldable pub is_printable : ℕ → Bool
is_printable key = leb 32 key && not (leb 55296 key && leb key 56319)

-- A part of `move`: `n` units in the direction of a letter.
unfoldable pub move_by : ℕ → ℕ → Runes
move_by n letter =
    if n == 1
    then 27 ∷ 91 ∷ letter ∷ []
    else if ltb 1 n
    then 27 ∷ 91 ∷ (decimal n ++ letter ∷ [])
    else []

unfoldable pub move : Terminal → ℕ → ℕ → ℕ → ℕ → Terminal
unfolding queue move_by
move t up down left right =
    queue t (move_by up 65 ++ move_by down 66 ++ move_by right 67 ++ move_by left 68)

unfoldable pub advance_cursor : Terminal → ℕ → Terminal
advance_cursor t places =
    let x = t.cursor_x + places in
    let y = t.cursor_y + x / t.term_width in
    record t {
      cursor_x = x % t.term_width;
      cursor_y = y;
      max_line = if ltb t.max_line y then y else t.max_line;
      out_buf =
          if ltb 0 places && (x % t.term_width == 0) then t.out_buf ++ 13 ∷ 10 ∷ [] else t.out_buf;
    }

abbrev is_letter : ℕ → Bool
is_letter r = (leb 97 r && leb r 122) || (leb 65 r && leb r 90)

module _ (wide : ℕ → Bool) where
  -- The loop of `visualLength`, in an escape sequence or not.
  unfoldable pub visual_length_in : Bool → Runes → ℕ
  visual_length_in in_escape [] = 0
  visual_length_in true (r ∷ rs) = visual_length_in (not (is_letter r)) rs
  visual_length_in false (r ∷ rs) =
      let seq = visual_length_in true rs in
      let rest = visual_length_in false rs in
      if r == 27 then seq else if wide r then 2 + rest else 1 + rest

  unfoldable pub visual_length : Runes → ℕ
  unfolding visual_length_in
  visual_length rs = visual_length_in false rs

  unfoldable pub move_cursor_to_pos : Terminal → ℕ → Terminal
  unfolding move visual_length
  move_cursor_to_pos t pos =
      if not t.echo
      then t
      else (let n =
            visual_length t.prompt + visual_length (take (min pos (length t.line)) t.line) in
          let y = n / t.term_width in
          let x = n % t.term_width in
          move (record t { cursor_x = x; cursor_y = y }) (t.cursor_y - y) (y - t.cursor_y)
            (t.cursor_x - x) (x - t.cursor_x))

  -- The loop of `writeLine`. The fuel is the length of the line.
  unfoldable pub write_loop : ℕ → Terminal → Runes → Terminal
  unfolding queue advance_cursor visual_length
  write_loop zero t line = t
  write_loop (suc fuel) t [] = t
  write_loop (suc fuel) t (r ∷ rs) =
      let line = r ∷ rs in
      let todo = min (length line) (t.term_width - t.cursor_x) in
      write_loop fuel (advance_cursor (queue t (take todo line)) (visual_length (take todo line)))
        (drop todo line)

  unfoldable pub write_line : Terminal → Runes → Terminal
  unfolding write_loop
  write_line t line = write_loop (length line) t line
