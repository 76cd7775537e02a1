-- ===== src/Terminal/Reading.antt =====
-- sshd/terminal/terminal.go: `readLine`, `ReadLine` and `ReadPassword`, over what the reads of the
-- connection return. What the writes of the terminal are given is kept in `screen`; the source
-- ignores their errors here.
pub mod Rounds
pub mod Enough
use ssh_chat.Prelude.{
  ℕ, zero, suc, Bool, true, false, not, ◌&&◌, if◌then◌else◌, ◌==◌, Option, none, some, List, [],
  ◌∷◌, ◌++◌, length, Text,
}
use ssh_chat.Keys.{rune_error, key_paste_start, key_paste_end, bytes_to_key}
use ssh_chat.Terminal.{Terminal, Runes, Ring, push, key_ctrl_d, write_line}
use ssh_chat.Terminal.Editor.{handle_key}

-- What a `Read` returns: some bytes, at most as many as there was room for, or an error.
pub data Arrival : Type 0 where
  bytes : List ℕ → Arrival
  broken : Arrival

-- What a loop over the keys ends with: it needs more bytes, the user left, or a line.
pub data Ended : Type 0 where
  partial left_off : Ended
  entered : Text → Ended

-- The terminal after the loop over the keys, with the bytes that are left and `lineIsPasted`.
pub record Round : Type 0 where
  pub terminal : Terminal
  pub rest : List ℕ
  pub is_pasted : Bool
  pub ended : Ended

pub record Reader : Type 0 where
  pub terminal : Terminal
  pub remainder : List ℕ
  pub screen : Runes

-- What `readLine` returns: a line, which may be pasted (`ErrPasteIndicator`), the end (`io.EOF`), or
-- an error of the connection. It waits when the reads run out.
pub data LineRead : Type 0 where
  line_read : Text → Bool → LineRead
  end_read read_failed waits : LineRead

module _ (wide : ℕ → Bool) (to_text : Runes → Text) (to_runes : Text → Runes)
    (auto_complete : Option (Text → ℕ → ℕ → Option (Text × ℕ))) (full_rune : List ℕ → Bool)
    (decode_rune : List ℕ → ℕ × ℕ) where
  -- A key that is no mark of a paste, and the loop after it.
  abbrev pub finish_key : Terminal → List ℕ → Bool → ℕ → (Terminal → Bool → Round) → Round
  finish_key t rest is_pasted key next =
      let pasted = t.paste_active && is_pasted in
      let (t', line) = handle_key wide to_text to_runes auto_complete t key in
      elim line [
        | none ↦ next t' pasted
        | some s ↦ record { terminal = t'; rest = rest; is_pasted = pasted; ended = entered s }
      ]

  -- The loop over the keys in `rest`. Every key takes at least one byte.
  unfoldable pub key_loop : ℕ → Terminal → List ℕ → Bool → Round
  unfolding bytes_to_key handle_key
  key_loop zero t rest is_pasted = record {
    terminal = t;
    rest = rest;
    is_pasted = is_pasted;
    ended = partial;
  }
  key_loop (suc fuel) t input is_pasted =
      let (key, rest) = bytes_to_key full_rune decode_rune input t.paste_active in
      let stop : Ended → Round =
        λ e. record { terminal = t; rest = rest; is_pasted = is_pasted; ended = e } in
      let next : Terminal → Bool → Round = λ t' p. key_loop fuel t' rest p in
      if key == rune_error
      then stop partial
      else if not t.paste_active && key == key_ctrl_d && length t.line == 0
      then stop left_off
      else if not t.paste_active && key == key_paste_start
      then next (record t { paste_active = true }) (if length t.line == 0 then true else is_pasted)
      else if t.paste_active && key == key_paste_end
      then next (record t { paste_active = false }) is_pasted
      else finish_key t rest is_pasted key next

  abbrev flush : Terminal → List ℕ → Runes → Reader
  flush t rest screen = record {
    terminal = record t { out_buf = [] };
    remainder = rest;
    screen = screen ++ t.out_buf;
  }

  -- The line goes to the history if it was echoed.
  unfoldable pub remember : Terminal → Text → Terminal
  unfolding push
  remember t line =
      if t.echo then record t { history_index = none; history = push t.history line } else t

  -- What `readLine` does after the loop over the keys. The end of the input leaves the terminal as it
  -- stands, with what is queued; `next` is what comes after a flush if there is no line yet.
  unfoldable pub settle : Reader → Round → (Reader → Reader × LineRead) → Reader × LineRead
  unfolding remember
  settle r round next =
      let flushed = flush round.terminal round.rest r.screen in
      elim round.ended [
        | left_off ↦ (record r { terminal = round.terminal }, end_read)
        | entered line ↦ (
          record flushed { terminal = remember flushed.terminal line },
          line_read line round.is_pasted,
        )
        | partial ↦ next flushed
      ]

  abbrev pub keys_of : Reader → Bool → Round
  keys_of r is_pasted = key_loop (suc (length r.remainder)) r.terminal r.remainder is_pasted

  -- The loop of `readLine` over the reads that are still to come. A remainder that fills the buffer
  -- leaves no room to read into; the loop then turns without end in Go, and here goes through reads
  -- of no bytes.
  unfoldable pub read_loop : Reader → Bool → List Arrival → Reader × LineRead
  unfolding key_loop settle
  read_loop r is_pasted [] = settle r (keys_of r is_pasted) (λ f. (f, waits))
  read_loop r is_pasted (broken ∷ later) = settle r (keys_of r is_pasted) (λ f. (f, read_failed))
  read_loop r is_pasted (bytes bs ∷ later) =
      let round = keys_of r is_pasted in
      settle r round
        (λ f. read_loop (record f { remainder = f.remainder ++ bs }) round.is_pasted later)

  -- `readLine`.
  unfoldable pub read_line : Reader → List Arrival → Reader × LineRead
  unfolding read_loop write_line
  read_line r reads =
      let t = r.terminal in
      let r' =
        if t.cursor_x == 0 && t.cursor_y == 0
        then flush (write_line wide t t.prompt) r.remainder r.screen
        else r in
      read_loop r' t.paste_active reads

  -- `ReadPassword`.
  unfoldable pub read_password : Reader → Runes → List Arrival → Reader × LineRead
  unfolding read_line
  read_password r prompt reads =
      let t = record r.terminal { prompt = prompt; echo = false } in
      let (r', line) = read_line (record r { terminal = t }) reads in
      (
        record r' { terminal = record r'.terminal { prompt = r.terminal.prompt; echo = true } },
        line,
      )
