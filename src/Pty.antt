-- ===== src/Pty.antt =====
-- sshd/pty.go: the payloads of the requests `pty-req` and `window-change`. A payload is a list of
-- bytes. An `int` has 64 bits, so every `uint32` fits.
pub mod Payload
mod Tests
use ssh_chat.Prelude.{
  ℕ, ◌+◌, ◌*◌, ◌%◌, ◌^◌, Bool, true, false, ◌||◌, if◌then◌else◌, ltb, Option, none, some, List, [],
  ◌∷◌, length, take, drop, Text, Run, panics, returns,
}

-- `binary.BigEndian.Uint32`, which reads the first four bytes.
unfoldable pub big_endian : List ℕ → ℕ
big_endian (a ∷ b ∷ c ∷ d ∷ rest) = a * 16777216 + b * 65536 + c * 256 + d
big_endian _ = 0

-- `parseUint32`.
unfoldable pub parse_uint32 : List ℕ → Option (ℕ × List ℕ)
unfolding big_endian
parse_uint32 input = if ltb (length input) 4 then none else some (big_endian input, drop 4 input)

-- `parseString`. The sum `4+length` is a `uint32`, and a slice whose bounds are out of order or out
-- of range panics.
unfoldable pub parse_string : List ℕ → Run (Option (Text × List ℕ))
unfolding big_endian
parse_string input =
    let end = (4 + big_endian input) % 4294967296 in
    if ltb (length input) 4
    then returns none
    else if ltb (length input % 4294967296) end
    then returns none
    else if ltb end 4 || ltb (length input) end
    then panics
    else returns (some (drop 4 (take end input), drop end input))

-- The tests on the sizes that `parsePtyRequest` and `parseWinchRequest` end with.
unfoldable pub sized : ℕ → ℕ → Option (ℕ × ℕ)
sized width height = if ltb width 1 || ltb height 1 then none else some (width, height)

-- The part of `parsePtyRequest` after the name of the terminal. A height that is missing is 0.
unfoldable pub pty_size : List ℕ → Option (ℕ × ℕ)
unfolding parse_uint32 sized
pty_size input = elim (parse_uint32 input) [
  | none ↦ none
  | some (width, rest) ↦ elim (parse_uint32 rest) [
    | none ↦ sized width 0
    | some (height, _) ↦ sized width height
  ]
]

abbrev with_term : Text → Option (ℕ × ℕ) → Option (Text × (ℕ × ℕ))
with_term term none = none
with_term term (some size) = some (term, size)

-- `parsePtyRequest`: the terminal's name, its width and its height, if the request is in order.
unfoldable pub parse_pty_request : List ℕ → Run (Option (Text × (ℕ × ℕ)))
unfolding parse_string pty_size
parse_pty_request input = elim (parse_string input) [
  | panics ↦ panics
  | returns none ↦ returns none
  | returns (some (term, rest)) ↦ returns (with_term term (pty_size rest))
]

-- `parseWinchRequest`, which reads the height from the payload that it read the width from.
unfoldable pub parse_winch_request : List ℕ → Option (ℕ × ℕ)
unfolding parse_uint32 sized
parse_winch_request input = elim (parse_uint32 input) [
  | none ↦ none
  | some (width, _) ↦ elim (parse_uint32 input) [
    | none ↦ none
    | some (height, _) ↦ sized width height
  ]
]
