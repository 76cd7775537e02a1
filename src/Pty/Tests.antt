-- ===== src/Pty/Tests.antt =====
-- Payloads of requests, and the theorems on them at inputs that meet their hypotheses.
use ssh_chat.Prelude.{
  ℕ, ◌+◌, ◌<◌, ◌≡◌, refl, if◌then◌else◌, ltb, none, some, List, [], ◌∷◌, ◌++◌, length, take, drop,
  codes, panics, returns, arith,
}
use ssh_chat.Pty.{big_endian, parse_string, parse_pty_request}
use ssh_chat.Pty.Payload.{uint32, sent_string, parse_string_lem, parse_pty_request-sent}

-- A length of 2^32 - 4, and no bytes.
abbrev huge : List ℕ
huge = 255 ∷ 255 ∷ 255 ∷ 252 ∷ []

crash : parse_string huge ≡ panics
unfolding parse_string
crash = refl

parse_string_lem_example : parse_string huge ≡ (
    if ltb (4 + big_endian huge) 4294967296
    then (if ltb (length huge) (4 + big_endian huge)
        then returns none
        else returns (some (take (big_endian huge) (drop 4 huge), drop (4 + big_endian huge) huge)))
    else panics)
parse_string_lem_example = parse_string_lem huge (omega arith) (omega arith) (omega arith)

short : length (sent_string (codes "xterm") ++ (uint32 80 ++ (uint32 24 ++ []))) < 4294967296
unfolding uint32
short = omega arith

parse_pty_request-sent_example :
    parse_pty_request (sent_string (codes "xterm") ++ (uint32 80 ++ (uint32 24 ++ [])))
    ≡ returns (some (codes "xterm", (80, 24)))
parse_pty_request-sent_example =
    parse_pty_request-sent (codes "xterm") 80 24 [] (omega arith) (omega arith) short
