-- ===== src/Message/Tests.antt =====
-- Lines as messages.
use ssh_chat.Prelude.{
  ◌≡◌, refl, true, false, List, [], ◌∷◌, Text, codes, has_prefix, fields, space_size, returns,
}
use ssh_chat.Message.{public_msg, command_msg, parse_input, parse_command}
use ssh_chat.Message.Input.{parse_input_lem}

line :
    parse_input 3 (codes "/msg  ann hi ") 9
    ≡ returns
        (command_msg 3 (codes "/msg  ann hi ") 9 (codes "/msg") (codes "ann" ∷ codes "hi" ∷ []))
unfolding parse_input parse_command has_prefix fields space_size
line = refl

parse_input_lem_example :
    (has_prefix (codes "/me x") (codes "/") ≡ true
      → (c : Text) × (args : List Text) × (parse_input 3 (codes "/me x") 9
          ≡ returns (command_msg 3 (codes "/me x") 9 (47 ∷ c) args)))
    × (has_prefix (codes "/me x") (codes "/") ≡ false
        → parse_input 3 (codes "/me x") 9 ≡ returns (public_msg 3 (codes "/me x") 9))
parse_input_lem_example = parse_input_lem 3 (codes "/me x") 9
