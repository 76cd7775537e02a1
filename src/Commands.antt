-- ===== src/Commands.antt =====
-- chat/command.go and chat/help.go: the registry of commands. A command names its handler by a value
-- of a type `A`, and the handlers are functions of the room and the request. The registry is a Go
-- map as an association list; two lines of help that are equal may change places.
pub mod Talk
pub mod Settings
pub mod Members
pub mod Builtin
pub mod Registry
pub mod Ignoring
pub mod Focusing
pub mod Effects
mod Tests
use ssh_chat.Prelude.{
  ℕ, zero, suc, ◌+◌, ◌-◌, Bool, true, false, not, ◌&&◌, ◌||◌, if◌then◌else◌, ite, ◌==◌, ltb, Option,
  none, some, List, [], ◌∷◌, ◌++◌, map, length, Text, codes, text_discrete, lookup, assign,
  join_with, Result,
}
use ssh_chat.Prelude.Int.{ℤ}
use ssh_chat.Message.{Message, system_msg}
use ssh_chat.Room.{World}
use ssh_chat.Room
use ssh_chat.Theme.{newline}

-- `CommandMsg`, with its sender, its body, its name and its arguments. It always has a sender, so
-- that `ErrNoOwner` never comes up.
pub record Request : Type 0 where
  pub from : ℕ
  pub body : Text
  pub command : Text
  pub args : List Text

-- What a handler takes from its surroundings: the clock, two random indexes of colors,
-- `time.ParseDuration` with the text of its error, and the quoted name of a time zone at a time.
pub record Ambient : Type 0 where
  pub now : ℕ
  pub color_idx : ℕ
  pub other_color_idx : ℕ
  pub parse_duration : Text → Result Text ℤ
  pub zone_name : ℤ → ℕ → Text

-- The room after a handler, and the text of the error that it returns.
abbrev pub Outcome : Type 0
Outcome = World × Option Text

abbrev pub Handler : Type 0
Handler = Ambient → World → Request → Outcome

abbrev pub fail : World → Text → Outcome
fail w text = (w, some text)

-- `room.Send(message.NewSystemMsg(text, u))`, and no error.
unfoldable pub reply : Ambient → World → ℕ → Text → Outcome
reply env w u text = (Room.send w (system_msg u text env.now), none)

abbrev pub err_invalid_command : Text
err_invalid_command = codes "invalid command"

abbrev pub err_missing_arg : Text
err_missing_arg = codes "missing argument"

-- The texts of the errors of `Room` and of `set`.
unfoldable pub room_error_text : Room.RoomError → Text
room_error_text Room.RoomError.invalid_name = codes "invalid name"
room_error_text (Room.RoomError.in_set ssh_chat.Set.SetError.collision) = codes "key already exists"
room_error_text (Room.RoomError.in_set ssh_chat.Set.SetError.missing) = codes "item does not exist"

pub record Command (A : Type 0) : Type 0 where
  pub prefix : Text
  pub prefix_help : Text
  pub help : Text
  pub op : Bool
  pub handler : A

abbrev pub Commands : Type 0 → Type 0
Commands A = List (Text × Command A)

-- The prefix is in the map `lookup` of `NewCommandsHelp`.
unfoldable pub is_seen : Text → List Text → Bool
is_seen k [] = false
is_seen k (j ∷ seen) = ite (text_discrete j k) true (is_seen k seen)

module _ {A : Type 0} where
  -- `Add`. The registry is left as it is for a command with no prefix (`ErrMissingPrefix`).
  unfoldable pub add : Commands A → Command A → Commands A × Bool
  add c cmd = ite (text_discrete cmd.prefix []) (c, false) (assign cmd.prefix cmd c, true)

  -- `Alias`, which fails for a command that is not there (`ErrInvalidCommand`).
  unfoldable pub alias : Commands A → Text → Text → Commands A × Bool
  alias c command other = elim (lookup command c) [
    | none ↦ (c, false)
    | some cmd ↦ (assign other cmd c, true)
  ]

  -- `Run`, for handlers that are given by `perform`.
  unfoldable pub run : (A → Handler) → Commands A → Ambient → World → Request → Outcome
  run perform c env w req = elim (lookup req.command c) [
    | none ↦ fail w err_invalid_command
    | some cmd ↦ perform cmd.handler env w req
  ]

  -- The commands for operators, or the others.
  unfoldable pub with_op : Bool → Commands A → List (Command A)
  with_op b [] = []
  with_op b ((k, cmd) ∷ c) =
      let rest = with_op b c in
      if cmd.op then (if b then cmd ∷ rest else rest) else (if b then rest else cmd ∷ rest)

  -- `NewCommandsHelp`: the prefix and the text of each item, without hidden commands and aliases.
  unfoldable pub help_items : List Text → List (Command A) → List (Text × Text)
  help_items seen [] = []
  help_items seen (cmd ∷ c) =
      let skipped = help_items seen c in
      let rest = help_items (cmd.prefix ∷ seen) c in
      if ite (text_discrete cmd.help []) true false || is_seen cmd.prefix seen
      then skipped
      else (cmd.prefix ++ (codes " " ++ cmd.prefix_help), cmd.help) ∷ rest

-- `prefixWidth`: the longest prefix.
unfoldable pub prefix_width : List (Text × Text) → ℕ
prefix_width [] = 0
prefix_width ((prefix, text) ∷ items) =
    let width = prefix_width items in if ltb width (length prefix) then length prefix else width

unfoldable pub padding : ℕ → Text
padding zero = []
padding (suc n) = 32 ∷ padding n

-- A text comes before another, byte by byte.
unfoldable pub text_less : Text → Text → Bool
text_less [] [] = false
text_less [] (d ∷ t) = true
text_less (c ∷ s) [] = false
text_less (c ∷ s) (d ∷ t) = ltb c d || (c == d && text_less s t)

-- `sort.Strings`, and `sort.Slice` by texts.
unfoldable pub insert_by : {A : Type 0} → (A → Text) → A → List A → List A
unfolding text_less
insert_by key x [] = x ∷ []
insert_by key x (y ∷ ys) =
    let later = insert_by key x ys in if text_less (key y) (key x) then y ∷ later else x ∷ y ∷ ys

unfoldable pub sort_by : {A : Type 0} → (A → Text) → List A → List A
unfolding insert_by
sort_by key [] = []
sort_by key (x ∷ xs) = insert_by key x (sort_by key xs)

-- `help.String`: a line `%-*s - %s` for each item, in order.
unfoldable pub help_string : List (Text × Text) → Text
unfolding prefix_width padding sort_by
help_string items =
    let width = prefix_width items in
    let line : Text × Text → Text =
      λ item. item.0 ++ (padding (width - length item.0) ++ (codes " - " ++ item.1)) in
    join_with (sort_by (λ s. s) (map line items)) newline

-- `Help`.
unfoldable pub help_text : {A : Type 0} → Commands A → Bool → Text
unfolding with_op help_items help_string
help_text c show_op =
    let normal =
      codes "Available commands:" ++ (newline ++ help_string (help_items [] (with_op false c))) in
    if show_op
    then normal
      ++ (newline
          ++ (codes "-> Operator commands:"
              ++ (newline ++ help_string (help_items [] (with_op true c)))))
    else normal
