-- ===== src/Message.antt =====
-- chat/message/message.go: the kinds of messages. A user is a pointer, a number that names an entry
-- of the store of users. The printing of messages is modelled in Render.
pub mod Input
mod Tests
use ssh_chat.Prelude.{
  [], ◌∷◌, fields, has_prefix, Run, panics, returns, not, if◌then◌else◌, codes, ℕ, Option, none,
  some, List, Text,
}

-- `PublicMsg`, `*EmoteMsg`, `PrivateMsg`, `*SystemMsg`, `*AnnounceMsg` and `*CommandMsg`, with the
-- sender, the addressee, the body and the timestamp that they have.
pub data Message : Type 0 where
  public_msg : ℕ → Text → ℕ → Message
  emote_msg : ℕ → Text → ℕ → Message
  private_msg : ℕ → ℕ → Text → ℕ → Message
  system_msg : ℕ → Text → ℕ → Message
  announce_msg : Text → ℕ → Message
  command_msg : ℕ → Text → ℕ → Text → List Text → Message

-- The user of `From`, of the messages that implement `MessageFrom`.
unfoldable pub from : Message → Option ℕ
from (public_msg u b t) = some u
from (emote_msg u b t) = some u
from (private_msg u v b t) = some u
from (system_msg v b t) = none
from (announce_msg b t) = none
from (command_msg u b t c args) = some u

-- `case *message.CommandMsg`, `case message.MessageTo` with its addressee, and the default case of
-- the switch of `Room.HandleMsg`.
pub data Kind : Type 0 where
  command : Kind
  addressed : ℕ → Kind
  announcement broadcast : Kind

unfoldable pub kind : Message → Kind
kind (public_msg u b t) = broadcast
kind (emote_msg u b t) = broadcast
kind (private_msg u v b t) = addressed v
kind (system_msg v b t) = addressed v
kind (announce_msg b t) = announcement
kind (command_msg u b t c args) = command

-- `PublicMsg.ParseCommand` of a body. Its first field is indexed, which panics if there is none.
unfoldable pub parse_command : ℕ → Text → ℕ → Run (Option Message)
parse_command u body t =
    if not (has_prefix body (codes "/")) then returns none else elim (fields body) [
      | [] ↦ panics
      | first ∷ args ↦ returns (some (command_msg u body t first args))
    ]

-- `ParseInput`.
unfoldable pub parse_input : ℕ → Text → ℕ → Run Message
unfolding parse_command
parse_input u body t = elim (parse_command u body t) [
  | panics ↦ panics
  | returns none ↦ returns (public_msg u body t)
  | returns (some m) ↦ returns m
]
