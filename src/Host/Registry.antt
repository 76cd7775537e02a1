-- ===== src/Host/Registry.antt =====
-- host.go: `InitCommands`, and what the host does with a message from a user.
pub mod Operators
pub mod Composed
use ssh_chat.Prelude.{
  ℕ, Bool, true, false, if◌then◌else◌, ite, Option, none, some, List, [], ◌∷◌, ◌++◌, map, Text,
  codes, text_discrete, lookup, Result, ok, err,
}
use ssh_chat.Auth.{Externals}
use ssh_chat.Message.{Message, command_msg, kind, system_msg, from}
use ssh_chat.Set.{Set, Item, SetError, value}
use ssh_chat.Set
use ssh_chat.Room.{World, member_of, is_command, from_id_of}
use ssh_chat.Room
use ssh_chat.Commands.{Command, Commands, Request, Ambient, err_invalid_command}
use ssh_chat.Commands.Builtin.{Action, perform, init_commands, add_all}
use ssh_chat.Host.{Outside, Host, HostOutcome, HostHandler, on_world, on_members, refuse, on_room}
use ssh_chat.Host.Private.{
  msg, reply_to, whois_command, version_command, uptime_command, motd_command,
}
use ssh_chat.Host.Moderation.{kick, ban_command, banned_command, op_command}
use ssh_chat.Host.Rename.{rename_command}
use ssh_chat.Host.Allowlist.{allowlist_command}

-- The handlers of the host's registry: those of a room, and the host's own.
pub data HostAction : Type 0 where
  in_room : Action → HostAction
  msg_action reply_action whois_action version_action uptime_action motd_action : HostAction
  kick_action ban_action banned_action op_action rename_action allowlist_action : HostAction

abbrev command : Bool → Text → Text → Text → HostAction → Command HostAction
command op prefix prefix_help help action = record {
  prefix = prefix;
  prefix_help = prefix_help;
  help = help;
  op = op;
  handler = action;
}

-- What the host registers, in order.
abbrev pub host_commands : List (Command HostAction)
host_commands =
    command false (codes "/msg") (codes "USER MESSAGE") (codes "Send MESSAGE to USER.") msg_action
    ∷ command false (codes "/reply") (codes "MESSAGE")
        (codes "Reply with MESSAGE to the previous private message.") reply_action
    ∷ command false (codes "/whois") (codes "USER") (codes "Information about USER.") whois_action
    ∷ command false (codes "/version") [] [] version_action
    ∷ command false (codes "/uptime") [] [] uptime_action
    ∷ command true (codes "/kick") (codes "USER") (codes "Kick USER from the server.") kick_action
    ∷ command true (codes "/ban") (codes "QUERY [DURATION]")
        (codes
          "Ban from the server. QUERY can be a username to ban the fingerprint and ip, or quoted \"key=value\" pairs with keys like ip, fingerprint, client.")
        ban_action
    ∷ command true (codes "/banned") [] (codes "List the current ban conditions.") banned_action
    ∷ command true (codes "/motd") (codes "[MESSAGE]")
        (codes "Set a new MESSAGE of the day, or print the motd if no MESSAGE.") motd_action
    ∷ command true (codes "/op") (codes "USER [DURATION|remove]")
        (codes "Set USER as admin. Duration only applies to pubkey reconnects.") op_action
    ∷ command true (codes "/rename") (codes "USER NEW_NAME [SYMBOL]")
        (codes "Rename USER to NEW_NAME, add optional SYMBOL prefix") rename_action
    ∷ command true (codes "/allowlist") (codes "COMMAND [ARGS...]")
        (codes "Modify the allowlist or allowlist state. See /allowlist help for subcommands")
        allowlist_action
    ∷ []

-- `h.commands`: `chat.InitCommands`, and then `Host.InitCommands`.
unfoldable pub commands : Commands HostAction
unfolding init_commands add_all
commands = add_all (init_commands in_room []) host_commands

module _ (x : Externals) (o : Outside x) where
  -- The handler of a command.
  unfoldable pub handler : HostAction → HostHandler x
  unfolding on_room
  handler (in_room a) = on_room x (perform commands a)
  handler msg_action = msg x
  handler reply_action = reply_to x
  handler whois_action = whois_command x o
  handler version_action = version_command x
  handler uptime_action = uptime_command x o
  handler motd_action = motd_command x
  handler kick_action = kick x
  handler ban_action = ban_command x o
  handler banned_action = banned_command x
  handler op_action = op_command x
  handler rename_action = rename_command x o
  handler allowlist_action = allowlist_command x o

  -- `Commands.Run` on the host.
  unfoldable pub run_command : HostHandler x
  unfolding handler
  run_command env h req = elim (lookup req.command commands) [
    | none ↦ refuse x h err_invalid_command
    | some cmd ↦ handler cmd.handler env h req
  ]

  -- What is run for a message, which is a command.
  unfoldable pub run_message : Ambient → ℕ → Host x → Message → HostOutcome x
  unfolding run_command
  run_message env now h (command_msg u body t name args) =
      run_command (record env { now = now }) h
        (record { from = u; body = body; command = name; args = args })
  run_message env now h m = (h, none)

  -- What a room calls for a message, with the rest of the host as it is.
  unfoldable pub room_view : Ambient → Host x → Room.Commands
  unfolding run_message
  room_view env h now w m = let (h', e) = run_message env now (on_world x h w) m in (h'.world, e)

  -- The command branch of `HandleMsg`.
  unfoldable pub dispatch_command : Ambient → ℕ → Host x → Message → Host x
  unfolding run_message
  dispatch_command env now h m =
      let (h', e) = run_message env now h m in
      elim e [
        | none ↦ h'
        | some text ↦ elim (from m) [
          | none ↦ h'
          | some u ↦ on_world x h' (record h'.world {
            spawned = h'.world.spawned ++ system_msg u (codes "Err: " ++ text) now ∷ [];
          })
        ]
      ]

  -- The members were asked for the sender of a command: one from nobody in the room, or from a muted
  -- member, is dropped.
  unfoldable pub handle_command_from :
      Ambient → ℕ → Host x → Message → Set ℕ × Result SetError (Item ℕ) → Host x
  unfolding dispatch_command member_of
  handle_command_from env now h m (s, err e) = on_members x h s
  handle_command_from env now h m (s, ok it) =
      let h' = on_members x h s in
      elim (member_of (value now it)) [
        | none ↦ dispatch_command env now h' m
        | some p ↦ if (h'.world.member p).is_muted then h' else dispatch_command env now h' m
      ]

  -- `HandleMsg` of a command.
  unfoldable pub handle_command : Ambient → ℕ → Host x → Message → Host x
  unfolding dispatch_command handle_command_from
  handle_command env now h m =
      ite (text_discrete (from_id_of h.world m) []) (dispatch_command env now h m)
        (handle_command_from env now h m (Set.get now h.world.room.members (from_id_of h.world m)))

  -- `HandleMsg` on the host: a message that is no command changes the room alone.
  unfoldable pub handle_msg : Ambient → ℕ → Host x → Message → Host x
  unfolding handle_command room_view
  handle_msg env now h m =
      if is_command (kind m)
      then handle_command env now h m
      else on_world x h (Room.handle_msg (room_view env h) now h.world m)
