-- ===== src/Commands/Builtin.antt =====
-- chat/command.go: `InitCommands`, which registers the commands of a room.
use ssh_chat.Prelude.{none, true, false, List, [], ◌∷◌, map, Text, codes}
use ssh_chat.Commands.{Command, Commands, Handler, Ambient, add, alias, run}
use ssh_chat.Commands.Talk.{help, me, exit, nick, names, slap, shrug, away, back}
use ssh_chat.Commands.Settings.{set_theme, quiet, timestamp}
use ssh_chat.Commands.Members.{ignore, unignore, focus, mute}
use ssh_chat.Room
use ssh_chat.Message.{command_msg}

-- The handlers, by the command that they were written for.
pub data Action : Type 0 where
  help_action me_action exit_action nick_action names_action theme_action : Action
  quiet_action slap_action shrug_action timestamp_action ignore_action : Action
  unignore_action focus_action away_action back_action mute_action : Action

-- The handler itself, in a room with the registry `c`.
unfoldable pub perform : {A : Type 0} → Commands A → Action → Handler
unfolding help me exit nick names set_theme quiet slap shrug timestamp ignore unignore focus away
    back mute
perform c help_action = help c
perform c me_action = me
perform c exit_action = exit
perform c nick_action = nick
perform c names_action = names
perform c theme_action = set_theme
perform c quiet_action = quiet
perform c slap_action = slap
perform c shrug_action = shrug
perform c timestamp_action = timestamp
perform c ignore_action = ignore
perform c unignore_action = unignore
perform c focus_action = focus
perform c away_action = away
perform c back_action = back
perform c mute_action = mute

abbrev command : Text → Text → Text → Action → Command Action
command prefix prefix_help help action = record {
  prefix = prefix;
  prefix_help = prefix_help;
  help = help;
  op = false;
  handler = action;
}

-- What is registered, in order.
abbrev pub builtin_commands : List (Command Action)
builtin_commands =
    command (codes "/help") [] [] help_action
    ∷ command (codes "/me") [] [] me_action
    ∷ command (codes "/exit") [] (codes "Exit the chat.") exit_action
    ∷ command (codes "/nick") (codes "NAME") (codes "Rename yourself.") nick_action
    ∷ command (codes "/names") [] (codes "List users who are connected.") names_action
    ∷ command (codes "/theme") (codes "[colors|...]") (codes "Set your color theme.") theme_action
    ∷ command (codes "/quiet") [] (codes "Silence room announcements.") quiet_action
    ∷ command (codes "/slap") (codes "NAME") [] slap_action
    ∷ command (codes "/shrug") [] [] shrug_action
    ∷ command (codes "/timestamp") (codes "[time|datetime]")
        (codes
          "Prefix messages with a timestamp. You can also provide the UTC offset: /timestamp time +5h45m")
        timestamp_action
    ∷ command (codes "/ignore") (codes "[USER]")
        (codes "Hide messages from USER, /unignore USER to stop hiding.") ignore_action
    ∷ command (codes "/unignore") (codes "USER") [] unignore_action
    ∷ command (codes "/focus") (codes "[USER ...]")
        (codes "Only show messages from focused users, or $ to reset.") focus_action
    ∷ command (codes "/away") (codes "[REASON]") (codes "Set away reason, or empty to unset.")
        away_action
    ∷ command (codes "/back") [] (codes "Clear away status.") back_action
    ∷ record {
      prefix = codes "/mute";
      prefix_help = codes "USER";
      help = codes "Toggle muting USER, preventing messages from broadcasting.";
      op = true;
      handler = mute_action;
    }
    ∷ []

unfoldable pub add_all : {A : Type 0} → Commands A → List (Command A) → Commands A
unfolding add
add_all c [] = c
add_all c (cmd ∷ cmds) = add_all (add c cmd).0 cmds

-- A command with its handler in a larger type of handlers.
abbrev retag : {A : Type 0} → (Action → A) → Command Action → Command A
retag tag cmd = record {
  prefix = cmd.prefix;
  prefix_help = cmd.prefix_help;
  help = cmd.help;
  op = cmd.op;
  handler = tag cmd.handler;
}

-- `InitCommands`. Its two aliases are added after the commands that they stand for.
unfoldable pub init_commands : {A : Type 0} → (Action → A) → Commands A → Commands A
unfolding add_all alias
init_commands tag c =
    let registered = add_all c (map (retag tag) builtin_commands) in
    let with_quit = (alias registered (codes "/exit") (codes "/quit")).0 in
    (alias with_quit (codes "/names") (codes "/list")).0

-- `defaultCommands`.
unfoldable pub default_commands : Commands Action
unfolding init_commands
default_commands = init_commands (λ a. a) []

-- What `Room.HandleMsg` calls for a command message.
unfoldable pub room_commands : {A : Type 0} → (A → Handler) → Commands A → Ambient → Room.Commands
unfolding run
room_commands performs c env now w (command_msg u body t name args) =
    run performs c (record env { now = now }) w
      (record { from = u; body = body; command = name; args = args })
room_commands performs c env now w m = (w, none)
