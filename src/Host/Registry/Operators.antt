-- ===== src/Host/Registry/Operators.antt =====
-- Who may run the commands for operators.
use ssh_chat.Prelude.{
  ◌≡◌, ◌≢◌, refl, Bool, true, false, none, some, List, [], ◌∷◌, Text, text_discrete, lookup, assign,
  not, ◌&&◌, ◌||◌, ◌≡◌, after, result, arith,
}
use ssh_chat.Auth.{Externals}
use ssh_chat.Room
use ssh_chat.Commands.{Command, Commands, Request, Ambient}
use ssh_chat.Commands.Builtin.{mute_action, perform}
use ssh_chat.Commands.Members.{mute}
use ssh_chat.Host.{Outside, Host, HostOutcome, on_world, as_op}
use ssh_chat.Host.Moderation.{
  kick_args, ban_args, banned_list, op_args, kick, ban_command, banned_command, op_command,
}
use ssh_chat.Host.Private.{motd_command, motd_args}
use ssh_chat.Host.Rename.{rename_args, rename_command}
use ssh_chat.Host.Allowlist.{allowlist_args, allowlist_command}
use ssh_chat.Host.Registry.{
  HostAction, in_room, motd_action, kick_action, ban_action, banned_action, op_action,
  rename_action, allowlist_action, handler, commands, run_command,
}

-- The handlers that an operator alone may run with these arguments: those of the commands that are
-- registered for operators. Without arguments, /motd is for everybody.
pub for_operators : HostAction → List Text → Bool
for_operators (in_room mute_action) args = true
for_operators kick_action args = true
for_operators ban_action args = true
for_operators banned_action args = true
for_operators motd_action [] = false
for_operators motd_action (word ∷ words) = true
for_operators op_action args = true
for_operators rename_action args = true
for_operators allowlist_action args = true
for_operators _ args = false

-- Every command of the registry that is for operators has such a handler.
guarded : Commands HostAction → Bool
guarded [] = true
guarded ((k, cmd) ∷ c) =
    let rest = guarded c in (not cmd.op || for_operators cmd.handler ([] ∷ [])) && rest

for_operators-any :
    (a : HostAction) (args : List Text)
    → for_operators a ([] ∷ []) ≡ true
    → args ≢ []
    → for_operators a args ≡ true
unfolding for_operators
for_operators-any motd_action [] f n = absurd (n refl)
for_operators-any motd_action (word ∷ words) f n = refl
for_operators-any (in_room mute_action) args f n = refl
for_operators-any kick_action args f n = refl
for_operators-any ban_action args f n = refl
for_operators-any banned_action args f n = refl
for_operators-any op_action args f n = refl
for_operators-any rename_action args f n = refl
for_operators-any allowlist_action args f n = refl
for_operators-any _ args f n = ground (arith, f)

guarded-lookup :
    (k : Text) (c : Commands HostAction) (cmd : Command HostAction) (args : List Text)
    → guarded c ≡ true
    → lookup k c ≡ some cmd
    → cmd.op ≡ true
    → args ≢ []
    → for_operators cmd.handler args ≡ true
unfolding guarded lookup
guarded-lookup k [] cmd args g f op n = ground (arith, f)
guarded-lookup k ((j, other) ∷ c) cmd args g f op n =
    ground (arith, guarded-lookup k c cmd args, for_operators-any other.handler args)

commands-guarded : guarded commands ≡ true
unfolding guarded commands for_operators assign text_discrete lookup
commands-guarded = refl

module _ (x : Externals) (o : Outside x) (env : Ambient) (h : Host x) (req : Request) where
  -- The host after a refusal: expired members may be gone from the room.
  abbrev pub asked : Host x
  asked = on_world x h (after (Room.is_op env.now h.world req.from))

  as_op-refused :
      (rest : Host x → HostOutcome x)
      → result (Room.is_op env.now h.world req.from) ≡ false
      → (after (as_op x env h req.from rest) ≡ asked)
        × (result (as_op x env h req.from rest) ≢ none)
  unfolding as_op
  as_op-refused rest e = rw (e, as_op) (refl, λ n. ground (arith, n))

  motd_args-refused :
      (args : List Text)
      → for_operators motd_action args ≡ true
      → result (Room.is_op env.now h.world req.from) ≡ false
      → (after (motd_args x env h req.from args) ≡ asked)
        × (result (motd_args x env h req.from args) ≢ none)
  unfolding for_operators motd_args
  motd_args-refused [] f e = ground (arith, f)
  motd_args-refused (word ∷ words) f e = rw (e, motd_args) (refl, λ n. ground (arith, n))

  handler-refused :
      (a : HostAction)
      → for_operators a req.args ≡ true
      → result (Room.is_op env.now h.world req.from) ≡ false
      → (after (handler x o a env h req) ≡ asked) × (result (handler x o a env h req) ≢ none)
  unfolding for_operators handler mute perform motd_command motd_args kick ban_command
      banned_command op_command rename_command allowlist_command
  handler-refused (in_room mute_action) f e = rw (e, handler, mute) (refl, λ n. ground (arith, n))
  handler-refused kick_action f e = as_op-refused (kick_args x env req.from req.args) e
  handler-refused ban_action f e = as_op-refused (ban_args x o env req.from req.args) e
  handler-refused banned_action f e = as_op-refused (banned_list x env req.from) e
  handler-refused op_action f e = as_op-refused (op_args x env req.from req.args) e
  handler-refused rename_action f e = as_op-refused (rename_args x o env req.from req.args) e
  handler-refused allowlist_action f e = as_op-refused (allowlist_args x o env req.from req.args) e
  handler-refused motd_action f e = motd_args-refused req.args f e
  handler-refused _ f e = ground (arith, f)

  -- A user that is no operator of the room changes nothing on the host by a command that is
  -- registered for operators, run with an argument: the command fails, and the host is left as the
  -- question whether the user is an operator leaves it.
  pub run_command-refused :
      (cmd : Command HostAction)
      → lookup req.command commands ≡ some cmd
      → cmd.op ≡ true
      → req.args ≢ []
      → result (Room.is_op env.now h.world req.from) ≡ false
      → (after (run_command x o env h req) ≡ asked) × (result (run_command x o env h req) ≢ none)
  unfolding run_command
  run_command-refused cmd found op n e =
      rw (found, run_command)
        (handler-refused cmd.handler
          (guarded-lookup req.command commands cmd req.args commands-guarded found op n) e)
