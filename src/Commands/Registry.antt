-- ===== src/Commands/Registry.antt =====
-- How the registry of chat/command.go finds the handler of a command, also from `Room.HandleMsg`.
use ssh_chat.Prelude.{
  ℕ, ◌≡◌, ◌≢◌, refl, sym, ap, ◌∙◌, false, ite, if_pos, if_neg, Option, none, some, List, [], ◌∷◌,
  ◌++◌, Text, codes, text_discrete, lookup, assign, lookup-assign,
}
use ssh_chat.Message.{command_msg, system_msg, kind, from}
use ssh_chat.Room.{World, handle_msg, dispatch, from_id_of}
use ssh_chat.Room.Broadcast.{Present, handle_msg-Present}
use ssh_chat.Commands.{
  Command, Commands, Handler, Request, Ambient, err_invalid_command, alias, run,
}
use ssh_chat.Commands.Builtin.{room_commands}

run_found :
    {A : Type 0} (perform : A → Handler) (c : Commands A) (cmd : Command A) (env : Ambient)
    (w : World) (req : Request)
    → lookup req.command c ≡ some cmd
    → run perform c env w req ≡ perform cmd.handler env w req
unfolding run
run_found perform c cmd env w req e = rw (e, run) refl

run_same :
    {A : Type 0} (perform : A → Handler) (c c' : Commands A) (env : Ambient) (w : World)
    (req : Request)
    → lookup req.command c ≡ lookup req.command c'
    → run perform c env w req ≡ run perform c' env w req
unfolding run
run_same perform c c' env w req e = rw (e, run) refl

alias_found :
    {A : Type 0} (c : Commands A) (name other : Text) (cmd : Command A)
    → lookup name c ≡ some cmd
    → (alias c name other).0 ≡ assign other cmd c
unfolding alias
alias_found c name other cmd e = rw (e, alias) refl

-- After `Alias` of a command that is there, the other name runs the handler of that command, and
-- every other name what it ran before.
pub run-alias :
    {A : Type 0} (perform : A → Handler) (c : Commands A) (name other : Text) (cmd : Command A)
    (env : Ambient) (w : World) (req : Request)
    → lookup name c ≡ some cmd
    → run perform (alias c name other).0 env w req
      ≡ ite
          (text_discrete other req.command)
          (perform cmd.handler env w req)
          (run perform c env w req)
run-alias perform c name other cmd env w req e =
    rw (alias_found c name other cmd e) (elim (text_discrete other req.command) [
      | yes h ↦
          run_found perform (assign other cmd c) cmd env w req
            (lookup-assign other req.command cmd c ∙ if_pos (text_discrete other req.command) h _ _)
          ∙ sym (if_pos (text_discrete other req.command) h _ _)
      | no h ↦
          run_same perform (assign other cmd c) c env w req
            (lookup-assign other req.command cmd c ∙ if_neg (text_discrete other req.command) h _ _)
          ∙ sym (if_neg (text_discrete other req.command) h _ _)
    ])

unknown_fails :
    {A : Type 0} (perform : A → Handler) (c : Commands A) (env : Ambient) (now : ℕ) (w : World)
    (u t : ℕ) (body name : Text) (args : List Text)
    → lookup name c ≡ none
    → room_commands perform c env now w (command_msg u body t name args)
      ≡ (w, some err_invalid_command)
unfolding room_commands run
unknown_fails perform c env now w u t body name args e = rw (e, run) refl

-- A command that is not registered changes nothing in the room but that a message with the error
-- for its sender is handed to `HandleMsg`, if the sender is in the room and not muted.
pub handle_msg-unknown_command :
    {A : Type 0} (perform : A → Handler) (c : Commands A) (env : Ambient) (now : ℕ) (w : World)
    (u t : ℕ) (body name : Text) (args : List Text) (p : ℕ) (k : Text)
    → let run = room_commands perform c env in
      let m = command_msg u body t name args in
      from_id_of w m ≢ []
      → Present run now w m k p
      → (w.member p).is_muted ≡ false
      → lookup name c ≡ none
      → handle_msg run now w m ≡ record w {
        spawned = w.spawned ++ system_msg u (codes "Err: " ++ err_invalid_command) now ∷ [];
      }
unfolding room_commands run dispatch kind from
handle_msg-unknown_command perform c env now w u t body name args p k sent here speaks unknown =
    let m = command_msg u body t name args in
    handle_msg-Present (room_commands perform c env) now w m p k sent here
    ∙ rw speaks (
        ap
          (λ (r : World × Option Text). elim r.1 as (λ e. World) [
            | none ↦ r.0
            | some text ↦ record (r.0) {
              spawned = r.0.spawned ++ system_msg u (codes "Err: " ++ text) now ∷ [];
            }
          ])
          (unknown_fails perform c env now w u t body name args unknown))
