-- ===== src/Host/Connect.antt =====
-- host.go: `Connect`, which serves one terminal: the user joins the room, its lines are handled one
-- by one, and it leaves. The lines are given with the times at which they are read, and with what
-- counts them, the limiter of package rateio. What runs beside it, and `OnUserJoined`, is left out.
pub mod Lines
use ssh_chat.Prelude.{
  ℕ, suc, Bool, true, false, not, ◌&&◌, ◌==◌, if◌then◌else◌, ite, ltb, Option, none, some, List, [],
  ◌∷◌, ◌++◌, length, Text, codes, text_discrete, to_lower, decimal, Run, panics, returns, Result,
  ok, err,
}
use ssh_chat.Auth.{Externals}
use ssh_chat.Sanitize
use ssh_chat.Message.{Message, announce_msg, system_msg, parse_command, parse_input, kind}
use ssh_chat.Theme.{mono_theme}
use ssh_chat.User.{
  User, UserConfig, new_user, set_config, set_highlight, get_prompt, default_user_config,
}
use ssh_chat.User
use ssh_chat.Room.{World, set_user, set_member, send_to, is_command}
use ssh_chat.Room
use ssh_chat.Session.{EnvVar}
use ssh_chat.Commands.{Ambient}
use ssh_chat.Host.{Connection, Outside, Host, on_world, is_op}
use ssh_chat.Host.Registry.{handle_msg}

abbrev pub max_input_length : ℕ
max_input_length = 1024

-- The commands that a variable of the environment stands for.
unfoldable pub env_command : EnvVar → Option Text
env_command e =
    ite (text_discrete e.key (codes "SSHCHAT_TIMESTAMP"))
      (if ite (text_discrete e.value []) true false
        then none
        else ite (text_discrete e.value (codes "0")) none (
            ite (text_discrete e.value (codes "1")) (some (codes "/timestamp"))
              (some (codes "/timestamp" ++ (codes " " ++ e.value)))))
      (ite (text_discrete e.key (codes "SSHCHAT_THEME")) (some (codes "/theme " ++ e.value)) none)

module _ (x : Externals) (o : Outside x) (env : Ambient) where
  abbrev user_of : Host x → ℕ → User
  user_of h u = h.world.users u

  abbrev with_user : Host x → ℕ → User → Host x
  with_user h u v = on_world x h (set_user h.world u v)

  -- `strings.ToLower(term.Term()) == "bot"`.
  unfoldable pub api_mode : Text → Bool
  api_mode term = ite (text_discrete (to_lower x.lower_beyond term) (codes "bot")) true false

  -- `NewIdentity` and `NewUserScreen`, with the callback and the settings, at the free pointer `u`.
  -- The theme of the host is copied, where Go keeps a pointer to it.
  unfoldable pub new_arrival : ℕ → Host x → Connection x → Bool → User
  unfolding new_user set_config
  new_arrival now h conn api =
      let user = record (new_user x.lower_beyond now env.color_idx (Sanitize.name conn.name)) {
        hooked = true;
      } in
      let cfg : UserConfig =
        if api
        then record default_user_config { theme = some mono_theme; echo = false }
        else record default_user_config { theme = some h.theme } in
      set_config user cfg

  -- The count of connections, and the message of the day.
  unfoldable pub welcome : ℕ → Host x → ℕ → Bool → Host x
  unfolding send_to
  welcome now h u api =
      let h' = record h { count = suc h.count } in
      if ite (text_discrete h.motd []) false true && not api
      then on_world x h' (send_to h'.world u (announce_msg h.motd now))
      else h'

  -- `Join`, and again under the name of a guest if that fails: the member, if there is one.
  unfoldable pub join_as : ℕ → Host x → ℕ → ℕ → Host x × Option ℕ
  unfolding set_user
  join_as now h u count =
      let (w, r) = Room.join now h.world u in
      elim r [
        | ok p ↦ (on_world x h w, some p)
        | err e ↦
            let guest = record (w.users u) { id = codes "Guest" ++ decimal count } in
            let (w', r') = Room.join now (set_user w u guest) u in
            (on_world x h w', elim r' [ ok p ↦ some p | err e' ↦ none ])
      ]

  -- The message that a text is parsed as, if it is a command, is handled.
  unfoldable pub run_text : ℕ → Host x → ℕ → Text → Run (Host x)
  unfolding handle_msg
  run_text now h u text = elim (parse_command u text now) [
    | panics ↦ panics
    | returns none ↦ returns h
    | returns (some m) ↦ returns (handle_msg x o env now h m)
  ]

  -- The settings in the environment.
  unfoldable pub load_env : ℕ → Host x → ℕ → List EnvVar → Run (Host x)
  unfolding env_command run_text
  load_env now h u [] = returns h
  load_env now h u (e ∷ vars) = elim (env_command e) [
    | none ↦ load_env now h u vars
    | some text ↦ elim (run_text now h u text) [
      | panics ↦ panics
      | returns h' ↦ load_env now h' u vars
    ]
  ]

  -- What follows for a user that has joined as the member `p`.
  unfoldable pub settle_in : ℕ → Host x → ℕ → ℕ → Connection x → Bool → Host x
  unfolding set_highlight get_prompt is_op set_member
  settle_in now h u p conn api =
      let user = user_of h u in
      let h1 =
        if api
        then h
        else with_user h u
            (set_highlight (record user { prompt = get_prompt user }) (User.name user)) in
      let (h2, op) = is_op x now h1 conn in
      if op
      then on_world x h2 (set_member h2.world p (record (h2.world.member p) { is_op = true }))
      else h2

  -- A message to the user alone.
  abbrev warn : ℕ → Host x → ℕ → Text → Host x
  warn now h u text = on_world x h (send_to h.world u (system_msg u text now))

  -- What is done with a message, which a user of no program is shown first if it is a command.
  unfoldable pub handle_input : ℕ → Host x → ℕ → Bool → Message → Host x
  unfolding handle_msg
  handle_input now h u api m =
      let h' =
        if not api && is_command (kind m)
        then record h { echoed = h.echoed ++ (u, m) ∷ [] }
        else h in
      handle_msg x o env now h' m

  -- The arrival of a user, up to its attempts to join.
  unfoldable pub arrived : ℕ → Host x → ℕ → Connection x → Text → Host x × Option ℕ
  unfolding api_mode new_arrival welcome join_as
  arrived now h u conn term =
      let api = api_mode term in
      let h' = record (with_user h u (new_arrival now h conn api)) {
        conn = λ i. if u == i then conn else h.conn i;
      } in
      join_as now (welcome now h' u api) u h.count

  module _ {L : Type 0} (count : ℕ → L → L × Bool) where
    -- One round of the loop over the lines, without what it draws on the terminal, where `count` is `ratelimit.Count(1)`, true if it is an
    -- error.
    unfoldable pub take_line : Host x → L → ℕ → Bool → ℕ × Text → Run (Host x × L)
    unfolding handle_input
    take_line h l u api (now, line) =
        let (l', limited) = count now l in
        if limited
        then returns (warn now h u (codes "Message rejected: Rate limiting is in effect."), l')
        else if ltb max_input_length (length line)
        then returns (warn now h u (codes "Message rejected: Input too long."), l')
        else ite (text_discrete line []) (returns (h, l')) (elim (parse_input u line now) [
          | panics ↦ panics
          | returns m ↦ returns (handle_input now h u api m, l')
        ])

    unfoldable pub take_lines : Host x → L → ℕ → Bool → List (ℕ × Text) → Run (Host x)
    unfolding take_line
    take_lines h l u api [] = returns h
    take_lines h l u api (line ∷ lines) = elim (take_line h l u api line) [
      | panics ↦ panics
      | returns (h', l') ↦ take_lines h' l' u api lines
    ]

    -- The deferred calls, which close the user; the terminal is closed with it.
    unfoldable pub finish : Host x → ℕ → Host x
    finish h u = with_user h u (User.close (user_of h u))

    -- The end of `Connect` for a user in the room.
    unfoldable pub leave_room : Host x → ℕ → ℕ → Host x
    unfolding finish
    leave_room h u last =
        let (w, e) = Room.leave last (o.since last (user_of h u).joined) h.world u in
        finish (on_world x h w) u

    -- `Connect`, for a terminal with its name, its environment and its lines, the last of which is
    -- read at `last`.
    unfoldable pub connect :
        ℕ → Host x → L → ℕ → Connection x → Text → List EnvVar → List (ℕ × Text) → ℕ → Run (Host x)
    unfolding api_mode arrived load_env settle_in take_lines finish leave_room
    connect now h l u conn term vars lines last =
        let api = api_mode term in
        let (h1, joined) = arrived now h u conn term in
        elim joined [
          | none ↦ returns (finish h1 u)
          | some p ↦ elim (load_env now h1 u vars) [
            | panics ↦ panics
            | returns h2 ↦ elim (take_lines (settle_in now h2 u p conn api) l u api lines) [
              | panics ↦ panics
              | returns h3 ↦ returns (leave_room h3 u last)
            ]
          ]
        ]
