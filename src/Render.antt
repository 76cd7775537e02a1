-- ===== src/Render.antt =====
-- chat/message/message.go and chat/message/user.go: the text that a user's screen is written for a
-- message. Messages name their users by pointers into a store. What package regexp makes of the
-- highlighting expression of a name, and how package time prints a time, are parameters.
use ssh_chat.Prelude.{
  ℕ, Bool, not, if◌then◌else◌, ◌==◌, ltb, Option, none, some, [], ◌++◌, Text, codes, Run, panics,
  returns,
}
use ssh_chat.Prelude.Int.{ℤ}
use ssh_chat.Set.{Set, is_in}
use ssh_chat.Set
use ssh_chat.Message.{
  Message, public_msg, emote_msg, private_msg, system_msg, announce_msg, command_msg,
}
use ssh_chat.User.{User, UserConfig, colored}
use ssh_chat.User
use ssh_chat.Theme.{Theme, newline, bel, color_pm, color_sys, highlighted, timestamp}

-- The store of users.
abbrev pub Users : Type 0
Users = ℕ → User

-- `PublicMsg.Render`, with `PublicMsg.String` for no theme.
unfoldable pub render_public : Option Theme → User → Text → Text
render_public none u body = User.name u ++ (codes ": " ++ body)
render_public (some t) u body = colored u t ++ (codes ": " ++ body)

-- `PrivateMsg.Render`.
unfoldable pub render_private : Option Theme → User → Text → Text
render_private none u body = codes "[PM from " ++ (u.id ++ (codes "] " ++ body))
render_private (some t) u body =
    color_pm t (codes "[PM from " ++ (User.name u ++ (codes "] " ++ body)))

abbrev sys_colored : Option Theme → Text → Text
sys_colored none s = s
sys_colored (some t) s = color_sys t s

-- `EmoteMsg.Render`, in any theme.
unfoldable pub render_emote : User → Text → Text
render_emote u body = codes "** " ++ (User.name u ++ (codes " " ++ body))

-- `SystemMsg.Render` and `AnnounceMsg.Render`, of what `String` gives.
unfoldable pub render_system : Option Theme → Text → Text
render_system theme body = sys_colored theme (codes "-> " ++ body)

unfoldable pub render_announce : Option Theme → Text → Text
render_announce theme body = sys_colored theme (codes " * " ++ body)

-- `Render` of a message of any kind.
unfoldable pub render_message : Users → Option Theme → Message → Text
unfolding render_public render_private render_emote render_system render_announce
render_message users theme (public_msg u body t) = render_public theme (users u) body
render_message users theme (command_msg u body t c args) = render_public theme (users u) body
render_message users theme (emote_msg u body t) = render_emote (users u) body
render_message users theme (private_msg u v body t) = render_private theme (users u) body
render_message users theme (system_msg v body t) = render_system theme body
render_message users theme (announce_msg body t) = render_announce theme body

-- `Timestamp` of a message.
unfoldable pub sent_at : Message → ℕ
sent_at (public_msg u body t) = t
sent_at (command_msg u body t c args) = t
sent_at (emote_msg u body t) = t
sent_at (private_msg u v body t) = t
sent_at (system_msg v body t) = t
sent_at (announce_msg body t) = t

-- `RenderSelf`.
unfoldable pub render_self : UserConfig → User → Text → Text
render_self cfg u body =
    let name : Text = elim cfg.theme [ none ↦ User.name u | some t ↦ colored u t ] in
    codes "[" ++ (name ++ (codes "] " ++ body))

-- For the expression made of a name: `MatchString`, and `ReplaceAllString` by a text around the
-- match. For a time: its text in a format and a time zone, or in UTC.
pub record Printing : Type 0 where
  pub matches : Text → Text → Bool
  pub replace_all : Text → Text → Text → Text
  pub show_time : Text → Option ℤ → ℕ → Text

module _ (printing : Printing) where
  -- `RenderFor`.
  unfoldable pub render_for : UserConfig → User → Text → Text
  unfolding render_public
  render_for cfg u body = elim cfg.highlight [
    | none ↦ render_public cfg.theme u body
    | some name ↦ elim cfg.theme [
      | none ↦ render_public none u body
      | some t ↦
          if not (printing.matches name body)
          then render_public (some t) u body
          else (let marked = printing.replace_all name body (highlighted t (codes "${1}")) in
              let rung = if cfg.bell then marked ++ bel else marked in
              colored u t ++ (codes ": " ++ rung))
    ]
  ]

  -- The end of `render`: the timestamp and the new line. The theme of a user that has a time format
  -- and no theme is a nil pointer, which panics.
  unfoldable pub stamped : UserConfig → ℕ → Text → Run Text
  stamped cfg t out = elim cfg.timeformat [
    | none ↦ returns (out ++ newline)
    | some format ↦ elim cfg.theme [
      | none ↦ panics
      | some theme ↦ returns (
          timestamp theme (printing.show_time format cfg.timezone t)
          ++ (codes "  " ++ (out ++ newline)))
    ]
  ]

  abbrev pub set_at : Users → ℕ → User → Users
  set_at users u v = λ i. if u == i then v else users i

  -- The case of `render` for a public message from `v`. It may drop an expired focus.
  unfoldable pub render_public_for : ℕ → Users → ℕ → ℕ → Text → ℕ → Users × Run Text
  unfolding stamped render_for render_self
  render_public_for now users u v body t =
      let cfg = (users u).config in
      if u == v
      then (let users' = set_at users u (record (users u) { last_msg = t }) in
          (
            users',
            if not cfg.echo then returns [] else stamped cfg t (render_self cfg (users' v) body),
          ))
      else if ltb 0 (Set.len (users u).focused)
      then (let (s, focused) = is_in now (users u).focused (users v).id in
          let users' = set_at users u (record (users u) { focused = s }) in
          (
            users',
            if not focused then returns [] else stamped cfg t (render_for cfg (users' v) body),
          ))
      else (users, stamped cfg t (render_for cfg (users v) body))

  -- `render` for the user `u`.
  unfoldable pub render : ℕ → Users → ℕ → Message → Users × Run Text
  unfolding render_public_for stamped render_self render_message sent_at
  render now users u (public_msg v body t) = render_public_for now users u v body t
  render now users u (private_msg v w body t) =
      let cfg = (users u).config in
      let out = render_message users cfg.theme (private_msg v w body t) in
      (users, stamped cfg t (if cfg.bell then out ++ bel else out))
  render now users u (command_msg v body t c args) =
      (users, stamped (users u).config t (render_self (users u).config (users v) body))
  render now users u m =
      (users, stamped (users u).config (sent_at m) (render_message users (users u).config.theme m))

  -- `writeMsg`, which closes the user if the screen refuses what it is written.
  unfoldable pub write_msg : ℕ → Users → ℕ → Message → Bool → Users × Run Text
  unfolding render
  write_msg now users u m refused =
      let (users', r) = render now users u m in
      (if refused then set_at users' u (User.close (users' u)) else users', r)
