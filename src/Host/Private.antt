-- ===== src/Host/Private.antt =====
-- host.go: the handlers of /msg, /reply, /whois, /version, /uptime and /motd.
use ssh_chat.Prelude.{
  ℕ, not, if◌then◌else◌, ite, none, some, List, [], ◌∷◌, ◌++◌, Text, codes, text_discrete,
  join_with, Result, ok, err,
}
use ssh_chat.Auth.{Externals}
use ssh_chat.Message.{private_msg, system_msg}
use ssh_chat.Theme.{newline}
use ssh_chat.User
use ssh_chat.Room.{set_user}
use ssh_chat.Room
use ssh_chat.Commands.{Ambient}
use ssh_chat.Host.{
  Outside, Host, HostOutcome, HostHandler, on_world, refuse, tell, announce, set_motd, get_user,
  shown,
}
use ssh_chat.Host.Whois.{whois, whois_admin}

module _ (x : Externals) where
  -- `sendPM`.
  unfoldable pub send_pm : Ambient → Host x → Text → ℕ → ℕ → HostOutcome x
  send_pm env h body u target =
      let w1 = Room.send h.world (private_msg u target body env.now) in
      let (is_away, since, reason) = User.get_away (h.world.users target) in
      let sent = codes "[Sent PM to " ++ (shown x h target ++ codes "]") in
      let text = if is_away then sent ++ (codes " Away: " ++ reason) else sent in
      let w2 = Room.send w1 (system_msg u text env.now) in
      (on_world x h (set_user w2 target (User.set_reply_to (w2.users target) (some u))), none)

  unfoldable pub msg_args : Ambient → Host x → ℕ → List Text → HostOutcome x
  unfolding send_pm
  msg_args env h u [] = refuse x h (codes "must specify user")
  msg_args env h u (name ∷ []) = refuse x h (codes "must specify message")
  msg_args env h u (name ∷ word ∷ words) =
      let (h', r) = get_user x env.now h name in
      elim r [
        | none ↦ refuse x h' (codes "user not found")
        | some target ↦ send_pm env h' (join_with (word ∷ words) (codes " ")) u target
      ]

  unfoldable pub msg : HostHandler x
  unfolding msg_args
  msg env h req = msg_args env h req.from req.args

  unfoldable pub reply_args : Ambient → Host x → ℕ → List Text → HostOutcome x
  unfolding send_pm
  reply_args env h u [] = refuse x h (codes "must specify message")
  reply_args env h u (word ∷ words) = elim (h.world.users u).reply_to [
    | none ↦ refuse x h (codes "no message to reply to")
    | some target ↦
        let (h', r) = get_user x env.now h (h.world.users target).id in
        elim r [
          | none ↦ refuse x h' (codes "user not found")
          | some other ↦ send_pm env h' (join_with (word ∷ words) (codes " ")) u target
        ]
  ]

  unfoldable pub reply_to : HostHandler x
  unfolding reply_args
  reply_to env h req = reply_args env h req.from req.args

  -- /whois, which says more to an operator.
  unfoldable pub whois_args : Outside x → Ambient → Host x → ℕ → List Text → HostOutcome x
  unfolding whois whois_admin tell
  whois_args o env h u [] = refuse x h (codes "must specify user")
  whois_args o env h u (name ∷ args) =
      let (h', r) = get_user x env.now h name in
      elim r [
        | none ↦ refuse x h' (codes "user not found")
        | some target ↦
            let (w, op) = Room.is_op env.now h'.world u in
            let (h'', text) =
              if op
              then whois_admin x o env.now (on_world x h' w) target
              else whois x o env.now (on_world x h' w) target in
            tell x env h'' u text
      ]

  unfoldable pub whois_command : Outside x → HostHandler x
  unfolding whois_args
  whois_command o env h req = whois_args o env h req.from req.args

  unfoldable pub version_command : HostHandler x
  unfolding tell
  version_command env h req = tell x env h req.from h.version

  unfoldable pub uptime_command : Outside x → HostHandler x
  unfolding tell
  uptime_command o env h req = tell x env h req.from (o.since env.now h.time_started)

  -- The text that /motd sets: its arguments, or what `GetMOTD` returns if they are `@`.
  unfoldable pub new_motd : ℕ → Host x → Text → Result Text Text
  new_motd now h s =
      ite (text_discrete s (codes "@"))
        (elim h.get_motd [ none ↦ err (codes "motd reload not set") | some f ↦ f now ]) (ok s)

  unfoldable pub motd_args : Ambient → Host x → ℕ → List Text → HostOutcome x
  unfolding tell announce new_motd set_motd
  motd_args env h u [] = tell x env h u h.motd
  motd_args env h u (word ∷ words) =
      let (w, op) = Room.is_op env.now h.world u in
      let h' = on_world x h w in
      if not op
      then refuse x h' (codes "must be OP to modify the MOTD")
      else elim (new_motd env.now h' (join_with (word ∷ words) (codes " "))) [
        | err e ↦ refuse x h' e
        | ok s ↦ announce x env (set_motd x h' s) (
            codes "New message of the day set by "
            ++ (shown x h' u ++ (codes ":" ++ (newline ++ (codes "-> " ++ s)))))
      ]

  unfoldable pub motd_command : HostHandler x
  unfolding motd_args
  motd_command env h req = motd_args env h req.from req.args
