-- ===== src/Host/Whois.antt =====
-- identity.go: `Whois` and `WhoisAdmin`.
use ssh_chat.Prelude.{ℕ, if◌then◌else◌, ◌==◌, none, some, [], ◌++◌, Text, codes}
use ssh_chat.Auth.{Externals, fingerprint}
use ssh_chat.Sanitize
use ssh_chat.Theme.{newline}
use ssh_chat.User.{User}
use ssh_chat.User
use ssh_chat.Room.{World, member_by_id}
use ssh_chat.Room
use ssh_chat.Host.{Connection, Outside, Host, on_world}

module _ (x : Externals) (o : Outside x) where
  abbrev key_text : Connection x → Text
  key_text c = elim c.public_key [ none ↦ codes "(no public key)" | some k ↦ fingerprint x k ]

  -- The line on a user that is away.
  unfoldable pub away_line : ℕ → User → Text
  away_line now u =
      let (is_away, since, reason) = User.get_away u in
      if is_away
      then newline ++ (codes " > away: (" ++ (o.since now since ++ (codes " ago) " ++ reason)))
      else []

  -- The lines from the fingerprint on.
  abbrev client_lines : ℕ → User → Connection x → Text
  client_lines now u c =
      codes " > fingerprint: "
      ++ (key_text c
          ++ (newline
              ++ (codes " > client: "
                  ++ (Sanitize.data_text c.client_version 64
                      ++ (newline
                          ++ (codes " > joined: " ++ (o.since now u.created ++ codes " ago")))))))

  -- `Whois` of the identity of a user.
  unfoldable pub whois : ℕ → Host x → ℕ → Host x × Text
  unfolding away_line
  whois now h u =
      let user = h.world.users u in
      let (w, r) = member_by_id now h.world user.id in
      let away : Text = elim r [ none ↦ [] | some p ↦ away_line now (w.users (w.member p).user) ] in
      (
        on_world x h w,
        codes "name: "
            ++ (User.name user ++ (newline ++ (client_lines now user (h.conn u) ++ away))),
      )

  -- The lines of `WhoisAdmin` on a member.
  unfoldable pub member_lines : ℕ → World → ℕ → World × Text
  unfolding away_line
  member_lines now w p =
      let user = w.users (w.member p).user in
      let (w', op) = Room.is_op now w (w.member p).user in
      (
        w',
        away_line now user
            ++ ((if user.last_msg == 0
                  then []
                  else newline
                    ++ (codes " > room/messaged: " ++ (o.since now user.last_msg ++ codes " ago")))
                ++ (if op then newline ++ codes " > room/op: true" else [])),
      )

  unfoldable pub whois_admin : ℕ → Host x → ℕ → Host x × Text
  unfolding member_lines
  whois_admin now h u =
      let user = h.world.users u in
      let c = h.conn u in
      let (w, r) = member_by_id now h.world user.id in
      let found : World × Text = elim r [ none ↦ (w, []) | some p ↦ member_lines now w p ] in
      (
        on_world x h found.0,
        codes "name: "
            ++ (User.name user
                ++ (newline
                    ++ (codes " > ip: "
                        ++ (x.split_host c.remote_addr
                            ++ (newline ++ (client_lines now user c ++ found.1)))))),
      )
