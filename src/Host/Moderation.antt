-- ===== src/Host/Moderation.antt =====
-- host.go: the handlers of /kick, /ban, /banned and /op.
pub mod Banned
use ssh_chat.Prelude.{
  ℕ, Bool, true, false, if◌then◌else◌, ite, none, some, List, [], ◌∷◌, ◌++◌, Text, codes,
  text_discrete, join_with,
}
use ssh_chat.Prelude.Int.{ℤ, pos}
use ssh_chat.Auth.{Externals, ban, ban_addr, banned_keys, op}
use ssh_chat.Auth.Query.{ban_query, has_equals}
use ssh_chat.Room.{member_by_id, set_member}
use ssh_chat.Commands.{Ambient}
use ssh_chat.Host.{
  Outside, Host, HostOutcome, HostHandler, on_world, refuse, tell, announce, get_user, close_user,
  as_op, shown, duration,
}

module _ (x : Externals) where
  unfoldable pub kick_args : Ambient → ℕ → List Text → Host x → HostOutcome x
  unfolding get_user announce close_user
  kick_args env u [] h = refuse x h (codes "must specify user")
  kick_args env u (name ∷ args) h =
      let (h', r) = get_user x env.now h name in
      elim r [
        | none ↦ refuse x h' (codes "user not found")
        | some target ↦
            let body =
              shown x h' target ++ (codes " was kicked by " ++ (shown x h' u ++ codes ".")) in
            (close_user x (announce x env h' body).0 target, none)
      ]

  unfoldable pub kick : HostHandler x
  unfolding as_op kick_args
  kick env h req = as_op x env h req.from (kick_args env req.from req.args)

  -- How long a user is banned for, after its name.
  abbrev pub ban_duration : Ambient → List Text → ℤ
  ban_duration env [] = pos 0
  ban_duration env (arg ∷ args) = duration x env arg

  -- The rest of /ban, of a user: its key and its address are banned.
  unfoldable pub ban_user : Ambient → ℕ → List Text → Host x → ℕ → HostOutcome x
  unfolding announce close_user
  ban_user env u args h target =
      let until = ban_duration env args in
      let c = h.conn target in
      let by_key = ban x env.now h.auth c.public_key until in
      let h' = record h { auth = ban_addr x env.now by_key (some c.remote_addr) until } in
      let body = shown x h' target ++ (codes " was banned by " ++ (shown x h' u ++ codes ".")) in
      (close_user x (announce x env h' body).0 target, none)

  unfoldable pub ban_args : Outside x → Ambient → ℕ → List Text → Host x → HostOutcome x
  unfolding get_user ban_user
  ban_args o env u [] h = refuse x h (codes "must specify user")
  ban_args o env u (query ∷ args) h =
      let (h', r) = get_user x env.now h query in
      elim r [
        | some target ↦ ban_user env u args h' target
        | none ↦
            let whole = join_with (query ∷ args) (codes " ") in
            if has_equals whole
            then (let (a, e) = ban_query x env.now h'.auth whole in
                (record h' { auth = a }, elim e [ none ↦ none | some e' ↦ some (o.error_text e') ]))
            else refuse x h' (codes "user not found")
      ]

  unfoldable pub ban_command : Outside x → HostHandler x
  unfolding as_op ban_args
  ban_command o env h req = as_op x env h req.from (ban_args o env req.from req.args)

  unfoldable pub quoted_lines : Text → List Text → Text
  quoted_lines field [] = []
  quoted_lines field (k ∷ ks) =
      codes "\n   \"" ++ (field ++ (codes "=" ++ (k ++ (codes "\"" ++ quoted_lines field ks))))

  unfoldable pub banned_list : Ambient → ℕ → Host x → HostOutcome x
  unfolding quoted_lines tell
  banned_list env u h =
      let (a, ips, fingerprints, clients) = banned_keys x env.now h.auth in
      tell x env (record h { auth = a }) u
        (codes "Banned:"
          ++ (quoted_lines (codes "ip") ips
              ++ (quoted_lines (codes "fingerprint") fingerprints
                  ++ quoted_lines (codes "client") clients)))

  unfoldable pub banned_command : HostHandler x
  unfolding as_op banned_list
  banned_command env h req = as_op x env h req.from (banned_list env req.from)

  -- What the arguments of /op after the name ask for: whether the member becomes an operator, and
  -- for how long its key is one.
  unfoldable pub op_value : Ambient → List Text → Bool × ℤ
  op_value env [] = (true, pos 0)
  op_value env (arg ∷ args) =
      ite (text_discrete arg (codes "remove")) (false, pos 1) (true, duration x env arg)

  unfoldable pub op_args : Ambient → ℕ → List Text → Host x → HostOutcome x
  unfolding op_value set_member tell
  op_args env u [] h = refuse x h (codes "must specify user")
  op_args env u (name ∷ args) h =
      let (value, until) = op_value env args in
      let (w, r) = member_by_id env.now h.world name in
      elim r [
        | none ↦ refuse x (on_world x h w) (codes "user not found")
        | some p ↦
            let target = (w.member p).user in
            let h' = record h {
              world = set_member w p (record (w.member p) { is_op = value });
              auth = op x env.now h.auth (h.conn target).public_key until;
            } in
            let body : Text =
              (if value then codes "Made op by " else codes "Removed op by ")
              ++ (shown x h' u ++ codes ".") in
            tell x env h' target body
      ]

  unfoldable pub op_command : HostHandler x
  unfolding as_op op_args
  op_command env h req = as_op x env h req.from (op_args env req.from req.args)
