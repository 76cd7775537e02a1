-- ===== src/Host/Rename.antt =====
-- host.go: the handler of /rename.
use ssh_chat.Prelude.{
  ℕ, Bool, true, false, not, ◌&&◌, ◌||◌, if◌then◌else◌, ite, Option, none, some, List, [], ◌∷◌,
  ◌++◌, Text, codes, text_discrete,
}
use ssh_chat.Auth.{Externals}
use ssh_chat.Sanitize
use ssh_chat.User.{changed}
use ssh_chat.Room.{member_by_id, set_user}
use ssh_chat.Commands.{Ambient}
use ssh_chat.Commands.Talk.{rename_member}
use ssh_chat.Host.{
  Outside, Host, HostOutcome, HostHandler, on_world, refuse, tell, announce, as_op, shown,
}

module _ (x : Externals) (o : Outside x) where
  -- `SetSymbol`, and what the member is told.
  unfoldable pub assign_symbol : Ambient → ℕ → Host x → ℕ → Text → Host x
  unfolding set_user tell
  assign_symbol env u h target s =
      let w = set_user h.world target (record (h.world.users target) { symbol = s }) in
      let body =
        codes "Assigned symbol " ++ (o.quoted s ++ (codes " by " ++ (shown x h u ++ codes "."))) in
      (tell x env (on_world x h w) target body).0

  -- The symbol, which is set if there are three arguments.
  unfoldable pub symbol_arg : List Text → Option Text
  symbol_arg (s ∷ []) = some s
  symbol_arg _ = none

  -- The rest of the handler, with the symbol set if there was one.
  unfoldable pub rename_to : Ambient → ℕ → Host x → ℕ → Text → Bool → HostOutcome x
  unfolding set_user announce rename_member
  rename_to env u h p new_id symbol_set =
      let target = (h.world.member p).user in
      let old_id = (h.world.users target).id in
      let same = ite (text_discrete new_id old_id) true false in
      if same && not symbol_set
      then refuse x h (codes "new name is the same as the original")
      else if (ite (text_discrete new_id []) true false || same) && symbol_set
      then (on_world x h (set_user h.world target (changed (h.world.users target))), none)
      else (let (w, e) = rename_member env h.world p old_id new_id in
          elim e [
            | some text ↦ refuse x (on_world x h w) text
            | none ↦
                announce x env (on_world x h w) (
                  old_id ++ (codes " was renamed by " ++ (shown x (on_world x h w) u ++ codes ".")))
          ])

  unfoldable pub rename_args : Ambient → ℕ → List Text → Host x → HostOutcome x
  unfolding assign_symbol symbol_arg rename_to
  rename_args env u (name ∷ arg ∷ args) h =
      let (w, r) = member_by_id env.now h.world name in
      elim r [
        | none ↦ refuse x (on_world x h w) (codes "user not found")
        | some p ↦ elim (symbol_arg args) [
          | none ↦ rename_to env u (on_world x h w) p (Sanitize.name arg) false
          | some s ↦
              rename_to env u (assign_symbol env u (on_world x h w) (w.member p).user s) p
                (Sanitize.name arg) true
        ]
      ]
  rename_args env u _ h = refuse x h (codes "must specify user and new name")

  unfoldable pub rename_command : HostHandler x
  unfolding as_op rename_args
  rename_command env h req = as_op x env h req.from (rename_args env req.from req.args)
