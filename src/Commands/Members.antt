-- ===== src/Commands/Members.antt =====
-- chat/command.go: the handlers of /ignore, /unignore, /focus and /mute.
use ssh_chat.Prelude.{
  ℕ, not, if◌then◌else◌, ite, Option, none, some, List, [], ◌∷◌, ◌++◌, length, Text, codes,
  text_discrete, trim_left, trim_space, join_with, split_at, decimal, after,
}
use ssh_chat.Sanitize
use ssh_chat.Set.{Set, Item, SetError, collision, missing, val, truth, itemize, key}
use ssh_chat.Set
use ssh_chat.User.{User}
use ssh_chat.User
use ssh_chat.Room.{World, member_by_id, set_user, set_mute}
use ssh_chat.Room
use ssh_chat.Commands.{Ambient, Outcome, Handler, fail, reply, room_error_text}

-- The callback that collects the keys of a set.
unfoldable pub collect_key : Text → Item ℕ → List Text → List Text × Option (Unit {0})
collect_key k it names = (names ++ key it ∷ [], none)

abbrev set_ignored : World → ℕ → Set ℕ → World
set_ignored w u s = set_user w u (record (w.users u) { ignored = s })

abbrev set_focused : World → ℕ → Set ℕ → World
set_focused w u s = set_user w u (record (w.users u) { focused = s })

-- /ignore with no name.
unfoldable pub show_ignored : Ambient → World → ℕ → Outcome
unfolding collect_key reply set_user
show_ignored env w u =
    let r = Set.each collect_key env.now (w.users u).ignored [] in
    reply env (set_ignored w u r.0) u (elim r.1 [
      | [] ↦ codes "0 users ignored."
      | name ∷ names ↦
          decimal (length (name ∷ names))
          ++ (codes " ignored: " ++ join_with (name ∷ names) (codes ", "))
    ])

-- /ignore of a member that was found.
unfoldable pub ignore_member : Ambient → World → ℕ → Text → ℕ → Outcome
unfolding reply set_user
ignore_member env w u id p =
    let (s, e) = Set.add env.now (w.users u).ignored (itemize id (val p)) in
    let w' = set_ignored w u s in
    elim e [
      | none ↦ reply env w' u (codes "Ignoring: " ++ User.name (w.users (w.member p).user))
      | some collision ↦ fail w' (codes "user already ignored: " ++ id)
      | some missing ↦ fail w' (room_error_text (Room.RoomError.in_set missing))
    ]

unfoldable pub ignore_name : Ambient → World → ℕ → Text → Outcome
unfolding ignore_member
ignore_name env w u id =
    ite (text_discrete id (w.users u).id) (fail w (codes "cannot ignore self")) (
      let (w', r) = member_by_id env.now w id in
      elim r [
        | none ↦ fail w' (codes "user not found: " ++ id)
        | some p ↦ ignore_member env w' u id p
      ])

unfoldable pub ignore : Handler
unfolding show_ignored ignore_name
ignore env w req =
    let id = trim_space (trim_left req.body (codes "/ignore")) in
    ite (text_discrete id []) (show_ignored env w req.from) (ignore_name env w req.from id)

unfoldable pub unignore_name : Ambient → World → ℕ → Text → Outcome
unfolding reply set_user
unignore_name env w u id =
    let (s, e) = Set.remove (w.users u).ignored id in
    elim e [
      | none ↦ reply env (set_ignored w u s) u (codes "No longer ignoring: " ++ id)
      | some e' ↦ fail (set_ignored w u s) (room_error_text (Room.RoomError.in_set e'))
    ]

unfoldable pub unignore : Handler
unfolding unignore_name
unignore env w req =
    let id = trim_space (trim_left req.body (codes "/unignore")) in
    ite (text_discrete id []) (fail w (codes "must specify user")) (unignore_name env w req.from id)

-- /focus with no names.
unfoldable pub show_focused : Ambient → World → ℕ → Outcome
unfolding collect_key reply set_user
show_focused env w u =
    let r = Set.each collect_key env.now (w.users u).focused [] in
    reply env (set_focused w u r.0) u (elim r.1 [
      | [] ↦ codes "Unfocused."
      | name ∷ names ↦
          codes "Focusing on "
          ++ (decimal (length (name ∷ names))
              ++ (codes " users: " ++ join_with (name ∷ names) (codes ", ")))
    ])

-- The loop over the names of /focus: the set, and the names that it took. `Set` never fails. The
-- value `ZeroValue` only says that an item has not expired, and so does `truth`.
unfoldable pub focus_loop : Set ℕ → List Text → List Text → Set ℕ × List Text
focus_loop s focused [] = (s, focused)
focus_loop s focused (name ∷ names) =
    let id = Sanitize.name name in
    let skipped = focus_loop s focused names in
    let rest = focus_loop (after (Set.set s (itemize id truth))) (focused ++ id ∷ []) names in
    ite (text_discrete id []) skipped rest

unfoldable pub focus : Handler
unfolding show_focused focus_loop reply set_user
focus env w req =
    let u = req.from in
    let ids = trim_space (trim_left req.body (codes "/focus")) in
    ite (text_discrete ids []) (show_focused env w u) (
      let (s, n) = Set.clear (w.users u).focused in
      ite (text_discrete ids (codes "$"))
        (reply env (set_focused w u s) u
          (codes "Removed focus from " ++ (decimal n ++ codes " users.")))
        (let (s', focused) = focus_loop s [] (split_at ids 32) in
          reply env (set_focused w u s') u (codes "Focusing: " ++ join_with focused (codes ", "))))

-- The rest of /mute, for an operator.
unfoldable pub mute_args : Ambient → World → ℕ → List Text → Outcome
unfolding reply set_mute
mute_args env w u [] = fail w (codes "must specify user")
mute_args env w u (name ∷ args) =
    let (w', r) = member_by_id env.now w name in
    elim r [
      | none ↦ fail w' (codes "user not found")
      | some p ↦
          let muted = not (w'.member p).is_muted in
          let id = (w'.users (w'.member p).user).id in
          reply env (set_mute w' p muted) u
            ((if muted then codes "Muted: " else codes "Unmuted: ") ++ id)
    ]

unfoldable pub mute : Handler
unfolding mute_args
mute env w req =
    let (w', op) = Room.is_op env.now w req.from in
    if not op then fail w' (codes "must be op") else mute_args env w' req.from req.args
