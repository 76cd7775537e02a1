-- ===== src/Commands/Talk.antt =====
-- chat/command.go: the handlers of the commands that say something, and of /exit and /nick.
use ssh_chat.Prelude.{
  ℕ, if◌then◌else◌, ite, none, some, List, [], ◌∷◌, ◌++◌, length, drop, Text, codes, text_discrete,
  trim_left, trim_space, join_with, decimal,
}
use ssh_chat.Message.{emote_msg}
use ssh_chat.Sanitize
use ssh_chat.Set.{Item, value, key}
use ssh_chat.Set
use ssh_chat.User
use ssh_chat.Room.{World, member_by_id, member_of, set_user}
use ssh_chat.Room
use ssh_chat.Commands.{
  Ambient, Outcome, Handler, fail, reply, Commands, help_text, err_missing_arg, room_error_text,
  sort_by,
}

-- `room.Send(message.NewEmoteMsg(me, u))`.
unfoldable pub emote : Ambient → World → ℕ → Text → Outcome
emote env w u me = (Room.send w (emote_msg u me env.now), none)

-- /help, for the registry of the room.
unfoldable pub help : {A : Type 0} → Commands A → Handler
unfolding help_text reply
help c env w req =
    let (w', op) = Room.is_op env.now w req.from in reply env w' req.from (help_text c op)

unfoldable pub me : Handler
unfolding emote
me env w req =
    let said = trim_left req.body (codes "/me") in
    emote env w req.from
      (ite (text_discrete said []) (codes "is at a loss for words.") (drop 1 said))

unfoldable pub exit : Handler
unfolding set_user
exit env w req = (set_user w req.from (User.close (w.users req.from)), none)

-- `member.SetID(id)`, for the user of a member.
unfoldable pub set_member_id : ℕ → World → ℕ → Text → World
unfolding set_user
set_member_id color_idx w p id =
    let u = (w.member p).user in set_user w u (User.set_id color_idx (w.users u) id)

-- The rest of /nick and of /rename: the member gets its new name, and its old one back if the room
-- refuses that.
unfoldable pub rename_member : Ambient → World → ℕ → Text → Text → Outcome
unfolding set_member_id
rename_member env w p old_id new_id =
    let (w', e) = Room.rename env.now (set_member_id env.color_idx w p new_id) old_id p in
    elim e [
      | none ↦ (w', none)
      | some e' ↦ fail (set_member_id env.other_color_idx w' p old_id) (room_error_text e')
    ]

unfoldable pub nick_member : Ambient → World → ℕ → Text → Outcome
unfolding rename_member
nick_member env w p arg =
    let old_id = (w.users (w.member p).user).id in
    let new_id = Sanitize.name arg in
    ite (text_discrete new_id old_id) (fail w (codes "new name is the same as the original"))
      (rename_member env w p old_id new_id)

unfoldable pub nick_to : Ambient → World → ℕ → Text → Outcome
unfolding nick_member
nick_to env w u arg =
    let (w', r) = member_by_id env.now w (w.users u).id in
    elim r [ none ↦ fail w' (codes "failed to find member") | some p ↦ nick_member env w' p arg ]

unfoldable pub nick_args : Ambient → World → ℕ → List Text → Outcome
unfolding nick_to
nick_args env w u [] = fail w err_missing_arg
nick_args env w u (arg ∷ []) = nick_to env w u arg
nick_args env w u (arg ∷ other ∷ args) = fail w err_missing_arg

unfoldable pub nick : Handler
unfolding nick_args
nick env w req = nick_args env w req.from req.args

-- The names that /names shows for the members. The room keeps no other values.
unfoldable pub shown_names : World → ℕ → (User.User → Text) → List (Item ℕ) → List Text
unfolding member_of
shown_names w now show [] = []
shown_names w now show (it ∷ items) = elim (member_of (value now it)) [
  | none ↦ shown_names w now show items
  | some p ↦ show (w.users (w.member p).user) ∷ shown_names w now show items
]

-- /names, in the colors of the sender's theme.
unfoldable pub names : Handler
unfolding shown_names reply sort_by
names env w req =
    let show : User.User → Text = λ v. elim (w.users req.from).config.theme [
      | none ↦ User.name v
      | some theme ↦ User.colored v theme
    ] in
    let (s, items) = Set.list_prefix env.now w.room.members [] in
    let w' = record w { room = record w.room { members = s } } in
    let shown = shown_names w' env.now show (sort_by key items) in
    reply env w' req.from
      (decimal (length shown) ++ (codes " connected: " ++ join_with shown (codes ", ")))

unfoldable pub slap : Handler
unfolding emote
slap env w req = emote env w req.from (elim req.args [
  | [] ↦ codes "slaps themselves around a bit with a large trout."
  | arg ∷ args ↦
      codes "slaps "
      ++ (join_with (arg ∷ args) (codes " ") ++ codes " around a bit with a large trout.")
])

unfoldable pub shrug : Handler
unfolding emote
shrug env w req =
    emote env w req.from
      (0xC2 ∷ 0xAF ∷ 92 ∷ 95 ∷ 40 ∷ 0xE3 ∷ 0x83 ∷ 0x84 ∷ 41 ∷ 95 ∷ 47 ∷ 0xC2 ∷ 0xAF ∷ [])

unfoldable pub away : Handler
unfolding emote set_user
away env w req =
    let u = req.from in
    let away_msg = trim_space (trim_left req.body (codes "/away")) in
    let is_away = (User.get_away (w.users u)).0 in
    let w' = set_user w u (User.set_away env.now (w.users u) away_msg) in
    ite (text_discrete away_msg [])
      (if is_away
        then emote env w' u (codes "is back.")
        else fail w' (codes "not away. Append a reason message to set away"))
      (emote env w' u (codes "has gone away: " ++ away_msg))

unfoldable pub back : Handler
unfolding emote set_user
back env w req =
    let u = req.from in
    if (User.get_away (w.users u)).0
    then emote env (set_user w u (User.set_away env.now (w.users u) [])) u (codes "is back.")
    else fail w (codes "must be away to be back")
