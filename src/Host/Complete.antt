-- ===== src/Host/Complete.antt =====
-- host.go and chat/room.go: the completion of names and of commands in the line of a terminal.
pub mod Position
pub mod Recent
use ssh_chat.Prelude.{
  ℕ, ◌+◌, ◌-◌, Bool, true, false, not, ◌&&◌, ◌||◌, if◌then◌else◌, ite, ◌==◌, ltb, Option, none,
  some, List, [], ◌∷◌, ◌++◌, map, length, take, drop, Text, codes, text_discrete, fields,
  has_prefix, has_suffix, replace_first,
}
use ssh_chat.Auth.{Externals}
use ssh_chat.Set.{Item, value, list_prefix}
use ssh_chat.User.{User}
use ssh_chat.User
use ssh_chat.Room.{World, member_of, set_user}
use ssh_chat.Host.{Host, on_world, on_members, get_user, shown}
use ssh_chat.Host.Registry.{commands}

-- When a user was last active: its last message, or else its arrival.
unfoldable pub active : User → ℕ
active u = if u.last_msg == 0 then u.joined else u.last_msg

-- `sort.Sort` of `RecentActiveUsers`; users that were active at the same time may change places.
unfoldable pub insert_recent : User → List User → List User
unfolding active
insert_recent u [] = u ∷ []
insert_recent u (v ∷ vs) =
    let later = insert_recent u vs in if ltb (active u) (active v) then v ∷ later else u ∷ v ∷ vs

unfoldable pub sort_recent : List User → List User
unfolding insert_recent
sort_recent [] = []
sort_recent (u ∷ us) = insert_recent u (sort_recent us)

-- The users of the members of the items. The room keeps no other values.
unfoldable pub users_of : World → ℕ → List (Item ℕ) → List User
unfolding member_of
users_of w now [] = []
users_of w now (it ∷ items) = elim (member_of (value now it)) [
  | none ↦ users_of w now items
  | some p ↦ w.users (w.member p).user ∷ users_of w now items
]

-- The first key with the prefix.
unfoldable pub first_key : {A : Type 0} → List (Text × A) → Text → Text
first_key [] partial = []
first_key ((k, a) ∷ c) partial =
    let later = first_key c partial in if has_prefix k partial then k else later

-- `completeCommand`. The order of a Go map is open, and that of the registry is one of them.
unfoldable pub complete_command : Text → Text
unfolding first_key
complete_command partial = first_key commands partial

-- The last of `strings.Fields`, or nothing.
unfoldable pub last_field : List Text → Text
last_field [] = []
last_field (s ∷ []) = s
last_field (s ∷ t ∷ rest) = last_field (t ∷ rest)

-- `strings.Replace` of the partial word by the completed one, from where the former should start,
-- and the new position of the cursor.
unfoldable pub reposition : Text → ℕ → Text → Text → Text × ℕ
reposition line pos partial completed =
    let start = pos - length partial in
    (
      take start line ++ replace_first (drop start line) partial completed,
      pos + length completed - length partial,
    )

module _ (x : Externals) where
  -- `NamesPrefix`: the names of the members with a prefix, the last active first.
  unfoldable pub names_prefix : ℕ → Host x → Text → Host x × List Text
  unfolding sort_recent users_of
  names_prefix now h prefix =
      let (s, items) = list_prefix now h.world.room.members prefix in
      (on_members x h s, map (λ (u : User). u.id) (sort_recent (users_of h.world now items)))

  -- Which of the names is taken, `skip_name` only if it is the last resort, which it never is.
  unfoldable pub pick_name : List Text → Text → Text
  pick_name [] skip_name = []
  pick_name (name ∷ []) skip_name = ite (text_discrete name skip_name) [] name
  pick_name (name ∷ next ∷ names) skip_name = ite (text_discrete name skip_name) next name

  unfoldable pub complete_name : ℕ → Host x → Text → Text → Host x × Text
  unfolding names_prefix pick_name
  complete_name now h partial skip_name =
      let (h', names) = names_prefix now h partial in (h', pick_name names skip_name)

  -- The command that the partial word becomes: /reply becomes /msg with the name to reply to.
  unfoldable pub completed_command : ℕ → Host x → ℕ → Text → Host x × Text
  unfolding complete_command get_user set_user
  completed_command now h u partial =
      ite (text_discrete (complete_command partial) (codes "/reply"))
        (elim (h.world.users u).reply_to [
          | none ↦ (h, codes "/reply")
          | some v ↦
              let name = (h.world.users v).id in
              let (h', r) = get_user x now h name in
              elim r [
                | some found ↦ (h', codes "/msg " ++ name)
                | none ↦ (
                  on_world x h' (set_user h'.world u (User.set_reply_to (h'.world.users u) none)),
                  codes "/reply",
                )
              ]
        ])
        (h, complete_command partial)

  -- The word that replaces the partial one, without the space after it.
  unfoldable pub completed_word : ℕ → Host x → ℕ → Text → Bool → Text → Host x × Option Text
  unfolding completed_command complete_name
  completed_word now h u line is_first partial =
      if is_first && has_prefix line (codes "/")
      then (let (h', s) = completed_command now h u partial in (h', some s))
      else (let (h', s) = complete_name now h partial (shown x h u) in
          (h', ite (text_discrete s []) none (some (if is_first then s ++ codes ":" else s))))

  -- `AutoCompleteFunction` for a user, where `pos` is at most the length of the line. It returns
  -- the new line and the new position, if it does anything.
  unfoldable pub auto_complete : ℕ → Host x → ℕ → Text → ℕ → ℕ → Host x × Option (Text × ℕ)
  unfolding completed_word last_field reposition
  auto_complete now h u line pos key =
      if not (key == 9)
      then (h, none)
      else if ite (text_discrete line []) true false || has_suffix (take pos line) (codes " ")
      then (h, none)
      else (let words = fields (take pos line) in
          let partial = last_field words in
          let (h', completed) = completed_word now h u line (ltb (length words) 2) partial in
          (
            h',
            elim completed [
              | none ↦ none
              | some s ↦ some (reposition line pos partial (s ++ codes " "))
            ],
          ))
