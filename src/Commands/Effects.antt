-- ===== src/Commands/Effects.antt =====
-- What /nick and /mute of chat/command.go change, and what they leave alone when they fail.
use ssh_chat.Prelude.{
  ℕ, ◌≡◌, ◌≢◌, refl, ap, ◌∙◌, ◌⊎◌, inl, inr, Bool-cases, Option-cases, true, false, not,
  if◌then◌else◌, if_pos, if_neg, ◌==◌, Option, none, some, List, [], ◌∷◌, Text, text_discrete,
  after, result, arith,
}
use ssh_chat.Set
use ssh_chat.Sanitize
use ssh_chat.User.{User}
use ssh_chat.User
use ssh_chat.Room.{
  World, Member, RoomError, member_by_id, member_for, set_user, set_member, set_mute,
}
use ssh_chat.Room
use ssh_chat.Commands.{Request, Ambient, reply}
use ssh_chat.Commands.Talk.{set_member_id, rename_member, nick_member}
use ssh_chat.Commands.Members.{mute_args, mute}

changed-id : (u : User) → (User.changed u).id ≡ u.id
unfolding User.changed User.set_highlight
changed-id u = ground arith

set_member_id-id :
    (c : ℕ) (w : World) (p : ℕ) (id : Text) (v : ℕ)
    → ((set_member_id c w p id).users v).id
      ≡ (if (w.member p).user == v then id else (w.users v).id)
unfolding set_member_id set_user User.set_id
set_member_id-id c w p id v = elim (Bool-cases ((w.member p).user == v)) [
  | inl e ↦ rw e (changed-id (record (w.users (w.member p).user) { id = id; color_idx = c }))
  | inr e ↦ rw e refl
]

-- `Rename` leaves the users and the members as they are.
rename-stores :
    (now : ℕ) (w : World) (old : Text) (p : ℕ)
    → ((after (Room.rename now w old p)).users ≡ w.users)
      × ((after (Room.rename now w old p)).member ≡ w.member)
unfolding Room.rename Room.send
rename-stores now w old p = elim (text_discrete (w.users (w.member p).user).id []) [
  | yes h ↦ rw (if_pos (text_discrete (w.users (w.member p).user).id []) h _ _) (refl, refl)
  | no h ↦
      rw (if_neg (text_discrete (w.users (w.member p).user).id []) h _ _)
        (elim (Option-cases (
          result (
            Set.replace w.room.members old
              (Set.itemize (w.users (w.member p).user).id (Set.val p))))) [
                | inl e ↦ rw e (refl, refl)
                | inr (x, e) ↦ rw e (refl, refl)
              ])
]

set_member_id-member :
    (c : ℕ) (w : World) (p : ℕ) (id : Text) → (set_member_id c w p id).member ≡ w.member
unfolding set_member_id set_user
set_member_id-member c w p id = refl

module _ (env : Ambient) (w : World) (p : ℕ) (old_id new_id : Text) where
  abbrev named : World
  named = set_member_id env.color_idx w p new_id

  abbrev renamed : World × Option RoomError
  renamed = Room.rename env.now named old_id p

  renamed-id :
      (v : ℕ)
      → ((after renamed).users v).id ≡ (if (w.member p).user == v then new_id else (w.users v).id)
  renamed-id v =
      ap (λ (users : ℕ → User). (users v).id) (rename-stores env.now named old_id p).0
      ∙ set_member_id-id env.color_idx w p new_id v

  undone-id :
      (v : ℕ)
      → old_id ≡ (w.users (w.member p).user).id
      → ((set_member_id env.other_color_idx (after renamed) p old_id).users v).id ≡ (w.users v).id
  undone-id v same =
      let holder : ((after renamed).member p).user ≡ (w.member p).user =
        ap (λ (member : ℕ → Member). (member p).user)
          ((rename-stores env.now named old_id p).1
            ∙ set_member_id-member env.color_idx w p new_id) in
      set_member_id-id env.other_color_idx (after renamed) p old_id v
      ∙ rw holder (ground (arith, renamed-id v, same))

  rename_member-id :
      (v : ℕ)
      → old_id ≡ (w.users (w.member p).user).id
      → (result (rename_member env w p old_id new_id) ≡ none
          → ((after (rename_member env w p old_id new_id)).users v).id
            ≡ (if (w.member p).user == v then new_id else (w.users v).id))
        × (result (rename_member env w p old_id new_id) ≢ none
            → ((after (rename_member env w p old_id new_id)).users v).id ≡ (w.users v).id)
  unfolding rename_member
  rename_member-id v same = elim (Option-cases (result renamed)) [
    | inl e ↦ rw (e, rename_member) (λ h. renamed-id v, λ h. absurd (h refl))
    | inr (x, e) ↦ rw (e, rename_member) (λ h. ground (arith, h), λ h. undone-id v same)
  ]

-- /nick gives the member's user the name that it asked for, cleaned, if it succeeds. If it fails,
-- every user has the name that it had: the new name is taken back where the room refuses it.
pub nick_member-id :
    (env : Ambient) (w : World) (p : ℕ) (arg : Text) (v : ℕ)
    → (result (nick_member env w p arg) ≡ none
        → ((after (nick_member env w p arg)).users v).id
          ≡ (if (w.member p).user == v then Sanitize.name arg else (w.users v).id))
      × (result (nick_member env w p arg) ≢ none
          → ((after (nick_member env w p arg)).users v).id ≡ (w.users v).id)
unfolding nick_member
nick_member-id env w p arg v =
    let old_id = (w.users (w.member p).user).id in
    elim (text_discrete (Sanitize.name arg) old_id) [
      | yes h ↦
          rw (if_pos (text_discrete (Sanitize.name arg) old_id) h _ _)
            (λ e. ground (arith, e), λ e. refl)
      | no h ↦
          rw (if_neg (text_discrete (Sanitize.name arg) old_id) h _ _)
            (rename_member-id env w p old_id (Sanitize.name arg) v refl)
    ]

is_op-member : (now : ℕ) (w : World) (u : ℕ) → (after (Room.is_op now w u)).member ≡ w.member
unfolding Room.is_op member_for member_by_id
is_op-member now w u = ground arith

member_by_id-member :
    (now : ℕ) (w : World) (id : Text) → (after (member_by_id now w id)).member ≡ w.member
unfolding member_by_id
member_by_id-member now w id = refl

mute_missing :
    (env : Ambient) (w : World) (u : ℕ) (name : Text) (args : List Text)
    → result (member_by_id env.now w name) ≡ none
    → (result (mute_args env w u (name ∷ args)) ≢ none)
      × ((after (mute_args env w u (name ∷ args))).member ≡ w.member)
unfolding mute_args
mute_missing env w u name args e = (
  rw (e, mute_args) (λ h. ground (arith, h)),
  rw (e, mute_args) (member_by_id-member env.now w name),
)

-- The members after one of them is muted, or heard again.
abbrev pub toggled : (ℕ → Member) → ℕ → ℕ → Member
toggled member p q =
    if p == q then record (member p) { is_muted = not (member p).is_muted } else member q

mute_found :
    (env : Ambient) (w : World) (u p : ℕ) (name : Text) (args : List Text)
    → result (member_by_id env.now w name) ≡ some p
    → (result (mute_args env w u (name ∷ args)) ≡ none)
      × ((after (mute_args env w u (name ∷ args))).member ≡ toggled w.member p)
unfolding mute_args reply set_mute set_member Room.send
mute_found env w u p name args e = (
  rw (e, mute_args) refl,
  rw (e, mute_args)
      (ap (λ (member : ℕ → Member). toggled member p) (member_by_id-member env.now w name)),
)

-- /mute with a name changes whether members are muted in one case alone: the sender is an operator,
-- and a member has that name, which then is muted if it was not, and the other way round. In every
-- other case it fails.
pub mute-member :
    (env : Ambient) (w : World) (u : ℕ) (body command name : Text) (args : List Text)
    → let req : Request = record { from = u; body = body; command = command; args = name ∷ args } in
      let op = Room.is_op env.now w u in
      let target = result (member_by_id env.now (after op) name) in
      ((result op ≡ false) ⊎ (target ≡ none)
        → (result (mute env w req) ≢ none) × ((after (mute env w req)).member ≡ w.member))
      × ((p : ℕ)
          → result op ≡ true
          → target ≡ some p
          → (result (mute env w req) ≡ none)
            × ((after (mute env w req)).member ≡ toggled w.member p))
unfolding mute
mute-member env w u body command name args =
    let kept = is_op-member env.now w u in
    let w' = after (Room.is_op env.now w u) in
    (
      λ h. elim (Bool-cases (result (Room.is_op env.now w u))) [
        | inl yes_op ↦ elim h [
          | inl no_op ↦ ground (arith, yes_op, no_op)
          | inr e ↦ let m = mute_missing env w' u name args e in rw (yes_op, mute) (m.0, m.1 ∙ kept)
        ]
        | inr no_op ↦ rw (no_op, mute) (λ e. ground (arith, e), kept)
      ],
      λ p yes_op e.
          let m = mute_found env w' u p name args e in
          rw (yes_op, mute) (m.0, m.1 ∙ ap (λ (member : ℕ → Member). toggled member p) kept),
    )
