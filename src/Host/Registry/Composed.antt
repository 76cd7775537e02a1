-- ===== src/Host/Registry/Composed.antt =====
-- How the host's view of a message fits the room's, and what the host does for a muted member.
use ssh_chat.Prelude.{
  ℕ, ◌≡◌, ◌≢◌, ◌∙◌, ap, refl, true, Bool-cases, inl, inr, ite, if_neg, if◌then◌else◌, Option-cases,
  some, [], ◌∷◌, ◌++◌, Text, text_discrete, lookup, result, Result, ok, err, arith,
}
use ssh_chat.Auth.{Externals}
use ssh_chat.Message.{Message, kind, from, command}
use ssh_chat.Set.{Set, Item, SetError, value, val, itemize, is_nil}
use ssh_chat.Set
use ssh_chat.Room.{World, is_command, from_id_of, dispatch, handle_from, member_of}
use ssh_chat.Room
use ssh_chat.Room.Broadcast
use ssh_chat.Set.Expiry.{get_present}
use ssh_chat.Commands.{Ambient}
use ssh_chat.Host.{Outside, Host, on_members, on_world}
use ssh_chat.Host.Registry.{
  room_view, run_message, dispatch_command, handle_command, handle_command_from, handle_msg,
}

is_command-kind : (m : Message) → is_command (kind m) ≡ true → kind m ≡ command
is_command-kind m c = ground (arith, c)

module _ (x : Externals) (o : Outside x) (env : Ambient) (now : ℕ) (m : Message) where
  ite-world :
      {P : Type 0} (d : Dec P) (g h : Host x) (v w : World)
      → g.world ≡ v
      → h.world ≡ w
      → (ite d g h).world ≡ ite d v w
  ite-world (yes p) g h v w e f = e
  ite-world (no p) g h v w e f = f

  dispatch_command-room :
      (h : Host x)
      → kind m ≡ command
      → (id : Text)
      → (dispatch_command x o env now h m).world ≡ dispatch (room_view x o env h) now h.world m id
  unfolding dispatch_command dispatch room_view
  dispatch_command-room h c id =
      rw (c, dispatch)
        (elim (Option-cases (result (run_message x o env now h m))) [
          | inl e ↦ rw (e, dispatch_command) refl
          | inr (text, e) ↦
              rw (e, dispatch_command)
                (elim (Option-cases (from m)) [ inl f ↦ rw f refl | inr (u, f) ↦ rw f refl ])
        ])

  handle_command_from-room :
      (h : Host x)
      → kind m ≡ command
      → (id : Text) (r : Set ℕ × Result SetError (Item ℕ))
      → (handle_command_from x o env now h m r).world
        ≡ handle_from (room_view x o env h) now h.world m id r
  unfolding handle_command_from handle_from room_view
  handle_command_from-room h c id (s, err e) = refl
  handle_command_from-room h c id (s, ok it) =
      let later = dispatch_command-room (on_members x h s) c id in
      elim (Option-cases (member_of (value now it))) [
        | inl e ↦ rw (e, handle_command_from, handle_from) later
        | inr (p, e) ↦ elim (Bool-cases (h.world.member p).is_muted) [
          | inl b ↦ rw (e, handle_command_from, handle_from) (rw (b, c) refl)
          | inr b ↦ rw (e, handle_command_from, handle_from) (rw b later)
        ]
      ]

  -- The room after the host handles a message is what the room makes of that message, with the
  -- commands of the host as it stands.
  pub handle_msg-room :
      (h : Host x)
      → (handle_msg x o env now h m).world ≡ Room.handle_msg (room_view x o env h) now h.world m
  unfolding handle_msg handle_command Room.handle_msg
  handle_msg-room h = elim (Bool-cases (is_command (kind m))) [
    | inr e ↦ rw e refl
    | inl e ↦
        let c = is_command-kind m e in
        rw e (
          ite-world (text_discrete (from_id_of h.world m) []) (dispatch_command x o env now h m) _ _
            _ (dispatch_command-room h c (from_id_of h.world m))
            (handle_command_from-room h c (from_id_of h.world m)
              (Set.get now h.world.room.members (from_id_of h.world m))))
  ]

  -- The member `p` stands in the room of the host under the sender's name.
  abbrev pub Present : Host x → Text → ℕ → Type 0
  Present h k p =
      lookup (h.world.room.members.normalize (from_id_of h.world m)) h.world.room.members.table
      ≡ some (itemize k (val p))

  handle_command-muted :
      (h : Host x) (k : Text) (p : ℕ)
      → from_id_of h.world m ≢ []
      → Present h k p
      → (h.world.member p).is_muted ≡ true
      → handle_command x o env now h m ≡ h
  unfolding handle_command handle_command_from is_nil value member_of
  handle_command-muted h k p n e muted =
      if_neg (text_discrete (from_id_of h.world m) []) n _ _
      ∙ rw (get_present now h.world.room.members (from_id_of h.world m) (itemize k (val p)) e refl)
          (rw muted refl)

  pub handle_msg-muted :
      (h : Host x) (k : Text) (p : ℕ)
      → from_id_of h.world m ≢ []
      → Present h k p
      → (h.world.member p).is_muted ≡ true
      → handle_msg x o env now h m ≡ (
          if is_command (kind m)
          then h
          else on_world x h
              (record h.world { sent = h.world.sent ++ ((h.world.member p).user, m) ∷ [] }))
  unfolding handle_msg
  handle_msg-muted h k p n e muted =
      let room = Broadcast.handle_msg-muted (room_view x o env h) now h.world m p k n e muted in
      elim (Bool-cases (is_command (kind m))) [
        | inl c ↦ rw c (handle_command-muted h k p n e muted)
        | inr c ↦ rw c (ap (on_world x h) (room ∙ rw c refl))
      ]
