-- ===== src/Commands/Ignoring.antt =====
-- /ignore of chat/command.go, and what the user that ignores a name is sent of its messages.
use ssh_chat.Prelude.{
  ℕ, ◌≡◌, ◌≢◌, refl, ap, ◌∙◌, inl, inr, Bool-cases, Option-cases, true, false, not, ◌&&◌,
  if◌then◌else◌, ite, if_neg, if_pos, ◌==◌, Option, none, some, List, [], ◌∷◌, ◌++◌, Text, codes,
  text_discrete, lookup, trim_left, trim_space, ==_iff, after, result, arith,
}
use mathlib.Core.List.{append-nil, map-append}
use ssh_chat.Set.{Set, Item, SetError, collision, missing, val, itemize, key, value, is_nil, found}
use ssh_chat.Set
use ssh_chat.Set.Expiry.{live, add-live}
use ssh_chat.Message.{Message, Kind, kind, command, addressed, announcement, broadcast}
use ssh_chat.Room.{
  World, Member, member_by_id, member_of, set_user, handle_msg, dispatch, is_command, from_id_of,
  send_to,
}
use ssh_chat.Room
use ssh_chat.Room.Membership.{member_by_id_found}
use ssh_chat.Room.Delivery.{ignoring, left_out, heard, hears, posts, ignores-Same}
use ssh_chat.Room.Broadcast.{Present, handle_msg-Present, broadcast_all-hears}
use ssh_chat.Commands.{Request, Ambient, reply}
use ssh_chat.Commands.Members.{ignore_member, ignore_name, ignore}

-- The messages that a user was sent, in their order.
pub received : ℕ → List (ℕ × Message) → List Message
received u [] = []
received u ((v, m) ∷ sent) = let rest = received u sent in if v == u then m ∷ rest else rest

received-append :
    (u : ℕ) (a b : List (ℕ × Message)) → received u (a ++ b) ≡ received u a ++ received u b
unfolding received
received-append u [] b = refl
received-append u ((v, m) ∷ a) b = ground (arith, received-append u a b)

received_other : (u v : ℕ) (m : Message) → v ≢ u → received u ((v, m) ∷ []) ≡ []
unfolding received
received_other u v m h = ground (arith, h)

module _ (now : ℕ) (w : World) (m : Message) (f : Text) (u : ℕ) where
  ignored_apart : ignoring now w u f ≡ true → (v : ℕ) → left_out now w m f v ≡ false → v ≢ u
  unfolding left_out
  ignored_apart h v out e =
      let same : ignoring now w v f ≡ true = ap (λ z. ignoring now w z f) e ∙ h in
      ground (arith, same, out)

  received-heard :
      (it : Item ℕ) → ignoring now w u f ≡ true → received u (posts m (heard now w m f it)) ≡ []
  unfolding heard received
  received-heard it h = elim (Option-cases (member_of (value now it))) [
    | inl e ↦ rw (e, heard) refl
    | inr (p, e) ↦ elim (Bool-cases (left_out now w m f (w.member p).user)) [
      | inl out ↦ rw (e, heard) (rw out refl)
      | inr told ↦
          rw (e, heard) (rw told (received_other u (w.member p).user m (ignored_apart h _ told)))
    ]
  ]

  received-hears :
      (entries : List (Text × Item ℕ))
      → ignoring now w u f ≡ true
      → received u (posts m (hears now w m f entries)) ≡ []
  unfolding hears received
  received-hears [] h = refl
  received-hears ((k, it) ∷ rest) h =
      rw (map-append {B = ℕ × Message} (λ v. (v, m)) (heard now w m f it) (hears now w m f rest)) (
        received-append u (posts m (heard now w m f it)) (posts m (hears now w m f rest))
        ∙ rw (received-heard it h) (received-hears rest h))

  received-private :
      (v : ℕ)
      → ignoring now w u f ≡ true
      → received u (if ignoring now w v f then [] else (v, m) ∷ []) ≡ []
  unfolding received
  received-private v h = elim (Bool-cases (ignoring now w v f)) [
    | inl e ↦ rw e refl
    | inr e ↦
        rw e
          (received_other u v m (λ same. ground (arith, e, ap (λ z. ignoring now w z f) same ∙ h)))
  ]

received_same :
    (u : ℕ) (a b c : List (ℕ × Message))
    → c ≡ a ++ b
    → received u b ≡ []
    → received u c ≡ received u a
received_same u a b c e none_new =
    ap (received u) e ∙ received-append u a b ∙ rw none_new (append-nil (received u a))

module _ (run : Room.Commands) (now : ℕ) (w : World) (m : Message) (u : ℕ) where
  dispatch-addressed :
      (f : Text) (v : ℕ)
      → kind m ≡ addressed v
      → (dispatch run now w m f).sent ≡ w.sent ++ (if ignoring now w v f then [] else (v, m) ∷ [])
  unfolding dispatch send_to
  dispatch-addressed f v e =
      let i = ignores-Same now w v f in
      rw (e, dispatch) (ground (arith, i.1, i.2, append-nil w.sent))

  received-dispatch :
      (f : Text) (q : Kind)
      → kind m ≡ q
      → is_command q ≡ false
      → ignoring now w u f ≡ true
      → received u (dispatch run now w m f).sent ≡ received u w.sent
  unfolding dispatch
  received-dispatch f command e c h = ground (arith, c)
  received-dispatch f (addressed v) e c h =
      received_same u w.sent _ _ (dispatch-addressed f v e) (received-private now w m f u v h)
  received-dispatch f announcement e c h =
      rw (e, dispatch)
        (received_same u w.sent _ _ ((broadcast_all-hears now w m f).0)
          (received-hears now w m f u w.room.members.table h))
  received-dispatch f broadcast e c h =
      rw (e, dispatch)
        (received_same u w.sent _ _ ((broadcast_all-hears now w m f).0)
          (received-hears now w m f u w.room.members.table h))

  -- A user is sent no message, public or private, of a member that is not muted and that it ignores.
  pub received-ignored :
      (p : ℕ) (k : Text)
      → from_id_of w m ≢ []
      → Present run now w m k p
      → (w.member p).is_muted ≡ false
      → is_command (kind m) ≡ false
      → ignoring now w u (from_id_of w m) ≡ true
      → received u (handle_msg run now w m).sent ≡ received u w.sent
  received-ignored p k n e heard_p c h =
      rw (handle_msg-Present run now w m p k n e)
        (rw heard_p (received-dispatch (from_id_of w m) (kind m) refl c h))

found-ite :
    (a b : Text) (it : Item ℕ) (o : Option (Item ℕ))
    → found (ite (text_discrete a b) (some it) o) ≡ ite (text_discrete a b) true (found o)
unfolding found
found-ite a b it o = ground arith

module _ (env : Ambient) (w : World) (u : ℕ) (id : Text) (p : ℕ) where
  abbrev added : Set ℕ × Option SetError
  added = Set.add env.now (w.users u).ignored (itemize id (val p))

  -- The ignored names of every user, after /ignore of a member.
  abbrev lists_after : ℕ → Set ℕ
  lists_after v = ((after (ignore_member env w u id p)).users v).ignored

  ignore_added :
      result added ≡ none
      → (result (ignore_member env w u id p) ≡ none)
        × ((v : ℕ) → lists_after v ≡ (if u == v then after added else (w.users v).ignored))
  unfolding ignore_member reply set_user Room.send
  ignore_added e = (rw (e, ignore_member) refl, λ v. rw (e, ignore_member) (ground arith))

  ignore_refused :
      result added ≡ some collision
      → (result (ignore_member env w u id p) ≡ some (codes "user already ignored: " ++ id))
        × ((v : ℕ) → lists_after v ≡ (if u == v then after added else (w.users v).ignored))
  unfolding ignore_member set_user
  ignore_refused e = (rw (e, ignore_member) refl, λ v. rw (e, ignore_member) (ground arith))

  added_lem :
      (later : ℕ) (k : Text)
      → (result added ≡ (if ignoring env.now w u id then some collision else none))
        × (found (live later (after added) k) ≡ (
            if ignoring env.now w u id
            then ignoring later w u k
            else ite
                (text_discrete ((w.users u).ignored.normalize id) ((w.users u).ignored.normalize k))
                true
                (ignoring later w u k)))
  unfolding key value is_nil
  added_lem later k =
      let a = add-live env.now later (w.users u).ignored (itemize id (val p)) k in
      elim (Bool-cases (ignoring env.now w u id)) [
        | inl taken ↦ rw taken (a.0 ∙ rw taken refl, ap found (a.1 ∙ rw taken refl))
        | inr free ↦ rw free (
          a.0 ∙ rw free refl,
          ap found (a.1 ∙ rw free refl) ∙ found-ite _ _ (itemize id (val p)) _,
        )
      ]

  ignore_outcome :
      (result (ignore_member env w u id p)
        ≡ (if ignoring env.now w u id then some (codes "user already ignored: " ++ id) else none))
      × ((v : ℕ) → lists_after v ≡ (if u == v then after added else (w.users v).ignored))
  ignore_outcome = elim (Bool-cases (ignoring env.now w u id)) [
    | inl taken ↦ rw taken (ignore_refused ((added_lem env.now id).0 ∙ rw taken refl))
    | inr free ↦ rw free (ignore_added ((added_lem env.now id).0 ∙ rw free refl))
  ]

  ignore_member-ignoring :
      (later v : ℕ) (k : Text)
      → let normalize = (w.users u).ignored.normalize in
        (result (ignore_member env w u id p)
          ≡ (if ignoring env.now w u id then some (codes "user already ignored: " ++ id) else none))
        × (ignoring later (after (ignore_member env w u id p)) v k ≡ (
            if not (ignoring env.now w u id) && u == v
            then ite (text_discrete (normalize id) (normalize k)) true (ignoring later w u k)
            else ignoring later w v k))
  ignore_member-ignoring later v k = (
    ignore_outcome.0,
    ap (λ (s : Set ℕ). found (live later s k)) (ignore_outcome.1 v) ∙ elim (Bool-cases (u == v)) [
      | inl same ↦
          let owner : u ≡ v = (==_iff u v).0 same in
          rw same (
            (added_lem later k).1 ∙ elim (Bool-cases (ignoring env.now w u id)) [
              | inl taken ↦ rw taken (ap (λ (x : ℕ). ignoring later w x k) owner)
              | inr free ↦ rw free refl
            ])
      | inr other ↦ rw other (ground arith)
    ],
  )

module _ (env : Ambient) (w : World) (req : Request) where
  -- The name that /ignore takes from the body.
  abbrev pub ignored_name : Text
  ignored_name = trim_space (trim_left req.body (codes "/ignore"))

  ignore-member :
      (p : ℕ) (j : Text)
      → ignored_name ≢ []
      → ignored_name ≢ (w.users req.from).id
      → lookup (w.room.members.normalize ignored_name) w.room.members.table
        ≡ some (itemize j (val p))
      → ignore env w req ≡ ignore_member env w req.from ignored_name p
  unfolding ignore ignore_name
  ignore-member p j named other e =
      let at_hand = member_by_id_found env.now w ignored_name j p e in
      if_neg (text_discrete ignored_name []) named _ _
      ∙ if_neg (text_discrete ignored_name (w.users req.from).id) other _ _
      ∙ rw at_hand
          (ap (λ (r : World × Option ℕ). ignore_member env r.0 req.from ignored_name p) at_hand)

  -- /ignore of a member by its name, which is not the sender's own: afterwards the sender ignores
  -- that name, up to the case of letters, at every later time, and nothing else changes about who
  -- ignores whom. It fails exactly when the name was ignored already.
  pub ignore-ignoring :
      (p : ℕ) (j : Text)
      → ignored_name ≢ []
      → ignored_name ≢ (w.users req.from).id
      → lookup (w.room.members.normalize ignored_name) w.room.members.table
        ≡ some (itemize j (val p))
      → (later v : ℕ) (k : Text)
      → let u = req.from in
        let normalize = (w.users u).ignored.normalize in
        let already = ignoring env.now w u ignored_name in
        (result (ignore env w req)
          ≡ (if already then some (codes "user already ignored: " ++ ignored_name) else none))
        × (ignoring later (after (ignore env w req)) v k ≡ (
            if not already && u == v
            then ite
                (text_discrete (normalize ignored_name) (normalize k))
                true
                (ignoring later w u k)
            else ignoring later w v k))
  ignore-ignoring p j named other e later v k =
      rw (ignore-member p j named other e)
        (ignore_member-ignoring env w req.from ignored_name p later v k)

  -- After an /ignore of a member by its name, which is not the sender's own, that succeeds, the
  -- message that `HandleMsg` takes next is not sent to who gave the command, if it comes from that
  -- name, up to the case of letters, of a member that is not muted, and is no command: be it public
  -- or private, and at any later time. Whatever was sent to that user before is kept.
  pub ignore-received :
      (p : ℕ) (j : Text)
      → ignored_name ≢ []
      → ignored_name ≢ (w.users req.from).id
      → lookup (w.room.members.normalize ignored_name) w.room.members.table
        ≡ some (itemize j (val p))
      → result (ignore env w req) ≡ none
      → (run : Room.Commands) (later : ℕ) (m : Message) (q : ℕ) (k : Text)
      → let w' = after (ignore env w req) in
        let f = from_id_of w' m in
        f ≢ []
        → (w.users req.from).ignored.normalize ignored_name ≡ (w.users req.from).ignored.normalize f
        → Present run later w' m k q
        → (w'.member q).is_muted ≡ false
        → is_command (kind m) ≡ false
        → received req.from (handle_msg run later w' m).sent ≡ received req.from w'.sent
  ignore-received p j named other e done run later m q k n same here heard_q c =
      let w' = after (ignore env w req) in
      let f = from_id_of w' m in
      let g = ignore-ignoring p j named other e later req.from f in
      received-ignored run later w' m req.from q k n here heard_q c (
        g.1 ∙ elim (Bool-cases (ignoring env.now w req.from ignored_name)) [
          | inl already ↦ ground (arith, g.0, already, done)
          | inr fresh ↦
              rw (fresh, (==_iff req.from req.from).1 refl) (if_pos (text_discrete _ _) same _ _)
        ])
