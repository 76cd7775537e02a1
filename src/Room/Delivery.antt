-- ===== src/Room/Delivery.antt =====
-- Who is sent a message by `HandleMsg` of chat/room.go.
use ssh_chat.Prelude.{
  ℕ, ◌≡◌, refl, ap, sym, ◌∙◌, Bool, true, ◌&&◌, ◌||◌, if◌then◌else◌, ◌==◌, inl, inr, Bool-cases,
  Option-cases, Option, none, some, List, [], ◌∷◌, ◌++◌, map, Text, after, result, arith,
}
use mathlib.Core.List.{append-nil}
use ssh_chat.Set.{Item, value, is_nil, found}
use ssh_chat.Set.Expiry.{live, reads_invisible}
use ssh_chat.Message.{Message, kind}
use ssh_chat.User.{UserConfig}
use ssh_chat.Room.{World, Member, member_of, ignores, is_announcement, deliver, send_to, set_user}

-- The user ignores the name, as a reader of its list sees it.
abbrev pub ignoring : ℕ → World → ℕ → Text → Bool
ignoring now w u k = found (live now (w.users u).ignored k)

-- What the traversal of the members leaves as it was.
pub record Same (now : ℕ) (w w' : World) : Type 0 where
  pub lists : (v : ℕ) (k : Text) → ignoring now w' v k ≡ ignoring now w v k
  pub quiet : (v : ℕ) → (w'.users v).config ≡ (w.users v).config
  pub members : w'.member ≡ w.member
  pub room : w'.room ≡ w.room

pub ignores-Same :
    (now : ℕ) (w : World) (u : ℕ) (k : Text)
    → Same now w (after (ignores now w u k))
      × (result (ignores now w u k) ≡ ignoring now w u k)
      × ((after (ignores now w u k)).sent ≡ w.sent)
unfolding ignores set_user
ignores-Same now w u k = (
  record {
    lists = λ v j. elim (Bool-cases (u == v)) [
      | inl e ↦
          rw e (ground (arith, (reads_invisible now now (w.users u).ignored k j (omega arith)).0))
      | inr e ↦ rw e refl
    ];
    quiet = λ v. ground arith;
    members = refl;
    room = refl;
  },
  (reads_invisible now now (w.users u).ignored k k (omega arith)).2,
  refl,
)

pub Same-trans : {now : ℕ} {a b c : World} → Same now a b → Same now b c → Same now a c
Same-trans s t = record {
  lists = λ v k. t.lists v k ∙ s.lists v k;
  quiet = λ v. t.quiet v ∙ s.quiet v;
  members = t.members ∙ s.members;
  room = t.room ∙ s.room;
}

-- A user is left out if it ignores the sender, or is quiet and the message is an announcement.
unfoldable pub left_out : ℕ → World → Message → Text → ℕ → Bool
left_out now w m from_id u =
    ignoring now w u from_id || (is_announcement (kind m) && (w.users u).config.quiet)

-- The user, if any, that hears a message by one entry of the members, and those by them all.
unfoldable pub heard : ℕ → World → Message → Text → Item ℕ → List ℕ
heard now w m from_id it = elim (member_of (value now it)) [
  | none ↦ []
  | some p ↦ if left_out now w m from_id (w.member p).user then [] else (w.member p).user ∷ []
]

unfoldable pub hears : ℕ → World → Message → Text → List (Text × Item ℕ) → List ℕ
hears now w m from_id [] = []
hears now w m from_id ((k, it) ∷ rest) = heard now w m from_id it ++ hears now w m from_id rest

abbrev pub posts : Message → List ℕ → List (ℕ × Message)
posts m = map (λ u. (u, m))

Same-send_to :
    {now : ℕ} {w w' : World} (u : ℕ) (m : Message) → Same now w w' → Same now w (send_to w' u m)
unfolding send_to
Same-send_to u m s = record { lists = s.lists; quiet = s.quiet; members = s.members; room = s.room }

-- What the callback does with the user of a member.
deliver_user :
    (now : ℕ) (w w' : World) (m : Message) (f : Text) (u : ℕ)
    → Same now w w'
    → let r = ignores now w' u f in
      let d : World × Option (Unit {0}) =
        if r.1
        then (r.0, none)
        else if is_announcement (kind m) && (r.0.users u).config.quiet
        then (r.0, none)
        else (send_to r.0 u m, none) in
      (d.1 ≡ none)
      × Same now w d.0
      × (d.0.sent ≡ w'.sent ++ posts m (if left_out now w m f u then [] else u ∷ []))
unfolding left_out
deliver_user now w w' m f u s =
    let r = ignores now w' u f in
    let i = ignores-Same now w' u f in
    let t : Same now w r.0 = Same-trans s i.0 in
    let ig : r.1 ≡ ignoring now w u f = i.1 ∙ s.lists u f in
    let qu : (r.0.users u).config.quiet ≡ (w.users u).config.quiet =
      ap (λ (c : UserConfig). c.quiet) (t.quiet u) in
    rw (ig, qu)
      (elim (Bool-cases (ignoring now w u f)) [
        | inl e ↦ rw e (refl, t, i.2 ∙ sym (append-nil w'.sent))
        | inr e ↦ rw e (elim (Bool-cases (is_announcement (kind m) && (w.users u).config.quiet)) [
          | inl q ↦ rw q (refl, t, i.2 ∙ sym (append-nil w'.sent))
          | inr q ↦ rw q (refl, Same-send_to u m t, unfold send_to in rw (i.2) refl)
        ])
      ])

pub deliver-heard :
    (now : ℕ) (w w' : World) (m : Message) (f k : Text) (it : Item ℕ)
    → Same now w w'
    → ((deliver now m f k it w').1 ≡ none)
      × Same now w (deliver now m f k it w').0
      × ((deliver now m f k it w').0.sent ≡ w'.sent ++ posts m (heard now w m f it))
unfolding deliver heard
deliver-heard now w w' m f k it s = elim (Option-cases (member_of (value now it))) [
  | inl e ↦ rw (e, deliver, heard) (refl, s, sym (append-nil w'.sent))
  | inr (p, e) ↦
      let same_user : (w.member p).user ≡ (w'.member p).user =
        ap (λ (g : ℕ → Member). (g p).user) (sym s.members) in
      rw (e, deliver, heard) (rw same_user (deliver_user now w w' m f (w'.member p).user s))
]

pub heard_nil :
    (now : ℕ) (w : World) (m : Message) (f : Text) (it : Item ℕ)
    → is_nil (value now it) ≡ true
    → heard now w m f it ≡ []
unfolding heard member_of is_nil
heard_nil now w m f it dead = ground arith
