-- ===== src/Host/Allowlist/Underway.antt =====
-- A host in the course of `/allowlist reverify`.
use ssh_chat.Prelude.{
  ℕ, ◌≡◌, refl, ap, ◌∙◌, sym, Bool, true, ◌||◌, if◌then◌else◌, ◌==◌, none, some, List, [], ◌∷◌,
  ◌++◌, map, Text, occurs, arith, Bool-cases, inl, inr,
}
use mathlib.Core.List.{append_assoc, append-nil}
use ssh_chat.Set.{Item, Value, nil, truth, val, value, is_nil}
use ssh_chat.Auth.{Externals}
use ssh_chat.Room.{Member, member_of, set_user}
use ssh_chat.User.{User}
use ssh_chat.User
use ssh_chat.Host.{Host, close_user, shown}
use ssh_chat.Host.Allowlist.Connected.{reverify_member}
use ssh_chat.Host.Allowlist.Round.{
  is_refused, Alike, Alike-trans, check_public_key-Alike, check_public_key_again, read,
  reverify_member_lem,
}

module _ (x : Externals) where
  -- The user of the member, if it is refused.
  abbrev pub refused_one : ℕ → Host x → ℕ → List ℕ
  refused_one now h p = if is_refused x now h p then (h.world.member p).user ∷ [] else []

  -- The users of the members of the items that are refused.
  unfoldable pub refused_in : ℕ → Host x → List (Text × Item ℕ) → List ℕ
  refused_in now h [] = []
  refused_in now h ((k, it) ∷ rest) = elim (member_of (value now it)) [
    | none ↦ refused_in now h rest
    | some p ↦ refused_one now h p ++ refused_in now h rest
  ]

  -- A host in the course of the loop.
  pub record Underway (now : ℕ) (h g : Host x) : Type 0 where
    pub members : g.world.member ≡ h.world.member
    pub conns : g.conn ≡ h.conn
    pub named : (v : ℕ) → shown x g v ≡ shown x h v
    pub auths : Alike x now h.auth g.auth

  Underway-refused :
      (now p : ℕ) (h g : Host x) → Underway now h g → is_refused x now g p ≡ is_refused x now h p
  Underway-refused now p h g w =
      let key = (h.conn (h.world.member p).user).public_key in
      rw (w.members, w.conns, check_public_key_again x now h.auth g.auth key w.auths) refl

  read-Underway : (now p : ℕ) (h g : Host x) → Underway now h g → Underway now h (read x now g p)
  read-Underway now p h g w = record {
    members = w.members;
    conns = w.conns;
    named = w.named;
    auths =
        Alike-trans x w.auths
          (check_public_key-Alike x now g.auth (g.conn (g.world.member p).user).public_key);
  }

  closed_name : (g : Host x) (u v : ℕ) → shown x (close_user x g u) v ≡ shown x g v
  unfolding close_user set_user User.close User.name
  closed_name g u v = ground arith

  close_user-done :
      (g : Host x) (u v : ℕ)
      → ((close_user x g u).world.users v).done ≡ ((g.world.users v).done || v == u)
  unfolding close_user set_user User.close
  close_user-done g u v = ground arith

  close_user-Underway :
      (now u : ℕ) (h g : Host x) → Underway now h g → Underway now h (close_user x g u)
  unfolding close_user set_user User.close
  close_user-Underway now u h g w = record {
    members = w.members;
    conns = w.conns;
    named = λ v. closed_name g u v ∙ w.named v;
    auths = w.auths;
  }

  -- What a round adds to the users that are closed and to the names.
  unfoldable pub Adds : Host x → List ℕ → Host x × List Text → Host x × List Text → Type 0
  Adds h us (g, names) (g', names') =
      ((v : ℕ) → (g'.world.users v).done ≡ ((g.world.users v).done || occurs v us))
      × (names' ≡ names ++ map (shown x h) us)

  one_more : (b : Bool) (v u hu : ℕ) → u ≡ hu → (b || v == u) ≡ (b || occurs v (hu ∷ []))
  one_more b v u hu e = rw e (ground arith)

  pub round_lem :
      (now p : ℕ) (h g : Host x) (names : List Text)
      → Underway now h g
      → let r = (reverify_member x now p (g, names)).0 in
        Underway now h r.0 × Adds h (refused_one now h p) (g, names) r
  unfolding Adds
  round_lem now p h g names w =
      let same = Underway-refused now p h g w in
      let u = (g.world.member p).user in
      let hu = (h.world.member p).user in
      let user : u ≡ hu = ap (λ (m : ℕ → Member). (m p).user) w.members in
      elim (Bool-cases (is_refused x now h p)) [
        | inl e ↦
            rw (reverify_member_lem x now p g names, same, e)
              (
                close_user-Underway now u h (read x now g p) (read-Underway now p h g w),
                (
                  λ v.
                      close_user-done (read x now g p) u v
                      ∙ one_more (g.world.users v).done v u hu user,
                  ap (λ (s : Text). names ++ s ∷ []) (w.named u ∙ ap (shown x h) user),
                ),
              )
        | inr e ↦
            rw (reverify_member_lem x now p g names, same, e)
              (read-Underway now p h g w, (λ v. ground arith, sym (append-nil names)))
      ]

  nil_member : (v : Value ℕ) → is_nil v ≡ true → member_of v ≡ none
  unfolding is_nil member_of
  nil_member nil e = refl
  nil_member truth e = ground (arith, e)
  nil_member (val p) e = ground (arith, e)

  occurs-append : (v : ℕ) (us vs : List ℕ) → occurs v (us ++ vs) ≡ (occurs v us || occurs v vs)
  occurs-append v [] vs = refl
  occurs-append v (u ∷ us) vs = ground (arith, occurs-append v us vs)

  map-append : (f : ℕ → Text) (us vs : List ℕ) → map f (us ++ vs) ≡ map f us ++ map f vs
  map-append f [] vs = refl
  map-append f (u ∷ us) vs = ap (λ (r : List Text). f u ∷ r) (map-append f us vs)

  pub Adds-trans :
      (h : Host x) (us vs : List ℕ) (a b c : Host x × List Text)
      → Adds h us a b
      → Adds h vs b c
      → Adds h (us ++ vs) a c
  unfolding Adds
  Adds-trans h us vs (g, n) (g', n') (g'', n'') d e = (
    λ v. ground (arith, d.0 v, e.0 v, occurs-append v us vs),
    e.1
        ∙ ap (λ (r : List Text). r ++ map (shown x h) vs) d.1
        ∙ append_assoc n (map (shown x h) us) (map (shown x h) vs)
        ∙ ap (λ (r : List Text). n ++ r) (sym (map-append (shown x h) us vs)),
  )
