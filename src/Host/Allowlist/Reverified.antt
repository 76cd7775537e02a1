-- ===== src/Host/Allowlist/Reverified.antt =====
-- Whom `/allowlist reverify` closes.
use ssh_chat.Prelude.{
  ℕ, ◌≡◌, refl, ap, ◌∙◌, sym, Bool, true, false, not, ◌||◌, ◌&&◌, if◌then◌else◌, Option, none, some,
  List, [], ◌∷◌, Text, after, occurs, arith, Bool-cases, Option-cases, inl, inr,
}
use mathlib.Core.List.{append-nil}
use ssh_chat.Set.{Item, Value, nil, truth, val, value, is_nil, each, each_loop}
use ssh_chat.Auth.{Externals, Auth}
use ssh_chat.Room.{Member, member_of, set_user}
use ssh_chat.User.{User}
use ssh_chat.Room
use ssh_chat.Commands.{Ambient}
use ssh_chat.Host.{Host, on_members, announce}
use ssh_chat.Host.Allowlist.Connected.{
  connected, for_connected, reverify_member, announce_kicked, allowlist_reverify,
}
use ssh_chat.Host.Allowlist.Round.{Alike, reverify_member_lem}
use ssh_chat.Host.Allowlist.Underway.{
  refused_one, refused_in, Underway, Adds, Adds-trans, round_lem,
}

module _ (x : Externals) where
  module _ (now : ℕ) where
    abbrev pub State : Type 0
    State = Host x × List Text

    abbrev run : List (Text × Item ℕ) → State → State
    run table a = (each_loop (connected now (reverify_member x now)) now table a).state

    skip_lem :
        (k : Text) (it : Item ℕ) (table : List (Text × Item ℕ)) (a : State)
        → member_of (value now it) ≡ none
        → run ((k, it) ∷ table) a ≡ run table a
    unfolding each_loop connected
    skip_lem k it table a e = ground (arith, e)

    member_live : (v : Value ℕ) (p : ℕ) → member_of v ≡ some p → is_nil v ≡ false
    unfolding is_nil member_of
    member_live nil p e = ground (arith, e)
    member_live truth p e = ground (arith, e)
    member_live (val q) p e = refl

    no_error : (p : ℕ) (a : State) → (reverify_member x now p a).1 ≡ none
    no_error p (g, names) =
        ap (λ (r : State × Option (Unit {0})). r.1) (reverify_member_lem x now p g names)

    connected-member :
        (k : Text) (it : Item ℕ) (a : State) (p : ℕ)
        → member_of (value now it) ≡ some p
        → connected now (reverify_member x now) k it a ≡ reverify_member x now p a
    unfolding connected
    connected-member k it a p e = rw (e, connected) refl

    run-member :
        (k : Text) (it : Item ℕ) (table : List (Text × Item ℕ)) (a : State) (p : ℕ)
        → member_of (value now it) ≡ some p
        → run ((k, it) ∷ table) a ≡ run table (reverify_member x now p a).0
    unfolding each_loop connected
    run-member k it table a p e =
        let same = connected-member k it a p e in
        rw (member_live (value now it) p e, run, each_loop)
          (rw (ap (λ (r : State × Option (Unit {0})). r.1) same ∙ no_error p a, each_loop)
            (ap (λ (r : State × Option (Unit {0})). run table r.0) same))

    -- The loop closes the users of the members that are refused, and adds their names.
    loop_lem :
        (h : Host x) (a : State) (table : List (Text × Item ℕ))
        → Underway x now h a.0
        → Underway x now h (run table a).0 × Adds x h (refused_in x now h table) a (run table a)
    unfolding refused_in each_loop Adds
    loop_lem h a [] w = (w, (λ v. ground arith, sym (append-nil a.1)))
    loop_lem h a ((k, it) ∷ table) w = elim (Option-cases (member_of (value now it))) [
      | inl e ↦ let next = loop_lem h a table w in rw (skip_lem k it table a e, e, refused_in) next
      | inr (p, e) ↦
          let first = round_lem x now p h a.0 a.1 w in
          let b = (reverify_member x now p a).0 in
          let next = loop_lem h b table first.0 in
          rw (run-member k it table a p e, e, refused_in)
            (
              next.0,
              Adds-trans x h (refused_one x now h p) (refused_in x now h table) a b (run table b)
                  first.1 next.1,
            )
    ]

  announce_kicked-users :
      (env : Ambient) (g : Host x) (names : List Text)
      → (after (announce_kicked x env g names)).world.users ≡ g.world.users
  unfolding announce_kicked announce Room.send
  announce_kicked-users env g [] = refl
  announce_kicked-users env g (name ∷ names) = refl

  Alike-refl : (now : ℕ) (a : Auth x) → Alike x now a a
  Alike-refl now a = record { anonymous = refl; allowed = λ j. refl; operators = λ j. refl }

  not-true : {A : Type 0} (b : Bool) (c d : A) → b ≡ true → (if not b then c else d) ≡ d
  not-true b c d e = rw e refl

  reverify_on :
      (env : Ambient) (h : Host x)
      → h.auth.allowlist_mode ≡ true
      → allowlist_reverify x env h ≡ (
          let r = for_connected env.now (reverify_member x env.now) h.world.room.members (h, []) in
          announce_kicked x env (on_members x r.1.0 r.0) r.1.1)
  unfolding allowlist_reverify
  reverify_on env h e = not-true h.auth.allowlist_mode _ _ e

  on_lem : (b c m : Bool) → m ≡ true → (b || c) ≡ (b || (m && c))
  on_lem b c m e = rw e (ground arith)

  -- After `/allowlist reverify` exactly those users are closed that were closed before and, in
  -- allowlist mode, those of the members whose key `CheckPublicKey` refuses and that are no operators
  -- of the room.
  pub allowlist_reverify-done :
      (env : Ambient) (h : Host x) (v : ℕ)
      → ((after (allowlist_reverify x env h)).world.users v).done ≡ (
          (h.world.users v).done
          || (h.auth.allowlist_mode
              && occurs v (refused_in x env.now h h.world.room.members.table)))
  unfolding allowlist_reverify for_connected each Adds
  allowlist_reverify-done env h v = elim (Bool-cases h.auth.allowlist_mode) [
    | inl e ↦
        let start : Underway x env.now h h = record {
          members = refl;
          conns = refl;
          named = λ u. refl;
          auths = Alike-refl env.now h.auth;
        } in
        let all = loop_lem env.now h (h, []) h.world.room.members.table start in
        let r = for_connected env.now (reverify_member x env.now) h.world.room.members (h, []) in
        let g = on_members x r.1.0 r.0 in
        ap (λ (o : Host x × List Text). (o.0.world.users v).done) (reverify_on env h e)
        ∙ ap (λ (us : ℕ → User). (us v).done) (announce_kicked-users env g r.1.1)
        ∙ all.1.0 v
        ∙ on_lem (h.world.users v).done
            (occurs v (refused_in x env.now h h.world.room.members.table)) h.auth.allowlist_mode e
    | inr e ↦ rw (e, allowlist_reverify) (ground arith)
  ]
