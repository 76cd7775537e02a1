-- ===== src/Host/Complete/Recent.antt =====
-- The order in which names are completed.
use ssh_chat.Prelude.{
  ℕ, ◌≤◌, ◌≡◌, refl, ltb, Bool-cases, inl, inr, List, [], ◌∷◌, map, Text, result, arith,
}
use mathlib.Core.List.{Perm}
use mathlib.Core.List.Perm
use ssh_chat.Auth.{Externals}
use ssh_chat.Set.{list_prefix}
use ssh_chat.User.{User}
use ssh_chat.Host.{Host}
use ssh_chat.Host.Complete.{active, insert_recent, sort_recent, users_of, names_prefix}

-- None of the users was active later.
abbrev pub NoneLater : User → List User → Type 0
NoneLater u [] = Unit {0}
NoneLater u (v ∷ vs) = (active v ≤ active u) × NoneLater u vs

-- The users that were active last come first.
abbrev pub IsRecent : List User → Type 0
IsRecent [] = Unit {0}
IsRecent (u ∷ us) = NoneLater u us × IsRecent us

insert_recent-Perm : (u : User) (us : List User) → Perm (insert_recent u us) (u ∷ us)
unfolding insert_recent
insert_recent-Perm u [] = Perm.rfl
insert_recent-Perm u (v ∷ vs) = elim (Bool-cases (ltb (active u) (active v))) [
  | inl e ↦
      rw (e, insert_recent) (Perm.trans (Perm.cons v (insert_recent-Perm u vs)) (Perm.swap u v vs))
  | inr e ↦ rw (e, insert_recent) Perm.rfl
]

sort_recent-Perm : (us : List User) → Perm (sort_recent us) us
unfolding sort_recent
sort_recent-Perm [] = Perm.rfl
sort_recent-Perm (u ∷ us) =
    Perm.trans (insert_recent-Perm u (sort_recent us)) (Perm.cons u (sort_recent-Perm us))

NoneLater-trans :
    (u v : User) (us : List User) → active v ≤ active u → NoneLater v us → NoneLater u us
NoneLater-trans u v [] h n = tt
NoneLater-trans u v (w ∷ us) h n = (omega (arith, h, n.0), NoneLater-trans u v us h n.1)

NoneLater-insert :
    (v u : User) (us : List User)
    → active u ≤ active v
    → NoneLater v us
    → NoneLater v (insert_recent u us)
unfolding insert_recent
NoneLater-insert v u [] h n = (h, tt)
NoneLater-insert v u (w ∷ us) h n = elim (Bool-cases (ltb (active u) (active w))) [
  | inl e ↦ rw (e, insert_recent) (n.0, NoneLater-insert v u us h n.1)
  | inr e ↦ rw (e, insert_recent) (h, n)
]

insert_recent-IsRecent : (u : User) (us : List User) → IsRecent us → IsRecent (insert_recent u us)
unfolding insert_recent
insert_recent-IsRecent u [] r = (tt, tt)
insert_recent-IsRecent u (v ∷ vs) r = elim (Bool-cases (ltb (active u) (active v))) [
  | inl e ↦
      rw (e, insert_recent)
        (NoneLater-insert v u vs (ground (arith, e)) r.0, insert_recent-IsRecent u vs r.1)
  | inr e ↦
      let h : active v ≤ active u = ground (arith, e) in
      rw (e, insert_recent) ((h, NoneLater-trans u v vs h r.0), r)
]

sort_recent-IsRecent : (us : List User) → IsRecent (sort_recent us)
unfolding sort_recent
sort_recent-IsRecent [] = tt
sort_recent-IsRecent (u ∷ us) = insert_recent-IsRecent u (sort_recent us) (sort_recent-IsRecent us)

module _ (x : Externals) where
  -- `NamesPrefix` gives the names of just the users whose items `ListPrefix` lists, as often as it
  -- lists them, and those of the users that were active last come first.
  pub names_prefix-IsRecent :
      (now : ℕ) (h : Host x) (prefix : Text)
      → (us : List User) × (result (names_prefix x now h prefix) ≡ map (λ (u : User). u.id) us)
        × Perm us (users_of h.world now (result (list_prefix now h.world.room.members prefix)))
        × IsRecent us
  unfolding names_prefix
  names_prefix-IsRecent now h prefix =
      let found = users_of h.world now (result (list_prefix now h.world.room.members prefix)) in
      (sort_recent found, refl, sort_recent-Perm found, sort_recent-IsRecent found)
