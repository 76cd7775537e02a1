-- ===== src/Host/Allowlist/Connected.antt =====
-- host.go: what the subcommands of /allowlist do with the members that are connected.
use ssh_chat.Prelude.{
  ℕ, ◌+◌, ◌-◌, suc, not, if◌then◌else◌, ite, Option, none, some, List, [], ◌∷◌, ◌++◌, Text, codes,
  text_discrete, join_with, ltb,
}
use ssh_chat.Prelude.Int.{ℤ, pos, negsuc}
use ssh_chat.Auth.{Externals, Auth, allow, check_public_key, fingerprint}
use ssh_chat.Set.{Set, Item, value, key, each}
use ssh_chat.Room.{member_of}
use ssh_chat.Commands.{Ambient}
use ssh_chat.Host.{Host, on_members, announce, close_user, shown}
use ssh_chat.Host.Allowlist.Keys.{Lines, line_of}

-- A line with the names if there are any, after commas.
abbrev listed : Text → List Text → Lines
listed text [] = []
listed text (k ∷ ks) = (text ++ join_with (k ∷ ks) (codes ", ")) ∷ []

-- `t.Add(-d)`.
unfoldable pub ago : ℕ → ℤ → ℕ
ago t (pos n) = t - n
ago t (negsuc n) = t + suc n

-- The callback of `forConnectedUsers`, which runs `cmd` on each member.
unfoldable pub connected :
    {σ : Type 0} → ℕ → (ℕ → σ → σ × Option (Unit {0})) → Text → Item ℕ → σ → σ × Option (Unit {0})
unfolding member_of
connected now cmd k it s = elim (member_of (value now it)) [ none ↦ (s, none) | some p ↦ cmd p s ]

unfoldable pub for_connected :
    {σ : Type 0} → ℕ → (ℕ → σ → σ × Option (Unit {0})) → Set ℕ → σ → Set ℕ × σ × Option (Unit {0})
unfolding connected
for_connected now cmd s a = each (connected now cmd) now s a

module _ (x : Externals) where
  -- The callback of `allowlistImport`.
  unfoldable pub import_member :
      ℕ → ℕ → Host x → ℕ → Auth x × List Text → (Auth x × List Text) × Option (Unit {0})
  import_member now cutoff h p (a, no_keys) =
      let u = (h.world.member p).user in
      if ltb (h.world.users u).joined cutoff
      then elim (h.conn u).public_key [
        | none ↦ ((a, no_keys ++ shown x h u ∷ []), none)
        | some k ↦ ((allow x now a (some k) (pos 0), no_keys), none)
      ]
      else ((a, no_keys), none)

  unfoldable pub import_since : ℕ → Host x → ℤ → Host x × Lines
  unfolding import_member for_connected ago
  import_since now h since =
      let r =
        for_connected now (import_member now (ago now since) h) h.world.room.members (h.auth, []) in
      (
        record (on_members x h r.0) { auth = r.1.0 },
        line_of (codes "users without a public key: ") r.1.1,
      )

  -- The callback of `allowlistReverify`.
  unfoldable pub reverify_member :
      ℕ → ℕ → Host x × List Text → (Host x × List Text) × Option (Unit {0})
  unfolding close_user
  reverify_member now p (h, kicked) =
      let u = (h.world.member p).user in
      let (a, e) = check_public_key x now h.auth (h.conn u).public_key in
      let h' = record h { auth = a } in
      elim e [
        | none ↦ ((h', kicked), none)
        | some e' ↦
            if (h.world.member p).is_op
            then ((h', kicked), none)
            else ((close_user x h' u, kicked ++ shown x h' u ∷ []), none)
      ]

  -- The announcement of who was kicked, if anyone was.
  unfoldable pub announce_kicked : Ambient → Host x → List Text → Host x × Lines
  unfolding announce
  announce_kicked env h [] = (h, [])
  announce_kicked env h (name ∷ names) = (
    (announce x env h
        (codes "Kicked during pubkey reverification: " ++ join_with (name ∷ names) (codes ", "))).0,
    [],
  )

  unfoldable pub allowlist_reverify : Ambient → Host x → Host x × Lines
  unfolding reverify_member for_connected announce_kicked
  allowlist_reverify env h =
      if not h.auth.allowlist_mode
      then (h, codes "allowlist is disabled, so nobody will be kicked" ∷ [])
      else (let r = for_connected env.now (reverify_member env.now) h.world.room.members (h, []) in
          announce_kicked env (on_members x r.1.0 r.0) r.1.1)

  -- The inner callback of `allowlistStatus`, which stops at a user with the key.
  unfoldable pub status_member : Host x → Text → ℕ → List Text → List Text × Option (Unit {0})
  status_member h fp p names =
      let u = (h.world.member p).user in
      elim (h.conn u).public_key [
        | none ↦ (names, none)
        | some k ↦
            ite (text_discrete (fingerprint x k) fp) (names ++ shown x h u ∷ [], some tt)
              (names, none)
      ]

  -- The outer callback, with the members and the names and keys that were found.
  unfoldable pub status_key :
      ℕ
      → Host x
      → Text
      → Item (Unit {0})
      → Set ℕ × List Text × List Text
      → (Set ℕ × List Text × List Text) × Option (Unit {0})
  unfolding status_member for_connected
  status_key now h k it (s, names, keys) =
      let r = for_connected now (status_member h (key it)) s names in
      elim r.2 [
        | none ↦ ((r.0, r.1, keys ++ key it ∷ []), none)
        | some e ↦ ((r.0, r.1, keys), none)
      ]

  unfoldable pub allowlist_status : ℕ → Host x → Host x × Lines
  unfolding status_key
  allowlist_status now h =
      let mode : Text =
        if h.auth.allowlist_mode then codes "allowlist enabled" else codes "allowlist disabled" in
      let r = each (status_key now h) now h.auth.allowlist (h.world.room.members, [], []) in
      (
        record (on_members x h r.1.0) { auth = record h.auth { allowlist = r.0 } },
        mode
            ∷ (listed (codes "Connected users on the allowlist: ") r.1.1
                ++ listed (codes "Keys on the allowlist without connected user: ") r.1.2),
      )
