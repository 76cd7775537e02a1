-- ===== src/Host/Allowlist/Round.antt =====
-- One round of `/allowlist reverify`: the callback on a member.
use ssh_chat.Prelude.{
  ℕ, ◌≡◌, refl, ap, ◌∙◌, sym, Bool, true, false, not, ◌||◌, ◌&&◌, if◌then◌else◌, Option, none, some,
  List, [], ◌∷◌, ◌++◌, Text, after, result, arith, Bool-cases, Option-cases, inl, inr,
}
use ssh_chat.Set.{found, is_in}
use ssh_chat.Set.Expiry.{reads_invisible}
use ssh_chat.Auth.{
  Externals, KeySet, Auth, AuthError, new_auth_key, allow_anonymous, is_op, check_public_key,
  accept_passphrase,
}
use ssh_chat.Auth.Checks.{holds, is_operator, check_public_key-allowed}
use ssh_chat.Host.{Host, close_user, shown}
use ssh_chat.Host.Allowlist.Connected.{reverify_member}

module _ (x : Externals) where
  abbrev is_error : Option AuthError → Bool
  is_error none = false
  is_error (some e) = true

  -- The key of the member's user is refused, and the member is no operator of the room.
  abbrev pub is_refused : ℕ → Host x → ℕ → Bool
  is_refused now h p =
      let m = h.world.member p in
      is_error (result (check_public_key x now h.auth (h.conn m.user).public_key)) && not m.is_op

  is_in-holds_later :
      (now : ℕ) (s : KeySet) (k j : Text) → holds now (after (is_in now s k)) j ≡ holds now s j
  is_in-holds_later now s k j = ap found ((reads_invisible now now s k j (omega arith)).0)

  -- What `CheckPublicKey` consults is as it was.
  pub record Alike (now : ℕ) (a b : Auth x) : Type 0 where
    pub anonymous : allow_anonymous x b ≡ allow_anonymous x a
    pub allowed : (j : Text) → holds now b.allowlist j ≡ holds now a.allowlist j
    pub operators : (j : Text) → holds now b.ops j ≡ holds now a.ops j

  abbrev listing_read : ℕ → Auth x → Option x.PublicKey → Auth x
  listing_read now a k = record a { allowlist = after (is_in now a.allowlist (new_auth_key x k)) }

  listing_read-Alike :
      (now : ℕ) (a : Auth x) (k : Option x.PublicKey) → Alike now a (listing_read now a k)
  unfolding allow_anonymous accept_passphrase
  listing_read-Alike now a k = record {
    anonymous = refl;
    allowed = is_in-holds_later now a.allowlist (new_auth_key x k);
    operators = λ j. refl;
  }

  is_op-Alike :
      (now : ℕ) (a b : Auth x) (k : Option x.PublicKey)
      → Alike now a b
      → Alike now a (after (is_op x now b k))
  unfolding is_op allow_anonymous accept_passphrase
  is_op-Alike now a b k l = record {
    anonymous = l.anonymous;
    allowed = l.allowed;
    operators = λ j. is_in-holds_later now b.ops (new_auth_key x k) j ∙ l.operators j;
  }

  pub check_public_key-Alike :
      (now : ℕ) (a : Auth x) (k : Option x.PublicKey)
      → Alike now a (after (check_public_key x now a k))
  unfolding check_public_key
  check_public_key-Alike now a k =
      let b = listing_read now a k in
      elim (Bool-cases (allow_anonymous x b || result (is_in now a.allowlist (new_auth_key x k)))) [
        | inl e ↦ rw (e, check_public_key) (listing_read-Alike now a k)
        | inr e ↦ rw (e, check_public_key) (is_op-Alike now a b k (listing_read-Alike now a k))
      ]

  -- The answers to all keys are as they were.
  pub check_public_key_again :
      (now : ℕ) (a b : Auth x) (j : Option x.PublicKey)
      → Alike now a b
      → result (check_public_key x now b j) ≡ result (check_public_key x now a j)
  unfolding is_operator
  check_public_key_again now a b j l =
      check_public_key-allowed x now b j
      ∙ rw (l.anonymous, l.allowed (new_auth_key x j), l.operators (new_auth_key x j)) refl
      ∙ sym (check_public_key-allowed x now a j)

  pub Alike-trans : {now : ℕ} {a b c : Auth x} → Alike now a b → Alike now b c → Alike now a c
  Alike-trans l m = record {
    anonymous = m.anonymous ∙ l.anonymous;
    allowed = λ j. m.allowed j ∙ l.allowed j;
    operators = λ j. m.operators j ∙ l.operators j;
  }

  abbrev pub read : ℕ → Host x → ℕ → Host x
  read now g p = record g {
    auth = after (check_public_key x now g.auth (g.conn (g.world.member p).user).public_key);
  }

  abbrev pub kicked : Host x → ℕ → List Text → Host x × List Text
  kicked g p names =
      let u = (g.world.member p).user in (close_user x g u, names ++ shown x g u ∷ [])

  -- The callback, by the test that it amounts to.
  pub reverify_member_lem :
      (now p : ℕ) (g : Host x) (names : List Text)
      → reverify_member x now p (g, names) ≡ (
        if is_refused now g p then kicked (read now g p) p names else (read now g p, names),
        none,
      )
  unfolding reverify_member
  reverify_member_lem now p g names =
      let key = (g.conn (g.world.member p).user).public_key in
      elim (Option-cases (result (check_public_key x now g.auth key))) [
        | inl e ↦ rw (e, reverify_member) refl
        | inr (y, e) ↦ elim (Bool-cases (g.world.member p).is_op) [
          | inl o ↦ rw (e, reverify_member) (rw (o, reverify_member) refl)
          | inr o ↦ rw (e, reverify_member) (rw (o, reverify_member) refl)
        ]
      ]
