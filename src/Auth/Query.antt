-- ===== src/Auth/Query.antt =====
-- `BanQuery` of auth.go: the fields of a query, and what is banned by them.
use ssh_chat.Prelude.{
  ℕ, Bool, false, ◌||◌, ◌==◌, ◌≡◌, ◌≢◌, refl, if◌then◌else◌, ite, if_neg, Option, none, some, List,
  [], ◌∷◌, Text, codes, text_discrete, after, result, Bool-cases, Option-cases, inl, inr, arith,
}
use ssh_chat.Prelude.Int.{ℤ, pos}
use ssh_chat.Auth.{
  Externals, Auth, AuthError, invalid_csv, invalid_duration, invalid_query, invalid_ip,
  unknown_field, ban_client, ban_fingerprint, ban_addr,
}

-- `strings.Contains(s, "=")`.
unfoldable pub has_equals : Text → Bool
has_equals [] = false
has_equals (c ∷ s) = c == b'=' || has_equals s

abbrev cons_key : ℕ → Option (Text × Text) → Option (Text × Text)
cons_key c none = none
cons_key c (some (k, v)) = some (c ∷ k, v)

-- `strings.SplitN(field, "=", 2)`, if it has two parts.
unfoldable pub split_equals : Text → Option (Text × Text)
split_equals [] = none
split_equals (c ∷ s) = if c == b'=' then some ([], s) else cons_key c (split_equals s)

unfoldable pub last_field : Text → List Text → Text
last_field f [] = f
last_field f (g ∷ gs) = last_field g gs

-- `fields[:len(fields)-1]`.
unfoldable pub drop_last : Text → List Text → List Text
drop_last f [] = []
drop_last f (g ∷ gs) = f ∷ drop_last g gs

module _ (x : Externals) where
  open x use {parse_ip, ip_string, tcp_string, parse_duration, read_csv}

  -- One round of the loop: the error that ends it, or what it bans.
  unfoldable pub ban_field : ℕ → Auth x → Text → ℤ → Auth x × Option AuthError
  unfolding split_equals
  ban_field now a field d = elim (split_equals field) [
    | none ↦ (a, some invalid_query)
    | some (key, value) ↦
        ite (text_discrete key (codes "client")) (ban_client x now a value d, none)
          (ite (text_discrete key (codes "fingerprint")) (ban_fingerprint x now a value d, none)
            (ite (text_discrete key (codes "ip"))
              (ite (text_discrete (ip_string (parse_ip value)) []) (a, some invalid_ip)
                (ban_addr x now a (some (tcp_string (parse_ip value))) d, none))
              (a, some unknown_field)))
  ]

  unfoldable pub ban_fields : ℕ → Auth x → List Text → ℤ → Auth x × Option AuthError
  unfolding ban_field
  ban_fields now a [] d = (a, none)
  ban_fields now a (f ∷ fs) d =
      let (a', e) = ban_field now a f d in
      elim e [ none ↦ ban_fields now a' fs d | some e' ↦ (a', some e') ]

  unfoldable pub ban_query : ℕ → Auth x → Text → Auth x × Option AuthError
  unfolding ban_fields has_equals last_field drop_last
  ban_query now a q = elim (read_csv q) [
    | none ↦ (a, some invalid_csv)
    | some (f, fs) ↦
        if has_equals (last_field f fs)
        then ban_fields now a (f ∷ fs) (pos 0)
        else elim (parse_duration (last_field f fs)) [
          | none ↦ (a, some invalid_duration)
          | some d ↦ ban_fields now a (drop_last f fs) d
        ]
  ]

  split_equals-none : (f : Text) → has_equals f ≡ false → split_equals f ≡ none
  unfolding has_equals split_equals
  split_equals-none [] h = refl
  split_equals-none (c ∷ s) h = ground (arith, split_equals-none s)

  ban_field_leading :
      (now : ℕ) (a : Auth x) (f : Text) (d : ℤ)
      → has_equals f ≡ false
      → ban_field now a f d ≡ (a, some invalid_query)
  unfolding ban_field
  ban_field_leading now a f d h = rw (split_equals-none f h, ban_field)

  ban_fields_leading :
      (now : ℕ) (a : Auth x) (f : Text) (fs : List Text) (d : ℤ)
      → has_equals f ≡ false
      → ban_fields now a (f ∷ fs) d ≡ (a, some invalid_query)
  unfolding ban_fields
  ban_fields_leading now a f fs d h = ground (arith, ban_field_leading now a f d h)

  -- A query of two fields or more whose first field has no `=` fails whatever follows, and bans
  -- nothing: no field but the last is read as a duration. So the example of the comment on
  -- `BanQuery`, `5s client=foo 10min ip=1.1.1.1`, is refused.
  pub leading_duration_refused :
      (now : ℕ) (a : Auth x) (q f g : Text) (gs : List Text)
      → read_csv q ≡ some (f, g ∷ gs)
      → has_equals f ≡ false
      → (after (ban_query now a q) ≡ a) × (result (ban_query now a q) ≢ none)
  unfolding ban_query drop_last
  leading_duration_refused now a q f g gs e h =
      elim (Bool-cases (has_equals (last_field f (g ∷ gs)))) [
        | inl more ↦
            rw (e, ban_query)
              (rw more (rw (ban_fields_leading now a f (g ∷ gs) (pos 0) h) (refl, λ c. cc)))
        | inr last ↦ elim (Option-cases (parse_duration (last_field f (g ∷ gs)))) [
          | inl bad ↦ rw (e, ban_query) (rw last (rw bad (refl, λ c. cc)))
          | inr (d, good) ↦
              rw (e, ban_query)
                (rw last
                  (rw good (rw (ban_fields_leading now a f (drop_last g gs) d h) (refl, λ c. cc))))
        ]
      ]

  -- A field `ip=…` with a text that is no address is not refused, if nil prints as some text (Go
  -- prints `<nil>`): it bans the host part of the address that nil makes.
  pub invalid_ip_banned :
      (now : ℕ) (a : Auth x) (f v : Text) (d : ℤ)
      → split_equals f ≡ some (codes "ip", v)
      → parse_ip v ≡ none
      → ip_string none ≢ []
      → ban_field now a f d ≡ (ban_addr x now a (some (tcp_string none)) d, none)
  unfolding ban_field text_discrete
  invalid_ip_banned now a f v d e bad nil =
      rw (e, ban_field)
        (rw bad (if_neg (text_discrete (ip_string none) []) nil (a, some invalid_ip) _))
