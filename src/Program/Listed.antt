-- ===== src/Program/Listed.antt =====
-- What the sets of auth.go hold after the keys of a loader are added.
use ssh_chat.Prelude.{
  ℕ, ◌≡◌, refl, ap, ◌∙◌, Bool, true, false, ◌||◌, ite, Option, none, some, List, [], ◌∷◌, Text,
  text_discrete, after, arith,
}
use ssh_chat.Prelude.Int.{ℤ, pos}
use ssh_chat.Set.{string_item, key, value, is_nil, found}
use ssh_chat.Set
use ssh_chat.Set.Expiry.{set-remove-live}
use ssh_chat.Auth.{
  Externals, KeySet, Auth, KeyLoader, new_auth_key, set_for, op, allow, add_keys, add_from_loader,
  load_ops, load_allowlist, reload_ops, reload_allowlist,
}
use ssh_chat.Auth.Checks.{holds}

module _ (x : Externals) where
  open x use {PublicKey}

  -- One of the keys has the fingerprint `fp`, up to the normalization of the set.
  abbrev pub listed : (Text → Text) → Text → List (Option PublicKey) → Bool
  listed norm fp [] = false
  listed norm fp (none ∷ ks) = listed norm fp ks
  listed norm fp (some k ∷ ks) =
      ite (text_discrete (norm (new_auth_key x (some k))) (norm fp)) true (listed norm fp ks)

  -- What a loader gives at a time; a nil loader gives no keys.
  abbrev pub keys_of : Option (KeyLoader x) → ℕ → List (Option PublicKey)
  keys_of none now = []
  keys_of (some loader) now = (loader now).0

  set_for-holds_any :
      (set_at now : ℕ) (s : KeySet) (k j : Text)
      → holds now (set_for x set_at s k (pos 0)) j
        ≡ ite (text_discrete (s.normalize k) (s.normalize j)) true (holds now s j)
  unfolding set_for key value found is_nil
  set_for-holds_any set_at now s k j =
      ap found ((set-remove-live now s (string_item k) k j).1) ∙ ground arith

  set_for-normalize :
      (set_at : ℕ) (s : KeySet) (k : Text) → (set_for x set_at s k (pos 0)).normalize ≡ s.normalize
  unfolding set_for Set.set Set.store
  set_for-normalize set_at s k = refl

  -- What `adder` keeps, the loop keeps.
  pub add_keys_keeps :
      {B : Type 0} (p : Auth x → B) (adder : Auth x → Option PublicKey → ℤ → Auth x)
      → ((a : Auth x) (k : Option PublicKey) → p (adder a k (pos 0)) ≡ p a)
      → (a : Auth x) (ks : List (Option PublicKey)) → p (add_keys x adder a ks) ≡ p a
  unfolding add_keys
  add_keys_keeps p adder h a [] = refl
  add_keys_keeps p adder h a (k ∷ ks) = add_keys_keeps p adder h (adder a k (pos 0)) ks ∙ h a k

  module _ (set_of : Auth x → KeySet) (set_at : ℕ) (adder : Auth x → Option PublicKey → ℤ → Auth x)
      (no_key : (a : Auth x) → set_of (adder a none (pos 0)) ≡ set_of a)
      (one_key : (a : Auth x) (k : PublicKey)
        → set_of (adder a (some k) (pos 0))
          ≡ set_for x set_at (set_of a) (new_auth_key x (some k)) (pos 0)) where
    or_ite : {P : Type 0} (d : Dec P) (b c : Bool) → (ite d true b || c) ≡ (b || ite d true c)
    or_ite d b c = ground arith

    pub add_keys-holds :
        (now : ℕ) (norm : Text → Text) (a : Auth x) (ks : List (Option PublicKey)) (j : Text)
        → (set_of a).normalize ≡ norm
        → holds now (set_of (add_keys x adder a ks)) j
          ≡ (holds now (set_of a) j || listed norm j ks)
    unfolding add_keys
    add_keys-holds now norm a [] j n = ground arith
    add_keys-holds now norm a (none ∷ ks) j n =
        add_keys-holds now norm (adder a none (pos 0)) ks j
          (ap (λ (s : KeySet). s.normalize) (no_key a) ∙ n)
        ∙ ap (λ (s : KeySet). holds now s j || listed norm j ks) (no_key a)
    add_keys-holds now norm a (some k ∷ ks) j n =
        let fp = new_auth_key x (some k) in
        let same : (set_of (adder a (some k) (pos 0))).normalize ≡ norm =
          ap (λ (s : KeySet). s.normalize) (one_key a k)
          ∙ set_for-normalize set_at (set_of a) fp
          ∙ n in
        add_keys-holds now norm (adder a (some k) (pos 0)) ks j same
        ∙ ap (λ (b : Bool). b || listed norm j ks)
            (ap (λ (s : KeySet). holds now s j) (one_key a k)
              ∙ set_for-holds_any set_at now (set_of a) fp j
              ∙ ap
                  (λ (f : Text → Text).
                    ite (text_discrete (f fp) (f j)) true (holds now (set_of a) j))
                  n)
        ∙ or_ite (text_discrete (norm fp) (norm j)) (holds now (set_of a) j) (listed norm j ks)

  add_from_loader-after :
      (now : ℕ) (loader : Option (KeyLoader x)) (adder : Auth x → Option PublicKey → ℤ → Auth x)
      (a : Auth x)
      → after (add_from_loader x now loader adder a) ≡ add_keys x adder a (keys_of loader now)
  unfolding add_from_loader add_keys
  add_from_loader-after now none adder a = refl
  add_from_loader-after now (some loader) adder a = refl

  pub load_ops-after :
      (now : ℕ) (a : Auth x) (loader : Option (KeyLoader x))
      → after (load_ops x now a loader)
        ≡ add_keys x (op x now) (record a { op_loader = loader }) (keys_of loader now)
  unfolding load_ops reload_ops
  load_ops-after now a loader =
      add_from_loader-after now loader (op x now) (record a { op_loader = loader })

  pub load_allowlist-after :
      (now : ℕ) (a : Auth x) (loader : Option (KeyLoader x))
      → after (load_allowlist x now a loader)
        ≡ add_keys x (allow x now) (record a { allowlist_loader = loader }) (keys_of loader now)
  unfolding load_allowlist reload_allowlist
  load_allowlist-after now a loader =
      add_from_loader-after now loader (allow x now) (record a { allowlist_loader = loader })
