-- ===== src/Host/Allowlist/Keys.antt =====
-- host.go: `forPubkeyUser`, which runs something on the keys that the arguments of /allowlist name.
use ssh_chat.Prelude.{
  ℕ, if◌then◌else◌, ite, none, some, List, [], ◌∷◌, ◌++◌, Text, codes, text_discrete, has_prefix,
  join_with,
}
use ssh_chat.Auth.{Externals, Auth}
use ssh_chat.Host.{Outside, Host, get_user, shown}

-- The lines of a reply; no lines stand for Go's nil.
abbrev pub Lines : Type 0
Lines = List Text

-- A line with the names if there are any, printed as `%v`.
abbrev pub line_of : Text → List Text → Lines
line_of text [] = []
line_of text (k ∷ ks) = (text ++ (codes "[" ++ (join_with (k ∷ ks) (codes " ") ++ codes "]"))) ∷ []

-- What `forPubkeyUser` complains of, and the type of a key that is to follow.
pub record Collected : Type 0 where
  pub key_type : Text
  pub no_keys : List Text
  pub invalid_users : List Text
  pub invalid_keys : List Text

unfoldable pub complaints : Collected → Lines
complaints c =
    line_of (codes "users without a public key: ") c.no_keys
    ++ (line_of (codes "invalid users: ") c.invalid_users
        ++ line_of (codes "invalid keys: ") c.invalid_keys)

module _ (x : Externals) where
  open x use {PublicKey}

  -- One round of `forPubkeyUser`, with what is done with a key.
  unfoldable pub add_arg :
      Outside x → ℕ → (Auth x → PublicKey → Auth x) → Host x × Collected → Text → Host x × Collected
  unfolding get_user
  add_arg o now cmd (h, c) v =
      ite (text_discrete c.key_type [])
        (if has_prefix v (codes "ssh-")
          then (h, record c { key_type = v })
          else (let (h', r) = get_user x now h v in
              elim r [
                | none ↦ (h', record c { invalid_users = c.invalid_users ++ v ∷ [] })
                | some u ↦ elim (h'.conn u).public_key [
                  | none ↦ (h', record c { no_keys = c.no_keys ++ shown x h' u ∷ [] })
                  | some k ↦ (record h' { auth = cmd h'.auth k }, c)
                ]
              ]))
        (let text = c.key_type ++ (codes " " ++ v) in
          elim (o.parse_authorized_key text) [
            | some k ↦ (record h { auth = cmd h.auth k }, record c { key_type = [] })
            | none ↦ (h, record c { key_type = []; invalid_keys = c.invalid_keys ++ text ∷ [] })
          ])

  unfoldable pub add_args :
      Outside x
      → ℕ
      → (Auth x → PublicKey → Auth x)
      → Host x × Collected
      → List Text
      → Host x × Collected
  unfolding add_arg
  add_args o now cmd s [] = s
  add_args o now cmd s (v ∷ vs) = add_args o now cmd (add_arg o now cmd s v) vs

  -- `forPubkeyUser`.
  unfoldable pub for_pubkey_user :
      Outside x → ℕ → (Auth x → PublicKey → Auth x) → Host x → List Text → Host x × Lines
  unfolding add_args complaints
  for_pubkey_user o now cmd h args =
      let (h', c) =
        add_args o now cmd
          (h, record { key_type = []; no_keys = []; invalid_users = []; invalid_keys = [] }) args in
      (h', complaints c)
