-- ===== src/Host/Allowlist.antt =====
-- host.go: the handler of /allowlist.
pub mod Keys
pub mod Connected
pub mod Effects
pub mod Round
pub mod Underway
pub mod Reverified
mod Tests
use ssh_chat.Prelude.{
  ℕ, ◌+◌, ◌-◌, suc, Bool, true, false, not, if◌then◌else◌, ite, Option, none, some, List, [], ◌∷◌,
  ◌++◌, Text, codes, text_discrete, has_prefix, join_with, ltb, ok, err,
}
use ssh_chat.Prelude.Int.{ℤ, pos, negsuc}
use ssh_chat.Auth.{
  Externals, Auth, allow, set_allowlist_mode, reload_allowlist, check_public_key, fingerprint,
}
use ssh_chat.Set.{Set, Item, value, key, each}
use ssh_chat.Set
use ssh_chat.Room.{member_of}
use ssh_chat.Commands.{Ambient}
use ssh_chat.Host.{
  Outside, Host, HostOutcome, HostHandler, on_members, refuse, tell, announce, get_user, close_user,
  as_op, shown,
}
use ssh_chat.Host.Allowlist.Keys.{Lines, for_pubkey_user}
use ssh_chat.Host.Allowlist.Connected.{import_since, allowlist_reverify, allowlist_status}

abbrev help_lines : Lines
help_lines =
    codes
      "Usage: /allowlist help | on | off | add {PUBKEY|USER}... | remove {PUBKEY|USER}... | import [AGE] | reload {keep|flush} | reverify | status"
    ∷ codes "help: this help message"
    ∷ codes "on, off: set allowlist mode (applies to new connections)"
    ∷ codes "add, remove: add or remove keys from the allowlist"
    ∷ codes "import: add all keys of users connected since AGE (default 0) ago to the allowlist"
    ∷ codes
        "reload: re-read the allowlist file and keep or discard entries in the current allowlist but not in the file"
    ∷ codes "reverify: kick all users not in the allowlist if allowlisting is enabled"
    ∷ codes "status: show status information"
    ∷ []

module _ (x : Externals) where
  abbrev Replied : Type 0
  Replied = Host x × Lines × Option Text

  unfoldable pub allowlist_import : Ambient → Host x → List Text → Replied
  unfolding import_since
  allowlist_import env h [] =
      let (h', lines) = import_since x env.now h (pos 0) in (h', lines, none)
  allowlist_import env h (age ∷ args) = elim (env.parse_duration age) [
    | err e ↦ (h, [], some e)
    | ok since ↦ let (h', lines) = import_since x env.now h since in (h', lines, none)
  ]

  unfoldable pub reload : Outside x → ℕ → Host x → Host x × Option Text
  unfolding reload_allowlist
  reload o now h =
      let (a, e) = reload_allowlist x now h.auth in
      (record h { auth = a }, elim e [ none ↦ none | some e' ↦ some (o.error_text e') ])

  unfoldable pub allowlist_reload : Outside x → ℕ → Host x → List Text → Host x × Option Text
  unfolding reload
  allowlist_reload o now h [] =
      (h, some (codes "must specify whether to keep or flush current entries"))
  allowlist_reload o now h (arg ∷ args) = ite (text_discrete arg (codes "keep")) (reload o now h) (
      ite (text_discrete arg (codes "flush"))
        (reload o now
          (record h { auth = record h.auth { allowlist = (Set.clear h.auth.allowlist).0 } }))
        (h, some (codes "must specify whether to keep or flush current entries")))

  -- The switch on the name of the subcommand.
  unfoldable pub subcommand : Outside x → Ambient → Host x → Text → List Text → Replied
  unfolding set_allowlist_mode for_pubkey_user allowlist_import allowlist_reload allowlist_reverify
      allowlist_status
  subcommand o env h name args =
      let is : Text → Bool = λ s. ite (text_discrete name s) true false in
      let quietly : Host x → Replied = λ h'. (h', [], none) in
      let replied : Host x × Lines → Replied = λ r. (r.0, r.1, none) in
      if is (codes "help")
      then (h, help_lines, none)
      else if is (codes "on")
      then quietly (record h { auth = set_allowlist_mode x h.auth true })
      else if is (codes "off")
      then quietly (record h { auth = set_allowlist_mode x h.auth false })
      else if is (codes "add")
      then replied (for_pubkey_user x o env.now (λ a k. allow x env.now a (some k) (pos 0)) h args)
      else if is (codes "remove")
      then replied (for_pubkey_user x o env.now (λ a k. allow x env.now a (some k) (pos 1)) h args)
      else if is (codes "import")
      then allowlist_import env h args
      else if is (codes "reload")
      then (let (h', e) = allowlist_reload o env.now h args in (h', [], e))
      else if is (codes "reverify")
      then replied (allowlist_reverify x env h)
      else if is (codes "status")
      then replied (allowlist_status x env.now h)
      else (h, [], some (codes "invalid subcommand: " ++ name))

  unfoldable pub respond : Ambient → ℕ → Replied → HostOutcome x
  unfolding tell
  respond env u (h, lines, some e) = refuse x h e
  respond env u (h, [], none) = (h, none)
  respond env u (h, line ∷ lines, none) = tell x env h u (join_with (line ∷ lines) (codes "\r\n"))

  unfoldable pub allowlist_args : Outside x → Ambient → ℕ → List Text → Host x → HostOutcome x
  unfolding subcommand respond
  allowlist_args o env u [] h = respond env u (subcommand o env h (codes "help") [])
  allowlist_args o env u (name ∷ args) h = respond env u (subcommand o env h name args)

  unfoldable pub allowlist_command : Outside x → HostHandler x
  unfolding as_op allowlist_args
  allowlist_command o env h req = as_op x env h req.from (allowlist_args o env req.from req.args)
