-- ===== src/Host/Allowlist/Tests.antt =====
-- What /allowlist does on a host with two members.
use ssh_chat.Prelude.{
  ℕ, ◌≡◌, refl, true, false, none, some, Text, Option, has_prefix, occurs, ◌&&◌, ◌||◌,
  if◌then◌else◌, codes, text_discrete, lookup, to_lower, after, arith,
}
use ssh_chat.Auth.{
  AuthError, new_auth, not_allowed, set_allowlist_mode, allow_anonymous, check_public_key, is_op,
  new_auth_key, fingerprint, accept_passphrase,
}
use ssh_chat.Auth.Checks.{is_operator}
use ssh_chat.Set.{is_in, Item, val, itemize, list_prefix}
use ssh_chat.Room.{member_of}
use ssh_chat.Host.{Host, HostOutcome}
use ssh_chat.Host.Allowlist.{allowlist_command}
use ssh_chat.Host.Allowlist.Effects.{asks, verdict, allowlist_add-check, allowlist_remove-check}
use ssh_chat.Host.Allowlist.Connected.{allowlist_reverify}
use ssh_chat.Host.Allowlist.Underway.{refused_in}
use ssh_chat.Host.Allowlist.Reverified.{allowlist_reverify-done}
use ssh_chat.Host.Example.{outer, outside, env, table, host, ann_op, bob_found}

-- Ann adds Bob to the allowlist of a host in allowlist mode, and removes him.
abbrev strict : Host outer
strict = record host { auth = set_allowlist_mode outer (new_auth outer) true }

abbrev for_bob : Text → HostOutcome outer
for_bob sub =
    allowlist_command outer outside env strict (
      asks outer outside env strict 0 (codes "/allowlist") (codes "/allowlist") (codes "bob") 1 sub)

abbrev bobs_verdict : ℕ → HostOutcome outer → Option Text × Option AuthError
bobs_verdict later =
    verdict outer outside env strict 0 (codes "/allowlist") (codes "/allowlist") (codes "bob") 1
      later (codes "key")

no_key_type : has_prefix (codes "bob") (codes "ssh-") ≡ false
unfolding has_prefix
no_key_type = refl

allowlist_add-check_example : bobs_verdict 8 (for_bob (codes "add")) ≡ (none, none)
allowlist_add-check_example =
    allowlist_add-check outer outside env strict 0 (codes "/allowlist") (codes "/allowlist")
      (codes "bob") 1 8 (codes "key") ann_op bob_found no_key_type refl

allowlist_remove-check_example : bobs_verdict 9 (for_bob (codes "remove")) ≡ (
  none,
  if allow_anonymous outer strict.auth || is_operator outer 9 strict.auth (some (codes "key"))
      then none
      else some not_allowed,
)
allowlist_remove-check_example =
    allowlist_remove-check outer outside env strict 0 (codes "/allowlist") (codes "/allowlist")
      (codes "bob") 1 9 (codes "key") ann_op bob_found no_key_type refl (omega arith)

-- Bob's key is not on the allowlist.
allowlist_reverify-done_example :
    ((after (allowlist_reverify outer env strict)).world.users 1).done ≡ (
      (strict.world.users 1).done
      || (strict.auth.allowlist_mode
          && occurs 1 (refused_in outer env.now strict strict.world.room.members.table)))
allowlist_reverify-done_example = allowlist_reverify-done outer env strict 1

bob_refused : occurs 1 (refused_in outer env.now strict table) ≡ true
unfolding refused_in check_public_key allow_anonymous is_op is_in lookup text_discrete member_of
    ssh_chat.Set.value ssh_chat.Set.new to_lower set_allowlist_mode new_auth new_auth_key
    fingerprint accept_passphrase
bob_refused = refl
