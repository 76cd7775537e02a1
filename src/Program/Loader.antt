-- ===== src/Program/Loader.antt =====
-- cmd/ssh-chat/cmd.go: `loaderFromFile`, which reads a file of public keys line by line.
use ssh_chat.Prelude.{
  ℕ, if◌then◌else◌, ite, ◌==◌, leb, Option, none, some, List, [], ◌∷◌, ◌++◌, length, Text,
  text_discrete, has_suffix, take, ◌-◌, Result, ok, err,
}
use ssh_chat.Auth.{Externals, AuthError, loader_failed, KeyLoader}

-- `bufio.MaxScanTokenSize`.
abbrev pub max_token : ℕ
max_token = 65536

-- `dropCR` of `bufio.ScanLines`.
unfoldable pub drop_cr : Text → Text
unfolding has_suffix
drop_cr line = if has_suffix line (13 ∷ []) then take (length line - 1) line else line

-- What `Scan` and `Bytes` of a `bufio.Scanner` give of a text, the first line of which goes on from
-- `line`. The scanner ends at a line that fills its buffer.
unfoldable pub scan_from : Text → Text → List Text
unfolding drop_cr
scan_from line [] =
    if leb max_token (length line) then [] else ite (text_discrete line []) [] (drop_cr line ∷ [])
scan_from line (c ∷ s) =
    let next = scan_from [] s in
    let longer = scan_from (line ++ c ∷ []) s in
    if leb max_token (length line) then [] else if c == 10 then drop_cr line ∷ next else longer

unfoldable pub scan_lines : Text → List Text
unfolding scan_from
scan_lines s = scan_from [] s

-- The errors of `ssh.ParseAuthorizedKey`: "ssh: no key found", and others.
pub data KeyError : Type 0 where
  no_key_found malformed : KeyError

module _ (x : Externals) where
  -- The loop over the lines.
  unfoldable pub collect_keys :
      (Text → Result KeyError x.PublicKey)
      → List (Option x.PublicKey)
      → List Text
      → List (Option x.PublicKey) × Option AuthError
  collect_keys parse keys [] = (keys, none)
  collect_keys parse keys (line ∷ lines) = elim (parse line) [
    | ok key ↦ collect_keys parse (keys ++ some key ∷ []) lines
    | err no_key_found ↦ collect_keys parse keys lines
    | err malformed ↦ ([], some loader_failed)
  ]

  -- `loaderFromFile`, for what a file holds when it is opened. A read that fails later ends the
  -- lines as the end of the file does.
  unfoldable pub loader_from_file :
      (ℕ → Text → Option Text) → (Text → Result KeyError x.PublicKey) → Text → Option (KeyLoader x)
  unfolding collect_keys scan_lines
  loader_from_file read parse path = ite (text_discrete path []) none (
      some (λ now. elim (read now path) [
        | none ↦ ([], some loader_failed)
        | some content ↦ collect_keys parse [] (scan_lines content)
      ]))
