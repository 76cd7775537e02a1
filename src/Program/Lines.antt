-- ===== src/Program/Lines.antt =====
-- Which keys the loader of cmd/ssh-chat/cmd.go gets from a file.
use ssh_chat.Prelude.{
  ℕ, ◌+◌, ◌≤◌, ◌<◌, ◌≡◌, refl, ap, ◌∙◌, Bool, true, false, ◌||◌, if◌then◌else◌, occurs, if_neg,
  Option, none, some, List, [], ◌∷◌, ◌++◌, length, Text, text_discrete, has_suffix, Result, ok, err,
  arith, ◌≢◌, length-append, ◌⊎◌, inl, inr,
}
use mathlib.Core.List.{append_assoc, append-nil}
use ssh_chat.Auth.{Externals, AuthError, KeyLoader, loader_failed}
use ssh_chat.Program.Loader.{
  max_token, drop_cr, scan_from, scan_lines, KeyError, no_key_found, malformed, collect_keys,
  loader_from_file,
}

-- A line without its end, which the buffer of the scanner has room for.
pub record IsLine (line : Text) : Type 0 where
  pub no_end : occurs 10 line ≡ false
  pub no_return : has_suffix line (13 ∷ []) ≡ false
  pub short : length line < max_token

abbrev pub AreLines : List Text → Type 0
AreLines [] = Unit {0}
AreLines (line ∷ lines) = IsLine line × AreLines lines

-- Each line with its end, and then a rest.
abbrev pub unlines : List Text → Text → Text
unlines [] rest = rest
unlines (line ∷ lines) rest = line ++ 10 ∷ unlines lines rest

scan_from-line :
    (before line s : Text)
    → occurs 10 line ≡ false
    → length before + length line < max_token
    → scan_from before (line ++ 10 ∷ s) ≡ drop_cr (before ++ line) ∷ scan_from [] s
unfolding scan_from
scan_from-line before [] s n l = rw (append-nil before) (ground (arith, l))
scan_from-line before (c ∷ line) s n l =
    let rest : occurs 10 line ≡ false = ground (arith, n) in
    let next =
      scan_from-line (before ++ c ∷ []) line s rest
        (omega (arith, l, length-append before (c ∷ [])))
      ∙ ap (λ (t : Text). drop_cr t ∷ scan_from [] s) (append_assoc before (c ∷ []) line) in
    ground (arith, next, n, l)

scan_lines-unlines :
    (lines : List Text) (rest : Text)
    → AreLines lines
    → scan_lines (unlines lines rest) ≡ lines ++ scan_lines rest
unfolding scan_lines drop_cr
scan_lines-unlines [] rest a = refl
scan_lines-unlines (line ∷ lines) rest (l, a) =
    scan_from-line [] line (unlines lines rest) l.no_end (omega (arith, l.short))
    ∙ rw (l.no_return, scan_lines-unlines lines rest a) refl

-- The scanner ends in a line that fills its buffer.
scan_from-long :
    (before line s : Text)
    → occurs 10 line ≡ false
    → max_token ≤ length before + length line
    → scan_from before (line ++ s) ≡ []
unfolding scan_from
scan_from-long before [] [] n l = ground (arith, l)
scan_from-long before [] (d ∷ s) n l = ground (arith, l)
scan_from-long before (c ∷ line) s n l =
    let rest : occurs 10 line ≡ false = ground (arith, n) in
    let next =
      scan_from-long (before ++ c ∷ []) line s rest
        (omega (arith, l, length-append before (c ∷ []))) in
    ground (arith, next, n, l)

scan_lines_empty : scan_lines [] ≡ []
unfolding scan_lines scan_from
scan_lines_empty = ground arith

-- The end of the file, or a line that is too long.
abbrev pub EndsScan : Text → Type 0
EndsScan tail =
    (tail ≡ [])
    ⊎ ((long : Text) × (rest : Text) × (tail ≡ long ++ rest)
        × (occurs 10 long ≡ false)
        × (max_token ≤ length long))

scan_lines_ends : (tail : Text) → EndsScan tail → scan_lines tail ≡ []
unfolding scan_lines
scan_lines_ends tail (inl e) = rw e scan_lines_empty
scan_lines_ends tail (inr (long, rest, e, n, l)) =
    rw e (scan_from-long [] long rest n (omega (arith, l)))

module _ (x : Externals) (parse : Text → Result KeyError x.PublicKey) where
  -- A line that no key can be read from, for another reason than that there is none.
  abbrev pub is_malformed : Text → Bool
  is_malformed line = elim (parse line) [
    | ok k ↦ false
    | err no_key_found ↦ false
    | err malformed ↦ true
  ]

  abbrev pub any_malformed : List Text → Bool
  any_malformed [] = false
  any_malformed (line ∷ lines) = is_malformed line || any_malformed lines

  -- The keys of the lines that have one.
  abbrev pub keys_in : List Text → List (Option x.PublicKey)
  keys_in [] = []
  keys_in (line ∷ lines) = elim (parse line) [
    | ok k ↦ some k ∷ keys_in lines
    | err e ↦ keys_in lines
  ]

  -- All keys, or the error.
  abbrev pub all_keys : List Text → List (Option x.PublicKey) × Option AuthError
  all_keys lines = if any_malformed lines then ([], some loader_failed) else (keys_in lines, none)

  -- What a loader gives at a time.
  abbrev pub keys_loaded : Option (KeyLoader x) → ℕ → List (Option x.PublicKey) × Option AuthError
  keys_loaded none now = ([], none)
  keys_loaded (some loader) now = loader now

  KeyError-cases :
      {K : Type 0} (r : Result KeyError K)
      → ((k : K) × (r ≡ ok k)) ⊎ ((r ≡ err no_key_found) ⊎ (r ≡ err malformed))
  KeyError-cases (ok k) = inl (k, refl)
  KeyError-cases (err no_key_found) = inr (inl refl)
  KeyError-cases (err malformed) = inr (inr refl)

  collect_keys_lem :
      (keys : List (Option x.PublicKey)) (lines : List Text)
      → collect_keys x parse keys lines
        ≡ (if any_malformed lines then ([], some loader_failed) else (keys ++ keys_in lines, none))
  unfolding collect_keys
  collect_keys_lem keys [] = rw (append-nil keys) refl
  collect_keys_lem keys (line ∷ lines) = elim (KeyError-cases (parse line)) [
    | inl (k, e) ↦
        let next =
          collect_keys_lem (keys ++ some k ∷ []) lines
          ∙ ap
              (λ (ks : List (Option x.PublicKey)).
                if any_malformed lines then ([], some loader_failed) else (ks, none))
              (append_assoc keys (some k ∷ []) (keys_in lines)) in
        ground (arith, e, next)
    | inr (inl e) ↦ ground (arith, e, collect_keys_lem keys lines)
    | inr (inr e) ↦ ground (arith, e)
  ]

  loaded_lines :
      (read : ℕ → Text → Option Text) (path : Text) (now : ℕ) (content : Text) (lines : List Text)
      → path ≢ []
      → read now path ≡ some content
      → scan_lines content ≡ lines
      → keys_loaded (loader_from_file x read parse path) now ≡ all_keys lines
  unfolding loader_from_file
  loaded_lines read path now content lines p r e =
      rw (if_neg (text_discrete path []) p _ _, r, e) (collect_keys_lem [] lines)

  -- Of a file of lines that the scanner has room for, with no carriage returns at their ends, the
  -- loader gives the keys in order, and nothing for a line without a key; one line that is malformed
  -- makes it fail. What follows the lines is nothing, or a line of 65536 bytes or more, which ends
  -- the reading without an error: the key of that line and all keys after it are dropped.
  pub loader_from_file-keys :
      (read : ℕ → Text → Option Text) (path : Text) (now : ℕ) (lines : List Text) (tail : Text)
      → path ≢ []
      → AreLines lines
      → EndsScan tail
      → read now path ≡ some (unlines lines tail)
      → keys_loaded (loader_from_file x read parse path) now ≡ all_keys lines
  loader_from_file-keys read path now lines tail p a t r =
      loaded_lines read path now (unlines lines tail) lines p r (
        scan_lines-unlines lines tail a
        ∙ ap (λ (r : List Text). lines ++ r) (scan_lines_ends tail t)
        ∙ append-nil lines)
