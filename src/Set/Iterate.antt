-- ===== src/Set/Iterate.antt =====
-- What `Each` visits and what `ListPrefix` lists.
use ssh_chat.Prelude.{
  ℕ, ◌≤◌, ◌↔◌, lookup-Fresh, ◌≡◌, refl, ◌∙◌, sym, true, ◌&&◌, not, if◌then◌else◌, Bool-cases, inl,
  inr, ◌⊎◌, some, List, [], ◌∷◌, ◌++◌, Text, has_prefix, lookup, KeysNodup, Fresh, after, result,
  In, arith,
}
use mathlib.Core.List.{append_assoc, append-nil}
use ssh_chat.Set.{
  Item, Set, value, is_nil, cleanup_all, each, each_loop, collect_prefix, list_prefix,
}
use ssh_chat.Set.Expiry.{live_at, keep_live, cleanup-live}

module _ {V : Type 0} where
  -- The live items of a list of entries whose keys have the prefix.
  prefixed : ℕ → Text → List (Text × Item V) → List (Item V)
  prefixed now p [] = []
  prefixed now p ((k, it) ∷ m) =
      if not (is_nil (value now it)) && has_prefix k p
      then it ∷ prefixed now p m
      else prefixed now p m

  each_loop-prefixed :
      (now : ℕ) (p : Text) (m : List (Text × Item V)) (r : List (Item V))
      → (each_loop (collect_prefix p) now m r).state ≡ r ++ prefixed now p m
  unfolding each_loop collect_prefix prefixed
  each_loop-prefixed now p [] r = sym (append-nil r)
  each_loop-prefixed now p ((k, it) ∷ m) r = ground (
    arith,
    each_loop-prefixed now p m r,
    each_loop-prefixed now p m (r ++ it ∷ []),
    append_assoc r (it ∷ []) (prefixed now p m),
  )

  cleanup_all-live :
      (now later : ℕ) (s : Set V) (ks : List Text) (j : Text)
      → now ≤ later
      → live_at later (cleanup_all now s ks) j ≡ live_at later s j
  unfolding cleanup_all
  cleanup_all-live now later s [] j h = refl
  cleanup_all-live now later s (k ∷ ks) j h =
      cleanup-live now later (cleanup_all now s ks) k j h ∙ cleanup_all-live now later s ks j h

  -- An item is listed just if it is live under some key that has the prefix.
  Listed : ℕ → Text → List (Text × Item V) → Item V → Type 0
  Listed now p m it = (k : Text) × (keep_live now (lookup k m) ≡ some it) × (has_prefix k p ≡ true)

  Listed-cons :
      (now : ℕ) (p k : Text) (jt : Item V) (m : List (Text × Item V)) (it : Item V)
      → Fresh k m
      → Listed now p m it
      → Listed now p ((k, jt) ∷ m) it
  unfolding Listed lookup
  Listed-cons now p k jt m it f (k', e, h) = (k', ground (arith, lookup-Fresh k m f), h)

  Listed-sound :
      (now : ℕ) (p : Text) (m : List (Text × Item V)) (it : Item V)
      → KeysNodup m
      → In it (prefixed now p m)
      → Listed now p m it
  unfolding prefixed Listed lookup
  Listed-sound now p [] it n i = absurd i
  Listed-sound now p ((k, jt) ∷ m) it n i =
      elim (Bool-cases (not (is_nil (value now jt)) && has_prefix k p)) [
        | inl e ↦
            let here : (jt ≡ it) ⊎ In it (prefixed now p m) = rw e at i in
            elim here [
              | inl same ↦ (k, ground arith, ground arith)
              | inr later ↦ Listed-cons now p k jt m it n.0 (Listed-sound now p m it n.1 later)
            ]
        | inr e ↦
            let there : In it (prefixed now p m) = rw e at i in
            Listed-cons now p k jt m it n.0 (Listed-sound now p m it n.1 there)
      ]

  Listed-complete :
      (now : ℕ) (p : Text) (m : List (Text × Item V)) (it : Item V) (k : Text)
      → keep_live now (lookup k m) ≡ some it
      → has_prefix k p ≡ true
      → In it (prefixed now p m)
  unfolding prefixed lookup
  Listed-complete now p [] it k e h = cc
  Listed-complete now p ((j, jt) ∷ m) it k e h = ground (arith, Listed-complete now p m it k)

  -- `ListPrefix` lists exactly the items that are live under a key with the normalized prefix, and
  -- a later reader sees the same items as before it.
  pub list_prefix-exact :
      (now later : ℕ) (s : Set V) (p : Text) (it : Item V) (j : Text)
      → KeysNodup s.table
      → now ≤ later
      → (In it (result (list_prefix now s p))
          ↔ ((k : Text) × (live_at now s k ≡ some it) × (has_prefix k (s.normalize p) ≡ true)))
        × (live_at later (after (list_prefix now s p)) j ≡ live_at later s j)
  unfolding list_prefix each Listed
  list_prefix-exact now later s p it j n h = (
    rw (each_loop-prefixed now (s.normalize p) s.table []) (
      Listed-sound now (s.normalize p) s.table it n,
      λ l. Listed-complete now (s.normalize p) s.table it l.0 l.1 l.2,
    ),
    cleanup_all-live now later s _ j h,
  )
