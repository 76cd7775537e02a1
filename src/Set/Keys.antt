-- ===== src/Set/Keys.antt =====
-- The keys of the map: no key stands twice, and each item stands under its own normalized key.
use ssh_chat.Prelude.{
  ℕ, ◌≡◌, refl, List, [], ◌∷◌, Text, assign, delete, KeysNodup, assign-KeysNodup, delete-KeysNodup,
  after, arith,
}
use ssh_chat.Set.{
  Item, Set, key, new, clear, cleanup, cleanup_all, is_in, get, store, add, set, remove, replace,
  list_prefix, each,
}

-- The calls of the interface, `Each` by way of `ListPrefix`.
pub data Call (V : Type 0) : Type 0 where
  adds sets : Item V → Call V
  removes asks gets lists : Text → Call V
  replaces : Text → Item V → Call V
  clears : Call V

module _ {V : Type 0} where
  abbrev pub AllKeyed : (Text → Text) → List (Text × Item V) → Type 0
  AllKeyed f [] = Unit
  AllKeyed f ((k, it) ∷ m) = (k ≡ f (key it)) × AllKeyed f m

  pub record IsKeyed (s : Set V) : Type 0 where
    pub unique : KeysNodup s.table
    pub keyed : AllKeyed s.normalize s.table

  delete-AllKeyed :
      (f : Text → Text) (k : Text) (m : List (Text × Item V))
      → AllKeyed f m
      → AllKeyed f (delete k m)
  unfolding delete
  delete-AllKeyed f k [] a = tt
  delete-AllKeyed f k ((j, it) ∷ m) a = ground (arith, delete-AllKeyed f k m)

  assign-AllKeyed :
      (f : Text → Text) (it : Item V) (m : List (Text × Item V))
      → AllKeyed f m
      → AllKeyed f (assign (f (key it)) it m)
  unfolding assign
  assign-AllKeyed f it [] a = (refl, tt)
  assign-AllKeyed f it ((j, old) ∷ m) a = ground (arith, assign-AllKeyed f it m)

  deleted-IsKeyed :
      (s : Set V) (k : Text) → IsKeyed s → IsKeyed (record s { table = delete k s.table })
  deleted-IsKeyed s k v = record {
    unique = delete-KeysNodup k s.table v.unique;
    keyed = delete-AllKeyed s.normalize k s.table v.keyed;
  }

  store-IsKeyed :
      (s : Set V) (it : Item V) → IsKeyed s → IsKeyed (store s (s.normalize (key it)) it)
  unfolding store
  store-IsKeyed s it v = record {
    unique = assign-KeysNodup (s.normalize (key it)) it s.table v.unique;
    keyed = assign-AllKeyed s.normalize it s.table v.keyed;
  }

  cleanup-IsKeyed : (now : ℕ) (s : Set V) (k : Text) → IsKeyed s → IsKeyed (cleanup now s k)
  unfolding cleanup
  cleanup-IsKeyed now s k v = ground (arith, deleted-IsKeyed s k v)

  cleanup_all-IsKeyed :
      (now : ℕ) (s : Set V) (ks : List Text) → IsKeyed s → IsKeyed (cleanup_all now s ks)
  unfolding cleanup_all
  cleanup_all-IsKeyed now s [] v = v
  cleanup_all-IsKeyed now s (k ∷ ks) v =
      cleanup-IsKeyed now (cleanup_all now s ks) k (cleanup_all-IsKeyed now s ks v)

  is_in-IsKeyed : (now : ℕ) (s : Set V) (k : Text) → IsKeyed s → IsKeyed (after (is_in now s k))
  unfolding is_in
  is_in-IsKeyed now s k v = ground (arith, cleanup-IsKeyed now s (s.normalize k) v)

  get-IsKeyed : (now : ℕ) (s : Set V) (k : Text) → IsKeyed s → IsKeyed (after (get now s k))
  unfolding get
  get-IsKeyed now s k v = ground (arith, cleanup-IsKeyed now s (s.normalize k) v)

  add-IsKeyed : (now : ℕ) (s : Set V) (it : Item V) → IsKeyed s → IsKeyed (after (add now s it))
  unfolding add
  add-IsKeyed now s it v = ground (arith, store-IsKeyed s it v)

  remove-IsKeyed : (s : Set V) (k : Text) → IsKeyed s → IsKeyed (after (remove s k))
  unfolding remove
  remove-IsKeyed s k v = ground (arith, deleted-IsKeyed s (s.normalize k) v)

  replace-IsKeyed :
      (s : Set V) (old : Text) (it : Item V) → IsKeyed s → IsKeyed (after (replace s old it))
  unfolding replace
  replace-IsKeyed s old it v = ground (
    arith,
    store-IsKeyed s it v,
    store-IsKeyed (record s { table = delete (s.normalize old) s.table }) it
        (deleted-IsKeyed s (s.normalize old) v),
  )

  pub step : ℕ → Set V → Call V → Set V
  step now s (adds it) = after (add now s it)
  step now s (sets it) = after (set s it)
  step now s (removes k) = after (remove s k)
  step now s (asks k) = after (is_in now s k)
  step now s (gets k) = after (get now s k)
  step now s (lists p) = after (list_prefix now s p)
  step now s (replaces k it) = after (replace s k it)
  step now s clears = after (clear s)

  pub run : Set V → List (ℕ × Call V) → Set V
  unfolding step
  run s [] = s
  run s ((now, c) ∷ cs) = run (step now s c) cs

  step-IsKeyed : (now : ℕ) (s : Set V) (c : Call V) → IsKeyed s → IsKeyed (step now s c)
  unfolding step set list_prefix each clear
  step-IsKeyed now s (adds it) v = add-IsKeyed now s it v
  step-IsKeyed now s (sets it) v = store-IsKeyed s it v
  step-IsKeyed now s (removes k) v = remove-IsKeyed s k v
  step-IsKeyed now s (asks k) v = is_in-IsKeyed now s k v
  step-IsKeyed now s (gets k) v = get-IsKeyed now s k v
  step-IsKeyed now s (lists p) v = cleanup_all-IsKeyed now s _ v
  step-IsKeyed now s (replaces k it) v = replace-IsKeyed s k it v
  step-IsKeyed now s clears v = record { unique = tt; keyed = tt }

  run-IsKeyed : (s : Set V) (cs : List (ℕ × Call V)) → IsKeyed s → IsKeyed (run s cs)
  unfolding run
  run-IsKeyed s [] v = v
  run-IsKeyed s ((now, c) ∷ cs) v = run-IsKeyed (step now s c) cs (step-IsKeyed now s c v)

  -- After any history of calls on a new set, at any times, no key stands twice in the map, and each
  -- item stands under its own normalized key.
  pub run-new-IsKeyed :
      (beyond : Text → Text) (cs : List (ℕ × Call V)) → IsKeyed (run (new beyond) cs)
  unfolding new
  run-new-IsKeyed beyond cs = run-IsKeyed (new beyond) cs (record { unique = tt; keyed = tt })
