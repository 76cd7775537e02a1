-- ===== src/Set/Expiry.antt =====
-- What a reader of the set sees: the items that have not expired, whatever was cleaned up.
use ssh_chat.Prelude.{
  ℕ, ◌≤◌, ◌≡◌, ◌≢◌, ◌⊎◌, ite, ap, refl, ◌∙◌, true, if◌then◌else◌, Option, none, some, Bool-cases,
  Option-cases, inl, inr, List, Text, text_discrete, lookup, delete, lookup-assign, lookup-delete,
  ok, err, after, result, arith, false,
}
use ssh_chat.Set.{
  Item, Set, SetError, collision, missing, itemize, string_item, expiring, key, value, is_nil,
  cleanup, is_in, get, store, occupied, add, set, remove, replace, found,
}

module _ {V : Type 0} where
  abbrev pub keep_live : ℕ → Option (Item V) → Option (Item V)
  keep_live now none = none
  keep_live now (some it) = if is_nil (value now it) then none else some it

  -- The item that a reader finds at the time `now` under a key.
  abbrev pub live : ℕ → Set V → Text → Option (Item V)
  live now s k = keep_live now (lookup (s.normalize k) s.table)

  -- The same under a key that is normalized already.
  abbrev pub live_at : ℕ → Set V → Text → Option (Item V)
  live_at now s k = keep_live now (lookup k s.table)

  -- An item that has expired stays expired.
  pub value_mono :
      (now later : ℕ) (it : Item V)
      → now ≤ later
      → is_nil (value now it) ≡ true
      → is_nil (value later it) ≡ true
  unfolding value is_nil
  value_mono now later (itemize k v) h e = e
  value_mono now later (string_item k) h e = e
  value_mono now later (expiring it t) h e = ground (arith, value_mono now later it h)

  pub cleanup-normalize :
      (now : ℕ) (s : Set V) (k : Text) → (cleanup now s k).normalize ≡ s.normalize
  unfolding cleanup
  cleanup-normalize now s k = ground arith

  pub cleanup-live :
      (now later : ℕ) (s : Set V) (k j : Text)
      → now ≤ later
      → live_at later (cleanup now s k) j ≡ live_at later s j
  unfolding cleanup
  cleanup-live now later s k j h = elim (Option-cases (lookup k s.table)) [
    | inl e ↦ rw (e, cleanup)
    | inr (it, e) ↦ elim (Bool-cases (is_nil (value now it))) [
      | inl dead ↦
          rw (e, cleanup)
            (rw dead (rw lookup-delete (ground (arith, value_mono now later it h dead, e))))
      | inr alive ↦ rw (e, cleanup) (rw alive)
    ]
  ]

  -- The reads `In` and `Get`, which drop an expired item from the map, change nothing that a later
  -- reader sees under any key. `In` answers whether a live item stands under the key.
  pub reads_invisible :
      (now later : ℕ) (s : Set V) (k j : Text)
      → now ≤ later
      → (live later (after (is_in now s k)) j ≡ live later s j)
        × (live later (after (get now s k)) j ≡ live later s j)
        × (result (is_in now s k) ≡ found (live now s k))
  unfolding is_in get found
  reads_invisible now later s k j h = elim (Option-cases (lookup (s.normalize k) s.table)) [
    | inl e ↦ rw (e, is_in, get) (refl, refl, refl)
    | inr (it, e) ↦ elim (Bool-cases (is_nil (value now it))) [
      | inl dead ↦
          rw (e, is_in, get)
            (rw dead (ground (arith, seen, same), ground (arith, seen, same), refl))
      | inr alive ↦ rw (e, is_in, get) (rw alive (refl, refl, refl))
    ]
  ]
    where
      c : Set V
      c = cleanup now s (s.normalize k)

      same : c.normalize ≡ s.normalize
      same = cleanup-normalize now s (s.normalize k)

      seen : live_at later c (s.normalize j) ≡ live later s j
      seen = cleanup-live now later s (s.normalize k) (s.normalize j) h

  occupied-live : (now : ℕ) (o : Option (Item V)) → occupied now o ≡ found (keep_live now o)
  unfolding occupied found
  occupied-live now none = refl
  occupied-live now (some it) = ground arith

  store-live :
      (later : ℕ) (s : Set V) (k : Text) (it : Item V) (j : Text)
      → live_at later (store s k it) j
        ≡ ite (text_discrete k j) (keep_live later (some it)) (live_at later s j)
  unfolding store
  store-live later s k it j = rw lookup-assign (ground arith)

  -- `Add` fails with `ErrCollision` exactly when a live item stands under the key, and then leaves
  -- the set as it was. Otherwise a later reader finds the new item under its key, until that
  -- expires, and the old items under the other keys.
  pub add-live :
      (now later : ℕ) (s : Set V) (it : Item V) (j : Text)
      → (result (add now s it) ≡ (if found (live now s (key it)) then some collision else none))
        × (live later (after (add now s it)) j ≡ (
            if found (live now s (key it))
            then live later s j
            else ite
                (text_discrete (s.normalize (key it)) (s.normalize j))
                (keep_live later (some it))
                (live later s j)))
  unfolding add
  add-live now later s it j = elim (Bool-cases (found (live now s (key it)))) [
    | inl e ↦ rw (occupied-live, e) (refl, refl)
    | inr e ↦ rw (occupied-live, e) (refl, store-live later s _ it (s.normalize j))
  ]

  remove-live :
      (later : ℕ) (s : Set V) (k j : Text)
      → live later (after (remove s k)) j
        ≡ ite (text_discrete (s.normalize k) (s.normalize j)) none (live later s j)
  unfolding remove
  remove-live later s k j = elim (Option-cases (lookup (s.normalize k) s.table)) [
    | inl e ↦ rw (e, remove) (ground (arith, e))
    | inr (it, e) ↦ rw (e, remove) (rw lookup-delete (ground arith))
  ]

  -- `Set` always succeeds, and a later reader finds the new item under its key whatever stood
  -- there, and the old items under the other keys. `Remove` of a stored key succeeds and leaves
  -- nothing under it; it fails exactly when nothing, live or expired, is stored there.
  pub set-remove-live :
      (later : ℕ) (s : Set V) (it : Item V) (k j : Text)
      → (result (set s it) ≡ none)
        × (live later (after (set s it)) j
            ≡ ite
                (text_discrete (s.normalize (key it)) (s.normalize j))
                (keep_live later (some it))
                (live later s j))
        × (live later (after (remove s k)) j
            ≡ ite (text_discrete (s.normalize k) (s.normalize j)) none (live later s j))
        × (result (remove s k)
            ≡ (if found (lookup (s.normalize k) s.table) then none else some missing))
  unfolding set remove found
  set-remove-live later s it k j = (
    refl,
    store-live later s (s.normalize (key it)) it (s.normalize j),
    remove-live later s k j,
    ground arith,
  )

  replace_same :
      (s : Set V) (old : Text) (it : Item V)
      → s.normalize (key it) ≡ s.normalize old
      → replace s old it ≡ (store s (s.normalize (key it)) it, none)
  unfolding replace
  replace_same s old it h = ground arith

  replace_other :
      (s : Set V) (old : Text) (it : Item V)
      → s.normalize (key it) ≢ s.normalize old
      → result (replace s old it) ≡ none
      → after (replace s old it)
        ≡ store (record s { table = delete (s.normalize old) s.table }) (s.normalize (key it)) it
  unfolding replace found
  replace_other s old it h r = ground arith

  delete-live :
      (later : ℕ) (s : Set V) (k j : Text)
      → live_at later (record s { table = delete k s.table }) j
        ≡ ite (text_discrete k j) none (live_at later s j)
  delete-live later s k j = rw lookup-delete (ground arith)

  -- A `Replace` that succeeds leaves the new item under its key and nothing under the old key if
  -- that is another one, and every other key as it was.
  pub replace-live :
      (later : ℕ) (s : Set V) (old : Text) (it : Item V) (j : Text)
      → result (replace s old it) ≡ none
      → live later (after (replace s old it)) j
        ≡ ite
            (text_discrete (s.normalize (key it)) (s.normalize j))
            (keep_live later (some it))
            (ite (text_discrete (s.normalize old) (s.normalize j)) none (live later s j))
  unfolding store
  replace-live later s old it j h = elim (text_discrete (s.normalize (key it)) (s.normalize old)) [
    | yes p ↦
        rw (replace_same s old it p)
          (store-live later s (s.normalize (key it)) it (s.normalize j) ∙ ground arith)
    | no p ↦ rw (replace_other s old it p h) (
        store-live later (record s { table = delete (s.normalize old) s.table })
          (s.normalize (key it)) it (s.normalize j)
        ∙ ap
            (ite (text_discrete (s.normalize (key it)) (s.normalize j)) (keep_live later (some it)))
            (delete-live later s (s.normalize old) (s.normalize j)))
  ]

  -- A `Replace` that fails leaves the set as it was. The new key is then not the old one, and it is
  -- stored already (`ErrCollision`, also if its item has expired), or the old key is not stored
  -- (`ErrMissing`).
  pub replace_refused :
      (s : Set V) (old : Text) (it : Item V) (e : SetError)
      → result (replace s old it) ≡ some e
      → (after (replace s old it) ≡ s)
        × (s.normalize (key it) ≢ s.normalize old)
        × (((e ≡ collision) × (found (lookup (s.normalize (key it)) s.table) ≡ true))
            ⊎ ((e ≡ missing) × (lookup (s.normalize old) s.table ≡ none)))
  unfolding replace found
  replace_refused s old it e h = ground arith

  get_missing :
      (now : ℕ) (s : Set V) (k : Text)
      → lookup (s.normalize k) s.table ≡ none
      → result (get now s k) ≡ err missing
  unfolding get
  get_missing now s k e = rw (e, get)

  lookup-delete_self : (k : Text) (m : List (Text × Item V)) → lookup k (delete k m) ≡ none
  lookup-delete_self k m = lookup-delete k k m ∙ ground arith

  -- `Get` hands out an item that has expired, and drops it: the next `Get` fails.
  pub get_expired :
      (now later : ℕ) (s : Set V) (k : Text) (it : Item V)
      → lookup (s.normalize k) s.table ≡ some it
      → is_nil (value now it) ≡ true
      → (result (get now s k) ≡ ok it) × (result (get later (after (get now s k)) k) ≡ err missing)
  unfolding get
  get_expired now later s k it e dead =
      (rw (e, get) (rw dead), get_missing later (after (get now s k)) k gone)
    where
      gone : lookup ((after (get now s k)).normalize k) (after (get now s k)).table ≡ none
      gone =
          rw (e, get)
            (rw dead (rw (e, cleanup) (rw dead (lookup-delete_self (s.normalize k) s.table))))

  pub get_present :
      (now : ℕ) (s : Set V) (k : Text) (it : Item V)
      → lookup (s.normalize k) s.table ≡ some it
      → is_nil (value now it) ≡ false
      → get now s k ≡ (s, ok it)
  unfolding get
  get_present now s k it e alive = rw (e, get) (rw alive)

  pub get_absent :
      (now : ℕ) (s : Set V) (k : Text)
      → lookup (s.normalize k) s.table ≡ none
      → get now s k ≡ (s, err missing)
  unfolding get
  get_absent now s k e = rw (e, get)
