-- ===== src/Set.antt =====
-- set/set.go and set/item.go: the concurrent set of items with expiring entries that the rooms, the
-- users and the authentication lists are kept in. Each operation runs under the set's lock, and is
-- a function of the clock's reading `now`, the set and its arguments. A time is a number of
-- nanoseconds; the values of a Go `interface{}` that the items hold are of a type `V`.
pub mod Expiry
pub mod Keys
pub mod Iterate
mod Tests
use ssh_chat.Prelude.{
  ℕ, ◌+◌, ◌-◌, suc, Bool, true, false, ◌&&◌, not, if◌then◌else◌, ite, Option, none, some, List, [],
  ◌∷◌, ◌++◌, ltb, Text, text_discrete, to_lower, has_prefix, lookup, assign, delete, Result, ok,
  err, length,
}
use ssh_chat.Prelude.Int.{ℤ, pos, negsuc}

-- What `Value()` returns: Go's nil, the `true` of a `StringItem`, or a value.
pub data Value (V : Type 0) : Type 0 where
  nil : Value V
  truth : Value V
  val : V → Value V

-- The implementations of `Item`: `*item`, `StringItem`, and `*ExpiringItem` with its time.
pub data Item (V : Type 0) : Type 0 where
  itemize : Text → Value V → Item V
  string_item : Text → Item V
  expiring : Item V → ℕ → Item V

pub data SetError : Type 0 where
  collision missing : SetError

-- `Set`: the map `lookup`, here `table`, and the function that normalizes its keys.
pub record Set (V : Type 0) : Type 0 where
  pub table : List (Text × Item V)
  pub normalize : Text → Text

-- `time.Time.Add`.
unfoldable pub time_add : ℕ → ℤ → ℕ
time_add t (pos n) = t + n
time_add t (negsuc n) = t - suc n

-- `time.Now().After(item.Time)`.
unfoldable pub expired : ℕ → ℕ → Bool
expired now t = ltb t now

module _ {V : Type 0} where
  unfoldable pub key : Item V → Text
  key (itemize k v) = k
  key (string_item k) = k
  key (expiring it t) = key it

  unfoldable pub value : ℕ → Item V → Value V
  unfolding expired
  value now (itemize k v) = v
  value now (string_item k) = truth
  value now (expiring it t) = let v = value now it in if expired now t then nil else v

  unfoldable pub expire : ℕ → Item V → ℤ → Item V
  unfolding time_add
  expire now it d = expiring it (time_add now d)

  -- `v == nil`.
  unfoldable pub is_nil : Value V → Bool
  is_nil nil = true
  is_nil _ = false

  -- `New`: keys are folded to lower case.
  unfoldable pub new : (Text → Text) → Set V
  new beyond = record { table = []; normalize = to_lower beyond }

  unfoldable pub clear : Set V → Set V × ℕ
  clear s = (record s { table = [] }, length s.table)

  unfoldable pub len : Set V → ℕ
  len s = length s.table

  -- The key of `cleanup` is normalized already.
  unfoldable pub cleanup : ℕ → Set V → Text → Set V
  unfolding is_nil value
  cleanup now s k = elim (lookup k s.table) [
    | none ↦ s
    | some it ↦ if is_nil (value now it) then record s { table = delete k s.table } else s
  ]

  -- `In`.
  unfoldable pub is_in : ℕ → Set V → Text → Set V × Bool
  unfolding cleanup
  is_in now s k = elim (lookup (s.normalize k) s.table) [
    | none ↦ (s, false)
    | some it ↦ if is_nil (value now it) then (cleanup now s (s.normalize k), false) else (s, true)
  ]

  unfoldable pub get : ℕ → Set V → Text → Set V × Result SetError (Item V)
  unfolding cleanup
  get now s k = elim (lookup (s.normalize k) s.table) [
    | none ↦ (s, err missing)
    | some it ↦ if is_nil (value now it) then (cleanup now s (s.normalize k), ok it) else (s, ok it)
  ]

  -- `m.lookup[key] = item`.
  unfoldable pub store : Set V → Text → Item V → Set V
  store s k it = record s { table = assign k it s.table }

  -- The test of `Add`: an item stands under the key, and has not expired.
  unfoldable pub occupied : ℕ → Option (Item V) → Bool
  unfolding is_nil value
  occupied now none = false
  occupied now (some it) = not (is_nil (value now it))

  unfoldable pub add : ℕ → Set V → Item V → Set V × Option SetError
  unfolding store occupied
  add now s it =
      let k = s.normalize (key it) in
      if occupied now (lookup k s.table) then (s, some collision) else (store s k it, none)

  unfoldable pub set : Set V → Item V → Set V × Option SetError
  unfolding store
  set s it = (store s (s.normalize (key it)) it, none)

  unfoldable pub remove : Set V → Text → Set V × Option SetError
  remove s k = elim (lookup (s.normalize k) s.table) [
    | none ↦ (s, some missing)
    | some it ↦ (record s { table = delete (s.normalize k) s.table }, none)
  ]

  -- `_, found := s.lookup[key]`.
  unfoldable pub found : Option (Item V) → Bool
  found none = false
  found (some _) = true

  unfoldable pub replace : Set V → Text → Item V → Set V × Option SetError
  unfolding store found
  replace s old_key it =
      let new_key = s.normalize (key it) in
      let old = s.normalize old_key in
      ite (text_discrete new_key old) (store s new_key it, none)
        (if found (lookup new_key s.table)
          then (s, some collision)
          else if not (found (lookup old s.table))
          then (s, some missing)
          else (store (record s { table = delete old s.table }) new_key it, none))

  -- The calls deferred by `Each`, the last one first.
  unfoldable pub cleanup_all : ℕ → Set V → List Text → Set V
  unfolding cleanup
  cleanup_all now s [] = s
  cleanup_all now s (k ∷ ks) = cleanup now (cleanup_all now s ks) k

  module _ {σ E : Type 0} (fn : Text → Item V → σ → σ × Option E) where
    -- The loop of `Each` over the entries in the order of the traversal: the callback's state,
    -- its error, and the expired keys met. Go leaves the order open: any list of the entries.
    unfoldable pub each_loop :
        ℕ → List (Text × Item V) → σ → record { state : σ; error : Option E; expired : List Text }
    unfolding is_nil value
    each_loop now [] a = record { state = a; error = none; expired = [] }
    each_loop now ((k, it) ∷ rest) a = elim (is_nil (value now it)) [
      | true ↦
          let r = each_loop now rest a in
          record { state = r.state; error = r.error; expired = k ∷ r.expired }
      | false ↦
          let (b, error) = fn k it a in
          elim error [
            | none ↦ each_loop now rest b
            | some e ↦ record { state = b; error = some e; expired = [] }
          ]
    ]

    unfoldable pub each : ℕ → Set V → σ → Set V × σ × Option E
    unfolding each_loop cleanup_all
    each now s a =
        let r = each_loop now s.table a in (cleanup_all now s r.expired, r.state, r.error)

  -- The callback of `ListPrefix`.
  unfoldable pub collect_prefix :
      Text → Text → Item V → List (Item V) → List (Item V) × Option (Unit {0})
  collect_prefix prefix k it r = (if has_prefix k prefix then r ++ it ∷ [] else r, none)

  unfoldable pub list_prefix : ℕ → Set V → Text → Set V × List (Item V)
  unfolding collect_prefix
  list_prefix now s prefix =
      let r = each (collect_prefix (s.normalize prefix)) now s [] in (r.0, r.1)
