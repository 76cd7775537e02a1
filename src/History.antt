-- ===== src/History.antt =====
-- chat/message/history.go: the last messages of a room, in a ring. `M` is the interface `Message`,
-- and `none` the nil that a fresh entry holds. `out` is the log writer that `SetOutput` sets, with
-- the messages written to it so far; how a line of the log is printed is not modelled.
pub mod Ring
pub mod Recent
mod Tests
use ssh_chat.Prelude.{
  ℕ, zero, suc, ◌+◌, ◌-◌, ◌%◌, ◌==◌, ltb, leb, if◌then◌else◌, Option, none, some, List, [], ◌∷◌,
  ◌++◌, length, replicate, get_or,
}
use ssh_chat.Prelude

pub record History (M : Type 0) : Type 0 where
  pub entries : List (Option M)
  pub head : ℕ
  pub size : ℕ
  pub out : Option (List M)

-- `idx := (h.head - i) % max; if idx < 0 { idx += max }`, where Go's `%` of a negative number is
-- minus that of its magnitude.
unfoldable pub index : ℕ → ℕ → ℕ → ℕ
index capacity head i =
    if leb i head
    then (head - i) % capacity
    else (let r = (i - head) % capacity in if r == 0 then 0 else capacity - r)

module _ {M : Type 0} where
  unfoldable pub new_history : ℕ → History M
  new_history n = record { entries = replicate n none; head = 0; size = 0; out = none }

  -- The line that `Add` prints, if a writer is set.
  abbrev pub log : M → Option (List M) → Option (List M)
  log m none = none
  log m (some lines) = some (lines ++ m ∷ [])

  -- At capacity 0 the source's `%` panics, and so has no counterpart here.
  unfoldable pub add : History M → M → History M
  add h m =
      let capacity = length h.entries in
      let head = (h.head + 1) % capacity in
      record {
        entries = Prelude.set h.entries head (some m);
        head = head;
        size = if ltb h.size capacity then h.size + 1 else h.size;
        out = log m h.out;
      }

  unfoldable pub len : History M → ℕ
  len h = h.size

  -- The loop of `Get`: `i` counts up from `num - n`, and fills the result from its end.
  unfoldable pub get_loop : History M → ℕ → ℕ → List (Option M) → List (Option M)
  unfolding index
  get_loop h zero i r = r
  get_loop h (suc n) i r =
      get_loop h n (i + 1) (get_or h.entries (index (length h.entries) h.head i) none ∷ r)

  unfoldable pub get : History M → ℕ → List (Option M)
  unfolding get_loop
  get h num = get_loop h (if ltb h.size num then h.size else num) 0 []

  unfoldable pub set_output : History M → History M
  set_output h = record h { out = some [] }
