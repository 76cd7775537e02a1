-- ===== src/Terminal/Entered.antt =====
-- The ring of entered lines of sshd/terminal/terminal.go, against the list of all lines entered.
use ssh_chat.Prelude.{
  ℕ, zero, suc, ◌+◌, ◌-◌, ◌%◌, ◌<◌, ◌≤◌, min, ◌≡◌, ◌≢◌, refl, sym, ap, ◌∙◌, ◌⊎◌, inl, inr,
  Bool-cases, Bool, true, false, if◌then◌else◌, ltb, leb, Option, none, some, List, [], ◌∷◌, length,
  get_elem?, get_elem?-set_self, get_elem?-set_ne, length-set, Text, arith,
}
use mathlib.Core.Path.{subst}
use ssh_chat.Prelude
use ssh_chat.History.Ring.{cell, cell-next, cell_ne, next-lt, cell-zero}
use ssh_chat.Terminal.{Ring, empty_strings, allocated, push, nth_previous_entry}

abbrev pub capacity : ℕ
capacity = 100

abbrev pub empty_ring : Ring
empty_ring = record { entries = []; max = 0; head = 0; size = 0 }

-- The ring after lines were entered, the newest first.
abbrev pub push_all : List Text → Ring
push_all [] = empty_ring
push_all (a ∷ older) = push (push_all older) a

-- A ring that is allocated, with the newest of the lines in it.
record Holds (s : Ring) (lines : List Text) : Type 0 where
  allotted : length s.entries ≡ capacity
  full : s.max ≡ capacity
  in_ring : s.head < capacity
  sized : s.size ≡ min (length lines) capacity
  kept : (n : ℕ) → n < s.size → get_elem? s.entries (cell capacity s.head n) ≡ get_elem? lines n

length-empty_strings : (n : ℕ) → length (empty_strings n) ≡ n
unfolding empty_strings
length-empty_strings zero = refl
length-empty_strings (suc n) = ap suc (length-empty_strings n)

allocated-empty_ring : Holds (allocated empty_ring) []
unfolding allocated
allocated-empty_ring = record {
  allotted = length-empty_strings 100;
  full = refl;
  in_ring = omega arith;
  sized = refl;
  kept = λ n h. ground arith;
}

-- `Add` on a ring that is allocated.
stored : Ring → Text → Ring
stored t a = record t {
  entries = Prelude.set t.entries ((t.head + 1) % t.max) a;
  head = (t.head + 1) % t.max;
  size = if ltb t.size t.max then t.size + 1 else t.size;
}

stored-kept :
    (t : Ring) (a : Text) (lines : List Text)
    → Holds t lines
    → (n : ℕ) → n < (if ltb t.size capacity then t.size + 1 else t.size)
    → let head = (t.head + 1) % capacity in
      get_elem? (Prelude.set t.entries head a) (cell capacity head n) ≡ get_elem? (a ∷ lines) n
stored-kept t a lines h zero g =
    let head = (t.head + 1) % capacity in
    ap (get_elem? (Prelude.set t.entries head a)) (cell-zero capacity head)
    ∙ get_elem?-set_self t.entries head a
        (omega (arith, h.allotted, next-lt capacity t.head h.in_ring))
stored-kept t a lines h (suc n) g =
    let head = (t.head + 1) % capacity in
    let earlier : n < t.size = ground (arith, g) in
    let inner : suc n < capacity = ground (arith, g, h.sized) in
    get_elem?-set_ne t.entries a (cell_ne_suc n inner)
    ∙ ap (get_elem? t.entries) (cell-next capacity t.head n h.in_ring inner)
    ∙ h.kept n earlier
  where
    cell_ne_suc :
        (n : ℕ)
        → suc n < capacity
        → (t.head + 1) % capacity ≢ cell capacity ((t.head + 1) % capacity) (suc n)
    cell_ne_suc n inner e =
        cell_ne capacity t.head n h.in_ring inner (e ∙ cell-next capacity t.head n h.in_ring inner)

stored-Holds :
    (t : Ring) (a : Text) (lines : List Text) → Holds t lines → Holds (stored t a) (a ∷ lines)
unfolding stored
stored-Holds t a lines h =
    let head = (t.head + 1) % capacity in
    rw (h.full) (record {
      allotted = length-set t.entries head a ∙ h.allotted;
      full = refl;
      in_ring = next-lt capacity t.head h.in_ring;
      sized = ground (arith, h.sized);
      kept = stored-kept t a lines h;
    })

allocated_full : (t : Ring) → length t.entries ≡ capacity → allocated t ≡ t
unfolding allocated
allocated_full t h = ground (arith, h)

push-stored : (t : Ring) (a : Text) → length t.entries ≡ capacity → push t a ≡ stored t a
unfolding push stored
push-stored t a h = ap (λ (u : Ring). stored u a) (allocated_full t h)

push-Holds : (a : Text) (lines : List Text) → Holds (push_all (a ∷ lines)) (a ∷ lines)
unfolding push stored allocated
push-Holds a [] = stored-Holds (allocated empty_ring) a [] allocated-empty_ring
push-Holds a (b ∷ lines) =
    let h = push-Holds b lines in
    let r = stored-Holds (push_all (b ∷ lines)) a (b ∷ lines) h in
    subst (λ t. Holds t (a ∷ b ∷ lines)) (sym (push-stored (push_all (b ∷ lines)) a h.allotted)) r

get_elem?-none : (lines : List Text) (n : ℕ) → length lines ≤ n → get_elem? lines n ≡ none
get_elem?-none [] n h = ground arith
get_elem?-none (x ∷ lines) zero h = ground arith
get_elem?-none (x ∷ lines) (suc n) h = get_elem?-none lines n (omega (arith, h))

Holds-read :
    (s : Ring) (lines : List Text)
    → Holds s lines
    → (n : ℕ) → nth_previous_entry s n ≡ (if ltb n capacity then get_elem? lines n else none)
unfolding nth_previous_entry
Holds-read s lines h n = elim (Bool-cases (leb s.size n)) [
  | inl e ↦ ground (arith, e, h.sized, get_elem?-none lines n)
  | inr e ↦
      let inside : n < s.size = ground (arith, e) in
      rw (e, nth_previous_entry) (rw (h.full) (h.kept n inside ∙ ground (arith, inside, h.sized)))
]

-- After lines were entered, `NthPreviousEntry` of n is the nth of them, counted from the newest, if
-- it is one of the hundred newest; otherwise there is none.
pub nth_previous_entry-push_all :
    (lines : List Text) (n : ℕ)
    → nth_previous_entry (push_all lines) n ≡ (if ltb n capacity then get_elem? lines n else none)
unfolding nth_previous_entry
nth_previous_entry-push_all [] n = ground arith
nth_previous_entry-push_all (a ∷ lines) n = Holds-read _ (a ∷ lines) (push-Holds a lines) n
