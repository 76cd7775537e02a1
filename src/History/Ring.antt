-- ===== src/History/Ring.antt =====
-- A ring of `capacity` cells whose newest entry is at `head`: the cell of the `i`th newest entry,
-- and what a write at the next head does to it.
use ssh_chat.Prelude.{ℕ, suc, ◌+◌, ◌-◌, ◌%◌, ◌<◌, ◌≡◌, ◌≢◌, ltb, if◌then◌else◌, arith}

-- The cell of the `i`th newest entry, where `i` is below the capacity.
abbrev pub cell : ℕ → ℕ → ℕ → ℕ
cell capacity head i = if ltb head i then head + capacity - i else head - i

pub next : (c h : ℕ) → h < c → (h + 1) % c ≡ (if ltb (h + 1) c then h + 1 else 0)
next c h p = grind arith

pub cell-lt : (c h i : ℕ) → h < c → i < c → cell c h i < c
cell-lt c h i p q = ground arith

-- The `i`th newest entry becomes the next one when the head moves on.
pub cell-next : (c h i : ℕ) → h < c → suc i < c → cell c ((h + 1) % c) (suc i) ≡ cell c h i
cell-next c h i p q = ground (arith, next c h p)

pub cell_ne : (c h i : ℕ) → h < c → suc i < c → (h + 1) % c ≢ cell c h i
cell_ne c h i p q = ground (arith, next c h p)

pub next-lt : (c h : ℕ) → h < c → (h + 1) % c < c
next-lt c h p = ground (arith, next c h p)

pub cell-zero : (c h : ℕ) → cell c h 0 ≡ h
cell-zero c h = ground arith
