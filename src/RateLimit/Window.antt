-- ===== src/RateLimit/Window.antt =====
-- A window of the limiter: what is let through before the count starts afresh.
use ssh_chat.Prelude.{
  ℕ, suc, ◌+◌, ◌≤◌, ◌<◌, ◌≡◌, ◌∙◌, refl, sym, ltb, ◌++◌, if◌then◌else◌, none, some, List, [], ◌∷◌,
  after, result, arith,
}
use ssh_chat.Prelude.Int.{ℤ, pos, ◌+ℤ◌, ltb_ℤ}
use ssh_chat.RateLimit.{InputLimiter, rate_exceeded, charge, count}

-- The reads of a connection, each with its time and its number of bytes.
pub counts : InputLimiter → List (ℕ × ℕ) → InputLimiter
counts l [] = l
counts l ((now, n) ∷ reads) = counts (after (count now l n)) reads

abbrev pub Within : ℕ → List (ℕ × ℕ) → Type 0
Within t [] = Unit
Within t ((now, n) ∷ reads) = (now ≤ t) × Within t reads

pub total : InputLimiter → List (ℕ × ℕ) → ℕ
total l [] = 0
total l ((now, n) ∷ reads) = charge l n + total l reads

count_within :
    (now n : ℕ) (l : InputLimiter)
    → now ≤ l.time_read
    → after (count now l n) ≡ record l { num_read = l.num_read +ℤ pos (charge l n) }
unfolding count
count_within now n l h = ground arith

total_same :
    (l : InputLimiter) (z : ℤ) (reads : List (ℕ × ℕ))
    → total (record l { num_read = z }) reads ≡ total l reads
unfolding total
total_same l z [] = refl
total_same l z ((now, n) ∷ reads) = rw (total_same l z reads)

+ℤ-zero : (a : ℤ) → a +ℤ pos 0 ≡ a
unfolding ◌+ℤ◌
+ℤ-zero a = ground arith

+ℤ-pos : (a : ℤ) (m n : ℕ) → a +ℤ pos m +ℤ pos n ≡ a +ℤ pos (m + n)
unfolding ◌+ℤ◌
+ℤ-pos a m n = ground arith

counts-Within :
    (l : InputLimiter) (reads : List (ℕ × ℕ))
    → Within l.time_read reads
    → counts l reads ≡ record l { num_read = l.num_read +ℤ pos (total l reads) }
unfolding counts total
counts-Within l [] w = rw +ℤ-zero
counts-Within l ((now, n) ∷ reads) w = rw (count_within now n l w.0) (
    counts-Within (record l { num_read = l.num_read +ℤ pos (charge l n) }) reads w.1
    ∙ rw (+ℤ-pos l.num_read (charge l n), total_same l (l.num_read +ℤ pos (charge l n)) reads) refl)

-- How many of the reads are of at most `cap` bytes, and the bytes of the others.
pub small_reads : ℕ → List (ℕ × ℕ) → ℕ
small_reads cap [] = 0
small_reads cap ((now, n) ∷ reads) =
    let rest = small_reads cap reads in if ltb cap n then rest else suc rest

pub large_bytes : ℕ → List (ℕ × ℕ) → ℕ
large_bytes cap [] = 0
large_bytes cap ((now, n) ∷ reads) =
    let rest = large_bytes cap reads in if ltb cap n then n + rest else rest

total_split :
    (l : InputLimiter) (reads : List (ℕ × ℕ)) (now n : ℕ)
    → let all = reads ++ (now, n) ∷ [] in
      total l reads + charge l n ≡ small_reads l.read_cap all + large_bytes l.read_cap all
unfolding total small_reads large_bytes
total_split l [] now n = ground arith
total_split l ((t, b) ∷ reads) now n = ground (arith, total_split l reads now n)

-- Reads that all come before the window ends, and then one of `n` bytes: that last one is refused
-- exactly when the number of those reads of at most `readCap` bytes and the bytes of all larger
-- ones, the last included, on top of the count at the start, pass `Amount`. A read of exactly
-- `readCap` bytes counts as one, where the comment on `Count` has it count for its bytes. Whether
-- an earlier read was refused makes no difference.
pub count_window :
    (l : InputLimiter) (reads : List (ℕ × ℕ)) (now n : ℕ)
    → Within l.time_read reads
    → now ≤ l.time_read
    → let all = reads ++ (now, n) ∷ [] in
      result (count now (counts l reads) n) ≡ (
        if ltb_ℤ
          (pos l.amount)
          (l.num_read +ℤ pos (small_reads l.read_cap all + large_bytes l.read_cap all))
        then some rate_exceeded
        else none)
unfolding count
count_window l reads now n w h =
    rw (sym (total_split l reads now n)) (
      rw (counts-Within l reads w) (ground (arith, +ℤ-pos l.num_read (total l reads) (charge l n))))

-- The first read after the window has ended starts a new one with a fresh count: it is refused
-- exactly when its own charge passes `Amount`, and the new window ends `Frequency` later.
pub count_fresh :
    (l : InputLimiter) (now n : ℕ)
    → l.time_read < now
    → (after (count now l n)
        ≡ record l { num_read = pos (charge l n); time_read = now + l.frequency })
      × (result (count now l n) ≡ (if ltb l.amount (charge l n) then some rate_exceeded else none))
unfolding count ◌+ℤ◌
count_fresh l now n h = ground arith
