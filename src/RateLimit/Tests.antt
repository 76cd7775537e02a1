-- ===== src/RateLimit/Tests.antt =====
-- A new connection, and the theorems of this component at it.
use ssh_chat.Prelude.{
  ℕ, ◌+◌, ◌*◌, ◌≡◌, List, ◌++◌, if◌then◌else◌, none, some, [], ◌∷◌, result, arith,
}
use ssh_chat.Prelude.Int.{pos, ◌+ℤ◌, ltb_ℤ}
use ssh_chat.RateLimit.{InputLimiter, rate_exceeded, count, second}
use ssh_chat.RateLimit.Window.{counts, small_reads, large_bytes, count_window}

-- A limiter a window after its grace.
abbrev fresh : InputLimiter
fresh = record {
  amount = 32768;
  frequency = 60 * second;
  read_cap = 128;
  num_read = pos 0;
  time_read = 100;
}

abbrev reads : List (ℕ × ℕ)
reads = (10, 20000) ∷ (20, 128) ∷ []

count_window_example : result (count 60 (counts fresh reads) 13000) ≡ (
    if ltb_ℤ (pos 32768) (
      pos 0
      +ℤ pos (
          small_reads 128 (reads ++ (60, 13000) ∷ [])
          + large_bytes 128 (reads ++ (60, 13000) ∷ [])))
    then some rate_exceeded
    else none)
count_window_example = count_window fresh reads 60 13000 (omega arith) (omega arith)
