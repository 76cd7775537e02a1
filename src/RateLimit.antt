-- ===== src/RateLimit.antt =====
-- sshd/ratelimit.go: the limit on what one connection may send. The clock's reading is an
-- argument. `numRead` is a signed integer; it stays far inside Go's 64 bits. The reader that calls
-- `Count` is the library rateio, which is not modelled, and the field `remaining` is never used.
pub mod Window
mod Tests
use ssh_chat.Prelude.{ℕ, ◌+◌, ◌*◌, ◌-◌, ◌^◌, ltb, leb, if◌then◌else◌, Option, none, some}
use ssh_chat.Prelude.Int.{ℤ, pos, negsuc, ◌+ℤ◌, ltb_ℤ}

pub data LimitError : Type 0 where
  rate_exceeded : LimitError

pub record InputLimiter : Type 0 where
  pub amount : ℕ
  pub frequency : ℕ
  pub read_cap : ℕ
  pub num_read : ℤ
  pub time_read : ℕ

-- A second, in nanoseconds.
abbrev pub second : ℕ
second = 1000000000

-- `Amount: 2 << 14`, and `numRead: -1024 * 1024`.
unfoldable pub new_input_limiter : ℕ → InputLimiter
new_input_limiter now = record {
  amount = 2 * 2 ^ 14;
  frequency = 60 * second;
  read_cap = 128;
  num_read = negsuc (1024 * 1024 - 1);
  time_read = now + 3 * second;
}

-- What a read of `n` bytes counts for.
abbrev pub charge : InputLimiter → ℕ → ℕ
charge l n = if leb n l.read_cap then 1 else n

abbrev roll : ℕ → InputLimiter → InputLimiter
roll now l =
    if ltb l.time_read now then record l { num_read = pos 0; time_read = now + l.frequency } else l

unfoldable pub count : ℕ → InputLimiter → ℕ → InputLimiter × Option LimitError
count now l n =
    let r = roll now l in
    let total = r.num_read +ℤ pos (charge r n) in
    (record r { num_read = total }, if ltb_ℤ (pos r.amount) total then some rate_exceeded else none)
