-- ===== src/Pty/Payload.antt =====
-- The payloads that sshd/pty.go parses, as RFC 4254 lays them out, and what the parsers make of them.
use ssh_chat.Prelude.{take-append, drop-append}
use ssh_chat.Prelude.{
  ℕ, zero, suc, ◌+◌, ◌-◌, ◌/◌, ◌%◌, ◌<◌, ◌≤◌, ◌≡◌, refl, sym, ap, ◌∙◌, inl, inr, Bool-cases,
  if◌then◌else◌, ltb, none, some, List, [], ◌∷◌, ◌++◌, length, length-append, take, drop, Text,
  panics, returns, arith,
}
use ssh_chat.Pty.{
  big_endian, parse_uint32, parse_string, sized, pty_size, parse_pty_request, parse_winch_request,
}

-- A `uint32` as it is sent, the highest byte first.
unfoldable pub uint32 : ℕ → List ℕ
uint32 n = n / 16777216 ∷ n / 65536 % 256 ∷ n / 256 % 256 ∷ n % 256 ∷ []

-- A string as it is sent: its length, then its bytes.
abbrev pub sent_string : Text → List ℕ
sent_string s = uint32 (length s) ++ s

big_endian-uint32 : (n : ℕ) (rest : List ℕ) → big_endian (uint32 n ++ rest) ≡ n
unfolding big_endian uint32
big_endian-uint32 n rest = omega arith

parse_uint32-uint32 : (n : ℕ) (rest : List ℕ) → parse_uint32 (uint32 n ++ rest) ≡ some (n, rest)
unfolding parse_uint32 big_endian uint32
parse_uint32-uint32 n rest = ground (arith, big_endian-uint32 n rest)

take-nil : (n : ℕ) → take {A = ℕ} n [] ≡ []
take-nil zero = refl
take-nil (suc n) = refl

drop-take : (k n : ℕ) (xs : List ℕ) → drop k (take (k + n) xs) ≡ take n (drop k xs)
drop-take zero n xs = ap (λ (m : ℕ). take m xs) (omega arith)
drop-take (suc k) n [] = rw (take-nil (suc k + n), take-nil n) refl
drop-take (suc k) n (x ∷ xs) =
    let e : suc k + n ≡ suc (k + n) = omega arith in rw e (drop-take k n xs)

abbrev pub Bytes : List ℕ → Type 0
Bytes [] = Unit {0}
Bytes (c ∷ s) = (c < 256) × Bytes s

big_endian_bound : (s : List ℕ) → Bytes s → big_endian s < 4294967296
unfolding big_endian
big_endian_bound [] h = omega arith
big_endian_bound (a ∷ []) h = omega arith
big_endian_bound (a ∷ b ∷ []) h = omega arith
big_endian_bound (a ∷ b ∷ c ∷ []) h = omega arith
big_endian_bound (a ∷ b ∷ c ∷ d ∷ rest) h = omega (arith, h.0, h.1.0, h.1.1.0, h.1.1.1.0)

string_fits :
    (input : List ℕ) (n : ℕ)
    → length input < 4294967296
    → 4 ≤ length input
    → n ≡ big_endian input
    → 4 + n < 4294967296
    → parse_string input ≡ (
        if ltb (length input) (4 + n)
        then returns none
        else returns (some (take n (drop 4 input), drop (4 + n) input)))
unfolding parse_string
string_fits input n short long e h =
    let whole : (4 + big_endian input) % 4294967296 ≡ 4 + n = omega (arith, e, h) in
    rw whole (ground (arith, drop-take 4 n input))

string_wraps :
    (input : List ℕ)
    → length input < 4294967296
    → 4 ≤ length input
    → big_endian input < 4294967296
    → 4294967296 ≤ 4 + big_endian input
    → parse_string input ≡ panics
unfolding parse_string
string_wraps input short long b h =
    let wrapped : (4 + big_endian input) % 4294967296 ≡ big_endian input - 4294967292 =
      omega (arith, h, b) in
    rw wrapped (ground (arith, h, b))

-- `parseString` of at least four bytes panics exactly when the length that they name passes 32 bits
-- together with the four bytes. Otherwise it fails exactly when the input is shorter than that, and
-- else returns as many bytes as named, and those behind them. The input is shorter than 2^32.
pub parse_string_lem :
    (input : List ℕ)
    → Bytes input
    → length input < 4294967296
    → 4 ≤ length input
    → let n = big_endian input in
      parse_string input ≡ (
        if ltb (4 + n) 4294967296
        then (if ltb (length input) (4 + n)
            then returns none
            else returns (some (take n (drop 4 input), drop (4 + n) input)))
        else panics)
parse_string_lem input bytes short long =
    elim (Bool-cases (ltb (4 + big_endian input) 4294967296)) [
      | inl e ↦ rw e (string_fits input (big_endian input) short long refl (ground (arith, e)))
      | inr e ↦
          rw e (string_wraps input short long (big_endian_bound input bytes) (ground (arith, e)))
    ]

pty_size-sent :
    (width height : ℕ) (rest : List ℕ)
    → pty_size (uint32 width ++ (uint32 height ++ rest)) ≡ sized width height
unfolding pty_size uint32
pty_size-sent width height rest =
    rw (parse_uint32-uint32 width (uint32 height ++ rest), pty_size)
      (rw (parse_uint32-uint32 height rest, pty_size) refl)

parse_string-sent :
    (s rest : Text)
    → length (sent_string s ++ rest) < 4294967296
    → parse_string (sent_string s ++ rest) ≡ returns (some (s, rest))
unfolding uint32
parse_string-sent s rest short =
    let fits =
      string_fits (sent_string s ++ rest) (length s) short (omega arith)
        (sym (big_endian-uint32 (length s) (s ++ rest)))
        (omega (arith, short, length-append s rest)) in
    let four : 4 + length s ≡ suc (suc (suc (suc (length s)))) = omega arith in
    fits ∙ rw four (ground (arith, take-append s rest, drop-append s rest, length-append s rest))

-- A `pty-req` as RFC 4254 lays it out is read back: the terminal's name, its width and its height,
-- whatever follows. The sizes are not 0 and have 32 bits, and the payload is shorter than 2^32.
pub parse_pty_request-sent :
    (term : Text) (width height : ℕ) (rest : List ℕ)
    → 0 < width
    → 0 < height
    → length (sent_string term ++ (uint32 width ++ (uint32 height ++ rest))) < 4294967296
    → parse_pty_request (sent_string term ++ (uint32 width ++ (uint32 height ++ rest)))
      ≡ returns (some (term, (width, height)))
unfolding parse_pty_request
parse_pty_request-sent term width height rest w h short =
    rw (parse_string-sent term (uint32 width ++ (uint32 height ++ rest)) short, parse_pty_request)
      (rw (pty_size-sent width height rest) (ground (arith, w, h)))

-- The height that a `window-change` is read with is its width: its own height is ignored.
pub parse_winch_request-sent :
    (width height : ℕ) (rest : List ℕ)
    → 0 < width
    → parse_winch_request (uint32 width ++ (uint32 height ++ rest)) ≡ some (width, width)
unfolding parse_winch_request sized
parse_winch_request-sent width height rest w =
    rw (parse_uint32-uint32 width (uint32 height ++ rest), parse_winch_request)
      (rw (parse_uint32-uint32 width (uint32 height ++ rest), parse_winch_request)
        (ground (arith, w)))
