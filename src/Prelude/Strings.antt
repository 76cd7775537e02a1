-- ===== src/Prelude/Strings.antt =====
-- The functions of Go's package strings that the source uses, over the bytes of UTF-8.
use Prim.Native.Nat.{ℕ, zero, suc, ◌-◌}
use mathlib.Core.Bool.{Bool, true, false, ◌&&◌, ◌||◌}
use mathlib.Core.List.{List, [], ◌∷◌, ◌++◌, reverse}
use ssh_chat.Prelude.Tests.{◌==◌, leb, if◌then◌else◌}
use ssh_chat.Prelude.Lists.{length, drop}
use ssh_chat.Prelude.Bytes.{Text, has_prefix}

-- The size of the white space of two or three bytes at the front: U+0085 and U+00A0, and U+1680,
-- U+2000 to U+200A, U+2028, U+2029, U+202F, U+205F and U+3000.
abbrev wide_space : ℕ → Text → ℕ
wide_space a [] = 0
wide_space a (b ∷ []) = if a == 0xC2 && (b == 0x85 || b == 0xA0) then 2 else 0
wide_space a (b ∷ c ∷ s) =
    if a == 0xC2 && (b == 0x85 || b == 0xA0)
    then 2
    else if a == 0xE1 && b == 0x9A && c == 0x80
    then 3
    else if a == 0xE2
        && b == 0x80
        && ((leb 0x80 c && leb c 0x8A) || c == 0xA8 || c == 0xA9 || c == 0xAF)
    then 3
    else if a == 0xE2 && b == 0x81 && c == 0x9F
    then 3
    else if a == 0xE3 && b == 0x80 && c == 0x80
    then 3
    else 0

-- How many bytes the white space at the front of a text has: 0 if there is none.
unfoldable pub space_size : Text → ℕ
space_size [] = 0
space_size (a ∷ s) = if a == 32 || (leb 9 a && leb a 13) then 1 else wide_space a s

abbrev flush : Text → List Text → List Text
flush [] fields = fields
flush (c ∷ cur) fields = (c ∷ cur) ∷ fields

-- The fields of a text, the first of which goes on from `cur`, with the bytes of a white space to
-- skip first.
unfoldable pub fields_from : ℕ → Text → Text → List Text
unfolding space_size
fields_from skip cur [] = flush cur []
fields_from (suc skip) cur (c ∷ s) = fields_from skip cur s
fields_from zero cur (c ∷ s) =
    let n = space_size (c ∷ s) in
    let longer = fields_from zero (cur ++ c ∷ []) s in
    let closed = fields_from (n - 1) [] s in if n == 0 then longer else flush cur closed

-- `strings.Fields`.
unfoldable pub fields : Text → List Text
unfolding fields_from
fields s = fields_from 0 [] s

-- There is nothing but white space, after some bytes to skip.
unfoldable pub blank_from : ℕ → Text → Bool
unfolding space_size
blank_from skip [] = true
blank_from (suc skip) (c ∷ s) = blank_from skip s
blank_from zero (c ∷ s) =
    let n = space_size (c ∷ s) in let rest = blank_from (n - 1) s in if n == 0 then false else rest

unfoldable pub trim_start_from : ℕ → Text → Text
unfolding space_size
trim_start_from skip [] = []
trim_start_from (suc skip) (c ∷ s) = trim_start_from skip s
trim_start_from zero (c ∷ s) =
    let n = space_size (c ∷ s) in
    let rest = trim_start_from (n - 1) s in if n == 0 then c ∷ s else rest

unfoldable pub trim_end : Text → Text
unfolding blank_from
trim_end [] = []
trim_end (c ∷ s) = let rest = trim_end s in if blank_from 0 (c ∷ s) then [] else c ∷ rest

-- `strings.TrimSpace`.
unfoldable pub trim_space : Text → Text
unfolding trim_start_from trim_end
trim_space s = trim_end (trim_start_from 0 s)

abbrev pub occurs : ℕ → Text → Bool
occurs c [] = false
occurs c (d ∷ s) = c == d || occurs c s

-- `strings.TrimLeft` with a set of ASCII bytes.
unfoldable pub trim_left : Text → Text → Text
trim_left [] cutset = []
trim_left (c ∷ s) cutset = let rest = trim_left s cutset in if occurs c cutset then rest else c ∷ s

-- `strings.Join`.
unfoldable pub join_with : List Text → Text → Text
join_with [] sep = []
join_with (s ∷ []) sep = s
join_with (s ∷ t ∷ rest) sep = s ++ (sep ++ join_with (t ∷ rest) sep)

unfoldable pub split_from : ℕ → Text → Text → List Text
split_from sep cur [] = cur ∷ []
split_from sep cur (c ∷ s) =
    let closed = split_from sep [] s in
    let longer = split_from sep (cur ++ c ∷ []) s in if c == sep then cur ∷ closed else longer

-- `strings.Split` at each byte `sep`.
unfoldable pub split_at : Text → ℕ → List Text
unfolding split_from
split_at s sep = split_from sep [] s

-- `strings.HasSuffix`.
unfoldable pub has_suffix : Text → Text → Bool
unfolding has_prefix
has_suffix s suffix = has_prefix (reverse s) (reverse suffix)

-- `strings.Replace` of the first occurrence.
unfoldable pub replace_first : Text → Text → Text → Text
unfolding has_prefix
replace_first [] old new = if has_prefix [] old then new else []
replace_first (c ∷ s) old new =
    let rest = replace_first s old new in
    if has_prefix (c ∷ s) old then new ++ drop (length old) (c ∷ s) else c ∷ rest

-- The bytes that are left after an occurrence are skipped first.
unfoldable pub replace_from : ℕ → Text → Text → Text → Text
unfolding has_prefix
replace_from skip [] old new = []
replace_from (suc skip) (c ∷ s) old new = replace_from skip s old new
replace_from zero (c ∷ s) old new =
    let after = replace_from (length old - 1) s old new in
    let rest = replace_from 0 s old new in if has_prefix (c ∷ s) old then new ++ after else c ∷ rest

-- `strings.Replace` of every occurrence of a text that is not empty.
unfoldable pub replace_all : Text → Text → Text → Text
unfolding replace_from
replace_all s old new = replace_from 0 s old new
