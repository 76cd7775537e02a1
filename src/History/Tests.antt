-- ===== src/History/Tests.antt =====
-- A full ring, and the theorems of this component at it.
use ssh_chat.Prelude.{ℕ, ◌≡◌, refl, some, List, [], ◌∷◌, map, reverse, length, take, min, arith}
use ssh_chat.History.{new_history, add, get}
use ssh_chat.History.Recent.{add_all, get-add_all}

abbrev sent : List ℕ
sent = 5 ∷ 4 ∷ 3 ∷ 2 ∷ 1 ∷ []

last_two : get (add_all (new_history 3) sent) 2 ≡ some 4 ∷ some 5 ∷ []
unfolding get add_all new_history add
last_two = refl

get-add_all_example :
    get (add_all (new_history 3) sent) 7
    ≡ reverse (map some (take (min 7 (min (length sent) 3)) sent))
get-add_all_example = get-add_all 3 7 sent (omega arith)
