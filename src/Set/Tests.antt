-- ===== src/Set/Tests.antt =====
-- Concrete sets: runs of the operations, and the theorems of this component at inputs that meet
-- their hypotheses.
use ssh_chat.Prelude.{
  ℕ, ◌≡◌, ◌≢◌, ◌↔◌, refl, ite, true, false, if◌then◌else◌, none, some, [], ◌∷◌, Text, codes,
  text_discrete, lookup, assign, has_prefix, to_lower, after, result, In, arith,
}
use mathlib.Core.List
use ssh_chat.Set.{
  Item, Set, val, collision, itemize, string_item, expiring, key, found, new, add, is_in,
  list_prefix,
}
use ssh_chat.Set.Expiry.{keep_live, live, live_at, add-live}
use ssh_chat.Set.Keys.{IsKeyed, run, run-new-IsKeyed, adds, gets, replaces}
use ssh_chat.Set.Iterate.{list_prefix-exact}

abbrev beyond : Text → Text
beyond s = s

abbrev bob : Item ℕ
bob = itemize (codes "Bob") (val 7)

-- Banned until time 10.
abbrev eve : Item ℕ
eve = expiring (string_item (codes "eve")) 10

abbrev two : Set ℕ
two = record { table = (codes "bob", bob) ∷ (codes "eve", eve) ∷ []; normalize = to_lower beyond }

add_twice : after (add 0 (after (add 0 (new beyond) bob)) eve) ≡ two
unfolding add new lookup assign text_discrete to_lower key
add_twice = refl

eve_expired : result (is_in 11 two (codes "EVE")) ≡ false
unfolding is_in to_lower text_discrete lookup
eve_expired = refl

add-live_example :
    (result (add 11 two eve) ≡ (if found (live 11 two (key eve)) then some collision else none))
    × (live 12 (after (add 11 two eve)) (codes "eve") ≡ (
        if found (live 11 two (key eve))
        then live 12 two (codes "eve")
        else ite
            (text_discrete (two.normalize (key eve)) (two.normalize (codes "eve")))
            (keep_live 12 (some eve))
            (live 12 two (codes "eve"))))
add-live_example = add-live 11 12 two eve (codes "eve")

abbrev rob : Item ℕ
rob = itemize (codes "Rob") (val 7)

run-new-IsKeyed_example : IsKeyed (
    run
      (new {V = ℕ} beyond)
      ((0, adds bob) ∷ (1, gets (codes "BOB")) ∷ (2, replaces (codes "bob") rob) ∷ []))
run-new-IsKeyed_example =
    run-new-IsKeyed beyond
      ((0, adds bob) ∷ (1, gets (codes "BOB")) ∷ (2, replaces (codes "bob") rob) ∷ [])

eve_bob : codes "eve" ≢ codes "bob"
eve_bob e = omega (arith, List.head-eq_of_cons-eq e)

list_prefix-exact_example :
    (In bob (result (list_prefix 11 two (codes "B"))) ↔ (
      (k : Text) × (live_at 11 two k ≡ some bob)
      × (has_prefix k (two.normalize (codes "B")) ≡ true)))
    × (live_at 12 (after (list_prefix 11 two (codes "B"))) (codes "bob")
        ≡ live_at 12 two (codes "bob"))
list_prefix-exact_example =
    list_prefix-exact 11 12 two (codes "B") bob (codes "bob") ((eve_bob, tt), (tt, tt))
      (omega arith)
