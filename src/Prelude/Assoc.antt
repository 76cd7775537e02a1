-- ===== src/Prelude/Assoc.antt =====
-- A Go `map[string]V` as an association list: `lookup`, `assign` (m[k] = v) and `delete`.
use mathlib.Core.Path.{◌≡◌, refl}
use mathlib.Core.Logic.{◌≢◌, ite}
use mathlib.Core.Option.{Option, none, some}
use mathlib.Core.List.{List, [], ◌∷◌}
use native.Mathlib.Omega.{arith}
use ssh_chat.Prelude.Bytes.{Text, text_discrete}

module _ {ℓ} {V : Type ℓ} where
  unfoldable pub lookup : Text → List (Text × V) → Option V
  lookup k [] = none
  lookup k ((j, v) ∷ m) = ite (text_discrete j k) (some v) (lookup k m)

  unfoldable pub assign : Text → V → List (Text × V) → List (Text × V)
  assign k v [] = (k, v) ∷ []
  assign k v ((j, w) ∷ m) = ite (text_discrete j k) ((k, v) ∷ m) ((j, w) ∷ assign k v m)

  unfoldable pub delete : Text → List (Text × V) → List (Text × V)
  delete k [] = []
  delete k ((j, w) ∷ m) = ite (text_discrete j k) (delete k m) ((j, w) ∷ delete k m)

  pub lookup-assign :
      (k j : Text) (v : V) (m : List (Text × V))
      → lookup j (assign k v m) ≡ ite (text_discrete k j) (some v) (lookup j m)
  unfolding lookup assign
  lookup-assign k j v [] = refl
  lookup-assign k j v ((i, w) ∷ m) = ground (arith, lookup-assign k j v m)

  pub lookup-delete :
      (k j : Text) (m : List (Text × V))
      → lookup j (delete k m) ≡ ite (text_discrete k j) none (lookup j m)
  unfolding lookup delete
  lookup-delete k j [] = ground arith
  lookup-delete k j ((i, w) ∷ m) = ground (arith, lookup-delete k j m)

  -- Every key of the list differs from `k`.
  abbrev pub Fresh : Text → List (Text × V) → Type 0
  Fresh k [] = Unit
  Fresh k ((j, w) ∷ m) = (j ≢ k) × Fresh k m

  -- No key stands twice, as in a Go map.
  abbrev pub KeysNodup : List (Text × V) → Type 0
  KeysNodup [] = Unit
  KeysNodup ((j, w) ∷ m) = Fresh j m × KeysNodup m

  pub lookup-Fresh : (k : Text) (m : List (Text × V)) → Fresh k m → lookup k m ≡ none
  unfolding lookup
  lookup-Fresh k [] f = refl
  lookup-Fresh k ((j, w) ∷ m) f = ground (arith, lookup-Fresh k m)

  pub delete-Fresh : (k j : Text) (m : List (Text × V)) → Fresh j m → Fresh j (delete k m)
  unfolding delete
  delete-Fresh k j [] f = tt
  delete-Fresh k j ((i, w) ∷ m) f = ground (arith, delete-Fresh k j m)

  pub assign-Fresh :
      (k j : Text) (v : V) (m : List (Text × V)) → k ≢ j → Fresh j m → Fresh j (assign k v m)
  unfolding assign
  assign-Fresh k j v [] h f = (h, tt)
  assign-Fresh k j v ((i, w) ∷ m) h f = ground (arith, assign-Fresh k j v m h)

  pub assign-KeysNodup :
      (k : Text) (v : V) (m : List (Text × V)) → KeysNodup m → KeysNodup (assign k v m)
  unfolding assign
  assign-KeysNodup k v [] n = (tt, tt)
  assign-KeysNodup k v ((i, w) ∷ m) n = ground (arith, assign-KeysNodup k v m, assign-Fresh k i v m)

  pub delete-KeysNodup : (k : Text) (m : List (Text × V)) → KeysNodup m → KeysNodup (delete k m)
  unfolding delete
  delete-KeysNodup k [] n = tt
  delete-KeysNodup k ((i, w) ∷ m) n = ground (arith, delete-KeysNodup k m, delete-Fresh k i m)
