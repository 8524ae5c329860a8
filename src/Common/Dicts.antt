-- ===== src/Common/Dicts.antt =====
-- Go maps with string keys, as association lists. `insert` overwrites and `delete` removes, so a
-- dictionary built by them holds a key once (`IsDict`).
use Prim.Native.Nat.{◌+◌, ◌≤◌}
use mathlib.Core.Path.{◌≡◌, refl}
use mathlib.Core.Logic.{◌≢◌}
use mathlib.Core.Bool.{Bool}
use mathlib.Core.List.{List, [], ◌∷◌}
use mathlib.Core.Option.{Option, none, some}
use native.Mathlib.Omega.{arith}
use go_cli_messenger.Common.Tests.{if◌then◌else◌}
use go_cli_messenger.Common.Lists.{length}
use go_cli_messenger.Common.Bytes.{Text, text_eq, text_eq_iff, text_eq_refl}

abbrev pub Dict {ℓ} : Type ℓ → Type ℓ
Dict V = List (Text × V)

module _ {ℓ} {V : Type ℓ} where
  unfoldable pub lookup : Text → Dict V → Option V
  lookup k [] = none
  lookup k ((j, v) ∷ m) = if text_eq j k then some v else lookup k m

  unfoldable pub insert : Text → V → Dict V → Dict V
  insert k v [] = (k, v) ∷ []
  insert k v ((j, w) ∷ m) = if text_eq j k then (k, v) ∷ m else (j, w) ∷ insert k v m

  unfoldable pub delete : Text → Dict V → Dict V
  delete k [] = []
  delete k ((j, w) ∷ m) = if text_eq j k then delete k m else (j, w) ∷ delete k m

  -- `for k, v := range m { if !keep(k, v) { delete(m, k) } }`
  unfoldable pub retain : (V → Bool) → Dict V → Dict V
  retain keep [] = []
  retain keep ((j, w) ∷ m) = if keep w then (j, w) ∷ retain keep m else retain keep m

  unfoldable pub keys : Dict V → List Text
  keys [] = []
  keys ((j, w) ∷ m) = j ∷ keys m

  pub lookup-insert :
      (k j : Text) (v : V) (m : Dict V)
      → lookup j (insert k v m) ≡ (if text_eq k j then some v else lookup j m)
  unfolding lookup insert
  lookup-insert k j v [] = refl
  lookup-insert k j v ((i, w) ∷ m) =
      ground (arith, text_eq_iff k j, text_eq_iff i k, text_eq_iff i j, lookup-insert k j v m)

  pub lookup-delete :
      (k j : Text) (m : Dict V) → lookup j (delete k m) ≡ (if text_eq k j then none else lookup j m)
  unfolding lookup delete
  lookup-delete k j [] = ground arith
  lookup-delete k j ((i, w) ∷ m) =
      ground (arith, text_eq_iff k j, text_eq_iff i k, text_eq_iff i j, lookup-delete k j m)

  pub lookup-insert_self : (k : Text) (v : V) (m : Dict V) → lookup k (insert k v m) ≡ some v
  lookup-insert_self k v m = ground (arith, lookup-insert k k v m, text_eq_refl k)

  pub lookup-insert_ne :
      (k j : Text) (v : V) (m : Dict V) → k ≢ j → lookup j (insert k v m) ≡ lookup j m
  lookup-insert_ne k j v m h = ground (arith, lookup-insert k j v m, text_eq_iff k j)

  pub lookup-delete_self : (k : Text) (m : Dict V) → lookup k (delete k m) ≡ none
  lookup-delete_self k m = ground (arith, lookup-delete k k m, text_eq_refl k)

  pub lookup-delete_ne : (k j : Text) (m : Dict V) → k ≢ j → lookup j (delete k m) ≡ lookup j m
  lookup-delete_ne k j m h = ground (arith, lookup-delete k j m, text_eq_iff k j)

  abbrev pub IsDict : Dict V → Type ℓ
  IsDict [] = Unit
  IsDict ((k, v) ∷ m) = (lookup k m ≡ none) × IsDict m

  abbrev pub keep_some : (V → Bool) → Option V → Option V
  keep_some keep none = none
  keep_some keep (some v) = if keep v then some v else none

  -- What is left of a dictionary after a sweep.
  pub lookup-retain :
      (keep : V → Bool) (k : Text) (m : Dict V)
      → IsDict m
      → lookup k (retain keep m) ≡ keep_some keep (lookup k m)
  unfolding lookup retain
  lookup-retain keep k [] d = refl
  lookup-retain keep k ((j, w) ∷ m) d =
      ground (arith, text_eq_iff j k, lookup-retain keep k m d.1, d.0)

  pub retain-IsDict : (keep : V → Bool) (m : Dict V) → IsDict m → IsDict (retain keep m)
  unfolding lookup retain
  retain-IsDict keep [] d = tt
  retain-IsDict keep ((j, w) ∷ m) d =
      ground (arith, retain-IsDict keep m d.1, lookup-retain keep j m d.1)

  pub insert-IsDict : (k : Text) (v : V) (m : Dict V) → IsDict m → IsDict (insert k v m)
  unfolding lookup insert
  insert-IsDict k v [] d = (refl, tt)
  insert-IsDict k v ((j, w) ∷ m) d =
      ground (
        arith,
        text_eq_iff j k,
        text_eq_iff k j,
        insert-IsDict k v m d.1,
        lookup-insert k j v m,
        d.0,
      )

  pub delete-IsDict : (k : Text) (m : Dict V) → IsDict m → IsDict (delete k m)
  unfolding lookup delete
  delete-IsDict k [] d = tt
  delete-IsDict k ((j, w) ∷ m) d =
      ground (arith, text_eq_iff k j, delete-IsDict k m d.1, lookup-delete k j m, d.0)

  pub length-insert-le : (k : Text) (v : V) (m : Dict V) → length (insert k v m) ≤ length m + 1
  unfolding insert
  length-insert-le k v [] = omega arith
  length-insert-le k v ((j, w) ∷ m) = ground (arith, length-insert-le k v m)

  pub length-retain-le : (keep : V → Bool) (m : Dict V) → length (retain keep m) ≤ length m
  unfolding retain
  length-retain-le keep [] = omega arith
  length-retain-le keep ((j, w) ∷ m) = ground (arith, length-retain-le keep m)

pub ruleset dict_laws = (lookup-insert, lookup-delete, text_eq_refl)
