-- ===== src/Presence.antt =====
-- internal/server/presence/registry.go: which connection a user has. An endpoint is the pointer behind
-- the interface value, a number, with the name that `Username` gives; two endpoints are equal when
-- their pointers are.
use go_cli_messenger.Common.{
  ℕ, ◌≡◌, ◌≢◌, Bool, false, ◌==◌, ==_iff, List, [], ◌∷◌, Option, none, some, if◌then◌else◌, is_some,
  length, Text, text_eq_iff, Dict, IsDict, lookup, insert, delete, lookup-insert, lookup-delete,
  lookup-insert_self, insert-IsDict, delete-IsDict, arith,
}

pub record Endpoint : Type 0 where
  pub handle : ℕ
  pub username : Text

abbrev pub Registry : Type 0
Registry = Dict Endpoint

pub data Registered : Type 0 where
  done username_in_use : Registered

unfoldable pub register : Endpoint → Registry → Registry × Registered
register e r =
    if is_some (lookup e.username r) then (r, username_in_use) else (insert e.username e r, done)

unfoldable pub get : Text → Registry → Option Endpoint
get username r = lookup username r

abbrev same_endpoint : Option Endpoint → Endpoint → Bool
same_endpoint none e = false
same_endpoint (some current) e = current.handle == e.handle

unfoldable pub unregister : Endpoint → Registry → Registry
unregister e r = if same_endpoint (lookup e.username r) e then delete e.username r else r

unfoldable pub len : Registry → ℕ
len r = length r

-- The endpoints that `CloseAll` closes, in the order of its range over the map.
unfoldable pub endpoints : Registry → List Endpoint
endpoints [] = []
endpoints ((k, e) ∷ r) = e ∷ endpoints r

-- Each user stands under his own name, once.
pub record Inv (r : Registry) : Type 0 where
  pub keyed : IsDict r
  pub named : (u : Text) (e : Endpoint) → lookup u r ≡ some e → e.username ≡ u

pub register-Inv : (e : Endpoint) (r : Registry) → Inv r → Inv (register e r).0
unfolding register
register-Inv e r v = record {
  keyed = ground (arith, insert-IsDict e.username e r, v.keyed);
  named = λ u f h.
      ground (arith, lookup-insert e.username u e r, text_eq_iff e.username u, v.named u f);
}

pub unregister-Inv : (e : Endpoint) (r : Registry) → Inv r → Inv (unregister e r)
unfolding unregister
unregister-Inv e r v = record {
  keyed = ground (arith, delete-IsDict e.username r, v.keyed);
  named = λ u f h. ground (arith, lookup-delete e.username u r, v.named u f);
}

-- A second connection under a name that is taken is refused and changes nothing; and when the refused
-- connection goes, or any other that is not the registered one, the registered one stays.
pub taken_name :
    (old new : Endpoint) (r : Registry)
    → lookup new.username r ≡ some old
    → old.handle ≢ new.handle
    → (register new r ≡ (r, username_in_use)) × (unregister new r ≡ r)
unfolding register unregister
taken_name old new r h apart = (ground arith, ground arith)

-- A free name can be taken; the registry then finds the endpoint and everybody else as before, and
-- when the endpoint goes the name is free again and everybody else is still found.
pub register-unregister :
    (e : Endpoint) (r : Registry)
    → lookup e.username r ≡ none
    → ((register e r).1 ≡ done)
      × (get e.username (register e r).0 ≡ some e)
      × ((u : Text) → u ≢ e.username → get u (register e r).0 ≡ get u r)
      × ((u : Text) → get u (unregister e (register e r).0) ≡ get u r)
unfolding register unregister get
register-unregister e r free = (
  ground arith,
  ground (arith, lookup-insert_self e.username e r),
  λ u apart. ground (arith, lookup-insert e.username u e r, text_eq_iff e.username u),
  λ u. ground (
    arith,
    lookup-insert e.username u e r,
    lookup-delete e.username u (insert e.username e r),
    text_eq_iff e.username u,
    lookup-insert_self e.username e r,
    ==_iff e.handle e.handle,
  ),
)
