-- ===== src/Seen/Window.antt =====
-- The filter against the list of the last ids: what it answers, and for how long an id is caught.
use go_cli_messenger.Common.{
  ℕ, suc, ◌+◌, ◌≤◌, ◌<◌, ◌≡◌, refl, sym, ◌∙◌, inl, inr, Bool, true, false, ◌||◌, List, [], ◌∷◌,
  ◌++◌, length, length-append, drop, ltb, is_some, if◌then◌else◌, Text, text_eq, text_eq_iff,
  text_eq_refl, lookup, lookup-insert, lookup-delete, arith, Bool-cases,
}
use go_cli_messenger.Seen.{Seen, empty, duplicate, evict, remember}

unfoldable pub member : Text → List Text → Bool
member j [] = false
member j (id ∷ ids) = text_eq id j || member j ids

abbrev Distinct : List Text → Type 0
Distinct [] = Unit
Distinct (id ∷ ids) = (member id ids ≡ false) × Distinct ids

-- The set and the queue hold the same ids, each once, and no more than the limit.
pub record Inv (s : Seen) : Type 0 where
  pub same : (j : Text) → is_some (lookup j s.seen_ids) ≡ member j s.seen_order
  pub distinct : Distinct s.seen_order
  pub bounded : length s.seen_order ≤ s.seen_limit

pub empty-Inv : (limit : ℕ) → Inv (empty limit)
unfolding empty lookup member
empty-Inv limit = record { same = λ j. refl; distinct = tt; bounded = omega arith }

member-append :
    (j id : Text) (ids : List Text) → member j (ids ++ id ∷ []) ≡ (text_eq id j || member j ids)
unfolding member
member-append j id [] = refl
member-append j id (i ∷ ids) = ground (arith, member-append j id ids)

Distinct-append :
    (id : Text) (ids : List Text) → Distinct ids → member id ids ≡ false → Distinct (ids ++ id ∷ [])
unfolding member
Distinct-append id [] d h = (refl, tt)
Distinct-append id (i ∷ ids) d h =
    ground (
      arith,
      member-append i id ids,
      Distinct-append id ids d.1,
      text_eq_iff id i,
      text_eq_iff i id,
    )

-- The queue after a new id: the oldest id leaves when there are too many.
pub push : ℕ → Text → List Text → List Text
push limit id ids = if ltb limit (length ids + 1) then drop 1 (ids ++ id ∷ []) else ids ++ id ∷ []

evict-Inv :
    (s : Seen) (ids : List Text)
    → s.seen_order ≡ ids
    → Distinct ids
    → ((j : Text) → is_some (lookup j s.seen_ids) ≡ member j ids)
    → length ids ≤ s.seen_limit + 1
    → Inv (evict ids s)
unfolding member
evict-Inv s [] e d h b = record {
  same = λ j. ground (arith, h j);
  distinct = ground arith;
  bounded = ground arith;
}
evict-Inv s (oldest ∷ rest) e d h b = record {
  same = λ j. ground (arith, h j, lookup-delete oldest j s.seen_ids, text_eq_iff oldest j);
  distinct = ground arith;
  bounded = ground arith;
}

evict-order :
    (s : Seen) (ids : List Text)
    → s.seen_order ≡ ids
    → (evict ids s).seen_order ≡ (if ltb s.seen_limit (length ids) then drop 1 ids else ids)
evict-order s [] e = ground arith
evict-order s (oldest ∷ rest) e = ground arith

module _ (id : Text) (s : Seen) (v : Inv s) where
  -- The filter answers by the queue alone: an id is a duplicate exactly when the queue holds it.
  pub duplicate-answer : (duplicate id s).1 ≡ member id s.seen_order
  unfolding duplicate
  duplicate-answer = ground (arith, v.same id)

  pub duplicate-order :
      (duplicate id s).0.seen_order
      ≡ (if member id s.seen_order then s.seen_order else push s.seen_limit id s.seen_order)
  unfolding duplicate push
  duplicate-order = elim (Bool-cases (member id s.seen_order)) [
    | inl old ↦ rw (v.same id, old) refl
    | inr new ↦
        rw (v.same id, new)
          (evict-order (remember id s) _ refl
            ∙ ground (arith, length-append s.seen_order (id ∷ [])))
  ]

  -- The filter keeps its set and its queue in step, without repetitions and within the limit.
  pub duplicate-Inv : Inv (duplicate id s).0
  unfolding duplicate
  duplicate-Inv = elim (Bool-cases (is_some (lookup id s.seen_ids))) [
    | inl old ↦ rw old v
    | inr new ↦ rw new (
        evict-Inv (remember id s) _ refl
          (Distinct-append id s.seen_order v.distinct (sym (v.same id) ∙ new))
          (λ j.
            rw (member-append j id s.seen_order)
              (ground (arith, lookup-insert id j tt s.seen_ids, v.same j)))
          (ground (arith, length-append s.seen_order (id ∷ []), v.bounded)))
  ]

unfoldable pub filter_all : List Text → Seen → Seen
filter_all [] s = s
filter_all (id ∷ ids) s = filter_all ids (duplicate id s).0

-- The id stands in the queue with at most `n` ids behind it.
data Behind (id : Text) : ℕ → List Text → Type 0 where
  here : {n : ℕ} (ids : List Text) → length ids ≤ n → Behind id n (id ∷ ids)
  there : {n : ℕ} (i : Text) (ids : List Text) → Behind id n ids → Behind id n (i ∷ ids)

Behind-member : {id : Text} {n : ℕ} {ids : List Text} → Behind id n ids → member id ids ≡ true
unfolding member
Behind-member {id} (here ids h) = ground (arith, text_eq_refl id)
Behind-member {id} (there i ids b) = ground (arith, Behind-member b)

Behind-mono : {id : Text} {n : ℕ} {ids : List Text} → Behind id n ids → Behind id (suc n) ids
Behind-mono (here ids h) = here ids (omega arith)
Behind-mono (there i ids b) = there i ids (Behind-mono b)

Behind-append :
    {id : Text} {n : ℕ} {ids : List Text} (j : Text)
    → Behind id n ids
    → Behind id (suc n) (ids ++ j ∷ [])
Behind-append j (here ids h) = here (ids ++ j ∷ []) (omega (arith, length-append ids (j ∷ [])))
Behind-append j (there i ids b) = there i (ids ++ j ∷ []) (Behind-append j b)

Behind-last : (id : Text) (ids : List Text) → Behind id 0 (ids ++ id ∷ [])
Behind-last id [] = here [] (omega arith)
Behind-last id (i ∷ ids) = there i (ids ++ id ∷ []) (Behind-last id ids)

Behind-drop :
    {id : Text} {n : ℕ} {ids : List Text}
    → Behind id n ids
    → n + 1 < length ids
    → Behind id n (drop 1 ids)
Behind-drop (here ids h) l = absurd (omega arith)
Behind-drop (there i ids b) l = b

Behind-trim :
    {id : Text} {n : ℕ} (limit : ℕ) (ids : List Text) (j : Text)
    → Behind id n (ids ++ j ∷ [])
    → n + 1 ≤ limit
    → Behind id n (push limit j ids)
unfolding push
Behind-trim limit ids j b h = elim (Bool-cases (ltb limit (length ids + 1))) [
  | inr fits ↦ rw fits b
  | inl full ↦ rw full (Behind-drop b (ground (arith, length-append ids (j ∷ []))))
]

seen_limit_kept : (id : Text) (s : Seen) → (duplicate id s).0.seen_limit ≡ s.seen_limit
unfolding duplicate
seen_limit_kept id s = ground (arith, kept (remember id s) (remember id s).seen_order)
  where
    kept : (r : Seen) (ids : List Text) → (evict ids r).seen_limit ≡ r.seen_limit
    kept r [] = refl
    kept r (i ∷ ids) = ground arith

-- One more message moves the id at most one place from the end.
duplicate-Behind :
    {id : Text} {n : ℕ} (j : Text) (s : Seen)
    → Inv s
    → Behind id n s.seen_order
    → n + 2 ≤ s.seen_limit
    → Behind id (suc n) (duplicate j s).0.seen_order
duplicate-Behind j s v b h = rw (duplicate-order j s v) (elim (Bool-cases (member j s.seen_order)) [
  | inl old ↦ rw old (Behind-mono b)
  | inr new ↦ rw new (Behind-trim s.seen_limit s.seen_order j (Behind-append j b) (omega arith))
])

filter_all-caught :
    {id : Text} {n : ℕ} (ids : List Text) (s : Seen)
    → Inv s
    → Behind id n s.seen_order
    → n + length ids < s.seen_limit
    → (duplicate id (filter_all ids s)).1 ≡ true
unfolding filter_all
filter_all-caught {id} [] s v b h = duplicate-answer id s v ∙ Behind-member b
filter_all-caught {id} (j ∷ ids) s v b h =
    filter_all-caught ids (duplicate j s).0 (duplicate-Inv j s v)
      (duplicate-Behind j s v b (omega arith)) (omega (arith, seen_limit_kept j s))

-- A fresh id that has gone through is caught whenever it comes back before `seen_limit` further
-- messages have come, whatever their ids are.
pub duplicate_caught :
    (id : Text) (ids : List Text) (s : Seen)
    → Inv s
    → member id s.seen_order ≡ false
    → length ids < s.seen_limit
    → ((duplicate id s).1 ≡ false) × ((duplicate id (filter_all ids (duplicate id s).0)).1 ≡ true)
duplicate_caught id ids s v fresh h = (
  duplicate-answer id s v ∙ fresh,
  filter_all-caught ids (duplicate id s).0 (duplicate-Inv id s v) first
      (omega (arith, seen_limit_kept id s)),
)
  where
    first : Behind id 0 (duplicate id s).0.seen_order
    first =
        rw (duplicate-order id s v, fresh)
          (Behind-trim s.seen_limit s.seen_order id (Behind-last id s.seen_order) (omega arith))
