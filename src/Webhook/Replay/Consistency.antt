-- ===== src/Webhook/Replay/Consistency.antt =====
-- The list and the map of the guard hold the same entries.
use warmrunners.Base.{
  String, ◌≡◌, refl, Option, none, some, List, [], ◌∷◌, arith, pos, leb_ℤ, lookup, lookup-insert,
  lookup-delete, length, if◌then◌else◌, ◌==◌, eq_iff, eq_refl, Option-cases, Bool-cases, inl, inr,
}
use warmrunners.Clock.{Time, time_sub}
use warmrunners.Webhook.Replay.{
  ReplayEntry, ReplayGuard, remove_element, back, remove_back, forget, evict, push_front, seen,
}

-- The entry of a key in the list.
unfoldable pub entry_of : String → List ReplayEntry → Option ReplayEntry
entry_of k [] = none
entry_of k (e ∷ lru) = if e.key == k then some e else entry_of k lru

abbrev pub HasDistinctEntries : List ReplayEntry → Type 0
HasDistinctEntries [] = Unit
HasDistinctEntries (e ∷ lru) = (entry_of e.key lru ≡ none) × HasDistinctEntries lru

-- Each key has one entry, which the map holds too.
pub record IsConsistent (g : ReplayGuard) : Type 0 where
  pub distinct : HasDistinctEntries g.lru
  pub same : (k : String) → lookup k g.elements ≡ entry_of k g.lru

-- The back of the list is found in it.
entry_of-back :
    (lru : List ReplayEntry) (oldest : ReplayEntry)
    → back lru ≡ some oldest
    → (e : ReplayEntry) × (entry_of oldest.key lru ≡ some e)
unfolding entry_of back
entry_of-back [] oldest b = absurd cc
entry_of-back (e ∷ []) oldest b = (e, ground (arith, eq_refl e.key))
entry_of-back (e ∷ f ∷ lru) oldest b =
    let (found, h) = entry_of-back (f ∷ lru) oldest b in
    elim (Bool-cases (e.key == oldest.key)) [
      | inl same ↦ (e, ground arith)
      | inr other ↦ (found, ground arith)
    ]

module _ (k j : String) where
  pub entry_of-remove_element :
      (lru : List ReplayEntry)
      → HasDistinctEntries lru
      → entry_of j (remove_element k lru) ≡ (if k == j then none else entry_of j lru)
  unfolding entry_of remove_element
  entry_of-remove_element [] h = ground arith
  entry_of-remove_element (e ∷ lru) h =
      ground
        (arith, eq_iff k j, eq_iff e.key k, eq_iff e.key j, entry_of-remove_element lru h.1, h.0)

  pub entry_of-remove_back :
      (lru : List ReplayEntry) (oldest : ReplayEntry)
      → HasDistinctEntries lru
      → back lru ≡ some oldest
      → entry_of j (remove_back lru) ≡ (if oldest.key == j then none else entry_of j lru)
  unfolding entry_of remove_back back
  entry_of-remove_back [] oldest h b = absurd cc
  entry_of-remove_back (e ∷ []) oldest h b = ground (arith, eq_iff e.key j, eq_iff oldest.key j)
  entry_of-remove_back (e ∷ f ∷ lru) oldest h b =
      let (found, there) = entry_of-back (f ∷ lru) oldest b in
      ground (
        arith,
        eq_iff oldest.key j,
        eq_iff e.key j,
        entry_of-remove_back (f ∷ lru) oldest h.1 b,
        h.0,
        there,
      )

remove_element-HasDistinctEntries :
    (k : String) (lru : List ReplayEntry)
    → HasDistinctEntries lru
    → HasDistinctEntries (remove_element k lru)
unfolding remove_element
remove_element-HasDistinctEntries k [] h = tt
remove_element-HasDistinctEntries k (e ∷ lru) h =
    ground
      (arith, entry_of-remove_element k e.key lru h.1, remove_element-HasDistinctEntries k lru h.1)

pub back-cons :
    (e : ReplayEntry) (lru : List ReplayEntry)
    → (oldest : ReplayEntry) × (back (e ∷ lru) ≡ some oldest)
unfolding back
back-cons e [] = (e, refl)
back-cons e (f ∷ lru) = back-cons f lru

remove_back-HasDistinctEntries :
    (lru : List ReplayEntry) → HasDistinctEntries lru → HasDistinctEntries (remove_back lru)
unfolding remove_back
remove_back-HasDistinctEntries [] h = tt
remove_back-HasDistinctEntries (e ∷ []) h = tt
remove_back-HasDistinctEntries (e ∷ f ∷ lru) h =
    let (oldest, b) = back-cons f lru in
    (
      ground (arith, entry_of-remove_back oldest.key e.key (f ∷ lru) oldest h.1 b, h.0),
      remove_back-HasDistinctEntries (f ∷ lru) h.1,
    )

forget-IsConsistent : (k : String) (g : ReplayGuard) → IsConsistent g → IsConsistent (forget k g)
unfolding forget
forget-IsConsistent k g c = record {
  distinct = remove_element-HasDistinctEntries k g.lru c.distinct;
  same = λ j.
      ground (
        arith,
        lookup-delete k j g.elements,
        entry_of-remove_element k j g.lru c.distinct,
        c.same j,
      );
}

evict-IsConsistent : (g : ReplayGuard) → IsConsistent g → IsConsistent (evict g)
unfolding evict
evict-IsConsistent g c = elim (Bool-cases (leb_ℤ g.size (pos (length g.lru)))) [
  | inr room ↦ rw (room, evict) c
  | inl full ↦ elim (Option-cases (back g.lru)) [
    | inl empty ↦ rw (full, empty, evict) c
    | inr (oldest, b) ↦
        rw (full, b, evict)
          (record {
            distinct = remove_back-HasDistinctEntries g.lru c.distinct;
            same = λ j. ground (
              arith,
              lookup-delete oldest.key j g.elements,
              entry_of-remove_back oldest.key j g.lru oldest c.distinct b,
              c.same j,
            );
          })
  ]
]

push_front-IsConsistent :
    (k : String) (now : Time) (g : ReplayGuard)
    → IsConsistent g
    → entry_of k g.lru ≡ none
    → IsConsistent (push_front k now g)
unfolding push_front entry_of
push_front-IsConsistent k now g c new = record {
  distinct = (new, c.distinct);
  same = λ j. ground (
    arith,
    eq_iff k j,
    lookup-insert k j (record { key = k; inserted_at = now }) g.elements,
    c.same j,
  );
}

evict-none :
    (k : String) (g : ReplayGuard)
    → IsConsistent g
    → entry_of k g.lru ≡ none
    → entry_of k (evict g).lru ≡ none
unfolding evict
evict-none k g c new = elim (Bool-cases (leb_ℤ g.size (pos (length g.lru)))) [
  | inr room ↦ rw (room, evict) new
  | inl full ↦ elim (Option-cases (back g.lru)) [
    | inl empty ↦ rw (full, empty, evict) new
    | inr (oldest, b) ↦
        rw (full, b, evict)
          (ground (arith, entry_of-remove_back oldest.key k g.lru oldest c.distinct b, new))
  ]
]

forget-none : (k : String) (g : ReplayGuard) → IsConsistent g → entry_of k (forget k g).lru ≡ none
unfolding forget
forget-none k g c = ground (arith, entry_of-remove_element k k g.lru c.distinct, eq_refl k)

pub seen-IsConsistent :
    (k : String) (g : ReplayGuard) (now : Time) → IsConsistent g → IsConsistent (seen k g now).1
unfolding seen
seen-IsConsistent k g now c = elim (Option-cases (lookup k g.elements)) [
  | inl new ↦
      rw (new, seen)
        (push_front-IsConsistent k now (evict g) (evict-IsConsistent g c)
          (evict-none k g c (ground (arith, c.same k, new))))
  | inr (e, old) ↦ elim (Bool-cases (leb_ℤ (time_sub now e.inserted_at) g.ttl)) [
    | inl fresh ↦ rw (old, fresh, seen) c
    | inr expired ↦
        rw (old, expired, seen)
          (push_front-IsConsistent k now (evict (forget k g))
            (evict-IsConsistent (forget k g) (forget-IsConsistent k g c))
            (evict-none k (forget k g) (forget-IsConsistent k g c) (forget-none k g c)))
  ]
]
