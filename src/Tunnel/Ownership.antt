-- ===== src/Tunnel/Ownership.antt =====
-- Which tunnels run: the registry of internal/webhook/tunnel.go against the calls that were made of it.
use warmrunners.Base.{
  ℕ, suc, ◌<◌, String, Bool, true, false, List, [], ◌∷◌, Option, none, some, lookup, insert, delete,
  lookup-insert, lookup-delete, if◌then◌else◌, ◌==◌, ◌≡◌, ◌⊎◌, refl, sym, ap, ◌∙◌, arith,
  Option-cases, Bool-cases, eq_iff, inl, inr, subst,
}
use warmrunners.Tunnel.Registry.{
  TunnelEntry, Running, Registry, new_registry, cancel, stop_locked, start_locked,
}

-- The running clients of a name, of those whose context is not cancelled.
unfoldable pub running_of : String → List Running → List Running
running_of name [] = []
running_of name (r ∷ running) =
    let rest = running_of name running in if r.name == name then r ∷ rest else rest

abbrev pub entry_list : String → Option TunnelEntry → List Running
entry_list name none = []
entry_list name (some e) = record { client = e.client; name = name; url = e.url } ∷ []

-- The running clients are those of the entries, and each entry has a client of its own.
pub record IsOwned (r : Registry) : Type 0 where
  pub owned : (name : String) → running_of name r.running ≡ entry_list name (lookup name r.entries)
  pub fresh :
      (name : String) (e : TunnelEntry) → lookup name r.entries ≡ some e → e.client < r.created
  pub apart :
      (name other : String) (e f : TunnelEntry)
      → lookup name r.entries ≡ some e
      → lookup other r.entries ≡ some f
      → e.client ≡ f.client
      → name ≡ other

running_of-cancel :
    (name : String) (client : ℕ) (running : List Running)
    → running_of name (cancel client running) ≡ cancel client (running_of name running)
unfolding running_of cancel
running_of-cancel name client [] = refl
running_of-cancel name client (r ∷ running) = ground (arith, running_of-cancel name client running)

pub new_registry-IsOwned : IsOwned new_registry
unfolding running_of lookup
new_registry-IsOwned = record {
  owned = λ name. refl;
  fresh = λ name e found. absurd (ground (arith, found));
  apart = λ name other e f found found' same. absurd (ground (arith, found));
}

-- What a cancelled client leaves of an entry.
cancel_entry :
    (name n : String) (entry : TunnelEntry) (o : Option TunnelEntry)
    → ((name == n) ≡ true → o ≡ some entry)
    → ((e : TunnelEntry) → o ≡ some e → e.client ≡ entry.client → name ≡ n)
    → cancel entry.client (entry_list n o) ≡ entry_list n (if name == n then none else o)
unfolding cancel
cancel_entry name n entry none mine apart = ground (arith, mine)
cancel_entry name n entry (some e) mine apart = elim (Bool-cases (name == n)) [
  | inl same ↦ ground (arith, same, mine same)
  | inr other ↦ ground (arith, other, apart e refl, eq_iff name n)
]

module _ (name : String) (r : Registry) (h : IsOwned r) where
  abbrev after_stop : String → Option TunnelEntry
  after_stop n = lookup n (delete name r.entries)

  after_stop-found :
      (n : String) (e : TunnelEntry) → after_stop n ≡ some e → lookup n r.entries ≡ some e
  after_stop-found n e found = ground (arith, found, lookup-delete name n r.entries)

  pub stop_locked-IsOwned : (in_time : Bool) → IsOwned (stop_locked in_time name r)
  unfolding stop_locked
  stop_locked-IsOwned in_time = elim (Option-cases (lookup name r.entries)) [
    | inl absent ↦ rw (absent, stop_locked) h
    | inr (entry, found) ↦
        rw (found, stop_locked)
          (record {
            owned = λ n.
                running_of-cancel n entry.client r.running
                ∙ ap (cancel entry.client) (h.owned n)
                ∙ cancel_entry name n entry (lookup n r.entries)
                    (λ same.
                      subst (λ m. lookup m r.entries ≡ some entry) ((eq_iff name n).0 same) found)
                    (λ e at same. h.apart name n entry e found at (sym same))
                ∙ ap (entry_list n) (sym (lookup-delete name n r.entries));
            fresh = λ n e at. h.fresh n e (after_stop-found n e at);
            apart = λ n m e f at at' same.
                h.apart n m e f (after_stop-found n e at) (after_stop-found m f at') same;
          })
  ]

  absent_key :
      (n : String)
      → lookup name r.entries ≡ none
      → ((name == n) ≡ true) ⊎ ((name == n) ≡ false)
      → lookup n r.entries ≡ (if name == n then none else lookup n r.entries)
  absent_key n absent (inl same) =
      rw same (subst (λ m. lookup m r.entries ≡ none) ((eq_iff name n).0 same) absent)
  absent_key n absent (inr other) = rw other refl

  pub lookup-stop_locked :
      (in_time : Bool) (n : String)
      → lookup n (stop_locked in_time name r).entries
        ≡ (if name == n then none else lookup n r.entries)
  unfolding stop_locked
  lookup-stop_locked in_time n = elim (Option-cases (lookup name r.entries)) [
    | inl absent ↦ rw (absent, stop_locked) (absent_key n absent (Bool-cases (name == n)))
    | inr (entry, found) ↦ rw (found, stop_locked) (lookup-delete name n r.entries)
  ]

  module _ (url : String) (absent : lookup name r.entries ≡ none) where
    abbrev started : TunnelEntry
    started = record { client = r.created; url = url }

    abbrev after_start : String → Option TunnelEntry
    after_start n = lookup n (insert name started r.entries)

    after_start-found :
        (n : String) (e : TunnelEntry)
        → after_start n ≡ some e
        → ((name ≡ n) × (e.client ≡ r.created)) ⊎ (lookup n r.entries ≡ some e)
    after_start-found n e found = elim (Bool-cases (name == n)) [
      | inl same ↦ inl (
        (eq_iff name n).0 same,
        ground (arith, found, same, lookup-insert name n started r.entries),
      )
      | inr other ↦ inr (ground (arith, found, other, lookup-insert name n started r.entries))
    ]

    start_owned :
        (n : String)
        → running_of n (start_locked name url r).1.running ≡ entry_list n (after_start n)
    unfolding start_locked running_of
    start_owned n = elim (Bool-cases (name == n)) [
      | inr other ↦ rw (other, lookup-insert name n started r.entries, other) (h.owned n)
      | inl same ↦
          rw (same, lookup-insert name n started r.entries, same)
            (subst
              (λ m.
                (record { client = r.created; name = name; url = url } ∷ running_of m r.running)
                ≡ entry_list m (some started))
              ((eq_iff name n).0 same)
              (ap (λ rest. record { client = r.created; name = name; url = url } ∷ rest)
                (h.owned name ∙ ap (entry_list name) absent)))
    ]

    start_apart :
        (n m : String) (e f : TunnelEntry)
        → after_start n ≡ some e
        → after_start m ≡ some f
        → e.client ≡ f.client
        → n ≡ m
    start_apart n m e f at at' same = elim (after_start-found n e at) [
      | inl (here, mine) ↦ elim (after_start-found m f at') [
        | inl (there, yours) ↦ sym here ∙ there
        | inr old ↦ absurd (omega (arith, h.fresh m f old, mine, same))
      ]
      | inr old ↦ elim (after_start-found m f at') [
        | inl (there, yours) ↦ absurd (omega (arith, h.fresh n e old, yours, same))
        | inr old' ↦ h.apart n m e f old old' same
      ]
    ]

    start_fresh : (n : String) (e : TunnelEntry) → after_start n ≡ some e → e.client < suc r.created
    start_fresh n e at = elim (after_start-found n e at) [
      | inl (here, mine) ↦ omega (arith, mine)
      | inr old ↦ omega (arith, h.fresh n e old)
    ]

    pub start_locked-IsOwned : IsOwned (start_locked name url r).1
    unfolding start_locked
    start_locked-IsOwned = record { owned = start_owned; fresh = start_fresh; apart = start_apart }
