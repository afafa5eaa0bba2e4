-- ===== src/Predictor/Runs.antt =====
-- The scan of the active runs: distinct, at most as many as the cap, and none is left out below it.
use warmrunners.Base.{
  subst, sym, All-append, ◌≤◌, ◌<◌, String, Bool, true, false, List, [], ◌∷◌, ◌++◌, Result, ok, err,
  ℤ, eqb_ℤ_iff, if◌then◌else◌, leb, length, length-append, ◌≡◌, refl, inl, inr, arith, Bool-cases,
  Result-cases, All,
}
use warmrunners.Predictor.{RunRef, Outside, PredictState, Call}
use warmrunners.Predictor.Listing.{
  active_statuses, seen_id, union_runs, get_runs, list_from, list_active_runs,
}

-- No two runs have the same ID.
abbrev pub HasDistinctIds : List RunRef → Type 0
HasDistinctIds [] = Unit
HasDistinctIds (r ∷ runs) = (seen_id runs r.id ≡ false) × HasDistinctIds runs

seen_id-append :
    (runs more : List RunRef) (id : ℤ)
    → seen_id (runs ++ more) id ≡ (if seen_id runs id then true else seen_id more id)
unfolding seen_id
seen_id-append [] more id = refl
seen_id-append (r ∷ runs) more id = ground (arith, seen_id-append runs more id)

append-HasDistinctIds :
    (runs : List RunRef) (r : RunRef)
    → HasDistinctIds runs
    → seen_id runs r.id ≡ false
    → HasDistinctIds (runs ++ r ∷ [])
unfolding seen_id
append-HasDistinctIds [] r h new = ground arith
append-HasDistinctIds (x ∷ runs) r h new = (
  ground (arith, seen_id-append runs (r ∷ []) x.id, h.0, eqb_ℤ_iff r.id x.id, eqb_ℤ_iff x.id r.id),
  append-HasDistinctIds runs r h.1 (ground arith),
)

last_seen : (runs : List RunRef) (r : RunRef) → seen_id (runs ++ r ∷ []) r.id ≡ true
unfolding seen_id
last_seen runs r = ground (arith, seen_id-append runs (r ∷ []) r.id, eqb_ℤ_iff r.id r.id)

module _ (call : Call) where
  -- What the scan keeps of the runs so far: distinct, and fewer than the cap until it ends.
  pub record IsScan (runs : List RunRef) (ended : Bool) : Type 0 where
    pub distinct : HasDistinctIds runs
    pub within : length runs ≤ call.runs_cap
    pub below : ended ≡ false → length runs < call.runs_cap
    pub full : ended ≡ true → call.runs_cap ≤ length runs

  union_runs-dup :
      (runs listed : List RunRef) (r : RunRef)
      → seen_id runs r.id ≡ true
      → union_runs call runs (r ∷ listed) ≡ union_runs call runs listed
  unfolding union_runs
  union_runs-dup runs listed r dup = rw (dup, union_runs) refl

  union_runs-full :
      (runs listed : List RunRef) (r : RunRef)
      → seen_id runs r.id ≡ false
      → leb call.runs_cap (length (runs ++ r ∷ [])) ≡ true
      → union_runs call runs (r ∷ listed) ≡ (runs ++ r ∷ [], true)
  unfolding union_runs
  union_runs-full runs listed r new full = rw (new, full, union_runs) refl

  union_runs-room :
      (runs listed : List RunRef) (r : RunRef)
      → seen_id runs r.id ≡ false
      → leb call.runs_cap (length (runs ++ r ∷ [])) ≡ false
      → union_runs call runs (r ∷ listed) ≡ union_runs call (runs ++ r ∷ []) listed
  unfolding union_runs
  union_runs-room runs listed r new room = rw (new, room, union_runs) refl

  union_runs-IsScan :
      (runs listed : List RunRef)
      → IsScan runs false
      → IsScan (union_runs call runs listed).0 (union_runs call runs listed).1
  union_runs-IsScan runs [] h = h_nil
    where
      h_nil : IsScan (union_runs call runs []).0 (union_runs call runs []).1
      h_nil = unfold union_runs in h
  union_runs-IsScan runs (r ∷ listed) h = elim (Bool-cases (seen_id runs r.id)) [
    | inl dup ↦ rw (union_runs-dup runs listed r dup) (union_runs-IsScan runs listed h)
    | inr new ↦ elim (Bool-cases (leb call.runs_cap (length (runs ++ r ∷ [])))) [
      | inl full ↦ rw (union_runs-full runs listed r new full) (record {
        distinct = append-HasDistinctIds runs r h.distinct new;
        within = ground (arith, h.below refl, length-append runs (r ∷ []));
        below = λ e. ground arith;
        full = λ e. ground arith;
      })
      | inr room ↦ rw (union_runs-room runs listed r new room) (
          union_runs-IsScan (runs ++ r ∷ []) listed (record {
            distinct = append-HasDistinctIds runs r h.distinct new;
            within = ground arith;
            below = λ e. ground arith;
            full = λ e. ground arith;
          }))
    ]
  ]

  union_runs-seen :
      (runs listed : List RunRef) (id : ℤ)
      → seen_id runs id ≡ true
      → seen_id (union_runs call runs listed).0 id ≡ true
  union_runs-seen runs [] id h = unfold union_runs in h
  union_runs-seen runs (r ∷ listed) id h =
      let more : seen_id (runs ++ r ∷ []) id ≡ true =
        ground (arith, seen_id-append runs (r ∷ []) id) in
      elim (Bool-cases (seen_id runs r.id)) [
        | inl dup ↦ rw (union_runs-dup runs listed r dup) (union_runs-seen runs listed id h)
        | inr new ↦ elim (Bool-cases (leb call.runs_cap (length (runs ++ r ∷ [])))) [
          | inl full ↦ rw (union_runs-full runs listed r new full) more
          | inr room ↦
              rw (union_runs-room runs listed r new room)
                (union_runs-seen (runs ++ r ∷ []) listed id more)
        ]
      ]

  -- Each of the runs that were met has its ID in the scan.
  abbrev pub Covers : List RunRef → List RunRef → Type 0
  Covers runs = All (λ r. seen_id runs r.id ≡ true)

  union_runs-Covers :
      (runs listed : List RunRef)
      → (union_runs call runs listed).1 ≡ false
      → Covers (union_runs call runs listed).0 listed
  union_runs-Covers runs [] h = tt
  union_runs-Covers runs (r ∷ listed) h = elim (Bool-cases (seen_id runs r.id)) [
    | inl dup ↦
        let e = union_runs-dup runs listed r dup in
        subst (λ (u : List RunRef × Bool). Covers u.0 (r ∷ listed)) (sym e)
          (union_runs-seen runs listed r.id dup, union_runs-Covers runs listed (ground (arith, e)))
    | inr new ↦ elim (Bool-cases (leb call.runs_cap (length (runs ++ r ∷ [])))) [
      | inl full ↦ absurd (ground (arith, union_runs-full runs listed r new full))
      | inr room ↦
          let e = union_runs-room runs listed r new room in
          subst (λ (u : List RunRef × Bool). Covers u.0 (r ∷ listed)) (sym e)
            (
              union_runs-seen (runs ++ r ∷ []) listed r.id (last_seen runs r),
              union_runs-Covers (runs ++ r ∷ []) listed (ground (arith, e)),
            )
    ]
  ]

module _ {W : Type 0} (out : Outside W) (call : Call) where
  -- Every run of the listings, until one fails.
  unfoldable pub listed_runs : List String → PredictState W → List RunRef
  listed_runs [] s = []
  listed_runs (status ∷ statuses) s = elim (get_runs out call status s).0 [
    | err e ↦ []
    | ok listed ↦ listed ++ listed_runs statuses (get_runs out call status s).1
  ]

  -- What a finished scan is: distinct runs within the cap, and below it all that were listed.
  pub record IsScanned (runs listed : List RunRef) : Type 0 where
    pub distinct : HasDistinctIds runs
    pub within : length runs ≤ call.runs_cap
    pub complete : length runs < call.runs_cap → Covers call runs listed

  Covers-seen :
      (runs more listed : List RunRef)
      → ((id : ℤ) → seen_id runs id ≡ true → seen_id more id ≡ true)
      → Covers call runs listed
      → Covers call more listed
  Covers-seen runs more [] keep h = tt
  Covers-seen runs more (r ∷ listed) keep h = (keep r.id h.0, Covers-seen runs more listed keep h.1)

  -- The rest of the scan keeps what is seen, and covers what the rest of the listings has.
  pub record IsRest (statuses : List String) (runs : List RunRef) (s : PredictState W)
      (result : List RunRef) : Type 0 where
    pub scanned : IsScanned result (listed_runs statuses s)
    pub keeps : (id : ℤ) → seen_id runs id ≡ true → seen_id result id ≡ true

  list_from-ok :
      (statuses : List String) (runs : List RunRef) (s : PredictState W) (result : List RunRef)
      → IsScan call runs false
      → (list_from out call statuses runs s).0 ≡ ok result
      → IsRest statuses runs s result
  unfolding list_from listed_runs
  list_from-ok [] runs s result scan done =
      let same : runs ≡ result = cc in
      subst (λ (r : List RunRef). IsRest [] runs s r) same
        (record {
          scanned = record { distinct = scan.distinct; within = scan.within; complete = λ h. tt };
          keeps = λ id h. h;
        })
  list_from-ok (status ∷ statuses) runs s result scan done =
      elim (Result-cases (get_runs out call status s).0) [
        | inr (e, failed) ↦ absurd (ground (arith, failed))
        | inl (listed, read) ↦
            let u = union_runs call runs listed in
            let s' = (get_runs out call status s).1 in
            let next : IsScan call u.0 u.1 = union_runs-IsScan call runs listed scan in
            elim (Bool-cases u.1) [
              | inl ended ↦
                  let same : u.0 ≡ result = ground (arith, read, ended) in
                  subst (λ (r : List RunRef). IsRest (status ∷ statuses) runs s r) same
                    (record {
                      scanned = record {
                        distinct = next.distinct;
                        within = next.within;
                        complete = λ h. absurd (ground (arith, next.full ended));
                      };
                      keeps = union_runs-seen call runs listed;
                    })
              | inr more ↦
                  let rest : IsRest statuses u.0 s' result =
                    list_from-ok statuses u.0 s' result
                      (subst (λ (b : Bool). IsScan call u.0 b) more next)
                      (ground (arith, read, more)) in
                  record {
                    scanned = record {
                      distinct = rest.scanned.distinct;
                      within = rest.scanned.within;
                      complete = λ h.
                          subst
                            (λ (x : Result (List RunRef)).
                              Covers call result
                                (elim x [ err e ↦ [] | ok l ↦ l ++ listed_runs statuses s' ]))
                            (sym read)
                            (All-append (λ (r : RunRef). seen_id result r.id ≡ true) listed
                              (listed_runs statuses s')
                              (Covers-seen u.0 result listed rest.keeps
                                (union_runs-Covers call runs listed more))
                              (rest.scanned.complete h));
                    };
                    keeps = λ id h. rest.keeps id (union_runs-seen call runs listed id h);
                  }
            ]
      ]

  -- Where the cap is positive, the runs that the scan returns have distinct IDs and are at most as
  -- many as the cap; and where they are fewer, every run that a listing had has its ID among them.
  pub list_active_runs-IsScanned :
      (s : PredictState W) (runs : List RunRef)
      → 0 < call.runs_cap
      → (list_active_runs out call s).0 ≡ ok runs
      → IsScanned runs (listed_runs active_statuses s)
  unfolding list_active_runs
  list_active_runs-IsScanned s runs positive done =
      (list_from-ok active_statuses [] s runs
        (record {
          distinct = tt;
          within = omega arith;
          below = λ h. positive;
          full = λ h. absurd (ground arith);
        })
        done).scanned
