-- ===== src/Demand/Conditional.antt =====
-- `get` of internal/demand/github_poller.go against a server that answers conditional requests.
use text.Mathlib.TextLemmas.{nil-append}
use warmrunners.Base.{
  ℕ, String, true, Option, none, some, GoMap, lookup, lookup-insert, Result, ok, ◌>>=◌, ◌≡◌, refl,
  sym, subst, ◌⊎◌, inl, inr, arith, eq_iff, ◌==◌, Bool-cases, Result-cases,
}
use warmrunners.Clock.{Time, Duration}
use warmrunners.Demand.Retry.{Response, Reply, response}
use warmrunners.Demand.Attempts.{do_with_retry-ok}
use warmrunners.Demand.Poller.{
  Parsed, OutType, type_of, same_type, ParsedEntry, GitHubRestPoller, PollRequest, cached_etag,
  optional_header, poll_request, reuse, remember, take_body, take_attempted, attempts, get_parsed,
}

-- A reply while the server has a version: a 200 sends its text and its ETag, a 304 confirms the version that
-- the request names.
pub record IsConforming (text : String → String → String) (etag : String) (req : PollRequest)
    (r : Response) : Type 0 where
  pub sent :
      r.status ≡ 200
      → (body : String) → r.body ≡ ok body
      → (body ≡ text req.url etag) × (r.etag ≡ etag)
  pub confirmed : r.status ≡ 304 → req.if_none_match ≡ some etag

same_type_refl : (out : OutType) → same_type out out ≡ true
same_type_refl OutType.runs_type = refl
same_type_refl OutType.jobs_type = refl

module _ (decode : OutType → String → Result Parsed) (text : String → String → String)
    (type_for : String → OutType) where
  -- Every entry is what its version decodes to, at the type that its URL is read as.
  abbrev pub IsParsed : GoMap ParsedEntry → Type 0
  IsParsed cache =
      (u : String) (e : ParsedEntry)
      → lookup u cache ≡ some e
      → (decode (type_for u) (text u e.etag) ≡ ok e.parsed) × (type_of e.parsed ≡ type_for u)

  remember-IsParsed :
      (u etag : String) (parsed : Parsed) (cache : GoMap ParsedEntry)
      → decode (type_for u) (text u etag) ≡ ok parsed
      → type_of parsed ≡ type_for u
      → IsParsed cache
      → IsParsed (remember u etag parsed cache)
  unfolding remember
  remember-IsParsed u etag parsed cache decoded typed h other e found =
      elim (Bool-cases (etag == "")) [
        | inl empty ↦ h other e (ground (arith, empty, found))
        | inr given ↦ elim (Bool-cases (u == other)) [
          | inr different ↦ h other e (
              ground (
                arith,
                given,
                different,
                found,
                lookup-insert u other (record { etag = etag; parsed = parsed }) cache,
              ))
          | inl same ↦
              let entry : ParsedEntry = record { etag = etag; parsed = parsed } in
              let stored : entry ≡ e =
                ground (arith, given, same, found, lookup-insert u other entry cache) in
              subst
                (λ x.
                  (decode (type_for other) (text other x.etag) ≡ ok x.parsed)
                  × (type_of x.parsed ≡ type_for other))
                stored
                (subst
                  (λ v.
                    (decode (type_for v) (text v etag) ≡ ok parsed) × (type_of parsed ≡ type_for v))
                  ((eq_iff u other).0 same) (decoded, typed))
        ]
      ]

  named :
      (u etag : String) (o : Option ParsedEntry)
      → optional_header "" (elim o [ none ↦ "" | some e ↦ e.etag ]) ≡ some etag
      → (e : ParsedEntry) × (o ≡ some e) × (e.etag ≡ etag)
  unfolding optional_header
  named u etag none h = absurd cc
  named u etag (some e) h = (
    e,
    refl,
    elim (Bool-cases (e.etag == "")) [
      | inl empty ↦ absurd (ground (arith, empty, h))
      | inr given ↦ ground (arith, given, h, nil-append e.etag)
    ],
  )

  take_body-current :
      (u etag : String) (cache : GoMap ParsedEntry)
      → ((out : OutType) (body : String) (p : Parsed) → decode out body ≡ ok p → type_of p ≡ out)
      → IsParsed cache
      → ((take_body decode (type_for u) u etag (text u etag) cache).0
          ≡ decode (type_for u) (text u etag))
        × IsParsed (take_body decode (type_for u) u etag (text u etag) cache).1
  unfolding take_body
  take_body-current u etag cache typed h = elim (Result-cases (decode (type_for u) (text u etag))) [
    | inr (e, broken) ↦ rw (broken, take_body) (refl, h)
    | inl (p, fine) ↦
        rw (fine, take_body)
          (refl, remember-IsParsed u etag p cache fine (typed (type_for u) (text u etag) p fine) h)
  ]

  reuse-current :
      (u etag : String) (o : Option ParsedEntry)
      → ((e : ParsedEntry)
          → o ≡ some e
          → (decode (type_for u) (text u e.etag) ≡ ok e.parsed) × (type_of e.parsed ≡ type_for u))
      → optional_header "" (elim o [ none ↦ "" | some e ↦ e.etag ]) ≡ some etag
      → reuse decode (type_for u) o ≡ decode (type_for u) (text u etag)
  unfolding reuse
  reuse-current u etag o h confirmed =
      let (e, found, version) = named u etag o confirmed in
      let (decoded, typed) = h e found in
      rw (found, reuse, typed, same_type_refl (type_for u))
        (sym (subst (λ t. decode (type_for u) (text u t) ≡ ok e.parsed) version decoded))

  module _ (version : String) (client : PollRequest → ℕ → Reply) (now : ℕ → Time)
      (jitter : ℕ → Duration) (cancelled : ℕ → Option String) (u etag : String)
      (p : GitHubRestPoller) where
    abbrev got : Result Parsed × GitHubRestPoller
    got = get_parsed decode version client now jitter cancelled (type_for u) u p

    abbrev attempted : Result (Response × String)
    attempted = attempts decode version client now jitter cancelled p u

    take_attempted-current :
        (r : Response) (body : String)
        → ((out : OutType) (b : String) (v : Parsed) → decode out b ≡ ok v → type_of v ≡ out)
        → IsConforming text etag (poll_request version p u) r
        → (r.status ≡ 200) ⊎ (r.status ≡ 304)
        → r.body ≡ ok body
        → IsParsed p.cache
        → ((take_attempted decode (type_for u) u (ok (r, body)) p.cache).0
            ≡ decode (type_for u) (text u etag))
          × IsParsed (take_attempted decode (type_for u) u (ok (r, body)) p.cache).1
    unfolding take_attempted poll_request cached_etag
    take_attempted-current r body typed server (inl sent) read h =
        let (same_body, same_etag) = server.sent sent body read in
        rw (sent, take_attempted, same_body, same_etag) (take_body-current u etag p.cache typed h)
    take_attempted-current r body typed server (inr same) read h =
        rw (same, take_attempted)
          (reuse-current u etag (lookup u p.cache) (h u) (server.confirmed same), h)

    -- While the server has one version of the resource, which a 200 sends and a 304 confirms, `get` returns
    -- what this version decodes to, sent or cached, or else the error of its attempts: no 304 adds an error of
    -- its own. The cache still holds what its versions decode to.
    pub get_parsed-current :
        ((out : OutType) (b : String) (v : Parsed) → decode out b ≡ ok v → type_of v ≡ out)
        → ((i : ℕ) (r : Response)
            → client (poll_request version p u) i ≡ response r
            → IsConforming text etag (poll_request version p u) r)
        → IsParsed p.cache
        → (got.0 ≡ (attempted >>= (λ _. decode (type_for u) (text u etag)))) × IsParsed got.1.cache
    unfolding get_parsed attempts
    get_parsed-current typed server h = elim (Result-cases attempted) [
      | inr (e, failed) ↦ rw (failed, get_parsed) (refl, h)
      | inl ((r, body), fine) ↦
          let (i, few, arrived, status, read) =
            do_with_retry-ok p.base_delay (client (poll_request version p u)) now jitter cancelled r
              body fine in
          rw (fine, get_parsed)
            (take_attempted-current r body typed (server i r arrived) status read h)
    ]
