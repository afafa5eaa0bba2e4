-- ===== src/Tunnel/Calls.antt =====
-- The registry of internal/webhook/tunnel.go behind any sequence of calls.
use warmrunners.Base.{
  ℕ, ◌+◌, ◌≤◌, length, arith, String, Bool, true, List, [], ◌∷◌, map, Option, none, some, lookup,
  lookup-insert, if◌then◌else◌, ◌==◌, ◌≡◌, refl, sym, ap, ◌∙◌, Option-cases, Bool-cases, eq_iff,
  eq_refl, inl, inr, subst,
}
use warmrunners.Tunnel.Registry.{
  TunnelEntry, Registry, new_registry, stop_locked, start_locked, ensure, stop, get_tunnel, linger,
}
use warmrunners.Tunnel.Ownership.{
  running_of, entry_list, IsOwned, new_registry-IsOwned, stop_locked-IsOwned, lookup-stop_locked,
  start_locked-IsOwned,
}

-- A call of the registry that changes it, with whether the call of `Start` that it may stop returned within
-- two seconds.
pub data RegistryCall : Type 0 where
  ensure_call : Bool → String → String → RegistryCall
  stop_call : Bool → String → RegistryCall

unfoldable pub apply_call : RegistryCall → Registry → Registry
apply_call (RegistryCall.ensure_call in_time name url) r = (ensure in_time name url r).1
apply_call (RegistryCall.stop_call in_time name) r = stop in_time name r

unfoldable pub apply_calls : List RegistryCall → Registry → Registry
apply_calls [] r = r
apply_calls (c ∷ calls) r = apply_calls calls (apply_call c r)

-- The URL at which the calls want a tunnel for a name.
unfoldable pub wish : RegistryCall → String → Option String → Option String
wish (RegistryCall.ensure_call in_time other url) name old = if other == name then some url else old
wish (RegistryCall.stop_call in_time other) name old = if other == name then none else old

unfoldable pub wished : List RegistryCall → String → Option String → Option String
wished [] name old = old
wished (c ∷ calls) name old = wished calls name (wish c name old)

abbrev pub url_of : Option TunnelEntry → Option String
url_of none = none
url_of (some e) = some e.url

abbrev pub at_most_one {ℓ} : {A : Type ℓ} → Option A → List A
at_most_one none = []
at_most_one (some a) = a ∷ []

ensure-IsOwned :
    (in_time : Bool) (name url : String) (r : Registry)
    → IsOwned r
    → IsOwned (ensure in_time name url r).1
unfolding ensure
ensure-IsOwned in_time name url r h = elim (Option-cases (lookup name r.entries)) [
  | inl absent ↦ rw (absent, ensure) (start_locked-IsOwned name r h url absent)
  | inr (e, found) ↦ elim (Bool-cases (e.url == url)) [
    | inl same ↦ rw (found, ensure, same) h
    | inr other ↦
        rw (found, ensure, other)
          (start_locked-IsOwned name (stop_locked in_time name r)
            (stop_locked-IsOwned name r h in_time) url
            (lookup-stop_locked name r h in_time name
              ∙ ap (λ b. if b then none else lookup name r.entries) (eq_refl name)))
  ]
]

url_of-start_locked :
    (name url : String) (r : Registry) (n : String)
    → url_of (lookup n (start_locked name url r).1.entries)
      ≡ (if name == n then some url else url_of (lookup n r.entries))
unfolding start_locked
url_of-start_locked name url r n = elim (Bool-cases (name == n)) [
  | inl same ↦
      rw (lookup-insert name n (record { client = r.created; url = url }) r.entries, same) refl
  | inr other ↦
      rw (lookup-insert name n (record { client = r.created; url = url }) r.entries, other) refl
]

same_url :
    (name url : String) (n : String) (e : TunnelEntry) (o : Option TunnelEntry)
    → ((name == n) ≡ true → o ≡ some e)
    → (e.url == url) ≡ true
    → url_of o ≡ (if name == n then some url else url_of o)
same_url name url n e o mine same = elim (Bool-cases (name == n)) [
  | inl here ↦ rw (here, mine here) (ap (λ u. some u) ((eq_iff e.url url).0 same))
  | inr there ↦ rw there refl
]

restarted :
    (in_time : Bool) (name url : String) (r : Registry) (n : String) (h : IsOwned r)
    → url_of (lookup n (start_locked name url (stop_locked in_time name r)).1.entries)
      ≡ (if name == n then some url else url_of (lookup n r.entries))
restarted in_time name url r n h = elim (Bool-cases (name == n)) [
  | inl same ↦ url_of-start_locked name url (stop_locked in_time name r) n ∙ rw same refl
  | inr other ↦
      url_of-start_locked name url (stop_locked in_time name r) n
      ∙ rw (other, lookup-stop_locked name r h in_time n, other) refl
]

url_of-ensure :
    (in_time : Bool) (name url : String) (r : Registry) (n : String)
    → IsOwned r
    → url_of (lookup n (ensure in_time name url r).1.entries)
      ≡ (if name == n then some url else url_of (lookup n r.entries))
unfolding ensure
url_of-ensure in_time name url r n h = elim (Option-cases (lookup name r.entries)) [
  | inl absent ↦ rw (absent, ensure) (url_of-start_locked name url r n)
  | inr (e, found) ↦ elim (Bool-cases (e.url == url)) [
    | inl same ↦
        rw (found, ensure, same)
          (same_url name url n e (lookup n r.entries)
            (λ here. subst (λ m. lookup m r.entries ≡ some e) ((eq_iff name n).0 here) found) same)
    | inr other ↦ rw (found, ensure, other) (restarted in_time name url r n h)
  ]
]

apply_call-IsOwned : (c : RegistryCall) (r : Registry) → IsOwned r → IsOwned (apply_call c r)
unfolding apply_call stop
apply_call-IsOwned (RegistryCall.ensure_call in_time name url) r h =
    ensure-IsOwned in_time name url r h
apply_call-IsOwned (RegistryCall.stop_call in_time name) r h = stop_locked-IsOwned name r h in_time

url_of-apply_call :
    (c : RegistryCall) (r : Registry) (n : String)
    → IsOwned r
    → url_of (lookup n (apply_call c r).entries) ≡ wish c n (url_of (lookup n r.entries))
unfolding apply_call stop wish
url_of-apply_call (RegistryCall.ensure_call in_time name url) r n h =
    url_of-ensure in_time name url r n h
url_of-apply_call (RegistryCall.stop_call in_time name) r n h = elim (Bool-cases (name == n)) [
  | inl same ↦ rw (lookup-stop_locked name r h in_time n, same) refl
  | inr other ↦ rw (lookup-stop_locked name r h in_time n, other) refl
]

entry_urls :
    (n : String) (o : Option TunnelEntry)
    → map (λ x. x.url) (entry_list n o) ≡ at_most_one (url_of o)
entry_urls n none = refl
entry_urls n (some e) = refl

entry_clients :
    (n : String) (r : Registry)
    → map (λ x. x.client) (entry_list n (lookup n r.entries)) ≡ at_most_one (get_tunnel n r)
unfolding get_tunnel
entry_clients n r = elim (Option-cases (lookup n r.entries)) [
  | inl absent ↦ rw (absent, get_tunnel) refl
  | inr (e, found) ↦ rw (found, get_tunnel) refl
]

-- How many of the calls gave up waiting.
unfoldable pub late : List RegistryCall → ℕ
late [] = 0
late (RegistryCall.ensure_call in_time name url ∷ calls) = (if in_time then 0 else 1) + late calls
late (RegistryCall.stop_call in_time name ∷ calls) = (if in_time then 0 else 1) + late calls

stop_locked-lingering :
    (in_time : Bool) (name : String) (r : Registry)
    → length (stop_locked in_time name r).lingering
      ≤ (if in_time then 0 else 1) + length r.lingering
unfolding stop_locked linger
stop_locked-lingering in_time name r = elim (Option-cases (lookup name r.entries)) [
  | inl absent ↦ rw (absent, stop_locked) (omega arith)
  | inr (entry, found) ↦ elim (Bool-cases in_time) [
    | inl early ↦ rw (found, stop_locked, early) (omega arith)
    | inr given_up ↦ rw (found, stop_locked, given_up) (omega arith)
  ]
]

ensure-lingering :
    (in_time : Bool) (name url : String) (r : Registry)
    → length (ensure in_time name url r).1.lingering
      ≤ (if in_time then 0 else 1) + length r.lingering
unfolding ensure start_locked
ensure-lingering in_time name url r = elim (Option-cases (lookup name r.entries)) [
  | inl absent ↦ rw (absent, ensure) (omega arith)
  | inr (e, found) ↦ elim (Bool-cases (e.url == url)) [
    | inl same ↦ rw (found, ensure, same) (omega arith)
    | inr other ↦ rw (found, ensure, other) (stop_locked-lingering in_time name r)
  ]
]

apply_calls-lingering :
    (calls : List RegistryCall) (r : Registry)
    → length (apply_calls calls r).lingering ≤ late calls + length r.lingering
unfolding apply_calls apply_call stop late
apply_calls-lingering [] r = omega arith
apply_calls-lingering (RegistryCall.ensure_call in_time name url ∷ calls) r = omega (
  arith,
  apply_calls-lingering calls (ensure in_time name url r).1,
  ensure-lingering in_time name url r,
)
apply_calls-lingering (RegistryCall.stop_call in_time name ∷ calls) r = omega (
  arith,
  apply_calls-lingering calls (stop_locked in_time name r),
  stop_locked-lingering in_time name r,
)

calls_from :
    (calls : List RegistryCall) (r : Registry) (n : String)
    → IsOwned r
    → let after = apply_calls calls r in
      (map (λ x. x.url) (running_of n after.running)
        ≡ at_most_one (wished calls n (url_of (lookup n r.entries))))
      × (map (λ x. x.client) (running_of n after.running) ≡ at_most_one (get_tunnel n after))
unfolding apply_calls wished
calls_from [] r n h = (
  ap (map (λ x. x.url)) (h.owned n) ∙ entry_urls n (lookup n r.entries),
  ap (map (λ x. x.client)) (h.owned n) ∙ entry_clients n r,
)
calls_from (c ∷ calls) r n h =
    rw (sym (url_of-apply_call c r n h))
      (calls_from calls (apply_call c r) n (apply_call-IsOwned c r h))

-- Behind any calls of `Ensure` and `Stop` on a new registry, in any order: one tunnel at most whose context is
-- not cancelled is there for a name. Where the last call on the name is an `Ensure`, it is there, at the URL
-- of this call, and where it is a `Stop` or there is none, it is not; `Get` returns its client. Beside these,
-- a `Start` of a cancelled context may still run, yet for no more than the calls that gave up their wait of two
-- seconds, one for each: where every wait ended in time there is none.
pub apply_calls-running :
    (calls : List RegistryCall) (name : String)
    → let after = apply_calls calls new_registry in
      (map (λ x. x.url) (running_of name after.running) ≡ at_most_one (wished calls name none))
      × (map (λ x. x.client) (running_of name after.running) ≡ at_most_one (get_tunnel name after))
      × (length after.lingering ≤ late calls)
unfolding lookup
apply_calls-running calls name =
    let (urls, clients) = calls_from calls new_registry name new_registry-IsOwned in
    (urls, clients, omega (arith, apply_calls-lingering calls new_registry))
