-- ===== src/Webhook/Once.antt =====
-- A delivery reaches the feed once.
use warmrunners.Base.{
  ℕ, suc, ◌≤◌, String, ◌≡◌, refl, sym, ap, ◌∙◌, subst, inl, inr, true, false, List, [], ◌∷◌, ◌++◌,
  arith, ℤ, pos, ◌≤ℤ◌, length, length-append, All, All-append,
}
use warmrunners.Clock.{Time, Duration, time_sub}
use warmrunners.Activity.Feed.{Feed}
use warmrunners.Webhook.{Outside}
use warmrunners.Webhook.Replay.{ReplayGuard, seen, after_calls, new_replay_guard}
use warmrunners.Webhook.Replay.Catching.{seen-replay}
use warmrunners.Webhook.Receiver.{State, Request, serve_http}
use warmrunners.Webhook.Deliveries.{IsAuthentic, serve_http-IsAuthentic, serve_http-effect, fed}
use warmrunners.Webhook.Dispatch.{dispatch}

-- The state after requests, each with what the outside answered to it, the latest first.
unfoldable pub serve_all : List (Outside × Request) → State → State
serve_all [] s = s
serve_all ((out, req) ∷ served) s = (serve_http out req (serve_all served s)).state

after_calls-append :
    (xs ys : List (Time × String)) (g : ReplayGuard)
    → after_calls (xs ++ ys) g ≡ after_calls xs (after_calls ys g)
unfolding after_calls
after_calls-append [] ys g = refl
after_calls-append ((now, id) ∷ xs) ys g = ap (λ h. (seen id h now).1) (after_calls-append xs ys g)

module _ (P : Time → Type 0) where
  -- The calls of `Seen` that lead from one guard to another.
  record Calls (g g' : ReplayGuard) (n : ℕ) : Type 0 where
    calls : List (Time × String)
    leads : g' ≡ after_calls calls g
    few : length calls ≤ n
    times : All (λ c. P c.0) calls

  serve_http-Calls :
      (out : Outside) (req : Request) (s : State)
      → P out.guard_now
      → Calls s.guard (serve_http out req s).state.guard 1
  unfolding after_calls
  serve_http-Calls out req s h = elim (serve_http-IsAuthentic out req s) [
    | inl (same, refused) ↦ record {
      calls = [];
      leads = ap (λ t. t.guard) same;
      few = omega arith;
      times = tt;
    }
    | inr a ↦ record {
      calls = (out.guard_now, req.id) ∷ [];
      leads = (serve_http-effect out req s a).0;
      few = omega arith;
      times = (h, tt);
    }
  ]

  serve_all-Calls :
      (served : List (Outside × Request)) (s : State)
      → All (λ r. P r.0.guard_now) served
      → Calls s.guard (serve_all served s).guard (length served)
  unfolding serve_all after_calls
  serve_all-Calls [] s h = record { calls = []; leads = refl; few = omega arith; times = tt }
  serve_all-Calls ((out, req) ∷ served) s h =
      let before = serve_all-Calls served s h.1 in
      let this = serve_http-Calls out req (serve_all served s) h.0 in
      record {
        calls = this.calls ++ before.calls;
        leads =
            this.leads
            ∙ ap (after_calls this.calls) before.leads
            ∙ sym (after_calls-append this.calls before.calls s.guard);
        few = omega (arith, length-append this.calls before.calls, this.few, before.few);
        times = All-append (λ c. P c.0) this.calls before.calls this.times before.times;
      }

-- A request whose delivery the guard reports leaves the feed alone.
serve_http-replayed :
    (out : Outside) (req : Request) (s : State)
    → (seen req.id s.guard out.guard_now).0 ≡ true
    → (serve_http out req s).state.feed ≡ s.feed
serve_http-replayed out req s old = elim (serve_http-IsAuthentic out req s) [
  | inl (same, refused) ↦ ap (λ t. t.feed) same
  | inr a ↦
      (serve_http-effect out req s a).1
      ∙ ap (λ b. fed s.feed b (dispatch out req.event a.body s.feed)) old
]

always : (served : List (Outside × Request)) → All (λ r. Unit {0}) served
always [] = tt
always (r ∷ served) = (tt, always served)

-- Once an authentic delivery was taken, the same request changes the feed no more, whatever was served
-- before and in between: while the lifetime of its record runs, and as long as fewer requests than the
-- size of the guard came in between.
pub serve_http_once :
    (size : ℤ) (ttl : Duration) (feed : Feed) (earlier served : List (Outside × Request))
    (out out' : Outside) (req : Request)
    → let before = serve_all earlier (record { guard = new_replay_guard size ttl; feed = feed }) in
      let between = serve_all served (serve_http out req before).state in
      IsAuthentic out req
      → (seen req.id before.guard out.guard_now).0 ≡ false
      → pos (suc (length served)) ≤ℤ size
      → All (λ r. time_sub r.0.guard_now out.guard_now ≤ℤ ttl) served
      → time_sub out'.guard_now out.guard_now ≤ℤ ttl
      → (serve_http out' req between).state.feed ≡ between.feed
serve_http_once size ttl feed earlier served out out' req a new room alive alive' =
    let start : State = record { guard = new_replay_guard size ttl; feed = feed } in
    let before = serve_all earlier start in
    let first = (serve_http out req before).state in
    let past = serve_all-Calls (λ t. Unit {0}) earlier start (always earlier) in
    let since = serve_all-Calls (λ t. time_sub t out.guard_now ≤ℤ ttl) served first alive in
    let replayed =
      seen-replay size ttl past.calls since.calls req.id out.guard_now out'.guard_now
        (subst (λ g. (seen req.id g out.guard_now).0 ≡ false) past.leads new)
        (ground (arith, room, since.few)) since.times alive' in
    let taken = (serve_http-effect out req before a).0 in
    let guard =
      since.leads
      ∙ ap (after_calls since.calls)
          (taken ∙ ap (λ g. (seen req.id g out.guard_now).1) past.leads) in
    serve_http-replayed out' req (serve_all served first)
      (ap (λ g. (seen req.id g out'.guard_now).0) guard ∙ replayed)
