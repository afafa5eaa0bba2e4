-- ===== src/Activity/Feed/History.antt =====
-- The feed against the history of its events.
use warmrunners.Base.{
  ℕ, ◌+◌, ◌<◌, ◌≤◌, suc, String, ◌≡◌, refl, Bool, false, not, ◌&&◌, Option, none, some, List, [],
  ◌∷◌, arith, ℤ, pos, ◌+ℤ◌, +ℤ-pos, to_i64, to_i64_pos, GoMap, lookup, insert, lookup-insert,
  if◌then◌else◌, ◌==◌, eq_iff, length,
}
use warmrunners.Clock.{Time, zero_time}
use warmrunners.Labels.{label_set_key}
use warmrunners.Activity.Feed.{
  Feed, RepoState, empty_feed, get_or_create, count_at, record_push, record_job, snapshot,
}

pub data Event : Type 0 where
  push : String → String → Event
  job : String → Option (List String) → Event

unfoldable pub record_event : Event → Feed → Time → Feed
record_event (push repo sha) feed now = record_push repo sha feed now
record_event (job repo labels) feed now = record_job repo labels feed now

-- The feed after events, the latest first.
unfoldable pub replay : List (Time × Event) → Feed
replay [] = empty_feed
replay ((now, e) ∷ events) = record_event e (replay events) now

-- The event is a job of the repository with this label-set key.
unfoldable pub is_job : String → String → Event → Bool
is_job repo key (push r sha) = false
is_job repo key (job r none) = false
is_job repo key (job r (some labels)) = not (r == "") && r == repo && label_set_key labels == key

-- The event counts as activity of the repository.
unfoldable pub is_activity : String → Event → Bool
is_activity repo (push r sha) = not (r == "") && r == repo
is_activity repo (job r none) = false
is_activity repo (job r (some labels)) = not (r == "") && r == repo

unfoldable pub jobs_of : String → String → List (Time × Event) → ℕ
jobs_of repo key [] = 0
jobs_of repo key ((now, e) ∷ events) =
    (if is_job repo key e then 1 else 0) + jobs_of repo key events

unfoldable pub last_activity : String → List (Time × Event) → Time
last_activity repo [] = zero_time
last_activity repo ((now, e) ∷ events) =
    if is_activity repo e then now else last_activity repo events

count_at-insert :
    (k j : String) (v : ℤ) (m : GoMap ℤ)
    → count_at j (insert k v m) ≡ (if k == j then v else count_at j m)
unfolding count_at
count_at-insert k j v m = ground (arith, lookup-insert k j v m)

module _ (repo : String) (feed : Feed) where
  -- The state that an event of the repository starts from is what its snapshot shows.
  counts-get_or_create : (get_or_create repo feed).per_label_set ≡ (snapshot feed repo).0
  unfolding snapshot get_or_create
  counts-get_or_create = ground arith

  counts-insert :
      (r : String) (rs : RepoState)
      → (snapshot (insert r rs feed) repo).0
        ≡ (if r == repo then rs.per_label_set else (snapshot feed repo).0)
  unfolding snapshot
  counts-insert r rs = ground (arith, lookup-insert r repo rs feed)

  time-insert :
      (r : String) (rs : RepoState)
      → (snapshot (insert r rs feed) repo).1
        ≡ (if r == repo then rs.last_event else (snapshot feed repo).1)
  unfolding snapshot
  time-insert r rs = ground (arith, lookup-insert r repo rs feed)

-- The counts and the time that a snapshot shows after one more event.
count-step :
    (feed : Feed) (now : Time) (e : Event) (repo key : String) (n : ℕ)
    → suc n < 9223372036854775808
    → count_at key (snapshot feed repo).0 ≡ pos n
    → count_at key (snapshot (record_event e feed now) repo).0
      ≡ pos ((if is_job repo key e then 1 else 0) + n)
unfolding record_event record_push record_job is_job
count-step feed now (push r sha) repo key n small h =
    let rs = record (get_or_create r feed) { last_event = now; last_head_sha = sha } in
    ground (arith, eq_iff r repo, counts-insert repo feed r rs, counts-get_or_create r feed)
count-step feed now (job r none) repo key n small h = ground arith
count-step feed now (job r (some labels)) repo key n small h =
    let rs = get_or_create r feed in
    let k = label_set_key labels in
    let m = insert k (to_i64 (count_at k rs.per_label_set +ℤ pos 1)) rs.per_label_set in
    ground (
      arith,
      eq_iff r repo,
      eq_iff k key,
      counts-insert repo feed r (record rs { per_label_set = m; last_event = now }),
      counts-get_or_create r feed,
      count_at-insert k key (to_i64 (count_at k rs.per_label_set +ℤ pos 1)) rs.per_label_set,
      +ℤ-pos n 1,
      to_i64_pos (n + 1),
    )

time-step :
    (feed : Feed) (now : Time) (e : Event) (repo : String)
    → (snapshot (record_event e feed now) repo).1
      ≡ (if is_activity repo e then now else (snapshot feed repo).1)
unfolding record_event record_push record_job is_activity
time-step feed now (push r sha) repo =
    let rs = record (get_or_create r feed) { last_event = now; last_head_sha = sha } in
    ground (arith, time-insert repo feed r rs)
time-step feed now (job r none) repo = ground arith
time-step feed now (job r (some labels)) repo =
    let rs = get_or_create r feed in
    let k = label_set_key labels in
    let m = insert k (to_i64 (count_at k rs.per_label_set +ℤ pos 1)) rs.per_label_set in
    ground (arith, time-insert repo feed r (record rs { per_label_set = m; last_event = now }))

jobs_of-le :
    (repo key : String) (events : List (Time × Event)) → jobs_of repo key events ≤ length events
unfolding jobs_of
jobs_of-le repo key [] = omega arith
jobs_of-le repo key ((now, e) ∷ events) = ground (arith, jobs_of-le repo key events)

count-replay :
    (repo key : String) (events : List (Time × Event))
    → length events < 9223372036854775808
    → count_at key (snapshot (replay events) repo).0 ≡ pos (jobs_of repo key events)
unfolding replay jobs_of snapshot count_at lookup
count-replay repo key [] small = refl
count-replay repo key ((now, e) ∷ events) small =
    count-step (replay events) now e repo key (jobs_of repo key events)
      (omega (arith, jobs_of-le repo key events)) (count-replay repo key events (omega arith))

time-replay :
    (repo : String) (events : List (Time × Event))
    → (snapshot (replay events) repo).1 ≡ last_activity repo events
unfolding replay last_activity snapshot lookup
time-replay repo [] = refl
time-replay repo ((now, e) ∷ events) =
    ground (arith, time-step (replay events) now e repo, time-replay repo events)

-- After any sequence of fewer than 2 ^ 63 pushes and jobs, the snapshot of a repository counts under
-- each label-set key exactly the repository's jobs with those labels, and gives the time of its latest
-- push or job; a job whose labels are nil is neither.
pub snapshot-replay :
    (repo key : String) (events : List (Time × Event))
    → length events < 9223372036854775808
    → (count_at key (snapshot (replay events) repo).0 ≡ pos (jobs_of repo key events))
      × ((snapshot (replay events) repo).1 ≡ last_activity repo events)
snapshot-replay repo key events small =
    (count-replay repo key events small, time-replay repo events)
