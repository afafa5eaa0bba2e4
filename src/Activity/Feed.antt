-- ===== src/Activity/Feed.antt =====
-- The in-memory event feed: internal/activity/event_feed.go. The clock reading that a method makes is
-- its last argument; a lock makes each method one step.
pub mod History
use warmrunners.Base.{
  String, Bool, true, false, Option, none, some, List, [], ◌∷◌, ℤ, pos, ◌+ℤ◌, to_i64, GoMap, lookup,
  insert, if◌then◌else◌, ◌==◌,
}
use warmrunners.Clock.{Time, zero_time}
use warmrunners.Labels.{label_set_key}

pub record RepoState : Type 0 where
  pub per_label_set : GoMap ℤ
  pub last_event : Time
  pub last_head_sha : String

-- `inMemoryFeed.repos`
abbrev pub Feed : Type 0
Feed = GoMap RepoState

-- `NewInMemoryEventFeed`
abbrev pub empty_feed : Feed
empty_feed = []

abbrev pub empty_repo : RepoState
empty_repo = record { per_label_set = []; last_event = zero_time; last_head_sha = "" }

-- `getOrCreate`, as the state that it returns; the callers below write the state back.
unfoldable pub get_or_create : String → Feed → RepoState
get_or_create repo feed = elim (lookup repo feed) [ none ↦ empty_repo | some rs ↦ rs ]

-- `m[key]`, which is 0 at a missing key
unfoldable pub count_at : String → GoMap ℤ → ℤ
count_at key m = elim (lookup key m) [ none ↦ pos 0 | some v ↦ v ]

unfoldable pub record_push : String → String → Feed → Time → Feed
record_push repo head_sha feed now =
    if repo == ""
    then feed
    else insert repo
        (record (get_or_create repo feed) { last_event = now; last_head_sha = head_sha }) feed

-- A nil list of labels is `none`.
unfoldable pub record_job : String → Option (List String) → Feed → Time → Feed
record_job repo none feed now = feed
record_job repo (some labels) feed now =
    let key = label_set_key labels in
    let rs = get_or_create repo feed in
    if repo == ""
    then feed
    else insert repo
        (record rs {
          per_label_set =
              insert key (to_i64 (count_at key rs.per_label_set +ℤ pos 1)) rs.per_label_set;
          last_event = now;
        })
        feed

unfoldable pub snapshot : Feed → String → GoMap ℤ × Time
snapshot feed repo = elim (lookup repo feed) [
  | none ↦ ([], zero_time)
  | some rs ↦ (rs.per_label_set, rs.last_event)
]
