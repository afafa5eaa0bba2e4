-- ===== src/Tunnel/Registry.antt =====
-- `TunnelRegistry` of internal/webhook/tunnel.go. The factory's clients are numbered in the order of their
-- creation, and each has a context of its own; `Start` runs until its context is cancelled, and then for
-- as long as it takes to notice.
use warmrunners.Base.{
  ℕ, suc, String, Bool, true, false, List, [], ◌∷◌, Option, none, some, GoMap, lookup, insert,
  delete, if◌then◌else◌, ◌==◌, nat_eq,
}

-- `tunnelEntry`: the number stands for the client, its context and its channel.
pub record TunnelEntry : Type 0 where
  pub client : ℕ
  pub url : String

-- A call of `Start` that has not returned.
pub record Running : Type 0 where
  pub client : ℕ
  pub name : String
  pub url : String

pub record Registry : Type 0 where
  pub entries : GoMap TunnelEntry
  -- the calls of `Start` whose context is not cancelled, and those whose context is cancelled, but that had
  -- not returned when the registry gave up waiting for them
  pub running : List Running
  pub lingering : List Running
  pub created : ℕ

-- `NewTunnelRegistry`
abbrev pub new_registry : Registry
new_registry = record { entries = []; running = []; lingering = []; created = 0 }

-- The cancelling of a client's context.
unfoldable pub cancel : ℕ → List Running → List Running
cancel client [] = []
cancel client (r ∷ running) =
    let rest = cancel client running in if nat_eq r.client client then rest else r ∷ rest

-- The `select` of `stopLocked`: whether the channel was closed within two seconds. After these the call of
-- `Start` is left to itself.
unfoldable pub linger : Bool → Running → List Running → List Running
linger true r lingering = lingering
linger false r lingering = r ∷ lingering

unfoldable pub stop_locked : Bool → String → Registry → Registry
unfolding cancel linger
stop_locked in_time name r = elim (lookup name r.entries) [
  | none ↦ r
  | some entry ↦ record r {
    entries = delete name r.entries;
    running = cancel entry.client r.running;
    lingering =
        linger in_time (record { client = entry.client; name = name; url = entry.url }) r.lingering;
  }
]

unfoldable pub start_locked : String → String → Registry → ℕ × Registry
start_locked name relay_url r = (
  r.created,
  record {
    entries = insert name (record { client = r.created; url = relay_url }) r.entries;
    running = record { client = r.created; name = name; url = relay_url } ∷ r.running;
    lingering = r.lingering;
    created = suc r.created;
  },
)

-- The client that is returned, and the registry that is left; the test is that of `stopLocked`.
unfoldable pub ensure : Bool → String → String → Registry → ℕ × Registry
unfolding stop_locked start_locked
ensure in_time name relay_url r = elim (lookup name r.entries) [
  | none ↦ start_locked name relay_url r
  | some existing ↦
      if existing.url == relay_url
      then (existing.client, r)
      else start_locked name relay_url (stop_locked in_time name r)
]

unfoldable pub stop : Bool → String → Registry → Registry
unfolding stop_locked
stop in_time name r = stop_locked in_time name r

unfoldable pub get_tunnel : String → Registry → Option ℕ
get_tunnel name r = elim (lookup name r.entries) [ none ↦ none | some entry ↦ some entry.client ]
