-- ===== src/RateLimit.antt =====
-- internal/ghapi/ratelimit.go: the gauges of GitHub's rate limit, by source. A gauge holds the integer that
-- was parsed, before its conversion to a float64.
use warmrunners.Base.{
  String, Option, none, some, GoMap, lookup, insert, lookup-insert, ℤ, ◌≡◌, arith, if◌then◌else◌,
  ◌==◌,
}
use warmrunners.Scheduler.Sscanf.{parse_int}
use warmrunners.Demand.Retry.{trim_space}

abbrev pub source_demand : String
source_demand = "demand"

abbrev pub source_workflow : String
source_workflow = "workflow"

-- `rateLimitRemaining` and `rateLimitResetSeconds`
pub record RateLimitGauges : Type 0 where
  pub remaining : GoMap ℤ
  pub reset_seconds : GoMap ℤ

-- The integer of a header; one that is missing or cannot be parsed has none.
unfoldable pub header_int : String → Option ℤ
header_int header = let v = trim_space header in if v == "" then none else parse_int v

unfoldable pub set_gauge : String → Option ℤ → GoMap ℤ → GoMap ℤ
set_gauge source none gauge = gauge
set_gauge source (some n) gauge = insert source n gauge

-- The headers are X-RateLimit-Remaining and X-RateLimit-Reset, "" where one is missing.
unfoldable pub record_rate_limit : String → String → String → RateLimitGauges → RateLimitGauges
unfolding header_int set_gauge
record_rate_limit source remaining reset g = record {
  remaining = set_gauge source (header_int remaining) g.remaining;
  reset_seconds = set_gauge source (header_int reset) g.reset_seconds;
}

-- What was read, or else what was there.
abbrev pub latest : Option ℤ → Option ℤ → Option ℤ
latest none old = old
latest (some n) old = some n

lookup-set_gauge :
    (source other : String) (n : Option ℤ) (gauge : GoMap ℤ)
    → lookup other (set_gauge source n gauge)
      ≡ (if source == other then latest n (lookup other gauge) else lookup other gauge)
unfolding set_gauge
lookup-set_gauge source other none gauge = ground arith
lookup-set_gauge source other (some n) gauge = lookup-insert source other n gauge

-- The gauges of the source have the integers of the headers, or what they had where a header is missing or
-- cannot be parsed; those of every other source are as they were.
pub record_rate_limit-latest :
    (source other remaining reset : String) (g : RateLimitGauges)
    → let after = record_rate_limit source remaining reset g in
      (lookup other after.remaining ≡ (
        if source == other
        then latest (header_int remaining) (lookup other g.remaining)
        else lookup other g.remaining))
      × (lookup other after.reset_seconds ≡ (
          if source == other
          then latest (header_int reset) (lookup other g.reset_seconds)
          else lookup other g.reset_seconds))
unfolding record_rate_limit
record_rate_limit-latest source other remaining reset g = (
  lookup-set_gauge source other (header_int remaining) g.remaining,
  lookup-set_gauge source other (header_int reset) g.reset_seconds,
)
