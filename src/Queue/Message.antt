-- ===== src/Queue/Message.antt =====
-- internal/queue/message.go: configurations and their defaults, messages, deliveries, counters and
-- errors. An `int` or `int64` of a configuration is a signed integer. Times are milliseconds after
-- 1970, and an attempt count is never negative: both are natural numbers.
pub mod Normal
pub mod Same
use Prim.Native.Char.{code}
use stitch.Prelude.{
  ℕ, Bool, true, false, ◌&&◌, ◌||◌, String, List, [], ◌∷◌, Result, ok, err, ◌>>=◌, leb, ◌==◌,
  str_eq, length, if◌then◌else◌,
}
use stitch.Prelude.Int.{ℤ, pos, ltb_ℤ, eqb_ℤ}
use stitch.Wal.Log.{LogError}

abbrev pub fifo : String
fifo = "fifo"

abbrev pub lifo : String
lifo = "lifo"

-- DefaultVisibilityTimeout in milliseconds
abbrev pub default_visibility_timeout : ℤ
default_visibility_timeout = pos 30000

abbrev pub default_max_attempts : ℤ
default_max_attempts = pos 5

-- DedupTTL in milliseconds
abbrev pub dedup_ttl : ℕ
dedup_ttl = 300000

pub data CfgFault : Type 0 where
  bad_name bad_mode bad_timeout bad_attempts : CfgFault

pub data QueueError : Type 0 where
  queue_exists queue_not_found not_leased bad_lease_token manager_closed : QueueError
  invalid_queue_cfg : CfgFault → QueueError
  append_failed : LogError → QueueError

pub record Config : Type 0 where
  pub name : String
  pub mode : String
  pub priority : Bool
  pub delay : Bool
  pub visibility_timeout_ms : ℤ
  pub max_attempts : ℤ
  pub dlq : Bool

abbrev pub codes : String → List ℕ
codes String.[] = []
codes (String.◌∷◌ c s) = code c ∷ codes s

-- [A-Za-z0-9]
is_alnum : ℕ → Bool
is_alnum c = (leb b'A' c && leb c b'Z') || (leb b'a' c && leb c b'z') || (leb b'0' c && leb c b'9')

all_name_chars : List ℕ → Bool
all_name_chars [] = true
all_name_chars (c ∷ cs) = (is_alnum c || c == b'_' || c == b'-') && all_name_chars cs

-- queueNamePattern
unfoldable pub name_matches : List ℕ → Bool
unfolding is_alnum all_name_chars
name_matches [] = false
name_matches (c ∷ cs) = is_alnum c && all_name_chars cs && leb (length cs) 63

normal_mode : Config → Result QueueError Config
normal_mode c =
    if str_eq c.mode ""
    then ok (record c { mode = fifo })
    else if str_eq c.mode fifo || str_eq c.mode lifo
    then ok c
    else err (invalid_queue_cfg bad_mode)

normal_timeout : Config → Result QueueError Config
normal_timeout c =
    let t =
      if eqb_ℤ c.visibility_timeout_ms (pos 0)
      then default_visibility_timeout
      else c.visibility_timeout_ms in
    if ltb_ℤ t (pos 0)
    then err (invalid_queue_cfg bad_timeout)
    else ok (record c { visibility_timeout_ms = t })

normal_attempts : Config → Result QueueError Config
normal_attempts c =
    let n = if eqb_ℤ c.max_attempts (pos 0) then default_max_attempts else c.max_attempts in
    if ltb_ℤ n (pos 1)
    then err (invalid_queue_cfg bad_attempts)
    else ok (record c { max_attempts = n })

unfoldable pub normalize : Config → Result QueueError Config
unfolding normal_mode normal_timeout normal_attempts
normalize c =
    if name_matches (codes c.name)
    then (do c1 ← normal_mode c; c2 ← normal_timeout c1; normal_attempts c2)
    else err (invalid_queue_cfg bad_name)

pub record Key : Type 0 where
  pub priority : ℤ
  pub seq : ℕ

pub record Message : Type 0 where
  pub id : String
  pub body : List ℕ
  pub priority : ℤ
  pub seq : ℕ
  pub enqueued_at : ℕ
  pub visible_at : ℕ
  pub attempts : ℕ
  pub dedup_key : String
  pub lease_token : String
  pub lease_expires : ℕ

abbrev pub key : Message → Key
key m = record { priority = m.priority; seq = m.seq }

pub record Delivery : Type 0 where
  pub message : Message
  pub lease_token : String
  pub expires_at : ℕ

pub record Counters : Type 0 where
  pub enqueued : ℕ
  pub dequeued : ℕ
  pub acked : ℕ
  pub nacked : ℕ
  pub expired : ℕ
  pub dlq_moved : ℕ
  pub deduped : ℕ

pub record Stats : Type 0 where
  pub name : String
  pub config : Config
  pub depth : ℕ
  pub delayed : ℕ
  pub in_flight : ℕ
  pub dlq : ℕ
  pub total : ℕ
  pub oldest_age_ms : ℤ
  pub counters : Counters
