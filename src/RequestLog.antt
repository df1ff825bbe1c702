-- ===== src/RequestLog.antt =====
-- crates/himadri-admin/src/request_log.rs, `InMemoryRequestLogStore`: a bounded log of the requests.
-- Times are numbers.
pub mod Ring
pub mod Queries
use text.Mathlib.Text.{◌==◌}
use himadri.Common.{
  ℕ, zero, suc, ◌-◌, String, Bool, true, false, not, ◌&&◌, List, [], ◌∷◌, ◌++◌, Option, none, some,
  if◌then◌else◌, ltb, leb, length, unwrap_or,
}

pub record RequestLogEntry : Type 0 where
  pub trace_id : String
  pub stage : String
  pub model : String
  pub provider : String
  pub prompt_tokens : ℕ
  pub completion_tokens : ℕ
  pub total_tokens : ℕ
  pub error_message : Option String
  pub created_at : ℕ

pub record RequestLogQuery : Type 0 where
  pub limit : Option ℕ
  pub offset : Option ℕ
  pub stage : Option String
  pub model : Option String
  pub provider : Option String
  pub since : Option ℕ

pub record MaintenanceQuery : Type 0 where
  pub before : Option ℕ
  pub stage : Option String
  pub model : Option String
  pub provider : Option String

pub record RequestLogStore : Type 0 where
  pub entries : List RequestLogEntry
  pub max_entries : ℕ

abbrev pub new_log : ℕ → RequestLogStore
new_log max_entries = record { entries = []; max_entries = max_entries }

-- `pop_front` while there are too many.
unfoldable pub pop_front : ℕ → List RequestLogEntry → List RequestLogEntry
pop_front max_entries [] = []
pop_front max_entries (e ∷ es) =
    let rest = pop_front max_entries es in
    if ltb max_entries (suc (length es)) then rest else e ∷ es

unfoldable pub write : RequestLogEntry → RequestLogStore → RequestLogStore
unfolding pop_front
write entry s = record s { entries = pop_front s.max_entries (s.entries ++ (entry ∷ [])) }

-- The filter is not given, or the field is its text.
abbrev pub agrees : Option String → String → Bool
agrees none field = true
agrees (some wanted) field = field == wanted

abbrev pub recent : Option ℕ → ℕ → Bool
recent none created_at = true
recent (some since) created_at = not (ltb created_at since)

-- The closure of `filter` in `list`.
unfoldable pub listed : RequestLogQuery → RequestLogEntry → Bool
listed q e =
    if not (agrees q.stage e.stage)
    then false
    else if not (agrees q.model e.model)
    then false
    else if not (agrees q.provider e.provider)
    then false
    else recent q.since e.created_at

abbrev pub keep_if : Bool → RequestLogEntry → List RequestLogEntry → List RequestLogEntry
keep_if true e es = e ∷ es
keep_if false e es = es

unfoldable pub filter : (RequestLogEntry → Bool) → List RequestLogEntry → List RequestLogEntry
filter f [] = []
filter f (e ∷ es) = keep_if (f e) e (filter f es)

unfoldable pub skip : ℕ → List RequestLogEntry → List RequestLogEntry
skip zero es = es
skip (suc n) [] = []
skip (suc n) (e ∷ es) = skip n es

unfoldable pub take : ℕ → List RequestLogEntry → List RequestLogEntry
take zero es = []
take (suc n) [] = []
take (suc n) (e ∷ es) = e ∷ take n es

-- A page of the entries that are listed, and the number of all that are.
unfoldable pub list_logs : RequestLogQuery → RequestLogStore → List RequestLogEntry × ℕ
unfolding listed filter skip take
list_logs q s =
    let filtered = filter (listed q) s.entries in
    (take (unwrap_or q.limit 100) (skip (unwrap_or q.offset 0) filtered), length filtered)

-- The filter is given, and the field is its text.
abbrev pub names : Option String → String → Bool
names none field = false
names (some wanted) field = field == wanted

abbrev pub too_new : Option ℕ → ℕ → Bool
too_new none created_at = false
too_new (some before) created_at = leb before created_at

-- The closure of `retain` in `delete`.
unfoldable pub retained : MaintenanceQuery → RequestLogEntry → Bool
retained q e =
    if too_new q.before e.created_at
    then true
    else if names q.stage e.stage
    then false
    else if names q.model e.model
    then false
    else if names q.provider e.provider
    then false
    else true

unfoldable pub delete_logs : MaintenanceQuery → RequestLogStore → RequestLogStore × ℕ
unfolding retained filter
delete_logs q s =
    let kept = filter (retained q) s.entries in
    (record s { entries = kept }, length s.entries - length kept)
