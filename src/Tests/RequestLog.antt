-- ===== src/Tests/RequestLog.antt =====
-- crates/himadri-admin/src/request_log.rs on three entries.
use himadri.Common.{◌≡◌, ◌≤◌, ◌*◌, ℕ, String, refl, [], ◌∷◌, List, none, some, arith}
use himadri.RequestLog.{
  RequestLogEntry, RequestLogQuery, RequestLogStore, new_log, write, list_logs, listed, filter,
  delete_logs,
}
use himadri.RequestLog.Ring.{IsNewest, write_all, write_all-new_log}
use himadri.RequestLog.Queries.{pages, pages-filter, only_before, delete_logs-only_before}

abbrev entry : String → String → ℕ → RequestLogEntry
entry id model at = record {
  trace_id = id;
  stage = "after";
  model = model;
  provider = "openai";
  prompt_tokens = 1;
  completion_tokens = 2;
  total_tokens = 3;
  error_message = none;
  created_at = at;
}

abbrev entries : List RequestLogEntry
entries = entry "a" "gpt-4" 1 ∷ entry "b" "claude" 2 ∷ entry "c" "gpt-4" 3 ∷ []

abbrev log : RequestLogStore
log = record { entries = entries; max_entries = 10 }

abbrev by_model : RequestLogQuery
by_model = record {
  limit = none;
  offset = none;
  stage = none;
  model = some "gpt-4";
  provider = none;
  since = none;
}

oldest_first :
    (write_all entries (new_log 2)).entries ≡ entry "b" "claude" 2 ∷ entry "c" "gpt-4" 3 ∷ []
unfolding write_all write
oldest_first = refl

-- A provider that does not agree saves no entry whose model does.
deletes_either :
    (delete_logs
      (record { before = none; stage = none; model = some "gpt-4"; provider = some "anthropic" })
      log).1
    ≡ 2
unfolding delete_logs
deletes_either = refl

write_all-new_log_example : IsNewest 2 (write_all entries (new_log 2)).entries entries
write_all-new_log_example = write_all-new_log entries 2

total-le : (list_logs by_model log).1 ≤ 2 * 1
unfolding list_logs
total-le = omega arith

pages-filter_example : pages 2 1 by_model log ≡ filter (listed by_model) log.entries
pages-filter_example = pages-filter 2 1 by_model log total-le

delete_logs-only_before_example : delete_logs (only_before (some 9)) log ≡ (log, 0)
delete_logs-only_before_example = delete_logs-only_before (some 9) log
