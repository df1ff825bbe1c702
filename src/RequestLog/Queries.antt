-- ===== src/RequestLog/Queries.antt =====
-- crates/himadri-admin/src/request_log.rs, `list` and `delete`: which entries a query is about.
use himadri.Common.{
  ℕ, zero, suc, ◌+◌, ◌*◌, ◌-◌, ◌≤◌, ◌≡◌, inl, inr, refl, ap, sym, ◌∙◌, List, [], ◌∷◌, ◌++◌, Option,
  none, some, arith, Bool-cases, length,
}
use himadri.RequestLog.{
  RequestLogEntry, RequestLogQuery, MaintenanceQuery, RequestLogStore, listed, filter, skip, take,
  list_logs, too_new, retained, delete_logs,
}

-- The pages of a size one after another.
unfoldable pub pages : (count size : ℕ) → RequestLogQuery → RequestLogStore → List RequestLogEntry
pages zero size q s = []
pages (suc n) size q s =
    pages n size q s ++ (list_logs (record q { limit = some size; offset = some (n * size) }) s).0

take_none : (n : ℕ) → take n [] ≡ []
unfolding take
take_none zero = refl
take_none (suc n) = refl

take-skip-append :
    (m n : ℕ) (es : List RequestLogEntry) → take m es ++ take n (skip m es) ≡ take (m + n) es
unfolding take skip
take-skip-append zero n es = let e : n ≡ 0 + n = omega arith in ap (λ k. take k es) e
take-skip-append (suc m) n [] = take_none n ∙ sym (take_none (suc m + n))
take-skip-append (suc m) n (e ∷ es) =
    let p : suc (m + n) ≡ suc m + n = omega arith in
    ap (λ l. e ∷ l) (take-skip-append m n es) ∙ ap (λ k. take k (e ∷ es)) p

take_all : (n : ℕ) (es : List RequestLogEntry) → length es ≤ n → take n es ≡ es
unfolding take
take_all zero [] h = refl
take_all (suc n) [] h = refl
take_all zero (e ∷ es) h = absurd (omega arith)
take_all (suc n) (e ∷ es) h = ap (λ l. e ∷ l) (take_all n es (omega arith))

pages-take :
    (n size : ℕ) (q : RequestLogQuery) (s : RequestLogStore)
    → pages n size q s ≡ take (n * size) (filter (listed q) s.entries)
unfolding pages take list_logs listed
pages-take zero size q s =
    let p : 0 ≡ 0 * size = omega arith in ap (λ k. take k (filter (listed q) s.entries)) p
pages-take (suc n) size q s =
    let found = filter (listed q) s.entries in
    let p : n * size + size ≡ suc n * size = omega arith in
    ap (λ l. l ++ take size (skip (n * size) found)) (pages-take n size q s)
    ∙ take-skip-append (n * size) size found
    ∙ ap (λ k. take k found) p

-- The pages of a size one after another, up to the total that each of them reports, are the entries that
-- the query is about, each once and in the order of the log.
pub pages-filter :
    (n size : ℕ) (q : RequestLogQuery) (s : RequestLogStore)
    → (list_logs q s).1 ≤ n * size
    → pages n size q s ≡ filter (listed q) s.entries
unfolding list_logs
pages-filter n size q s h = pages-take n size q s ∙ take_all (n * size) _ h

-- A query that names a time alone, and neither a stage nor a model nor a provider.
abbrev pub only_before : Option ℕ → MaintenanceQuery
only_before before = record { before = before; stage = none; model = none; provider = none }

only_before-filter :
    (before : Option ℕ) (es : List RequestLogEntry) → filter (retained (only_before before)) es ≡ es
unfolding filter retained
only_before-filter before [] = refl
only_before-filter before (e ∷ es) = elim (Bool-cases (too_new before e.created_at)) [
  | inl b ↦ rw b (ap (λ l. e ∷ l) (only_before-filter before es))
  | inr b ↦ rw b (ap (λ l. e ∷ l) (only_before-filter before es))
]

-- A deletion by a query that names a time alone, or nothing at all, deletes nothing, whatever the log
-- holds.
pub delete_logs-only_before :
    (before : Option ℕ) (s : RequestLogStore) → delete_logs (only_before before) s ≡ (s, 0)
unfolding delete_logs
delete_logs-only_before before s =
    let same = only_before-filter before s.entries in
    let zero_left : length s.entries - length s.entries ≡ 0 = omega arith in
    rw (same, zero_left) refl
