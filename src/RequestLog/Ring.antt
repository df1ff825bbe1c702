-- ===== src/RequestLog/Ring.antt =====
-- crates/himadri-admin/src/request_log.rs, `write`: what the log keeps.
use himadri.Common.{
  ℕ, suc, ◌≡◌, refl, ap, sym, ◌∙◌, List, [], ◌∷◌, ◌++◌, arith, Bool-cases, inl, inr, ltb, length,
  length-append, min,
}
use mathlib.Core.Path.{subst}
use mathlib.Core.List.{append_assoc, append-nil}
use himadri.RequestLog.{RequestLogEntry, RequestLogStore, new_log, pop_front, write}

-- The last entries of a list, as many as may be kept.
unfoldable pub IsNewest : ℕ → List RequestLogEntry → List RequestLogEntry → Type 0
IsNewest max_entries kept written =
    (older : List RequestLogEntry) × (written ≡ older ++ kept)
    × (length kept ≡ min max_entries (length written))

pop_front-IsNewest : (n : ℕ) (es : List RequestLogEntry) → IsNewest n (pop_front n es) es
unfolding pop_front IsNewest
pop_front-IsNewest n [] = ([], refl, omega arith)
pop_front-IsNewest n (e ∷ es) = elim (Bool-cases (ltb n (suc (length es)))) [
  | inl b ↦
      let (older, same, size) = pop_front-IsNewest n es in
      rw b (e ∷ older, ap (λ l. e ∷ l) same, ground arith)
  | inr b ↦ rw b ([], refl, ground arith)
]

unfoldable pub write_all : List RequestLogEntry → RequestLogStore → RequestLogStore
write_all [] s = s
write_all (e ∷ es) s = write_all es (write e s)

write-IsNewest :
    (n : ℕ) (kept written : List RequestLogEntry) (e : RequestLogEntry)
    → IsNewest n kept written
    → IsNewest n (pop_front n (kept ++ (e ∷ []))) (written ++ (e ∷ []))
unfolding IsNewest
write-IsNewest n kept written e (older, same, size) =
    let (dropped, split, count) = pop_front-IsNewest n (kept ++ (e ∷ [])) in
    (
      older ++ dropped,
      ap (λ l. l ++ (e ∷ [])) same
          ∙ append_assoc older kept (e ∷ [])
          ∙ ap (λ l. older ++ l) split
          ∙ sym (append_assoc older dropped _),
      omega (arith, count, size, length-append kept (e ∷ []), length-append written (e ∷ [])),
    )

write_all-IsNewest :
    (es written : List RequestLogEntry) (s : RequestLogStore)
    → IsNewest s.max_entries s.entries written
    → IsNewest s.max_entries (write_all es s).entries (written ++ es)
unfolding write_all write
write_all-IsNewest [] written s h =
    subst (IsNewest s.max_entries s.entries) (sym (append-nil written)) h
write_all-IsNewest (e ∷ es) written s h =
    subst (IsNewest s.max_entries (write_all es (write e s)).entries)
      (append_assoc written (e ∷ []) es)
      (write_all-IsNewest es (written ++ (e ∷ [])) (write e s)
        (write-IsNewest s.max_entries s.entries written e h))

new_log-IsNewest : (max_entries : ℕ) → IsNewest max_entries [] []
unfolding IsNewest
new_log-IsNewest max_entries = ([], refl, omega arith)

-- After any number of writes a new log holds the last of the entries written, in their order: all of
-- them while they are no more than `max_entries`, and otherwise that many.
pub write_all-new_log :
    (es : List RequestLogEntry) (max_entries : ℕ)
    → IsNewest max_entries (write_all es (new_log max_entries)).entries es
write_all-new_log es max_entries =
    write_all-IsNewest es [] (new_log max_entries) (new_log-IsNewest max_entries)
