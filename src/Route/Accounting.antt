-- ===== src/Route/Accounting.antt =====
-- crates/himadri/src/gateway/stream.rs: what a stream is accounted as.
use himadri.Common.{
  ℕ, ◌≡◌, refl, ap, ◌∙◌, String, Bool, true, false, not, ◌&&◌, List, [], ◌∷◌, ◌++◌, some,
}
use mathlib.Core.List.{append_assoc, append-nil}
use himadri.Errors.{ProviderError}
use himadri.Route.Streaming.{
  AccountOutcome, StreamUsageRecorder, GuardrailStream, Poll, chunk, failed, ended, pending, Effect,
  accounted, reviewed, latest, observe_chunk, observe_error, outcome, finish_if, finish, is_empty,
  review_if, review, poll_next, life,
}

-- The accounts among the effects.
abbrev pub accounts : List Effect → List AccountOutcome
accounts [] = []
accounts (accounted o ∷ es) = o ∷ accounts es
accounts (reviewed text ∷ es) = accounts es

accounts-append : (a b : List Effect) → accounts (a ++ b) ≡ accounts a ++ accounts b
accounts-append [] b = refl
accounts-append (accounted o ∷ a) b = ap (λ l. o ∷ l) (accounts-append a b)
accounts-append (reviewed text ∷ a) b = accounts-append a b

module _ (display : ProviderError → String) where
  -- What a stream amounts to: the last usage and the last error before its end, and the time of the end;
  -- a stream that does not end amounts to what it has come to when it is dropped.
  abbrev pub summary : List (ℕ × Poll) → (elapsed : ℕ) → StreamUsageRecorder → AccountOutcome
  summary [] elapsed r = outcome elapsed r
  summary ((t, chunk c) ∷ polls) elapsed r =
      summary polls elapsed (record r { usage = latest c.usage r.usage })
  summary ((t, failed e) ∷ polls) elapsed r =
      summary polls elapsed (record r { error = some (display e) })
  summary ((t, ended) ∷ polls) elapsed r = outcome t r
  summary ((t, pending) ∷ polls) elapsed r = summary polls elapsed r

  -- Once the end is recorded, what is left of a stream makes no account.
  review_if-life :
      (polls : List (ℕ × Poll)) (elapsed : ℕ)
      → ((s : GuardrailStream)
          → s.recorder.recorded ≡ true
          → accounts (life display polls elapsed s) ≡ [])
      → (b : Bool) (s : GuardrailStream) → s.recorder.recorded ≡ true
      → accounts ((review_if b s).1 ++ life display polls elapsed (review_if b s).0) ≡ []
  review_if-life polls elapsed rest true s h = rest _ h
  review_if-life polls elapsed rest false s h = rest s h

  finish_if-recorded :
      (t : ℕ) (b : Bool) (r : StreamUsageRecorder)
      → r.recorded ≡ b
      → (finish_if b t r).0.recorded ≡ true
  finish_if-recorded t true r h = h
  finish_if-recorded t false r h = refl

  poll_next-ended :
      (polls : List (ℕ × Poll)) (elapsed t : ℕ)
      → ((s : GuardrailStream)
          → s.recorder.recorded ≡ true
          → accounts (life display polls elapsed s) ≡ [])
      → (s : GuardrailStream)
      → accounts (life display ((t, ended) ∷ polls) elapsed s) ≡ accounts (finish t s.recorder).1
  unfolding life poll_next finish review
  poll_next-ended polls elapsed t rest s =
      let finished = finish t s.recorder in
      let at_end : GuardrailStream = record s { recorder = finished.0 } in
      let reviewing = review at_end in
      let after = reviewing.1 ++ life display polls elapsed reviewing.0 in
      ap accounts (append_assoc finished.1 reviewing.1 (life display polls elapsed reviewing.0))
      ∙ accounts-append finished.1 after
      ∙ ap (λ l. accounts finished.1 ++ l)
          (review_if-life polls elapsed rest (not (is_empty s.buffer) && not s.guardrails_ran)
            at_end (finish_if-recorded t s.recorder.recorded s.recorder refl))
      ∙ append-nil (accounts finished.1)

  life-recorded :
      (polls : List (ℕ × Poll)) (elapsed : ℕ) (s : GuardrailStream)
      → s.recorder.recorded ≡ true
      → accounts (life display polls elapsed s) ≡ []
  unfolding life poll_next finish observe_chunk observe_error review
  life-recorded [] elapsed s h = rw h refl
  life-recorded ((t, chunk c) ∷ polls) elapsed s h = life-recorded polls elapsed _ h
  life-recorded ((t, failed e) ∷ polls) elapsed s h = life-recorded polls elapsed _ h
  life-recorded ((t, ended) ∷ polls) elapsed s h =
      poll_next-ended polls elapsed t (life-recorded polls elapsed) s ∙ rw h refl
  life-recorded ((t, pending) ∷ polls) elapsed s h = life-recorded polls elapsed s h

  -- However a stream is polled before it is dropped, also after its end, it is accounted exactly once,
  -- with the last usage and the last error before its end, or before the drop if it did not end.
  pub life-accounts :
      (polls : List (ℕ × Poll)) (elapsed : ℕ) (s : GuardrailStream)
      → s.recorder.recorded ≡ false
      → accounts (life display polls elapsed s) ≡ summary polls elapsed s.recorder ∷ []
  unfolding life poll_next finish observe_chunk observe_error review
  life-accounts [] elapsed s h = rw h refl
  life-accounts ((t, chunk c) ∷ polls) elapsed s h = life-accounts polls elapsed _ h
  life-accounts ((t, failed e) ∷ polls) elapsed s h = life-accounts polls elapsed _ h
  life-accounts ((t, ended) ∷ polls) elapsed s h =
      poll_next-ended polls elapsed t (life-recorded polls elapsed) s ∙ rw h refl
  life-accounts ((t, pending) ∷ polls) elapsed s h = life-accounts polls elapsed s h
