-- ===== src/Resilience/Window/Refine.antt =====
-- Pruning is never seen: the window answers as the whole history of failures would.
use common_system.Prelude.{
  ℕ, ◌≤◌, ◌≡◌, refl, ◌∙◌, ap, ap₂, Bool, not, List, [], ◌∷◌, ◌++◌, arith, length, keep, keep-append,
}
use common_system.Resilience.Window.{
  FailureWindow, new_window, record_failure, reset, is_nil, is_expired, cleanup_expired_failures,
  get_failure_count, is_empty,
}

-- One call of a window, with the clock reading that it makes.
pub data WindowCall : Type 0 where
  failed : ℕ → WindowCall
  counted : ℕ → WindowCall
  asked_empty : ℕ → WindowCall
  cleared : WindowCall

pub data WindowReply : Type 0 where
  done : WindowReply
  number : ℕ → WindowReply
  flag : Bool → WindowReply

-- No reading is earlier than one before it: what a steady clock promises.
abbrev pub IsSteady : ℕ → List WindowCall → Type 0
IsSteady last [] = Unit
IsSteady last (failed t ∷ calls) = (last ≤ t) × IsSteady t calls
IsSteady last (counted t ∷ calls) = (last ≤ t) × IsSteady t calls
IsSteady last (asked_empty t ∷ calls) = (last ≤ t) × IsSteady t calls
IsSteady last (cleared ∷ calls) = IsSteady last calls

module _ (ticks_per_ms : ℕ) where
  -- The failures of a history that a query at `now` counts.
  abbrev pub live : ℕ → ℕ → List ℕ → List ℕ
  live d now history = keep (λ t. not (is_expired ticks_per_ms d now t)) history

  pub run_window : FailureWindow → List WindowCall → List WindowReply
  run_window w [] = []
  run_window w (failed t ∷ calls) = done ∷ run_window (record_failure t w) calls
  run_window w (counted t ∷ calls) =
      let (n, w') = get_failure_count ticks_per_ms t w in number n ∷ run_window w' calls
  run_window w (asked_empty t ∷ calls) =
      let (b, w') = is_empty ticks_per_ms t w in flag b ∷ run_window w' calls
  run_window w (cleared ∷ calls) = done ∷ run_window (reset w) calls

  -- The specification: it forgets nothing but on `reset`.
  pub run_history : ℕ → List ℕ → List WindowCall → List WindowReply
  run_history d history [] = []
  run_history d history (failed t ∷ calls) = done ∷ run_history d (history ++ t ∷ []) calls
  run_history d history (counted t ∷ calls) =
      number (length (live d t history)) ∷ run_history d history calls
  run_history d history (asked_empty t ∷ calls) =
      flag (is_nil (live d t history)) ∷ run_history d history calls
  run_history d history (cleared ∷ calls) = done ∷ run_history d [] calls

  -- A failure that one query dropped is dropped by every later one.
  pub live-live :
      (d : ℕ) {t n : ℕ} (history : List ℕ) → t ≤ n → live d n (live d t history) ≡ live d n history
  live-live d [] h = refl
  live-live d (x ∷ xs) h = ground (arith, live-live d xs h)

  -- From `now` on, the window and the history hold the same live failures.
  abbrev Tracks : ℕ → FailureWindow → ℕ → List ℕ → Type 0
  Tracks now w d history =
      (w.window_duration ≡ d) × ((n : ℕ) → now ≤ n → live d n w.failures ≡ live d n history)

  Tracks-record_failure :
      {now t : ℕ} (w : FailureWindow) (d : ℕ) (history : List ℕ)
      → now ≤ t
      → Tracks now w d history
      → Tracks t (record_failure t w) d (history ++ t ∷ [])
  unfolding record_failure
  Tracks-record_failure {t = t} w d history h (e, same) = (
    e,
    λ n le. rw (
      keep-append (λ u. not (is_expired ticks_per_ms d n u)) w.failures (t ∷ []),
      keep-append (λ u. not (is_expired ticks_per_ms d n u)) history (t ∷ []),
      same n (omega arith),
    ),
  )

  Tracks-cleanup :
      {now t : ℕ} (w : FailureWindow) (d : ℕ) (history : List ℕ)
      → now ≤ t
      → Tracks now w d history
      → Tracks t (cleanup_expired_failures ticks_per_ms t w) d history
  unfolding cleanup_expired_failures
  Tracks-cleanup {t = t} w d history h (e, same) =
      (e, λ n le. rw e (live-live d w.failures le ∙ same n (omega arith)))

  live_now :
      {now : ℕ} (t : ℕ) (w : FailureWindow) (d : ℕ) (history : List ℕ)
      → now ≤ t
      → Tracks now w d history
      → (cleanup_expired_failures ticks_per_ms t w).failures ≡ live d t history
  unfolding cleanup_expired_failures
  live_now t w d history h (e, same) = rw e (same t h)

  run_window-Tracks :
      (calls : List WindowCall) {now : ℕ} (w : FailureWindow) (d : ℕ) (history : List ℕ)
      → Tracks now w d history
      → IsSteady now calls
      → run_window w calls ≡ run_history d history calls
  unfolding run_window run_history get_failure_count is_empty reset
  run_window-Tracks [] w d history tr st = refl
  run_window-Tracks (failed t ∷ calls) w d history tr st =
      ap (λ r. done ∷ r)
        (run_window-Tracks calls (record_failure t w) d (history ++ t ∷ [])
          (Tracks-record_failure w d history st.0 tr) st.1)
  run_window-Tracks (counted t ∷ calls) w d history tr st =
      ap₂ (λ l r. number (length l) ∷ r) (live_now t w d history st.0 tr)
        (run_window-Tracks calls _ d history (Tracks-cleanup w d history st.0 tr) st.1)
  run_window-Tracks (asked_empty t ∷ calls) w d history tr st =
      ap₂ (λ l r. flag (is_nil l) ∷ r) (live_now t w d history st.0 tr)
        (run_window-Tracks calls _ d history (Tracks-cleanup w d history st.0 tr) st.1)
  run_window-Tracks (cleared ∷ calls) w d history tr st =
      ap (λ r. done ∷ r)
        (run_window-Tracks calls (record w { failures = [] }) d [] (tr.0, λ n le. refl) st)

  -- A new window whose clock never goes back gives, to every sequence of calls, the replies of the
  -- history that keeps every failure since the last `reset` and counts those that are not older
  -- than the window's duration.
  pub window_refines :
      (d : ℕ) (calls : List WindowCall) (start : ℕ)
      → IsSteady start calls
      → run_window (new_window d) calls ≡ run_history d [] calls
  unfolding new_window
  window_refines d calls start st =
      run_window-Tracks calls {now = start} (record { window_duration = d; failures = [] }) d []
        (refl, λ n le. refl) st
