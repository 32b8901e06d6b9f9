-- ===== src/Collection/Ended.antt =====
-- What a collection leaves in the history: one more row, which has ended, and the rows that died ended
-- too.
use superflash_ia.Prelude.{
  ℕ, ◌-◌, if◌then◌else◌, ltb, map, suc, ◌+◌, ◌<◌, String, false, ◌≡◌, refl, ◌∙◌, ap, none, some,
  List, [], ◌∷◌, ◌++◌, arith, ◌==◌, nat_eq, nat_beq_iff, update, count, All,
}
use superflash_ia.Collection.Runs.{
  running, success, error, no_counters, abandoned_text, is_abandoned, abandon, Trigger,
  CollectionRun, History, is_running, is_run, new_run, start, heartbeat, mark_abandoned,
  finish_success, finish_error,
}
use superflash_ia.Collection.Runner.{
  Ending, returned, raised, Collecting, RunnerState, persist_heartbeats, begin_run, end_run,
  run_locked,
}

-- The key that is given out next is new.
abbrev pub IsKeyed : History → Type 0
IsKeyed h = All (λ (r : CollectionRun). r.run_id < h.next_run) h.runs

-- An edit of the row of a new key reaches the last row only.
update_last :
    (key : ℕ) (f : CollectionRun → CollectionRun) (rs : List CollectionRun) (r : CollectionRun)
    → All (λ (x : CollectionRun). x.run_id < key) rs
    → r.run_id ≡ key
    → update (is_run key) f (rs ++ r ∷ []) ≡ rs ++ f r ∷ []
update_last key f [] r h e = let k = (nat_beq_iff r.run_id key).1 e in rw k refl
update_last key f (x ∷ rs) r h e =
    let (a, b) = h in
    let k : (x.run_id == key) ≡ false = ground arith in
    rw k (ap (λ ys. x ∷ ys) (update_last key f rs r b e))

-- The heartbeats of the run.
abbrev pub beaten : List ℕ → CollectionRun → CollectionRun
beaten [] r = r
beaten (at ∷ rest) r = beaten rest (heartbeat at r)

abbrev pub with_runs : RunnerState → List CollectionRun → RunnerState
with_runs s rs = record s { history = record (s.history) { runs = rs } }

persist_last :
    (key : ℕ) (beats : List ℕ) (s : RunnerState) (rs : List CollectionRun) (r : CollectionRun)
    → All (λ (x : CollectionRun). x.run_id < key) rs
    → r.run_id ≡ key
    → persist_heartbeats key beats (with_runs s (rs ++ r ∷ []))
      ≡ with_runs s (rs ++ beaten beats r ∷ [])
persist_last key [] s rs r h e = refl
persist_last key (at ∷ beats) s rs r h e =
    rw (update_last key (heartbeat at) rs r h e) (persist_last key beats s rs (heartbeat at r) h e)

beaten-run_id : (beats : List ℕ) (r : CollectionRun) → (beaten beats r).run_id ≡ r.run_id
beaten-run_id [] r = refl
beaten-run_id (at ∷ beats) r = beaten-run_id beats (heartbeat at r)

module _ (milliseconds : ℕ → ℕ) where
  mark_abandoned-keys :
      (key timeout now : ℕ) (rs : List CollectionRun)
      → All (λ (x : CollectionRun). x.run_id < key) rs
      → All (λ (x : CollectionRun). x.run_id < key) (mark_abandoned milliseconds timeout now rs).0
  unfolding mark_abandoned
  mark_abandoned-keys key timeout now [] h = tt
  mark_abandoned-keys key timeout now (r ∷ rs) (a, b) =
      (ground arith, mark_abandoned-keys key timeout now rs b)

  -- The row as the end of the collection leaves it.
  abbrev pub ended : Ending → ℕ → CollectionRun → CollectionRun
  ended (returned result) at r = finish_success milliseconds result at r
  ended (raised text) at r = finish_error milliseconds text at r

  end_last :
      (e : Ending) (key at : ℕ) (s : RunnerState) (rs : List CollectionRun) (r : CollectionRun)
      → All (λ (x : CollectionRun). x.run_id < key) rs
      → r.run_id ≡ key
      → (end_run milliseconds e key at (with_runs s (rs ++ r ∷ []))).history.runs
        ≡ rs ++ ended e at r ∷ []
  unfolding end_run
  end_last (returned result) key at s rs r h e =
      update_last key (finish_success milliseconds result at) rs r h e
  end_last (raised text) key at s rs r h e =
      update_last key (finish_error milliseconds text at) rs r h e

  -- The row of a collection that has ended, `n` milliseconds long.
  abbrev pub IsEnded : ℕ → ℕ → Ending → CollectionRun → Type 0
  IsEnded n at e r =
      (r.heartbeat_at ≡ some at)
      × (r.finished_at ≡ some at)
      × (r.duration_ms ≡ some n)
      × (r.status ≡ (elim e [ returned result ↦ success | raised text ↦ error ]))
      × (r.counters ≡ (elim e [ returned result ↦ result.counters | raised text ↦ no_counters ]))
      × (r.errors ≡ (elim e [ returned result ↦ result.errors | raised text ↦ text ∷ [] ]))

  -- A row that runs and whose last heartbeat is older than the timeout ends there, at an error.
  abbrev pub timed_out : ℕ → ℕ → CollectionRun → CollectionRun
  timed_out timeout now r = elim r.status [
    | success ↦ r
    | error ↦ r
    | running ↦ elim r.heartbeat_at [
      | none ↦ r
      | some at ↦
          if ltb (at + timeout) now
          then record r {
            status = error;
            finished_at = some at;
            duration_ms =
                some (if ltb at r.started_at then 0 else milliseconds (at - r.started_at));
            errors = abandoned_text ∷ [];
          }
          else r
    ]
  ]

  abandon-timed_out :
      (timeout now : ℕ) (r : CollectionRun)
      → (if is_abandoned timeout now r then abandon milliseconds r else r) ≡ timed_out timeout now r
  abandon-timed_out timeout now r = ground arith

  mark_abandoned-timed_out :
      (timeout now : ℕ) (rs : List CollectionRun)
      → (mark_abandoned milliseconds timeout now rs).0 ≡ map (timed_out timeout now) rs
  unfolding mark_abandoned
  mark_abandoned-timed_out timeout now [] = refl
  mark_abandoned-timed_out timeout now (r ∷ rs) =
      let ih = mark_abandoned-timed_out timeout now rs in
      let e = abandon-timed_out timeout now r in rw (e, ih) refl

  beaten-kept :
      (beats : List ℕ) (r : CollectionRun)
      → let b = beaten beats r in
        (b.run_id ≡ r.run_id)
        × (b.started_at ≡ r.started_at)
        × (b.source ≡ r.source)
        × (b.triggered_by ≡ r.triggered_by)
        × (b.counters ≡ r.counters)
  beaten-kept [] r = (refl, refl, refl, refl, refl)
  beaten-kept (at ∷ beats) r = beaten-kept beats (heartbeat at r)

  ended-kept :
      (e : Ending) (at : ℕ) (r : CollectionRun)
      → let x = ended e at r in
        (x.run_id ≡ r.run_id)
        × (x.source ≡ r.source)
        × (x.triggered_by ≡ r.triggered_by)
        × (x.started_at ≡ r.started_at)
  ended-kept (returned result) at r = (refl, refl, refl, refl)
  ended-kept (raised text) at r = (refl, refl, refl, refl)

  ended-IsEnded :
      (e : Ending) (started_at at : ℕ) (r : CollectionRun)
      → r.started_at ≡ started_at
      → r.counters ≡ no_counters
      → IsEnded
          (if ltb at started_at then 0 else milliseconds (at - started_at))
          at
          e
          (ended e at r)
  ended-IsEnded (returned result) started_at at r h k = (refl, refl, rw h refl, refl, refl, refl)
  ended-IsEnded (raised text) started_at at r h k = (refl, refl, rw h refl, refl, k, refl)

  -- A collection adds one row to the history, with the next key, its source, its trigger and its
  -- start. It has ended: with its last heartbeat and its end at the end, its length, the status
  -- success and what the service counted and noted, or the status error and the text of the exception.
  -- Of the other rows, those that run and whose last heartbeat is older than the timeout end at an
  -- error, at that heartbeat, and the rest stay. No collection is then under way in the process.
  pub run_locked_history :
      (source : String) (trigger : Trigger) (timeout started_at : ℕ) (c : Collecting)
      (finished_at : ℕ) (s : RunnerState)
      → IsKeyed s.history
      → let (s', ending) =
          run_locked milliseconds source trigger timeout started_at c finished_at s in
        ((r : CollectionRun) × (s'.history.runs
            ≡ map (timed_out timeout started_at) s.history.runs ++ r ∷ [])
          × (r.run_id ≡ s.history.next_run)
          × (r.source ≡ source)
          × (r.triggered_by ≡ trigger)
          × (r.started_at ≡ started_at)
          × IsEnded
              (if ltb finished_at started_at then 0 else milliseconds (finished_at - started_at))
              finished_at
              c.ending
              r)
        × (s'.running_since ≡ none)
        × (ending ≡ c.ending)
  unfolding run_locked begin_run start
  run_locked_history source trigger timeout started_at c finished_at s h =
      let key = s.history.next_run in
      let rs = (mark_abandoned milliseconds timeout started_at s.history.runs).0 in
      let k = mark_abandoned-keys key timeout started_at s.history.runs h in
      let r = new_run source started_at trigger key in
      let s1 : RunnerState = record {
        history = record { runs = rs ++ r ∷ []; next_run = suc key };
        running_since = some started_at;
      } in
      let p = persist_last key c.heartbeats s1 rs r k refl in
      let e =
        end_last c.ending key finished_at s1 rs (beaten c.heartbeats r) k
          (beaten-run_id c.heartbeats r) in
      let (b0, b1, b2, b3, b4) = beaten-kept c.heartbeats r in
      let last = ended c.ending finished_at (beaten c.heartbeats r) in
      let (x0, x1, x2, x3) = ended-kept c.ending finished_at (beaten c.heartbeats r) in
      (
        (
          last,
          ap (λ x. (end_run milliseconds c.ending key finished_at x).history.runs) p
              ∙ e
              ∙ ap (λ xs. xs ++ last ∷ [])
                  (mark_abandoned-timed_out timeout started_at s.history.runs),
          x0 ∙ b0,
          x1 ∙ b2,
          x2 ∙ b3,
          x3 ∙ b1,
          ended-IsEnded c.ending started_at finished_at (beaten c.heartbeats r) b1 b4,
        ),
        refl,
        refl,
      )

  -- Of the rows that run, a call marks as many as it says, and a second one at the same instant none.
  pub mark_abandoned_counts :
      (timeout now : ℕ) (rs : List CollectionRun)
      → let (rs', marked) = mark_abandoned milliseconds timeout now rs in
        (count (λ (r : CollectionRun). is_running r.status) rs
          ≡ count (λ (r : CollectionRun). is_running r.status) rs' + marked)
        × ((mark_abandoned milliseconds timeout now rs').1 ≡ 0)
  unfolding mark_abandoned
  mark_abandoned_counts timeout now [] = (refl, refl)
  mark_abandoned_counts timeout now (r ∷ rs) =
      let (a, b) = mark_abandoned_counts timeout now rs in (ground arith, ground arith)
