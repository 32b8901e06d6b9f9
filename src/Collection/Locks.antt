-- ===== src/Collection/Locks.antt =====
-- `CollectionRunner.run` and `DistributedCollectionLock`, as calls of several threads of several
-- instances that share a database: each takes the lock of its process, then the advisory lock, and
-- gives both back.
use superflash_ia.Prelude.{
  ℕ, Bool, false, Option, none, some, List, [], ◌∷◌, if◌then◌else◌, ◌==◌, nat_eq,
}

-- Where a call stands: it has not begun or has ended, it has the lock of its process, it collects, or
-- it is in its `finally`.
pub data Phase : Type 0 where
  idle entered collecting leaving : Phase

-- The connection that holds the advisory lock: the `_connection` of a call, or one of the pool of a
-- process, to which it went back without a release.
pub data Owner : Type 0 where
  call pooled : ℕ → Owner

-- The lock of each process, by the call that has it; the advisory lock of the database; and where each
-- call stands.
pub record Locks : Type 0 where
  pub thread_lock : ℕ → Option ℕ
  pub advisory : Option Owner
  pub phase : ℕ → Phase

-- What happens next, and to which call: its first statement; the failure of the assertion on the
-- session's bind; the answer of `try_acquire`, or its raise; the database closes the dedicated
-- connection, upon which it frees the lock, and the call does not notice; the end of the collection;
-- `release`, where `pg_advisory_unlock` is executed or raises, and the end of the `finally`; and the
-- death of the process, upon which the database closes its connections.
pub data Event : Type 0 where
  acquire_thread refuse_bind try_acquire raise_acquire close_connection : ℕ → Event
  finish release release_failing : ℕ → Event
  die : ℕ → Event

abbrev pub at_key : {A : Type 0} → ℕ → A → (ℕ → A) → ℕ → A
at_key k a f n = if n == k then a else f n

module _ (is_postgres : Bool) (process_of : ℕ → ℕ) where
  abbrev pub move : ℕ → Phase → Locks → Locks
  move t p l = record l { phase = at_key t p l.phase }

  -- `self._thread_lock.acquire(blocking=False)`
  unfoldable pub acquire_thread_lock : ℕ → Locks → Locks
  acquire_thread_lock t l = elim (l.thread_lock (process_of t)) [
    | none ↦ record l {
      thread_lock = at_key (process_of t) (some t) l.thread_lock;
      phase = at_key t entered l.phase;
    }
    | some _ ↦ l
  ]

  -- `DistributedCollectionLock.try_acquire`, and the raise where it answers false.
  unfoldable pub try_advisory : ℕ → Locks → Locks
  try_advisory t l =
      if is_postgres
      then (elim l.advisory [
        | none ↦ record l { advisory = some (call t); phase = at_key t collecting l.phase }
        | some _ ↦ move t leaving l
      ])
      else move t collecting l

  abbrev pub holds : ℕ → Option Owner → Bool
  holds t none = false
  holds t (some (call o)) = o == t
  holds t (some (pooled p)) = false

  -- `DistributedCollectionLock.release`, then the release of the thread's lock.
  unfoldable pub release_both : ℕ → Locks → Locks
  release_both t l = record l {
    advisory = if holds t l.advisory then none else l.advisory;
    thread_lock = at_key (process_of t) none l.thread_lock;
    phase = at_key t idle l.phase;
  }

  -- The same, where `pg_advisory_unlock` raises: `release` logs it, and `close` gives the connection
  -- back to the pool, which closes none that works.
  unfoldable pub release_unheard : ℕ → Locks → Locks
  release_unheard t l = record l {
    advisory = if holds t l.advisory then some (pooled (process_of t)) else l.advisory;
    thread_lock = at_key (process_of t) none l.thread_lock;
    phase = at_key t idle l.phase;
  }

  -- The process of the connection.
  abbrev owner_of : Owner → ℕ
  owner_of (call t) = process_of t
  owner_of (pooled p) = p

  -- The calls of the process end with it.
  unfoldable pub kill : ℕ → Locks → Locks
  kill p l = record l {
    advisory = elim l.advisory [ none ↦ none | some o ↦ if owner_of o == p then none else some o ];
    thread_lock = at_key p none l.thread_lock;
    phase = λ t. if process_of t == p then idle else l.phase t;
  }

  -- One event, where the call stands so that it can happen.
  unfoldable pub step : Event → Locks → Locks
  step (acquire_thread t) l = elim (l.phase t) [ idle ↦ acquire_thread_lock t l | _ ↦ l ]
  step (try_acquire t) l = elim (l.phase t) [ entered ↦ try_advisory t l | _ ↦ l ]
  step (refuse_bind t) l = elim (l.phase t) [ entered ↦ move t idle l | _ ↦ l ]
  step (raise_acquire t) l = elim (l.phase t) [ entered ↦ move t leaving l | _ ↦ l ]
  step (close_connection t) l = record l {
    advisory = if holds t l.advisory then none else l.advisory;
  }
  step (finish t) l = elim (l.phase t) [ collecting ↦ move t leaving l | _ ↦ l ]
  step (release t) l = elim (l.phase t) [ leaving ↦ release_both t l | _ ↦ l ]
  step (release_failing t) l = elim (l.phase t) [ leaving ↦ release_unheard t l | _ ↦ l ]
  step (die p) l = kill p l

  abbrev pub steps : List Event → Locks → Locks
  steps [] l = l
  steps (e ∷ es) l = steps es (step e l)

abbrev pub unlocked : Locks
unlocked = record { thread_lock = λ _. none; advisory = none; phase = λ _. idle }
