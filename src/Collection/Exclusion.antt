-- ===== src/Collection/Exclusion.antt =====
-- The two locks of `CollectionRunner.run`: what they exclude, and when no call keeps them.
use superflash_ia.Prelude.{
  ℕ, Bool, true, false, ◌≡◌, ◌≢◌, refl, sym, ◌∙◌, ap, Option, none, some, List, [], ◌∷◌, arith,
  nat_eq, nat_beq_iff, All,
}
use superflash_ia.Collection.Locks.{
  idle, collecting, Locks, Owner, call, pooled, Event, acquire_thread, refuse_bind, try_acquire,
  raise_acquire, close_connection, finish, release, release_failing, die, acquire_thread_lock,
  try_advisory, release_both, release_unheard, kill, step, steps, unlocked,
}

-- The database does not close the dedicated connection of a call.
abbrev pub keeps_connection : Event → Bool
keeps_connection (close_connection t) = false
keeps_connection _ = true

-- Neither the assertion on the bind nor `pg_advisory_unlock` fails.
abbrev pub gives_back : Event → Bool
gives_back (refuse_bind t) = false
gives_back (release_failing t) = false
gives_back _ = true

module _ (is_postgres : Bool) (process_of : ℕ → ℕ) where
  -- A call that has begun has the lock of its process.
  abbrev HasThreadAt : Locks → ℕ → Type 0
  HasThreadAt l t = l.phase t ≢ idle → l.thread_lock (process_of t) ≡ some t

  -- The call that collects has the advisory lock.
  abbrev HasAdvisoryAt : Locks → ℕ → Type 0
  HasAdvisoryAt l t = is_postgres ≡ true → l.phase t ≡ collecting → l.advisory ≡ some (call t)

  -- Who has the advisory lock is a call that has begun, and who has the lock of a process is of it and
  -- has begun.
  abbrev OwnedAt : Locks → ℕ → Type 0
  OwnedAt l t =
      (l.advisory ≡ some (call t) → l.phase t ≢ idle)
      × (l.advisory ≢ some (pooled t))
      × ((p : ℕ) → l.thread_lock p ≡ some t → (process_of t ≡ p) × (l.phase t ≢ idle))

  step_held :
      (e : Event) (l : Locks)
      → ((t : ℕ) → HasThreadAt l t)
      → (t : ℕ) → HasThreadAt (step is_postgres process_of e l) t
  unfolding step acquire_thread_lock try_advisory release_both release_unheard kill
  step_held (acquire_thread u) l h t = let a = h t in let b = h u in ground arith
  step_held (refuse_bind u) l h t = let a = h t in let b = h u in ground arith
  step_held (try_acquire u) l h t = let a = h t in let b = h u in ground arith
  step_held (raise_acquire u) l h t = let a = h t in let b = h u in ground arith
  step_held (close_connection u) l h t = let a = h t in let b = h u in ground arith
  step_held (finish u) l h t = let a = h t in let b = h u in ground arith
  step_held (release u) l h t = let a = h t in let b = h u in ground arith
  step_held (release_failing u) l h t = let a = h t in let b = h u in ground arith
  step_held (die q) l h t = let a = h t in ground arith

  steps_held :
      (es : List Event) (l : Locks)
      → ((t : ℕ) → HasThreadAt l t)
      → (t : ℕ) → HasThreadAt (steps is_postgres process_of es l) t
  steps_held [] l h = h
  steps_held (e ∷ es) l h = steps_held es (step is_postgres process_of e l) (step_held e l h)

  step_holds :
      (e : Event) (l : Locks)
      → keeps_connection e ≡ true
      → ((t : ℕ) → HasAdvisoryAt l t)
      → (t : ℕ) → HasAdvisoryAt (step is_postgres process_of e l) t
  unfolding step acquire_thread_lock try_advisory release_both release_unheard kill
  step_holds (acquire_thread u) l k h t = let a = h t in let b = h u in ground arith
  step_holds (refuse_bind u) l k h t = let a = h t in let b = h u in ground arith
  step_holds (try_acquire u) l k h t = let a = h t in let b = h u in ground arith
  step_holds (raise_acquire u) l k h t = let a = h t in let b = h u in ground arith
  step_holds (close_connection u) l k h t = let a = h t in let b = h u in ground arith
  step_holds (finish u) l k h t = let a = h t in let b = h u in ground arith
  step_holds (release u) l k h t = let a = h t in let b = h u in ground arith
  step_holds (release_failing u) l k h t = let a = h t in let b = h u in ground arith
  step_holds (die q) l k h t = let a = h t in ground arith

  steps_holds :
      (es : List Event) (l : Locks)
      → All (λ e. keeps_connection e ≡ true) es
      → ((t : ℕ) → HasAdvisoryAt l t)
      → (t : ℕ) → HasAdvisoryAt (steps is_postgres process_of es l) t
  steps_holds [] l k h = h
  steps_holds (e ∷ es) l (k, ks) h =
      steps_holds es (step is_postgres process_of e l) ks (step_holds e l k h)

  step_advisory :
      (e : Event) (l : Locks)
      → gives_back e ≡ true
      → ((t : ℕ) → OwnedAt l t)
      → (t : ℕ)
      → ((step is_postgres process_of e l).advisory ≡ some (call t)
          → (step is_postgres process_of e l).phase t ≢ idle)
        × ((step is_postgres process_of e l).advisory ≢ some (pooled t))
  unfolding step acquire_thread_lock try_advisory release_both release_unheard kill
  step_advisory (acquire_thread u) l k h t =
      let a = (h t).0 in let b = (h t).1 in (ground arith, ground arith)
  step_advisory (refuse_bind u) l k h t =
      let a = (h t).0 in let b = (h t).1 in (ground arith, ground arith)
  step_advisory (try_acquire u) l k h t =
      let a = (h t).0 in let b = (h t).1 in (ground arith, ground arith)
  step_advisory (raise_acquire u) l k h t =
      let a = (h t).0 in let b = (h t).1 in (ground arith, ground arith)
  step_advisory (close_connection u) l k h t =
      let a = (h t).0 in let b = (h t).1 in (ground arith, ground arith)
  step_advisory (finish u) l k h t =
      let a = (h t).0 in let b = (h t).1 in (ground arith, ground arith)
  step_advisory (release u) l k h t =
      let a = (h t).0 in let b = (h t).1 in (ground arith, ground arith)
  step_advisory (release_failing u) l k h t =
      let a = (h t).0 in let b = (h t).1 in (ground arith, ground arith)
  step_advisory (die q) l k h t = let a = (h t).0 in let b = (h t).1 in (ground arith, ground arith)

  step_thread :
      (e : Event) (l : Locks)
      → gives_back e ≡ true
      → ((t : ℕ) → OwnedAt l t)
      → (t p : ℕ) → (step is_postgres process_of e l).thread_lock p ≡ some t
      → (process_of t ≡ p) × ((step is_postgres process_of e l).phase t ≢ idle)
  unfolding step acquire_thread_lock try_advisory release_both release_unheard kill
  step_thread (acquire_thread u) l g h t p k = let a = (h t).2 p in ground arith
  step_thread (refuse_bind u) l g h t p k = let a = (h t).2 p in ground arith
  step_thread (try_acquire u) l g h t p k = let a = (h t).2 p in ground arith
  step_thread (raise_acquire u) l g h t p k = let a = (h t).2 p in ground arith
  step_thread (close_connection u) l g h t p k = let a = (h t).2 p in ground arith
  step_thread (finish u) l g h t p k = let a = (h t).2 p in ground arith
  step_thread (release u) l g h t p k = let a = (h t).2 p in ground arith
  step_thread (release_failing u) l g h t p k = let a = (h t).2 p in ground arith
  step_thread (die q) l g h t p k = let a = (h t).2 p in ground arith

  steps_owned :
      (es : List Event) (l : Locks)
      → All (λ e. gives_back e ≡ true) es
      → ((t : ℕ) → OwnedAt l t)
      → (t : ℕ) → OwnedAt (steps is_postgres process_of es l) t
  steps_owned [] l g h = h
  steps_owned (e ∷ es) l (g, gs) h =
      steps_owned es (step is_postgres process_of e l) gs
        (λ t. let a = step_advisory e l g h t in (a.0, a.1, step_thread e l g h t))

  unlocked_held : (t : ℕ) → HasThreadAt unlocked t
  unlocked_held t h = elim (h refl) [ ]

  unlocked_holds : (t : ℕ) → HasAdvisoryAt unlocked t
  unlocked_holds t p h = ground arith

  unlocked_owned : (t : ℕ) → OwnedAt unlocked t
  unlocked_owned t = ((λ h. ground arith), (λ h. ground arith), λ p h. ground arith)

  begun_once :
      (es : List Event) (t u : ℕ)
      → let l = steps is_postgres process_of es unlocked in
        process_of t ≡ process_of u → l.phase t ≢ idle → l.phase u ≢ idle → t ≡ u
  begun_once es t u p a b =
      let h = steps_held es unlocked unlocked_held in
      let x = h t a in
      let y = h u b in
      let z : some t ≡ some u =
        sym x ∙ ap (steps is_postgres process_of es unlocked).thread_lock p ∙ y in
      ground arith

  -- Whatever events happen, in any order, while a call of a process is past its first statement, every
  -- other call of that process is idle.
  pub one_per_process :
      (es : List Event) (t u : ℕ)
      → let l = steps is_postgres process_of es unlocked in
        process_of t ≡ process_of u → t ≢ u → l.phase t ≢ idle → l.phase u ≡ idle
  one_per_process es t u p n a = let b = begun_once es t u p a in ground arith

  -- On PostgreSQL, as long as the database closes no connection that holds the lock: whatever else
  -- happens, in any order, with calls that raise and processes that die, while a call of any process
  -- collects, no other call of any process does.
  pub one_collects :
      (es : List Event) (t u : ℕ)
      → let l = steps is_postgres process_of es unlocked in
        is_postgres ≡ true
        → All (λ e. keeps_connection e ≡ true) es
        → t ≢ u
        → l.phase t ≡ collecting
        → l.phase u ≢ collecting
  one_collects es t u p k n a b =
      let h = steps_holds es unlocked k unlocked_holds in
      let x = h t p a in
      let y = h u p b in let z : some (call t) ≡ some (call u) = sym x ∙ y in ground arith

  free_acquires :
      (l : Locks) (t : ℕ)
      → l.phase t ≡ idle
      → l.thread_lock (process_of t) ≡ none
      → l.advisory ≡ none
      → (steps is_postgres process_of (acquire_thread t ∷ try_acquire t ∷ []) l).phase t
        ≡ collecting
  unfolding step acquire_thread_lock try_advisory
  free_acquires l t i free free' = let r = (nat_beq_iff t t).1 refl in ground arith

  -- As long as neither the assertion on the session's bind nor an unlocking fails, no lock is kept:
  -- whatever else happened, once every call is idle, a call of any process gets the lock of its
  -- process, and then collects.
  pub idle_acquires :
      (es : List Event) (t : ℕ)
      → let l = steps is_postgres process_of es unlocked in
        All (λ e. gives_back e ≡ true) es
        → ((u : ℕ) → l.phase u ≡ idle)
        → (steps is_postgres process_of (acquire_thread t ∷ try_acquire t ∷ []) l).phase t
          ≡ collecting
  idle_acquires es t g h =
      free_acquires l t (h t) (thread_free (process_of t) _ refl) (advisory_free _ refl)
    where
      l : Locks
      l = steps is_postgres process_of es unlocked

      owned : (u : ℕ) → OwnedAt l u
      owned = steps_owned es unlocked g unlocked_owned

      thread_free : (p : ℕ) (x : Option ℕ) → l.thread_lock p ≡ x → l.thread_lock p ≡ none
      thread_free p none e = e
      thread_free p (some u) e = elim (((owned u).2 p e).1 (h u)) [ ]

      advisory_free : (x : Option Owner) → l.advisory ≡ x → l.advisory ≡ none
      advisory_free none e = e
      advisory_free (some (call u)) e = elim ((owned u).0 e (h u)) [ ]
      advisory_free (some (pooled p)) e = elim ((owned p).1 e) [ ]
