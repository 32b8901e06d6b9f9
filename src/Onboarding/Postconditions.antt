-- ===== src/Onboarding/Postconditions.antt =====
-- Rules to prove that a job keeps an invariant, and what holds where it returns.
use superflash_ia.Prelude.{String, ⊤, Bool, true, false, if◌then◌else◌}
use superflash_ia.Onboarding.Job.{
  World, Outcome, ok, error, crash, Job, pure, raise, after, ◌>>=◌, raise_unless,
}

-- However the job ends, the invariant still holds.
pub data Keeps (P : World → Type 0) {A : Type 0} (m : Job A) : Type 0 where
  keeps : ((w : World) → P w → P (m w).1) → Keeps P m

pub Keeps-use :
    (P : World → Type 0) {A : Type 0} {m : Job A} → Keeps P m → (w : World) → P w → P (m w).1
Keeps-use P (keeps h) w p = h w p

-- What holds of the world where the job returns.
abbrev pub IfOk : {A : Type 0} → (World → Type 0) → Outcome A × World → Type 0
IfOk Q (ok _, w) = Q w
IfOk Q (error _, w) = ⊤
IfOk Q (crash, w) = ⊤

pub data Yields {A : Type 0} (Q : World → Type 0) (m : Job A) : Type 0 where
  yields : ((w : World) → IfOk Q (m w)) → Yields Q m

pub Yields-use :
    {A : Type 0} (Q : World → Type 0) {m : Job A} → Yields Q m → (w : World) → IfOk Q (m w)
Yields-use Q (yields h) w = h w

IfOk-after :
    {A B : Type 0} (Q : World → Type 0) (f : A → Job B)
    → ((a : A) → Yields Q (f a))
    → (r : Outcome A) (w : World) → IfOk Q (after r f w)
IfOk-after Q f h (ok a) w = Yields-use Q (h a) w
IfOk-after Q f h (error c) w = tt
IfOk-after Q f h crash w = tt

pub Yields->>= :
    {A B : Type 0} (Q : World → Type 0) (m : Job A) (f : A → Job B)
    → ((a : A) → Yields Q (f a))
    → Yields Q (m >>= f)
unfolding ◌>>=◌
Yields->>= Q m f h = yields (λ w. IfOk-after Q f h (m w).0 (m w).1)

module _ (P : World → Type 0) where
  after-lem :
      {A B : Type 0} (f : A → Job B)
      → ((a : A) → Keeps P (f a))
      → (r : Outcome A) (w : World) → P w
      → P (after r f w).1
  after-lem f h (ok a) w p = Keeps-use P (h a) w p
  after-lem f h (error c) w p = p
  after-lem f h crash w p = p

  pub Keeps->>= :
      {A B : Type 0} {m : Job A} {f : A → Job B}
      → Keeps P m
      → ((a : A) → Keeps P (f a))
      → Keeps P (m >>= f)
  unfolding ◌>>=◌
  Keeps->>= {m = m} {f = f} hm hf =
      keeps (λ w p. after-lem f hf (m w).0 (m w).1 (Keeps-use P hm w p))

  pub Keeps-pure : {A : Type 0} (a : A) → Keeps P (pure a)
  Keeps-pure a = keeps (λ w p. p)

  pub Keeps-raise : {A : Type 0} (code : String) → Keeps P (raise {A = A} code)
  Keeps-raise code = keeps (λ w p. p)

  pub Keeps-raise_unless : (b : Bool) (code : String) → Keeps P (raise_unless b code)
  Keeps-raise_unless true code = Keeps-pure tt
  Keeps-raise_unless false code = Keeps-raise code

  pub Keeps-if :
      {A : Type 0} (b : Bool) {m k : Job A} → Keeps P m → Keeps P k → Keeps P (if b then m else k)
  Keeps-if true hm hk = hm
  Keeps-if false hm hk = hk

-- What holds where the job returns, with its value, and where it ends otherwise.
abbrev pub Ends :
    {A : Type 0} → (A → World → Type 0) → (World → Type 0) → Outcome A × World → Type 0
Ends Q E (ok a, w) = Q a w
Ends Q E (error _, w) = E w
Ends Q E (crash, w) = E w

pub data Triple (P : World → Type 0) {A : Type 0} (m : Job A) (Q : A → World → Type 0)
    (E : World → Type 0) : Type 0 where
  triple : ((w : World) → P w → Ends Q E (m w)) → Triple P m Q E

pub Triple-use :
    {P : World → Type 0} {A : Type 0} {m : Job A} {Q : A → World → Type 0} {E : World → Type 0}
    → Triple P m Q E
    → (w : World) → P w
    → Ends Q E (m w)
Triple-use (triple h) = h

Ends-after :
    {A B : Type 0} (Q : A → World → Type 0) (R : B → World → Type 0) (E : World → Type 0)
    (f : A → Job B)
    → ((a : A) → Triple (Q a) (f a) R E)
    → (r : Outcome A) (w : World) → Ends Q E (r, w)
    → Ends R E (after r f w)
Ends-after Q R E f h (ok a) w p = Triple-use (h a) w p
Ends-after Q R E f h (error c) w p = p
Ends-after Q R E f h crash w p = p

pub Triple->>= :
    {P : World → Type 0} {A B : Type 0} {m : Job A} {f : A → Job B} (Q : A → World → Type 0)
    {R : B → World → Type 0} {E : World → Type 0}
    → Triple P m Q E
    → ((a : A) → Triple (Q a) (f a) R E)
    → Triple P (m >>= f) R E
unfolding ◌>>=◌
Triple->>= {m = m} {f = f} Q {R = R} {E = E} hm hf =
    triple (λ w p. Ends-after Q R E f hf (m w).0 (m w).1 (Triple-use hm w p))

Ends-same :
    {A : Type 0} (P E : World → Type 0)
    → ((w : World) → P w → E w)
    → (r : Outcome A) (w : World) → P w
    → Ends (λ _. P) E (r, w)
Ends-same P E h (ok a) w p = p
Ends-same P E h (error c) w p = h w p
Ends-same P E h crash w p = h w p

-- What a job keeps holds at its end.
pub Triple-Keeps :
    {P : World → Type 0} {A : Type 0} {m : Job A} {E : World → Type 0}
    → ((w : World) → P w → E w)
    → Keeps P m
    → Triple P m (λ _. P) E
Triple-Keeps {P} {m = m} {E = E} h k =
    triple (λ w p. Ends-same P E h (m w).0 (m w).1 (Keeps-use P k w p))
