-- ===== src/Queue/Ends.antt =====
-- Postconditions of the queue's actions, one for each way to end.
use vivi_mail.Common.{ok, err, Result, ◌≡◌, refl}
use vivi_mail.Queue.World.{Outcome, done, fail, died, State, Exec, ◌>>=◌, lift}

-- `Q` of what is returned, `F` of the state that an error leaves, `D` of the state at a death.
abbrev pub ByEnd :
    {A : Type 0}
    → (A → State → Type 0)
    → (State → Type 0)
    → (State → Type 0)
    → Outcome A
    → State
    → Type 0
ByEnd Q F D (done a) s = Q a s
ByEnd Q F D (fail e) s = F s
ByEnd Q F D died s = D s

pub record Ends {A : Type 0} (Q : A → State → Type 0) (F D : State → Type 0) (r : Outcome A × State)
    : Type 0 where
  pub at : ByEnd Q F D r.0 r.1

module _ {A B : Type 0} {Q : A → State → Type 0} {R : B → State → Type 0}
    {F D : State → Type 0} where
  pub Ends-bind :
      (m : Exec A) (f : A → Exec B) (s : State)
      → Ends Q F D (m s)
      → ((a : A) (s' : State) → Q a s' → Ends R F D (f a s'))
      → Ends R F D ((m >>= f) s)
  Ends-bind m f s h k = from (m s) h.at
    where
      from : (r : Outcome A × State) → ByEnd Q F D r.0 r.1 → Ends R F D (((λ _. r) >>= f) s)
      from (done a, s') q = k a s' q
      from (fail e, s') q = record { at = q }
      from (died, s') q = record { at = q }

module _ {A : Type 0} {Q R : A → State → Type 0} {F G D E : State → Type 0} where
  pub Ends-mono :
      {r : Outcome A × State}
      → Ends Q F D r
      → ((a : A) (s : State) → Q a s → R a s)
      → ((s : State) → F s → G s)
      → ((s : State) → D s → E s)
      → Ends R G E r
  Ends-mono {r} h q f d = record { at = from r.0 r.1 h.at }
    where
      from : (o : Outcome A) (s : State) → ByEnd Q F D o s → ByEnd R G E o s
      from (done a) s p = q a s p
      from (fail e) s p = f s p
      from died s p = d s p

module _ {A : Type 0} {Q : A → State → Type 0} {F D : State → Type 0} where
  pub Ends-lift :
      (m : Result A) (s : State) → ((a : A) → m ≡ ok a → Q a s) → F s → Ends Q F D (lift m s)
  Ends-lift (ok a) s h f = record { at = h a refl }
  Ends-lift (err e) s h f = record { at = f }

-- One property, however the action ends.
abbrev pub Leaves : {A : Type 0} → (State → Type 0) → Outcome A × State → Type 0
Leaves P = Ends (λ _. P) P P

pub Leaves-state : {A : Type 0} {P : State → Type 0} (r : Outcome A × State) → Leaves P r → P r.1
Leaves-state {A} {P} r h = from r.0 r.1 h.at
  where
    from : (o : Outcome A) (s : State) → ByEnd (λ _. P) P P o s → P s
    from (done a) s p = p
    from (fail e) s p = p
    from died s p = p
