-- ===== src/Orchestrator/Executor/Keeps.antt =====
-- Properties of the node map that an action leaves true, proved along its text.
use chat_ai.Base.{Bool, true, false, Result, ok, err, ◌≡◌, refl, if◌then◌else◌}
use chat_ai.Base.Maps.{Map}
use chat_ai.Orchestrator.Errors.{Error}
use chat_ai.Orchestrator.Executor.{
  InternalNode, WorkflowEvent, Exec, Action, ◌>>=◌, ◌>>◌, pure, throw, modify, read, catch, emit,
  continue, handled,
}

module _ (P : Map InternalNode → Type 0) where
  -- The action keeps `P` of the nodes, whether it returns or throws.
  pub record Keeps {A : Type 0} (m : Action A) : Type 0 where
    pub at : (x : Exec) → P x.nodes → P (m x).1.nodes

  pub Keeps-pure : {A : Type 0} (a : A) → Keeps (pure a)
  unfolding pure
  Keeps-pure a = record { at = λ x h. h }

  pub Keeps-throw : {A : Type 0} (e : Error) → Keeps (throw {A = A} e)
  unfolding throw
  Keeps-throw e = record { at = λ x h. h }

  pub Keeps-modify : (f : Exec → Exec) → ((x : Exec) → (f x).nodes ≡ x.nodes) → Keeps (modify f)
  unfolding modify
  Keeps-modify f same = record { at = λ x h. rw (same x) h }

  pub Keeps-emit : (e : WorkflowEvent) → Keeps (emit e)
  unfolding emit
  Keeps-emit e = Keeps-modify _ (λ x. refl)

  -- The action may depend on the state that it is run in.
  pub Keeps-read :
      {A : Type 0} (f : Exec → Action A)
      → ((x : Exec) → P x.nodes → P (f x x).1.nodes)
      → Keeps (read f)
  unfolding read
  Keeps-read f h = record { at = h }

  pub Keeps-reads : {A : Type 0} (f : Exec → Action A) → ((x : Exec) → Keeps (f x)) → Keeps (read f)
  Keeps-reads f h = Keeps-read f (λ x p. (h x).at x p)

  pub Keeps-if :
      {A : Type 0} (b : Bool) (m n : Action A) → Keeps m → Keeps n → Keeps (if b then m else n)
  Keeps-if true m n km kn = km
  Keeps-if false m n km kn = kn

  Keeps-continue :
      {A B : Type 0} (r : Result Error A) (f : A → Action B) (x : Exec)
      → ((a : A) → Keeps (f a))
      → P x.nodes
      → P (continue r f x).1.nodes
  unfolding continue
  Keeps-continue (ok a) f x kf h = (kf a).at x h
  Keeps-continue (err e) f x kf h = h

  pub Keeps-bind :
      {A B : Type 0} (m : Action A) (f : A → Action B)
      → Keeps m
      → ((a : A) → Keeps (f a))
      → Keeps (m >>= f)
  unfolding ◌>>=◌
  Keeps-bind m f km kf = record { at = λ x h. Keeps-continue (m x).0 f (m x).1 kf (km.at x h) }

  -- `m >> k` when only the state that `m` leaves is known to keep `P`.
  pub then-keeps :
      (m : Action (Unit {0})) (k : Action (Unit {0})) (x : Exec)
      → Keeps k
      → P (m x).1.nodes
      → P ((m >> k) x).1.nodes
  unfolding ◌>>=◌
  then-keeps m k x kk h = Keeps-continue (m x).0 (λ _. k) (m x).1 (λ _. kk) h

  Keeps-handled :
      {A : Type 0} (r : Result Error A) (handle : Error → Action A) (x : Exec)
      → ((e : Error) → Keeps (handle e))
      → P x.nodes
      → P (handled r handle x).1.nodes
  unfolding handled
  Keeps-handled (ok a) handle x kh h = h
  Keeps-handled (err e) handle x kh h = (kh e).at x h

  pub Keeps-catch :
      {A : Type 0} (m : Action A) (handle : Error → Action A)
      → Keeps m
      → ((e : Error) → Keeps (handle e))
      → Keeps (catch m handle)
  unfolding catch
  Keeps-catch m handle km kh = record {
    at = λ x h. Keeps-handled (m x).0 handle (m x).1 kh (km.at x h);
  }

pub ruleset keeps_rules =
    (Keeps-pure, Keeps-throw, Keeps-emit, Keeps-reads, Keeps-if, Keeps-bind, Keeps-catch)
