-- ===== src/Build/Closed/Rules.antt =====
-- One rule for each way to build an action on a `FunctionBuilder`.
use minirust_contrib_fork.Prelude.{
  ℕ, ◌≤◌, ◌<◌, Bool, Option, none, some, [], ◌∷◌, ◌≡◌, refl, arith, subst,
}
use minirust_contrib_fork.Lang.Syntax.{BbName, Terminator, Statement}
use minirust_contrib_fork.Build.State.{
  Build, FunctionBuilder, continue, ◌>>=◌, lift, pure, declare_block, set_cur_block, push_statement,
  finish_block,
}
use minirust_contrib_fork.Build.Closed.Invariant.{
  Inv, AllBelow, successors, add_pending, declare_block-eq, set_cur_block-eq, push_statement-eq,
  finish_block-eq, declared-Inv, current-Inv, pushed-Inv, finished-Inv,
}

-- From a state with `P`, the action fails or ends with `Q`.
pub record Yields {A : Type 0} (P : FunctionBuilder → Type 0) (m : Build A)
    (Q : A → FunctionBuilder → Type 0) : Type 0 where
  pub at :
      (s : FunctionBuilder) → P s → (a : A) (s' : FunctionBuilder) → m s ≡ some (a, s') → Q a s'

-- Whatever is pending, the action keeps the invariant, once `k` blocks are declared.
abbrev pub Keeps : {A : Type 0} → ℕ → Build A → Type 0
Keeps k m =
    (j : ℕ) → k ≤ j → (pending : BbName → Bool) → Yields (Inv j pending) m (λ _ s. Inv j pending s)

module _ {A B : Type 0} where
  continue-eq-some :
      (r : Option (A × FunctionBuilder)) (f : A → Build B) {b : B} {s' : FunctionBuilder}
      → continue r f ≡ some (b, s')
      → (a : A) × (t : FunctionBuilder) × (r ≡ some (a, t)) × (f a t ≡ some (b, s'))
  continue-eq-some none f e = cc
  continue-eq-some (some (a, t)) f e = (a, t, refl, e)

  pub >>=-eq-some :
      (m : Build A) (f : A → Build B) (s : FunctionBuilder) {b : B} {s' : FunctionBuilder}
      → (m >>= f) s ≡ some (b, s')
      → (a : A) × (t : FunctionBuilder) × (m s ≡ some (a, t)) × (f a t ≡ some (b, s'))
  >>=-eq-some m f s e = continue-eq-some (m s) f e

  pub Yields-bind :
      {P : FunctionBuilder → Type 0} {Q : A → FunctionBuilder → Type 0}
      {R : B → FunctionBuilder → Type 0} {m : Build A} {f : A → Build B}
      → Yields P m Q
      → ((a : A) → Yields (Q a) (f a) R)
      → Yields P (m >>= f) R
  Yields-bind {m} {f} hm hf = record {
    at = λ s p b s' e.
        let (a, t, p', q) = >>=-eq-some m f s e in (hf a).at t (hm.at s p a t p') b s' q;
  }

  pub Yields-lift :
      {P : FunctionBuilder → Type 0} {Q : B → FunctionBuilder → Type 0} (o : Option A)
      {f : A → Build B}
      → ((a : A) → o ≡ some a → Yields P (f a) Q)
      → Yields P (lift o >>= f) Q
  Yields-lift none h = record { at = λ s p b s' e. cc }
  Yields-lift (some a) h = record { at = λ s p b s' e. (h a refl).at s p b s' e }

pub Yields-weaken :
    {A : Type 0} {P P' : FunctionBuilder → Type 0} {Q : A → FunctionBuilder → Type 0} {m : Build A}
    → Yields P m Q
    → ((s : FunctionBuilder) → P' s → P s)
    → Yields P' m Q
Yields-weaken h f = record { at = λ s p. h.at s (f s p) }

-- What the precondition says of no state may be used throughout.
pub Yields-fact :
    {A F : Type 0} {P : FunctionBuilder → Type 0} {Q : A → FunctionBuilder → Type 0} {m : Build A}
    → ((s : FunctionBuilder) → P s → F)
    → (F → Yields P m Q)
    → Yields P m Q
Yields-fact f h = record { at = λ s p. (h (f s p)).at s p }

pub Yields-strengthen :
    {A : Type 0} {P : FunctionBuilder → Type 0} {Q Q' : A → FunctionBuilder → Type 0} {m : Build A}
    → Yields P m Q
    → ((a : A) (s : FunctionBuilder) → Q a s → Q' a s)
    → Yields P m Q'
Yields-strengthen h f = record { at = λ s p a s' e. f a s' (h.at s p a s' e) }

pure-eq :
    {A : Type 0} (a : A) (s : FunctionBuilder) {b : A} {s' : FunctionBuilder}
    → pure a s ≡ some (b, s')
    → (a ≡ b) × (s ≡ s')
pure-eq a s e = ground arith

pub Yields-pure : {A : Type 0} {Q : A → FunctionBuilder → Type 0} (a : A) → Yields (Q a) (pure a) Q
Yields-pure {Q} a = record {
  at = λ s p b s' e. let q = pure-eq a s e in subst (λ c. Q c s') q.0 (subst (λ t. Q a t) q.1 p);
}

module _ {j : ℕ} {pending : BbName → Bool} where
  pub declare_block-Yields :
      Yields
        (Inv j pending)
        declare_block
        (λ b s. Inv j (add_pending b pending) s × (b < s.next_block))
  declare_block-Yields = record {
    at = λ s h b s' e. let q = declare_block-eq e in rw (q.0, q.1) (declared-Inv s h, omega arith);
  }

  pub set_cur_block-Yields :
      (b : BbName)
      → Yields (Inv j (add_pending b pending)) (set_cur_block b) (λ _ s. Inv j pending s)
  set_cur_block-Yields b = record {
    at = λ s h a s' e. let q = set_cur_block-eq b e in rw q.2 (current-Inv s b q.1 h);
  }

  pub push_statement-Yields :
      (t : Statement) → Yields (Inv j pending) (push_statement t) (λ _ s. Inv j pending s)
  push_statement-Yields t = record {
    at = λ s h a s' e. let q = push_statement-eq t e in rw q.2 (pushed-Inv s q.0 _ q.1 h);
  }

  pub finish_block-Yields :
      (t : Terminator)
      → Yields
          (λ s. Inv j pending s × AllBelow s.next_block (successors t))
          (finish_block t)
          (λ _ s. Inv j pending s)
  finish_block-Yields t = record {
    at = λ s h a s' e. let q = finish_block-eq t e in rw q.3 (finished-Inv s q.0 _ q.1 h.1 h.0);
  }

-- Three steps that the methods with a next block end with: the terminator goes to the new block alone.
pub then_block-Keeps :
    (t : BbName → Terminator)
    → ((n : BbName) → successors (t n) ≡ n ∷ [])
    → Keeps 0 (declare_block >>= λ n. finish_block (t n) >>= λ _. set_cur_block n)
then_block-Keeps t h j _ pending = Yields-bind declare_block-Yields λ n.
    Yields-bind (Yields-weaken (finish_block-Yields (t n)) (λ s p. (p.0, rw (h n) (p.1, tt))))
      λ _. set_cur_block-Yields n

pub then_block_lift-Keeps :
    (t : BbName → Option Terminator)
    → ((n : BbName) (t' : Terminator) → t n ≡ some t' → successors t' ≡ n ∷ [])
    → Keeps 0 (declare_block >>= λ n. lift (t n) >>= λ t'. finish_block t' >>= λ _. set_cur_block n)
then_block_lift-Keeps t h j _ pending = Yields-bind declare_block-Yields λ n.
    Yields-lift (t n) λ t' e.
      Yields-bind (Yields-weaken (finish_block-Yields t') (λ s p. (p.0, rw (h n t' e) (p.1, tt))))
        λ _. set_cur_block-Yields n

-- A terminator without a next block.
pub end_block-Keeps : (t : Terminator) → successors t ≡ [] → Keeps 0 (finish_block t)
end_block-Keeps t h j _ pending = Yields-weaken (finish_block-Yields t) (λ s p. (p, rw h tt))

pub end_block_lift-Keeps :
    (o : Option Terminator)
    → ((t : Terminator) → o ≡ some t → successors t ≡ [])
    → Keeps 0 (lift o >>= finish_block)
end_block_lift-Keeps o h j _ pending =
    Yields-lift o λ t e. Yields-weaken (finish_block-Yields t) (λ s p. (p, rw (h t e) tt))

pub push_statement-Keeps : (t : Statement) → Keeps 0 (push_statement t)
push_statement-Keeps t j _ pending = push_statement-Yields t

-- Actions one after the other.
pub Keeps-bind :
    {A B : Type 0} {k : ℕ} {m : Build A} {f : A → Build B}
    → Keeps k m
    → ((a : A) → Keeps k (f a))
    → Keeps k (m >>= f)
Keeps-bind hm hf j q pending = Yields-bind (hm j q pending) (λ a. hf a j q pending)

pub Keeps-pure : {A : Type 0} {k : ℕ} (a : A) → Keeps k (pure a)
Keeps-pure a j q pending = Yields-pure a

-- An action that keeps the invariant from the start keeps it later.
pub Keeps-later : {A : Type 0} {k : ℕ} {m : Build A} → Keeps 0 m → Keeps k m
Keeps-later h j q pending = h j (omega arith) pending
