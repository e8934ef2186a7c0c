-- ===== src/Build/Closed/Control.antt =====
-- The control structures keep the invariant if their closures do.
use minirust_contrib_fork.Prelude.{
  ℕ, suc, max, ◌+◌, ◌≤◌, Bool, ◌||◌, Option, none, some, List, [], ◌∷◌, ◌++◌, ◌≡◌, refl, arith, All,
  All-append, inl, inr, ◌==◌, fun_ext, subst, sym, ◌⊎◌,
}
use minirust_contrib_fork.Prelude.Int.{ℤ, pos}
use minirust_contrib_fork.Prelude.Map.{Map, int_eq, try_insert}
use minirust_contrib_fork.Lang.Syntax.{BbName, ValueExpr, Terminator}
use minirust_contrib_fork.Build.State.{Build, FunctionBuilder, pure, declare_block, finish_block}
use minirust_contrib_fork.Build.Methods.{goto}
use minirust_contrib_fork.Build.Control.{
  Branch, declare_cases, get_or_declare, jump_after, join_after, build_branches, set_after,
  switch_int, if_, jump_back, loop_body, while_,
}
use minirust_contrib_fork.Build.Closed.Invariant.{
  Inv, AllBelow, AllBelow-weaken, targets, add_pending, declare_block-eq, declared-Inv,
}
use minirust_contrib_fork.Build.Closed.Rules.{
  Yields, Yields-bind, Yields-lift, Yields-pure, Yields-weaken, Yields-strengthen, Yields-fact,
  Keeps, Keeps-bind, Keeps-pure, declare_block-Yields, set_cur_block-Yields, finish_block-Yields,
}

abbrev pub pending_of : List Branch → (BbName → Bool) → BbName → Bool
pending_of [] pending n = pending n
pending_of ((branch, b) ∷ branches) pending n = b == n || pending_of branches pending n

abbrev pub after_pending : Option BbName → (BbName → Bool) → BbName → Bool
after_pending none pending = pending
after_pending (some b) pending = add_pending b pending

abbrev pub BranchKeeps : ℕ → Branch → Type 0
BranchKeeps k b = Keeps k b.0

pending_of-append_at :
    (branches : List Branch) (branch : Build Unit) (b : BbName) (pending : BbName → Bool)
    (n : BbName)
    → pending_of (branches ++ (branch, b) ∷ []) pending n
      ≡ add_pending b (pending_of branches pending) n
pending_of-append_at [] branch b pending n = refl
pending_of-append_at ((f, c) ∷ branches) branch b pending n =
    ground (arith, pending_of-append_at branches branch b pending n)

pending_of-append :
    (branches : List Branch) (branch : Build Unit) (b : BbName) (pending : BbName → Bool)
    → pending_of (branches ++ (branch, b) ∷ []) pending
      ≡ add_pending b (pending_of branches pending)
pending_of-append branches branch b pending =
    fun_ext (pending_of-append_at branches branch b pending)

after_pending-add :
    (after : Option BbName) (b : BbName) (pending : BbName → Bool)
    → after_pending after (add_pending b pending) ≡ add_pending b (after_pending after pending)
after_pending-add none b pending = refl
after_pending-add (some a) b pending = fun_ext λ n. ground arith

module _ {k j : ℕ} (later : k ≤ j) (pending : BbName → Bool) where
  -- What holds after the first loop.
  abbrev Declared : List Branch × Map ℤ BbName → FunctionBuilder → Type 0
  Declared d s =
      Inv j (pending_of d.0 pending) s
      × AllBelow s.next_block (targets d.1)
      × All (BranchKeeps k) d.0

  known_case :
      (case : ℤ) (branches : List Branch) (branch_map : Map ℤ BbName) (branch : Build Unit)
      (s : FunctionBuilder)
      → Keeps k branch
      → Declared (branches, branch_map) s
      → Declared
          (branches ++ (branch, s.next_block) ∷ [], (case, s.next_block) ∷ branch_map)
          (record s { next_block = s.next_block + 1 })
  known_case case branches branch_map branch s keeps h = (
    subst (λ p. Inv j p (record s { next_block = s.next_block + 1 }))
        (sym (pending_of-append branches branch s.next_block pending)) (declared-Inv s h.0),
    (omega arith, AllBelow-weaken _ _ (targets branch_map) (omega arith) h.1),
    All-append (BranchKeeps k) branches _ h.2 (keeps, tt),
  )

  declare_case-Yields :
      (case : ℤ) (branches : List Branch) (branch_map : Map ℤ BbName) (branch : Build Unit)
      → Keeps k branch
      → Yields
          (Declared (branches, branch_map))
          declare_block
          (λ b s. Declared (branches ++ (branch, b) ∷ [], (case, b) ∷ branch_map) s)
  declare_case-Yields case branches branch_map branch keeps = record {
    at = λ s h b s' e.
        let q = declare_block-eq e in
        subst (λ t. Declared (branches ++ (branch, b) ∷ [], (case, b) ∷ branch_map) t) (sym q.1)
          (subst
            (λ c.
              Declared (branches ++ (branch, c) ∷ [], (case, c) ∷ branch_map)
                (record s { next_block = s.next_block + 1 }))
            (sym q.0) (known_case case branches branch_map branch s keeps h));
  }

  try_insert-targets :
      (case : ℤ) (b : BbName) (m : Map ℤ BbName) {m' : Map ℤ BbName}
      → try_insert case b m ≡ some m'
      → m' ≡ (case, b) ∷ m
  try_insert-targets case b m e = ground arith

  declare_cases-Yields :
      (cases : List (ℤ × Build Unit)) (branches : List Branch) (branch_map : Map ℤ BbName)
      → All (λ c. Keeps k c.1) cases
      → Yields (Declared (branches, branch_map)) (declare_cases cases branches branch_map) Declared
  unfolding declare_cases
  declare_cases-Yields [] branches branch_map keeps = Yields-pure (branches, branch_map)
  declare_cases-Yields ((case, branch) ∷ cases) branches branch_map keeps =
      Yields-bind (declare_case-Yields case branches branch_map branch keeps.0) λ b.
        Yields-lift (try_insert case b branch_map) λ m' e.
          rw (try_insert-targets case b branch_map e) (
            declare_cases-Yields cases (branches ++ (branch, b) ∷ []) ((case, b) ∷ branch_map)
              keeps.1)

  pending_after : Option BbName → List Branch → BbName → Bool
  pending_after after branches = after_pending after (pending_of branches pending)

  -- A block that is pending is declared.
  goto-Yields :
      (b : BbName) (p : BbName → Bool)
      → Yields (Inv j (add_pending b p)) (goto b) (λ _ s. Inv j (add_pending b p) s)
  unfolding goto
  goto-Yields b p =
      Yields-weaken (finish_block-Yields (Terminator.goto b))
        (λ s h. (h, (h.pending_below b (ground arith), tt)))

  get_or_declare-Yields :
      (after : Option BbName) (p : BbName → Bool)
      → Yields
          (Inv j (after_pending after p))
          (get_or_declare after)
          (λ b s. Inv j (add_pending b p) s)
  unfolding get_or_declare
  get_or_declare-Yields none p = record {
    at = λ s h b s' e. (declare_block-Yields.at s h b s' e).0;
  }
  get_or_declare-Yields (some b) p = Yields-pure b

  jump_after-Yields :
      (after : Option BbName) (p : BbName → Bool)
      → Yields
          (Inv j (after_pending after p))
          (jump_after after)
          (λ a s. Inv j (after_pending a p) s)
  unfolding jump_after
  jump_after-Yields after p =
      Yields-bind (get_or_declare-Yields after p)
        λ b. Yields-bind (goto-Yields b p) λ _. Yields-pure (some b)

  join_after-eq :
      (after : Option BbName) (s : FunctionBuilder) {a : Option BbName} {s' : FunctionBuilder}
      → join_after after s ≡ some (a, s')
      → ((a ≡ after) × (s' ≡ s)) ⊎ (jump_after after s ≡ some (a, s'))
  unfolding join_after
  join_after-eq after s e = ground arith

  join_after-Yields :
      (after : Option BbName) (p : BbName → Bool)
      → Yields
          (Inv j (after_pending after p))
          (join_after after)
          (λ a s. Inv j (after_pending a p) s)
  join_after-Yields after p = record {
    at = λ s h a s' e. elim (join_after-eq after s e) [
      | inl same ↦ rw (same.0, same.1) h
      | inr jumped ↦ (jump_after-Yields after p).at s h a s' jumped
    ];
  }

  build_branches-Yields :
      (branches : List Branch) (after : Option BbName)
      → All (BranchKeeps k) branches
      → Yields
          (Inv j (after_pending after (pending_of branches pending)))
          (build_branches branches after)
          (λ a s. Inv j (after_pending a pending) s)
  unfolding build_branches
  build_branches-Yields [] after keeps = Yields-pure after
  build_branches-Yields ((branch, b) ∷ branches) after keeps =
      Yields-bind
        (Yields-weaken (set_cur_block-Yields b) (λ s h.
          subst (λ p. Inv j p s) (after_pending-add after b (pending_of branches pending)) h))
        λ _. Yields-bind (keeps.0 j later (after_pending after (pending_of branches pending))) λ _.
          Yields-bind (join_after-Yields after (pending_of branches pending))
            λ a. build_branches-Yields branches a keeps.1

  set_after-Yields :
      (after : Option BbName)
      → Yields (Inv j (after_pending after pending)) (set_after after) (λ _ s. Inv j pending s)
  unfolding set_after
  set_after-Yields none = Yields-pure tt
  set_after-Yields (some b) = set_cur_block-Yields b

  -- The switch itself.
  finish_switch-Yields :
      (value : ValueExpr) (d : List Branch × Map ℤ BbName) (case : ℤ) (b : BbName)
      (fallback : Build Unit)
      → Yields
          (Declared (d.0 ++ (fallback, b) ∷ [], (case, b) ∷ d.1))
          (finish_block (Terminator.switch value d.1 b))
          (λ _ s. Inv j (pending_of (d.0 ++ (fallback, b) ∷ []) pending) s)
  finish_switch-Yields value d case b fallback =
      Yields-weaken (finish_block-Yields (Terminator.switch value d.1 b)) (λ s h. (h.0, h.1))

  switch_int-Yields :
      (value : ValueExpr) (cases : List (ℤ × Build Unit)) (fallback : Build Unit)
      → All (λ c. Keeps k c.1) cases
      → Keeps k fallback
      → Yields (Inv j pending) (switch_int value cases fallback) (λ _ s. Inv j pending s)
  unfolding switch_int
  switch_int-Yields value cases fallback keeps keeps_fallback =
      Yields-bind (Yields-weaken (declare_cases-Yields cases [] [] keeps) (λ s h. (h, tt, tt))) λ d.
        Yields-bind (declare_case-Yields (pos 0) d.0 d.1 fallback keeps_fallback) λ b.
          Yields-fact (λ s h. h.2)
            λ all_keep. Yields-bind (finish_switch-Yields value d (pos 0) b fallback) λ _.
              Yields-bind (build_branches-Yields (d.0 ++ (fallback, b) ∷ []) none all_keep)
                λ a. set_after-Yields a

-- A switch keeps the invariant if each of its closures does.
pub switch_int-Keeps :
    (k : ℕ) (value : ValueExpr) (cases : List (ℤ × Build Unit)) (fallback : Build Unit)
    → All (λ c. Keeps k c.1) cases
    → Keeps k fallback
    → Keeps k (switch_int value cases fallback)
switch_int-Keeps k value cases fallback keeps keeps_fallback j later pending =
    switch_int-Yields later pending value cases fallback keeps keeps_fallback

pub if_-Keeps :
    (k : ℕ) (condition : ValueExpr) (then_branch else_branch : Build Unit)
    → Keeps k then_branch
    → Keeps k else_branch
    → Keeps k (if_ condition then_branch else_branch)
unfolding if_
if_-Keeps k condition then_branch else_branch keeps keeps_else j later pending =
    Yields-lift _ λ value _.
      switch_int-Yields later pending value ((pos 1, then_branch) ∷ []) else_branch (keeps, tt)
        keeps_else

jump_back-eq :
    (cond : BbName) (s : FunctionBuilder) {s' : FunctionBuilder}
    → jump_back cond s ≡ some (tt, s')
    → (s' ≡ s) ⊎ (goto cond s ≡ some (tt, s'))
unfolding jump_back
jump_back-eq cond s e = ground arith

-- Jumping back is safe once the condition's block is declared.
jump_back-Keeps : (cond : BbName) → Keeps (suc cond) (jump_back cond)
unfolding goto
jump_back-Keeps cond j later pending = record {
  at = λ s h a s' e. elim (jump_back-eq cond s e) [
    | inl same ↦ rw same h
    | inr jumped ↦
        (finish_block-Yields (Terminator.goto cond)).at s (h, (omega (arith, h.declared), tt)) tt s'
          jumped
  ];
}

pub loop_body-Keeps :
    (cond : BbName) (body : Build Unit) → Keeps 0 body → Keeps (suc cond) (loop_body cond body)
unfolding loop_body
loop_body-Keeps cond body keeps =
    Keeps-bind (λ j _ pending. keeps j (omega arith) pending) (λ _. jump_back-Keeps cond)

raise-Inv :
    {j : ℕ} {pending : BbName → Bool} {s : FunctionBuilder} (j' : ℕ)
    → Inv j pending s
    → j' ≤ s.next_block
    → Inv j' pending s
raise-Inv j' h le = record {
  declared = le;
  started = h.started;
  start_zero = h.start_zero;
  covered = h.covered;
  pending_below = h.pending_below;
  cur_below = h.cur_below;
  blocks_below = h.blocks_below;
  args_known = h.args_known;
  ret_known = h.ret_known;
}

-- A while loop keeps the invariant if its body does.
pub while_-Keeps :
    (condition : ValueExpr) (body : Build Unit) → Keeps 0 body → Keeps 0 (while_ condition body)
unfolding while_
while_-Keeps condition body keeps j _ pending = Yields-bind declare_block-Yields λ cond.
    Yields-strengthen
      (Yields-bind
        (Yields-weaken
          (goto-Yields {k = 0} {j = max j (suc cond)} (omega arith) pending cond pending)
          (λ s h. raise-Inv (max j (suc cond)) h.0 (omega (arith, h.1, h.0.declared))))
        λ _. Yields-bind (set_cur_block-Yields cond) λ _.
          if_-Keeps (suc cond) condition (loop_body cond body) (pure tt)
            (loop_body-Keeps cond body keeps) (Keeps-pure tt) (max j (suc cond)) (omega arith)
            pending)
      (λ _ s h. raise-Inv j h (omega (arith, h.declared)))
