-- ===== src/Build/Closed/Invariant.antt =====
-- What holds of a `FunctionBuilder` while blocks are declared and not yet finished.
use minirust_contrib_fork.Prelude.{
  ℕ, ◌+◌, ◌≤◌, ◌<◌, Bool, true, false, ◌||◌, List, [], ◌∷◌, ◌++◌, Option, none, some, ◌≡◌, arith,
  ◌==◌, All, All-weaken,
}
use minirust_contrib_fork.Prelude.Int.{ℤ}
use minirust_contrib_fork.Prelude.Map.{Map, contains_key, nat_eq}
use minirust_contrib_fork.Lang.Syntax.{BbName, BasicBlock, Terminator, Statement}
use minirust_contrib_fork.Build.State.{
  CurBlock, new_cur_block, FunctionBuilder, declare_block, set_cur_block, push_statement,
  finish_block,
}

abbrev pub option_list : Option BbName → List BbName
option_list none = []
option_list (some b) = b ∷ []

abbrev pub targets : Map ℤ BbName → List BbName
targets [] = []
targets ((case, b) ∷ cases) = b ∷ targets cases

-- The blocks that a terminator may jump to.
abbrev pub successors : Terminator → List BbName
successors (Terminator.goto b) = b ∷ []
successors (Terminator.switch value cases fallback) = fallback ∷ targets cases
successors Terminator.unreachable = []
successors (Terminator.intrinsic op args ret next) = option_list next
successors (Terminator.call callee conv args ret next) = option_list next
successors Terminator.return = []

abbrev pub AllBelow : ℕ → List BbName → Type 0
AllBelow n = All (λ b. b < n)

abbrev pub BlockBelow : ℕ → BbName × BasicBlock → Type 0
BlockBelow n e = (e.0 < n) × AllBelow n (successors e.1.terminator)

abbrev pub is_cur : Option CurBlock → BbName → Bool
is_cur none n = false
is_cur (some b) n = b.name == n

abbrev pub AllKnown : {V : Type 0} → Map ℕ V → List ℕ → Type 0
AllKnown m = All (λ k. contains_key k m ≡ true)

-- At least `k` blocks are declared. Each of them is finished, or is the current block, or is
-- pending; and no other block is named anywhere. The arguments and the return local are locals.
pub record Inv (k : ℕ) (pending : BbName → Bool) (s : FunctionBuilder) : Type 0 where
  pub declared : k ≤ s.next_block
  pub started : 0 < s.next_block
  pub start_zero : s.start ≡ 0
  pub covered :
      (n : BbName)
      → n < s.next_block
      → (contains_key n s.blocks || is_cur s.cur_block n || pending n) ≡ true
  pub pending_below : (n : BbName) → pending n ≡ true → n < s.next_block
  pub cur_below : (n : BbName) → is_cur s.cur_block n ≡ true → n < s.next_block
  pub blocks_below : All (BlockBelow s.next_block) s.blocks
  pub args_known : AllKnown s.locals s.args
  pub ret_known : AllKnown s.locals (option_list s.ret)

pub AllBelow-weaken : (m n : ℕ) (l : List BbName) → m ≤ n → AllBelow m l → AllBelow n l
AllBelow-weaken m n l h = All-weaken _ _ l (λ x p. omega arith)

pub BlockBelow-weaken :
    (m n : ℕ) (l : Map BbName BasicBlock) → m ≤ n → All (BlockBelow m) l → All (BlockBelow n) l
BlockBelow-weaken m n l h = All-weaken _ _ l (λ e p. (omega arith, AllBelow-weaken m n _ h p.1))

abbrev pub add_pending : BbName → (BbName → Bool) → BbName → Bool
add_pending b pending n = b == n || pending n

module _ {s s' : FunctionBuilder} where
  pub declare_block-eq :
      {b : BbName}
      → declare_block s ≡ some (b, s')
      → (b ≡ s.next_block) × (s' ≡ record s { next_block = s.next_block + 1 })
  unfolding declare_block
  declare_block-eq e = ground arith

  pub set_cur_block-eq :
      (b : BbName)
      → set_cur_block b s ≡ some (tt, s')
      → (contains_key b s.blocks ≡ false)
        × (s.cur_block ≡ none)
        × (s' ≡ record s { cur_block = some (new_cur_block b) })
  unfolding set_cur_block
  set_cur_block-eq b e = ground arith

  pub push_statement-eq :
      (t : Statement)
      → push_statement t s ≡ some (tt, s')
      → (c : CurBlock) × (s.cur_block ≡ some c)
        × (s' ≡ record s { cur_block = some (record c { statements = c.statements ++ t ∷ [] }) })
  unfolding push_statement
  push_statement-eq t e = ground arith

  pub finish_block-eq :
      (t : Terminator)
      → finish_block t s ≡ some (tt, s')
      → (c : CurBlock) × (s.cur_block ≡ some c)
        × (contains_key c.name s.blocks ≡ false)
        × (s' ≡ record s {
          blocks = (c.name, record { statements = c.statements; terminator = t }) ∷ s.blocks;
          cur_block = none;
        })
  unfolding finish_block
  finish_block-eq t e = ground arith

module _ {k : ℕ} {pending : BbName → Bool} where
  pub declared-Inv :
      (s : FunctionBuilder)
      → Inv k pending s
      → Inv k (add_pending s.next_block pending) (record s { next_block = s.next_block + 1 })
  declared-Inv s h = record {
    declared = omega (arith, h.declared);
    started = omega arith;
    start_zero = h.start_zero;
    covered = λ n p. ground (arith, h.covered n);
    pending_below = λ n p. ground (arith, h.pending_below n);
    cur_below = λ n p. ground (arith, h.cur_below n);
    blocks_below = BlockBelow-weaken _ _ s.blocks (omega arith) h.blocks_below;
    args_known = h.args_known;
    ret_known = h.ret_known;
  }

  pub current-Inv :
      (s : FunctionBuilder) (b : BbName)
      → s.cur_block ≡ none
      → Inv k (add_pending b pending) s
      → Inv k pending (record s { cur_block = some (new_cur_block b) })
  unfolding new_cur_block
  current-Inv s b e h = record {
    declared = h.declared;
    started = h.started;
    start_zero = h.start_zero;
    covered = λ n p. ground (arith, h.covered n);
    pending_below = λ n p. ground (arith, h.pending_below n);
    cur_below = λ n p. ground (arith, h.pending_below n);
    blocks_below = h.blocks_below;
    args_known = h.args_known;
    ret_known = h.ret_known;
  }

  pub pushed-Inv :
      (s : FunctionBuilder) (c : CurBlock) (l : List Statement)
      → s.cur_block ≡ some c
      → Inv k pending s
      → Inv k pending (record s { cur_block = some (record c { statements = l }) })
  pushed-Inv s c l e h = record {
    declared = h.declared;
    started = h.started;
    start_zero = h.start_zero;
    covered = λ n p. ground (arith, h.covered n);
    pending_below = λ n p. h.pending_below n p;
    cur_below = λ n p. ground (arith, h.cur_below n);
    blocks_below = h.blocks_below;
    args_known = h.args_known;
    ret_known = h.ret_known;
  }

  pub finished-Inv :
      (s : FunctionBuilder) (c : CurBlock) (bb : BasicBlock)
      → s.cur_block ≡ some c
      → AllBelow s.next_block (successors bb.terminator)
      → Inv k pending s
      → Inv k pending (record s { blocks = (c.name, bb) ∷ s.blocks; cur_block = none })
  finished-Inv s c bb e below h = record {
    declared = h.declared;
    started = h.started;
    start_zero = h.start_zero;
    covered = λ n p. ground (arith, h.covered n);
    pending_below = λ n p. h.pending_below n p;
    cur_below = λ n p. cc;
    blocks_below = ((ground (arith, h.cur_below c.name), below), h.blocks_below);
    args_known = h.args_known;
    ret_known = h.ret_known;
  }
