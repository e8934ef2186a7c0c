-- ===== src/Build/Control.antt =====
-- The control structures of `FunctionBuilder` in tooling/miniutil/src/build/terminator.rs. A
-- closure that gets the builder is an action on the builder.
use minirust_contrib_fork.Prelude.{List, [], ◌∷◌, ◌++◌, Option, none, some}
use minirust_contrib_fork.Prelude.Int.{ℤ, pos}
use minirust_contrib_fork.Prelude.Map.{Map, try_insert, int_eq}
use minirust_contrib_fork.Lang.Syntax.{BbName, ValueExpr, Terminator}
use minirust_contrib_fork.Build.TyConv.{RustTy}
use minirust_contrib_fork.Build.Expr.{bool_to_int}
use minirust_contrib_fork.Build.State.{
  Build, ◌>>=◌, ◌>>◌, lift, pure, declare_block, set_cur_block, finish_block,
}
use minirust_contrib_fork.Build.Methods.{goto}

-- A closure beside the block that it builds.
abbrev pub Branch : Type 0
Branch = Build Unit × BbName

-- The first loop of `switch_int`.
unfoldable pub declare_cases :
    List (ℤ × Build Unit) → List Branch → Map ℤ BbName → Build (List Branch × Map ℤ BbName)
declare_cases [] branches branch_map = pure (branches, branch_map)
declare_cases ((case, branch) ∷ cases) branches branch_map = do
  new_block ← declare_block
  branch_map' ← lift (try_insert case new_block branch_map)
  declare_cases cases (branches ++ (branch, new_block) ∷ []) branch_map'

-- `Option::get_or_insert_with(|| self.declare_block())`
unfoldable pub get_or_declare : Option BbName → Build BbName
get_or_declare none = declare_block
get_or_declare (some block) = pure block

-- Jumps to the block after the switch, which it declares the first time.
unfoldable pub jump_after : Option BbName → Build (Option BbName)
jump_after after_switch_block = do
  jump_to_block ← get_or_declare after_switch_block
  goto jump_to_block
  pure (some jump_to_block)

-- If the current block is not finished, jump to the block after the switch.
unfoldable pub join_after : Option BbName → Build (Option BbName)
join_after after_switch_block s = elim s.cur_block [
  | none ↦ some (after_switch_block, s)
  | some _ ↦ jump_after after_switch_block s
]

-- The second loop of `switch_int`.
unfoldable pub build_branches : List Branch → Option BbName → Build (Option BbName)
build_branches [] after_switch_block = pure after_switch_block
build_branches ((branch, block) ∷ branches) after_switch_block = do
  set_cur_block block
  branch
  after ← join_after after_switch_block
  build_branches branches after

unfoldable pub set_after : Option BbName → Build Unit
set_after none = pure tt
set_after (some after_switch_block) = set_cur_block after_switch_block

unfoldable pub switch_int : ValueExpr → List (ℤ × Build Unit) → Build Unit → Build Unit
switch_int value cases fallback = do
  declared ← declare_cases cases [] []
  fallback_block ← declare_block
  finish_block (Terminator.switch value declared.1 fallback_block)
  after ← build_branches (declared.0 ++ (fallback, fallback_block) ∷ []) none
  set_after after

unfoldable pub if_ : ValueExpr → Build Unit → Build Unit → Build Unit
if_ condition then_branch else_branch = do
  value ← lift (bool_to_int RustTy.u8 condition)
  switch_int value ((pos 1, then_branch) ∷ []) else_branch

-- A loop's body jumps back to the condition unless it has ended its last block.
unfoldable pub jump_back : BbName → Build Unit
jump_back cond s = elim s.cur_block [ none ↦ some (tt, s) | some _ ↦ goto cond s ]

unfoldable pub loop_body : BbName → Build Unit → Build Unit
loop_body cond body = do body; jump_back cond

unfoldable pub while_ : ValueExpr → Build Unit → Build Unit
while_ condition body = do
  cond ← declare_block
  goto cond
  set_cur_block cond
  if_ condition (loop_body cond body) (pure tt)
