-- ===== src/Lib.antt =====
-- MiniRust: the builder and the printer of programs, the chunks of unions, the representation of
-- values, the basic memory, and Tree Borrows.
--
-- MiniRust is a language given by a specification (spec/), with tools around it: `miniutil`
-- builds, prints and runs programs, and `minimize` translates Rust programs to MiniRust. The
-- builder and the translation make values of the abstract syntax of spec/lang; the abstract machine
-- runs them on a memory model, of which Tree Borrows is the one that tracks aliasing.
--
-- Files:
-- * Lang/Types is spec/lang/types.md, spec/mem/pointer.md and, for the target `x86_64`,
--   spec/prelude/target.md: the types, their sizes and alignments. Lang/Syntax is
--   spec/lang/syntax.md: expressions, statements, terminators, functions, programs.
-- * Build/Ty, Build/TyConv, Build/Expr and Build/Terminator are the free functions of
--   tooling/miniutil/src/build (ty.rs, ty_conv.rs, expr.rs, terminator.rs, statement.rs), one
--   definition for each function, with its name. Build/Program is build/function.rs,
--   build/global.rs and `ProgramBuilder` of build/mod.rs.
-- * Build/State is `FunctionBuilder` of build/mod.rs: its record, and a monad of actions that change
--   it. Build/Methods and Build/Control are its methods in build/statement.rs and
--   build/terminator.rs; a closure is an action. Build/Closed is about them: Invariant says what
--   every method keeps, Rules, Locals, Methods and Control that it is kept, Client what a client of
--   the public methods can do, Graph what it gets in the end.
-- * Minimize/Chunks is tooling/minimize/src/chunks.rs. Used describes the bytes that hold data
--   without markers; Marks and Exact relate the two; Scan is about the last loop, Total about panics
--   by way of Capacity, and Wide about wide pointers.
-- * TreeBorrows/StateMachine is spec/mem/tree_borrows/state_machine.md; its Laws are about one
--   transition and its Accesses about lists of them. TreeBorrows/Tree is the part of
--   spec/mem/tree_borrows/tree.md that accesses a tree and releases protectors, with Safety and
--   Release about it.
-- * Fmt/Ty, Fmt/Expr and Fmt/Function are tooling/miniutil/src/fmt/ty.rs, fmt/expr.rs and
--   fmt/function.rs: the texts of types, expressions and functions. Fmt/Program is fmt/global.rs,
--   `fmt_comptypes` of fmt/ty.rs and `fmt_program` of fmt/mod.rs. Fmt/Comptypes is the table of
--   composite types that they fill, an action on which is a function that gets the table; Table is
--   about what they do to it, with Program for whole functions and Total for the loop that prints it,
--   and Printable about panics. The derived equality of `Type` and the texts of integers are the
--   fields of a record `Host` that they take.
-- * Mem/Pointer is spec/mem/pointer.md and the bytes of spec/mem/interface.md, Mem/Basic is
--   spec/mem/basic.md, Mem/Interface what spec/mem/interface.md derives. In Mem/Basic, Found,
--   Offsets and Access say what an operation that returns did, Frame and Fresh what is read later,
--   Steps what sequences of operations are, Invariant, Disjoint and Freed what these keep, Total is
--   about panics.
-- * Lang/Value is spec/lang/values.md. Lang/Bytes and Lang/Representation are
--   spec/lang/representation.md, with the order by definedness in Lang/Value. Lang/Endianness has
--   the byte order of the target as a parameter, with its laws; Little is one that has them. Size,
--   Galois, Monotone and Decoded are about `decode`, by way of Order, Scalars, Elements, Reads and More;
--   WellFormed is `Value::check_wf` of spec/lang/well-formed.md, and Pointers and RoundTrip
--   are about all three, by way of Written and Laid.
-- * Prelude has what they share; each Tests runs definitions and applies theorems.
--
-- How the code is read: a panic is `none`, in the code of spec/ the outcome `panics` beside `ub`, which
-- is undefined behaviour without its message. A `Name`, a `Size`, an `Offset` and an `Align` is a
-- number, an `Int` an integer; a `Map` is an association list and a `List` a list. These come from
-- `libspecr`, the standard library of the specification's language. The counters of the builders are
-- `u32`, and one more than 2 ^ 32 - 1 is a panic. In chunks.rs a `usize` has 64 bits: a size, an offset
-- or an index beyond them is a panic at its `try_to_usize().unwrap()`, and so is a vector of markers
-- beyond `isize::MAX` bytes, where it is made and where `push` doubles it. The vector of chunks is a
-- list: at the sizes below 2 ^ 48 for which absence of panics is stated it stays below that limit,
-- and an allocation that the host refuses is no panic. A recursive type that holds a list of itself is two
-- data types. Loops are structural recursion on the list or the number that they walk, so that
-- they need no fuel: the markers of `calc_chunks`, the sizes of accesses, the children of a node.
--
-- Only in `fmt_comptypes` the table grows while it is walked: its fuel is the number of composite types in
-- it. `Result` and `Option` of the specification are `Outcome`: `ret`, `ub` for a failure of either
-- kind, and `panics`. The address that `allocate` picks is an argument of it, since the choice is
-- the adversary's; so are the handlers of the extra data that more complicated memory models pass.
--
-- Not modelled: the abstract machine, well-formedness of types and programs, `typed_load`,
-- `typed_store` and `retag_val`, data races and exposed pointers, which are left for want of size, as
-- are `access_node`, `add_node` and the memory interface of Tree Borrows; and the rest of
-- tooling/minimize, which calls the Rust compiler on nearly every line. Input, output and threads of
-- the host are not either.
mod Prelude
pub mod Lang
pub mod Build
pub mod Minimize
pub mod TreeBorrows
pub mod Fmt
pub mod Mem
