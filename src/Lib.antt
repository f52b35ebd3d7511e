-- ===== src/Lib.antt =====
-- The verification library of cpuattn, an attention engine for CPUs (src/cpuattn): a caller writes
-- an operator as expressions, the library checks it and a call of it, plans how to run it,
-- compiles a kernel, tunes among the plans, and runs the winner.
--
-- The parts, the files that model them, and how they meet:
-- * Core/Float, Core/Expr (src/cpuattn/core/expr.py): the expression tree with its builders
--   (Expr/Build), the comparison of canonical forms (Expr/Canonical), and the evaluator (Expr/Eval),
--   with the types that builders keep in Expr/Typing and when it returns in
--   Expr/Returns. A float literal is its bit pattern.
-- * Core/Transition (core/transition.py), Core/RowNorm (core/rownorm.py): the steps of a Linear
--   state program, and row norms with the checks of their constructor and the interpreter of the
--   online protocol and of the merge (RowNorm/Online); RowNorm/Returns and RowNorm/Interpreter hold
--   proofs. RowNorm/Protocols has the built-in row norms, and RowNorm/BuiltIns their proofs.
-- * Core/Tensor (core/tensor.py), Core/Operator (core/operator.py), Core/Validate
--   (core/validate.py): the contract of the arrays that a caller passes, the two operator classes,
--   and the checks of a definition (Validate/Definition) and of a call. The shapes that a checked
--   call has are a record in Validate/Contract, which is all that the planner uses of it.
--   Core/Canonical has the canonical dictionaries and the fingerprint of an operator.
-- * Native/Lowering (native/lowering.py): which Linear definitions may be run in blocks, with
--   proofs in Lowering/Coefficient, Plans and Uniform.
-- * Schedule/Host (hardware/host.py), Schedule/Plan (schedule/plan.py), Schedule/Align and
--   Schedule/Memory (schedule/planning.py): hosts, plans with the checks of their constructors, and
--   the workspace regions of a plan, with the strides of the kernels in Memory/Kernels.
--   Schedule/Launch (schedule/planning.py) has the processors that a plan runs on: the physical
--   processors of each node and the worker groups (Launch/Nodes, Groups), the round-robin choice
--   (Launch/Balance), and the launches of a decomposition with build_all (Launch/Choice, Plans,
--   Chosen).
-- * Native/Backend (native/backends): the backends; Backend/Enumerate has the code plans that each
--   offers, Accepted, Kernels and Offers the proofs. Native/Planning composes them with the planner,
--   as Runtime._plans does on a miss of its cache, with proofs in Planning/Ready.
-- * Runtime/Lengths and Runtime/Packing (runtime.py), Runtime/Workspace (native/executor.py): the
--   padded and bucketed key lengths, the arena and the argument templates of the executor, and the
--   stream of the packed K over the runs of a runtime. A run is a function of the state and of what
--   the compiler and the native calls answer (Answers); Packing/Measured has the two runs of a
--   measurement, and Packing/Stream the states that runs
--   reach.
-- * Tuning/Tuner (tuning/tuner.py): Tuner.select over the candidates of one context, with the loop
--   on turns, the interleaved finalists and the winner; Tuning/Winner, Least, Names and Fresh hold
--   proofs. Tuning/Cache (tuning/cache.py) is the cache of selections, with its files as a
--   dictionary of texts and JSON as a data type; Cache/Restart, Tame, Checks and Answers hold
--   proofs, and Cache/History the questions, publications and restarts in their order.
--   Tuning/Anchors and Tuning/WorkerCount (tuning/worker_count.py) are the tuner that measures a
--   plan for each number of workers, with proofs in Tuning/Anchored and Tuning/Representatives.
-- Prelude holds the shared types, tests, lists and dictionaries; Tests runs the definitions.
--
-- Exceptions are values (Prelude/Outcomes): the class of the exception with the fixed part of its
-- message. Python's integers that are sizes, lengths or identifiers are natural numbers. Sets of
-- names are lists that are compared by membership.
--
-- Parameters, for code outside the repository: NumPy (Expr/Eval: its values and primitives, with
-- the hypotheses of Expr/Returns that operations on numbers and on floats of NumPy do not raise
-- under np.errstate, of which a division of two numbers of Python is no part, IsDocumented, and of
-- Lowering/Coefficient that a sign does not make NumPy raise, IsSigned, and that IEEE
-- multiplication is commutative, has the unit 1.0 and lets a sign through, MulLaws),
-- str.isidentifier, SHA-256, the identity of a plan (a digest of JSON), whether two code plans are
-- equal, the answers of the compiler and of the native calls, json.dumps and json.loads, Python's
-- order of texts, which is total and transitive (TextOrder), the text of a number, and the tuner's
-- measure and choose_next.
--
-- Fuel: int.bit_length in Runtime/Lengths has the number itself, which halving exhausts no sooner
-- than it reaches zero; the loop of Tuner.select has any number of turns, and Tuning/Fresh shows
-- how many suffice for a chooser that never returns to a measured plan. The two loops of
-- Schedule/Launch on growing numbers have the limit itself, and Launch/Balance shows that it is
-- enough.
--
-- Not modelled: the cost model of the single-core tuner, the emission of C and the kernels (C
-- templates), the compiler and all other input and output, the canonical dictionaries of plans and
-- calls, diagnostics and logging. Two canonical forms are compared by value: that Python takes one
-- and the same nan object as equal to itself is not modelled. Nothing is shown of the memo of
-- accepted definitions, which needs that the fingerprint determines the check.
pub mod Prelude
pub mod Core
pub mod Native
pub mod Schedule
pub mod Runtime
pub mod Tuning
pub mod Tests
