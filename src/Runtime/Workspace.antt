-- ===== src/Runtime/Workspace.antt =====
-- src/cpuattn/native/executor.py: the workspace arena, the cached argument templates and the launch
-- arrays of the executor.
use cpuattn.Prelude.{
  ℕ, ◌+◌, String, ◌≡◌, refl, sym, ◌∙◌, ap, Bool, true, false, not, ◌&&◌, Option, none, some, List,
  [], ◌∷◌, ◌==◌, string_eq, nat_eq, pair_eq, list_eq, contains, Result, ok, runtime_error, ◌>>◌,
  raise_if, if◌then◌else◌, Bool-cases, Option-cases, inl, inr, arith,
}
use cpuattn.Prelude.Dict.{Dict, get, put, get-put}

-- A mapped arena, by the order of the calls of mmap, with the plan it is for.
pub record Executor : Type 0 where
  pub arena : Option (String × ℕ)
  pub next_arena : ℕ
  pub prepared : List (String × List ℕ)
  pub templates : Dict (String × String) ℕ

unfoldable pub new_executor : Executor
new_executor = record { arena = none; next_arena = 0; prepared = []; templates = [] }

-- Executor.close
unfoldable pub close : Executor → Executor
close e = record { arena = none; next_arena = e.next_arena; prepared = e.prepared; templates = [] }

abbrev pub is_keyed : Option (String × ℕ) → String → Bool
is_keyed none identity = false
is_keyed (some (key, serial)) identity = key == identity

-- A fresh arena for the plan, on an executor that is closed.
unfoldable pub map_arena : String → Executor → Executor
map_arena identity e = record {
  arena = some (identity, e.next_arena);
  next_arena = e.next_arena + 1;
  prepared = e.prepared;
  templates = e.templates;
}

abbrev arena_or : ℕ → Option (String × ℕ) → ℕ
arena_or n none = n
arena_or n (some (key, serial)) = serial

-- Executor._workspace_for: the arena, and the executor behind it.
unfoldable pub workspace_for : String → Executor → ℕ × Executor
unfolding close map_arena
workspace_for identity e =
    if is_keyed e.arena identity
    then (arena_or 0 e.arena, e)
    else (e.next_arena, map_arena identity (close e))

abbrev store_template : String × String → ℕ × Executor → ℕ × Executor
store_template token (workspace, e) = (
  workspace,
  record {
    arena = e.arena;
    next_arena = e.next_arena;
    prepared = e.prepared;
    templates = put token workspace e.templates;
  },
)

-- The template that is cached for the token, or a new one for the plan's workspace.
abbrev template_or : String → String → Executor → Option ℕ → ℕ × Executor
template_or artifact identity e (some workspace) = (workspace, e)
template_or artifact identity e none =
    store_template (artifact, identity) (workspace_for identity e)

-- Executor._packed_template: the workspace that the template points to.
unfoldable pub packed_template : String → String → Executor → ℕ × Executor
unfolding workspace_for
packed_template artifact identity e =
    template_or artifact identity e (get (artifact, identity) e.templates)

-- Executor.prepare_launch, with the status of the native call.
unfoldable pub prepare_launch : String → List ℕ → ℕ → Executor → Result Executor
prepare_launch artifact cpu_ids status e =
    if contains e.prepared (artifact, cpu_ids)
    then ok e
    else (raise_if (not (status == 0)) (runtime_error "native launch preconditioning failed")
        >> ok (record {
          arena = e.arena;
          next_arena = e.next_arena;
          prepared = (artifact, cpu_ids) ∷ e.prepared;
          templates = e.templates;
        }))

-- Every cached template points to the arena that is mapped, for the plan of the template.
abbrev pub IsLive : Executor → Type 0
IsLive e =
    (artifact identity : String) (workspace : ℕ)
    → get (artifact, identity) e.templates ≡ some workspace
    → e.arena ≡ some (identity, workspace)

abbrev pub UsesArena : String → ℕ × Executor → Type 0
UsesArena identity (workspace, e) = (e.arena ≡ some (identity, workspace)) × IsLive e

pub new_executor-IsLive : IsLive new_executor
unfolding new_executor get
new_executor-IsLive artifact identity workspace h = cc

keyed_arena :
    (arena : Option (String × ℕ)) (identity : String)
    → is_keyed arena identity ≡ true
    → arena ≡ some (identity, arena_or 0 arena)
keyed_arena none identity h = cc
keyed_arena (some (key, serial)) identity h = ground (arith, string_eq.beq_iff key identity)

workspace_for-live :
    (identity : String) (e : Executor) → IsLive e → UsesArena identity (workspace_for identity e)
unfolding workspace_for close map_arena get
workspace_for-live identity e live = elim (Bool-cases (is_keyed e.arena identity)) [
  | inl keyed ↦ rw keyed (keyed_arena e.arena identity keyed, live)
  | inr other ↦ rw other (refl, λ a i w h. cc)
]

store_template-IsLive :
    (artifact identity : String) (workspace : ℕ) (e : Executor)
    → e.arena ≡ some (identity, workspace)
    → IsLive e
    → IsLive (store_template (artifact, identity) (workspace, e)).1
store_template-IsLive artifact identity workspace e mapped live a i w h =
    let told = sym (get-put (a, i) (artifact, identity) workspace e.templates) ∙ h in
    elim (Bool-cases (string_eq.beq a artifact && string_eq.beq i identity)) [
      | inl same ↦ ground (arith, string_eq.beq_iff i identity, mapped, (rw same at told))
      | inr other ↦ live a i w (rw other at told)
    ]

-- Where every cached template points to the arena that is mapped, so does the template that a run
-- uses, the arena is that of the run's plan, and every cached template points to it still.
pub packed_template-live :
    (artifact identity : String) (e : Executor)
    → IsLive e
    → UsesArena identity (packed_template artifact identity e)
unfolding packed_template
packed_template-live artifact identity e live =
    elim (Option-cases (get (artifact, identity) e.templates)) [
      | inr (workspace, hit) ↦
          rw (packed_template, hit) (live artifact identity workspace hit, live)
      | inl miss ↦
          let (mapped, kept) = workspace_for-live identity e live in
          let found = workspace_for identity e in
          rw (packed_template, miss)
            (mapped, store_template-IsLive artifact identity found.0 found.1 mapped kept)
    ]

-- While the arena of the plan is mapped, a run of the plan keeps it.
pub packed_template-same :
    (artifact identity : String) (workspace : ℕ) (e : Executor)
    → IsLive e
    → e.arena ≡ some (identity, workspace)
    → (packed_template artifact identity e).0 ≡ workspace
unfolding packed_template workspace_for
packed_template-same artifact identity workspace e live mapped =
    elim (Option-cases (get (artifact, identity) e.templates)) [
      | inr (found, hit) ↦
          let now = live artifact identity found hit in
          rw (packed_template, hit) (ap (arena_or 0) (sym now ∙ mapped))
      | inl miss ↦
          rw
            (
              packed_template,
              miss,
              workspace_for,
              mapped,
              (string_eq.beq_iff identity identity).1 refl,
            )
            refl
    ]
