-- ===== src/Gate/Registry.antt =====
-- rmsgate/processes.go: how each process degrades, and its deadline. An unknown process fails closed.
use backend_pkg.Common.{
  ℕ, ◌≡◌, refl, List, [], ◌∷◌, Bytes, codes, ◌=ᵇ◌, if◌then◌else◌, Option, none, some, lookup,
  insert, lookup-insert, arith,
}

pub data FailMode : Type 0 where
  fail_closed fail_open : FailMode

pub mode_string : FailMode → Bytes
mode_string fail_open = codes "fail-open"
mode_string fail_closed = codes "fail-closed"

-- A deadline is a number of nanoseconds.
pub record ProcessDef : Type 0 where
  pub process : Bytes
  pub mode : FailMode
  pub timeout : ℕ

pub record Registry : Type 0 where
  pub defs : List (Bytes × ProcessDef)

-- `for _, d := range defs { m[d.Process] = d }`.
register_defs : List ProcessDef → List (Bytes × ProcessDef) → List (Bytes × ProcessDef)
register_defs [] m = m
register_defs (d ∷ ds) m = register_defs ds (insert d.process d m)

pub new_registry : List ProcessDef → Registry
unfolding register_defs
new_registry ds = record { defs = register_defs ds [] }

abbrev pub mode_of : Option ProcessDef → FailMode
mode_of none = fail_closed
mode_of (some d) = d.mode

abbrev timeout_of : Option ProcessDef → ℕ
timeout_of none = 0
timeout_of (some d) = d.timeout

-- `none` is a nil registry.
pub mode : Option Registry → Bytes → FailMode
mode none process = fail_closed
mode (some r) process = mode_of (lookup process r.defs)

pub timeout : Option Registry → Bytes → ℕ
timeout none process = 0
timeout (some r) process = timeout_of (lookup process r.defs)

-- The last definition of a process in the list.
abbrev last_def : Bytes → List ProcessDef → Option ProcessDef
last_def process [] = none
last_def process (d ∷ ds) = elim (last_def process ds) [
  | some e ↦ some e
  | none ↦ if d.process =ᵇ process then some d else none
]

abbrev or_else : Option ProcessDef → Option ProcessDef → Option ProcessDef
or_else none o = o
or_else (some d) o = some d

lookup-register_defs :
    (process : Bytes) (ds : List ProcessDef) (m : List (Bytes × ProcessDef))
    → lookup process (register_defs ds m) ≡ or_else (last_def process ds) (lookup process m)
unfolding register_defs
lookup-register_defs process [] m = refl
lookup-register_defs process (d ∷ ds) m = ground (
  arith,
  lookup-register_defs process ds (insert d.process d m),
  lookup-insert d.process process d m,
)

-- Of a registry built from a list, a process has the mode and the deadline of its last definition in
-- the list; one that has none fails closed, with the deadline of the client.
new_registry_lem :
    (ds : List ProcessDef) (process : Bytes)
    → (mode (some (new_registry ds)) process ≡ mode_of (last_def process ds))
      × (timeout (some (new_registry ds)) process ≡ timeout_of (last_def process ds))
unfolding new_registry mode timeout lookup
new_registry_lem ds process = ground (arith, lookup-register_defs process ds [])
