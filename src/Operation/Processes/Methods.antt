-- ===== src/Operation/Processes/Methods.antt =====
-- The methods of the store as runs of the steps (src/rygnal/operation_store.py): what a method does
-- where no other process acts meanwhile.
use mathlib.Core.List.{Memᴰ}
use rygnal_core.Common.{◌≡◌, List}
use rygnal_core.Operation.{Database}
use rygnal_core.Operation.Processes.{Pending, System, Reach}

-- A run leads to these tables, and forgets no pending work.
abbrev pub Leads : System → Database → Type 0
Leads s d =
    (t : System) × Reach s t × (t.db ≡ d) × ((p : Pending) → Memᴰ p s.pending → Memᴰ p t.pending)
