-- ===== src/Operation/Processes/Exclusion.antt =====
-- Mutual exclusion and at-most-once application over every run of the processes.
use rygnal_core.Common.{◌≡◌, refl, Bool, true, false, List, [], ◌∷◌, some, arith, String}
use mathlib.Core.List.{Memᴰ}
use rygnal_core.Operation.{
  reserved, applying, applied, is_incomplete, OperationRecord, OperationReservation, Database,
}
use rygnal_core.Operation.Store.{read_operation}
use rygnal_core.Operation.Transition.{
  to_applying, to_applied, to_failed, mark_applying, mark_applied,
}
use rygnal_core.Operation.Consistent.{Consistent}
use rygnal_core.Operation.Consistent.Reserve.{reserve-Consistent}
use rygnal_core.Operation.Consistent.Update.{Genuine, owned_transition-Consistent}
use rygnal_core.Operation.Consistent.Recover.{recover_terminal-Consistent}
use rygnal_core.Operation.Recovery.{recovered_change}
use rygnal_core.Operation.Processes.{
  System, start, Reach, here, next, Step, reserve, answer_reserved, begin, answer_begun, finish,
  read_failing, inspect_failing, fail, read_incomplete, find_evidence, inspect_incomplete, recover,
  closing_change,
}
use rygnal_core.Operation.Processes.Owners.{AllGenuine, Step-AllGenuine}
use rygnal_core.Operation.Processes.Settled.{Step-Settled}

pub record IsSound (s : System) : Type 0 where
  pub consistent : Consistent s.db
  pub genuine : AllGenuine s.db s.issued

Genuine-of_mem :
    (db : Database) (v : OperationReservation) (vs : List OperationReservation)
    → Memᴰ v vs
    → AllGenuine db vs
    → Genuine v.record_of db
Genuine-of_mem db v [] m g = elim m [ ]
Genuine-of_mem db v (x ∷ vs) (Memᴰ.head e) g = rw e g.0
Genuine-of_mem db v (x ∷ vs) (Memᴰ.tail m) g = Genuine-of_mem db v vs m g.1

closing-terminal :
    (r : OperationRecord) (evidence : Bool)
    → is_incomplete (closing_change r evidence).next_state ≡ false
unfolding recovered_change
closing-terminal r true = refl
closing-terminal r false = refl

Step-Consistent : {s t : System} → Step s t → IsSound s → Consistent t.db
unfolding mark_applying mark_applied
Step-Consistent {s} (reserve h a fresh) i = reserve-Consistent h a s.db i.consistent
Step-Consistent {s} (begin v now m) i =
    owned_transition-Consistent v reserved to_applying false now s.db i.consistent
      (Genuine-of_mem s.db v s.issued m i.genuine) refl refl
Step-Consistent {s} (finish v result now m) i =
    owned_transition-Consistent v applying (to_applied result) true now s.db i.consistent
      (Genuine-of_mem s.db v s.issued m i.genuine) refl refl
Step-Consistent {s} (fail v error now p m) i =
    owned_transition-Consistent v applying (to_failed error) true now s.db i.consistent
      (Genuine-of_mem s.db v s.issued m i.genuine) refl refl
Step-Consistent {s} (recover r evidence now p) i =
    recover_terminal-Consistent r (closing_change r evidence) now s.db i.consistent
      (closing-terminal r evidence)
Step-Consistent {s} (answer_reserved k p) i = i.consistent
Step-Consistent {s} (answer_begun k p) i = i.consistent
Step-Consistent {s} (read_failing v error o m found) i = i.consistent
Step-Consistent {s} (inspect_failing h v error o x p look clean) i = i.consistent
Step-Consistent {s} read_incomplete i = i.consistent
Step-Consistent {s} (find_evidence h r p gone) i = i.consistent
Step-Consistent {s} (inspect_incomplete h r x p gone look clean) i = i.consistent

-- Every step of every process keeps the system sound.
pub Step-IsSound : {s t : System} → Step s t → IsSound s → IsSound t
Step-IsSound st i = record {
  consistent = Step-Consistent st i;
  genuine = Step-AllGenuine st i.consistent i.genuine;
}

pub start-IsSound : IsSound start
start-IsSound = record {
  consistent = record {
    operations_keyed = tt;
    leases_keyed = tt;
    held = λ r l e. cc;
    leased = λ k o e inc. cc;
  };
  genuine = tt;
}

pub Reach-IsSound : {s t : System} → IsSound s → Reach s t → IsSound t
Reach-IsSound i here = i
Reach-IsSound i (next r st) = Step-IsSound st (Reach-IsSound i r)

-- However the transactions, reads and inspections of reservations, transitions, failures and
-- recoveries interleave from the empty store, two operations that are both reserved or applying on
-- one resource are the same operation.
pub mutual_exclusion :
    {s : System} (j k : String) (p q : OperationRecord)
    → Reach start s
    → read_operation j s.db ≡ some p
    → read_operation k s.db ≡ some q
    → is_incomplete p.state ≡ true
    → is_incomplete q.state ≡ true
    → p.resource_key ≡ q.resource_key
    → j ≡ k
mutual_exclusion {s} j k p q r hp hq ip iq same =
    let i = Reach-IsSound start-IsSound r in
    let (l, lp, kl) = i.consistent.leased j p hp ip in
    let (m, lq, km) = i.consistent.leased k q hq iq in ground arith

-- Once an operation is applied, after any run from the empty store, its row stays as it is through
-- every later step of every process, the transaction of a recovery that listed it earlier included.
pub applied_forever :
    {s t : System} (k : String) (o : OperationRecord)
    → Reach start s
    → Reach s t
    → read_operation k s.db ≡ some o
    → o.state ≡ applied
    → read_operation k t.db ≡ some o
applied_forever k o past here there done = there
applied_forever {s} k o past (next {t = u} r st) there done =
    Step-Settled k o done st (Reach-IsSound (Reach-IsSound start-IsSound past) r).consistent
      (applied_forever k o past r there done)
