-- ===== src/Netlink/Startup.antt =====
-- How the service of netlink/netlink.go starts, and what its two goroutines do to the processes at the
-- same time: loadProc goes through /proc while listen hears of new and ended processes. The lock makes
-- each change of the processes one step, but not the reading of a process and its entry, nor the change
-- and the signal that tells of it.
use mathlib.Core.Option.{none-ne-some}
use deepin_network_proxy.Prelude.{
  ℕ, ◌+◌, ◌-◌, arith, ◌≡◌, refl, ◌∙◌, inl, inr, Bool, false, not, Option, none, some, List, [], ◌∷◌,
  Bool-cases, ◌++◌, if◌then◌else◌, Bytes, nat_Eq, list_Eq, ◌==◌, ==_refl, lookup, lookup-insert,
  lookup-delete,
}
use deepin_network_proxy.Netlink.{
  ℕ, ProcMessage, ProcManager, Signal, exec_proc, emit, store_proc, remove_proc, exit_signal, Files,
  get_proc_msg,
}

-- What the start has done, in order: `listening` is the start of the goroutine that calls listen.
pub data Effect : Type 0 where
  bus_connected sock_opened sock_bound told_listen exported listening loaded : Effect
  name_requested told_ignore : Effect

-- The answers to the calls of the start.
pub record Answers : Type 0 where
  pub bus : Bool
  pub sock : Bool
  pub bind : Bool
  pub told : Bool
  pub export : Bool
  pub name : Bool

-- `initSock`, and what comes behind it.
unfoldable pub init_sock : Answers → List Effect → List Effect
init_sock a next =
    if not a.sock
    then []
    else if not a.bind
    then sock_opened ∷ []
    else sock_opened ∷ sock_bound ∷ next

-- `CreateProcsService` between the message to listen and the one to ignore.
unfoldable pub serve_procs : Answers → List Effect
serve_procs a =
    if not a.export
    then []
    else if not a.name
    then exported ∷ listening ∷ loaded ∷ []
    else exported ∷ listening ∷ loaded ∷ name_requested ∷ []

-- `CreateProcsService`, up to its return: the deferred message is sent on every way out behind the first.
unfoldable pub create_procs_service : Answers → List Effect
create_procs_service a =
    if not a.bus
    then []
    else bus_connected
      ∷ init_sock a (if not a.told then [] else told_listen ∷ (serve_procs a ++ told_ignore ∷ []))

-- How many more messages to listen than messages to ignore the kernel has had, at most one by the code.
abbrev pub open_listens : List Effect → ℕ → ℕ
open_listens [] n = n
open_listens (told_listen ∷ es) n = open_listens es (n + 1)
open_listens (told_ignore ∷ es) n = open_listens es (n - 1)
open_listens (_ ∷ es) n = open_listens es n

-- However the service ends, the kernel has been told to stop if it had been told to begin.
pub create_procs_service_closes : (a : Answers) → open_listens (create_procs_service a) 0 ≡ 0
unfolding create_procs_service init_sock serve_procs
create_procs_service_closes a = ground arith

-- A turn of one of the goroutines: loadProc reads a process, enters what it has read, or emits the signal
-- of its entry; listen enters a process that has called exec, takes out one that has ended, or emits
-- the signal of its change.
pub data Turn : Type 0 where
  reads : Files → Bytes → Turn
  enters : Turn
  load_emits : Turn
  execs : Bytes → ProcMessage → Turn
  exits : Bytes → Turn
  listen_emits : Turn

-- The processes, what loadProc has read and not yet entered, and the signal that each goroutine has still
-- to emit.
pub record Loading : Type 0 where
  pub manager : ProcManager
  pub held : Option (Bytes × ProcMessage)
  pub load_signal : Option Signal
  pub listen_signal : Option Signal

abbrev pub with_pid : Bytes → Option ProcMessage → Option (Bytes × ProcMessage)
with_pid pid none = none
with_pid pid (some msg) = some (pid, msg)

abbrev pub enter : Option (Bytes × ProcMessage) → Loading → Loading
enter none s = s
enter (some (pid, msg)) s = record s {
  manager = store_proc pid msg s.manager;
  held = none;
  load_signal = some (exec_proc msg);
}

unfoldable pub turn : Loading → Turn → Loading
turn s (reads fs pid) = record s { held = with_pid pid (get_proc_msg fs pid) }
turn s enters = enter s.held s
turn s load_emits = record s { manager = emit s.load_signal s.manager; load_signal = none }
turn s (execs pid msg) = record s {
  manager = store_proc pid msg s.manager;
  listen_signal = some (exec_proc msg);
}
turn s (exits pid) = record s {
  manager = remove_proc pid s.manager;
  listen_signal = exit_signal (lookup pid s.manager.procs);
}
turn s listen_emits = record s { manager = emit s.listen_signal s.manager; listen_signal = none }

unfoldable pub run : Loading → List Turn → Loading
run s [] = s
run s (t ∷ ts) = run (turn s t) ts

-- Turns in which the end of the process is not heard.
abbrev pub NoExit : Bytes → List Turn → Type 0
NoExit pid [] = Unit {0}
NoExit pid (exits other ∷ ts) = ((other == pid) ≡ false) × NoExit pid ts
NoExit pid (_ ∷ ts) = NoExit pid ts

abbrev pub Knows : Bytes → ProcManager → Type 0
Knows pid p = (msg : ProcMessage) × (lookup pid p.procs ≡ some msg)

emit-Knows :
    (pid : Bytes) (o : Option Signal) (p : ProcManager) → Knows pid p → Knows pid (emit o p)
emit-Knows pid none p k = k
emit-Knows pid (some sig) p k = k

store_proc-Knows :
    (pid other : Bytes) (msg : ProcMessage) (p : ProcManager)
    → Knows pid p
    → Knows pid (store_proc other msg p)
store_proc-Knows pid other msg p (old, k) = elim (Bool-cases (other == pid)) [
  | inl same ↦ (msg, lookup-insert other pid msg p.procs ∙ rw same refl)
  | inr differs ↦ (old, lookup-insert other pid msg p.procs ∙ rw differs k)
]

enter-Knows :
    (pid : Bytes) (held : Option (Bytes × ProcMessage)) (s : Loading)
    → Knows pid s.manager
    → Knows pid (enter held s).manager
enter-Knows pid none s k = k
enter-Knows pid (some (other, msg)) s k = store_proc-Knows pid other msg s.manager k

run-Knows :
    (pid : Bytes) (ts : List Turn) (s : Loading)
    → NoExit pid ts
    → Knows pid s.manager
    → Knows pid (run s ts).manager
unfolding run turn
run-Knows pid [] s q k = k
run-Knows pid (reads fs other ∷ ts) s q k = run-Knows pid ts _ q k
run-Knows pid (enters ∷ ts) s q k = run-Knows pid ts _ q (enter-Knows pid s.held s k)
run-Knows pid (load_emits ∷ ts) s q k =
    run-Knows pid ts _ q (emit-Knows pid s.load_signal s.manager k)
run-Knows pid (execs other msg ∷ ts) s q k =
    run-Knows pid ts _ q (store_proc-Knows pid other msg s.manager k)
run-Knows pid (exits other ∷ ts) s q (msg, k) =
    run-Knows pid ts _ q.1 (msg, lookup-delete other pid s.manager.procs ∙ rw q.0 k)
run-Knows pid (listen_emits ∷ ts) s q k =
    run-Knows pid ts _ q (emit-Knows pid s.listen_signal s.manager k)

enter-with_pid :
    (pid : Bytes) (o : Option ProcMessage) (s : Loading) {msg : ProcMessage}
    → o ≡ some msg
    → Knows pid (enter (with_pid pid o) s).manager
enter-with_pid pid none s e = absurd (none-ne-some _ e)
enter-with_pid pid (some msg) s e =
    (msg, lookup-insert pid pid msg s.manager.procs ∙ rw (==_refl pid) refl)

-- A process that ends between the reading and the entry of loadProc is among the processes whatever the
-- goroutines do afterwards, unless the end of another process of its number is heard.
pub ended_process_stays :
    (pid : Bytes) (fs : Files) (s : Loading) (ts : List Turn) {msg : ProcMessage}
    → get_proc_msg fs pid ≡ some msg
    → NoExit pid ts
    → Knows pid (run s (reads fs pid ∷ exits pid ∷ enters ∷ ts)).manager
unfolding run turn
ended_process_stays pid fs s ts {msg} found quiet =
    run-Knows pid ts _ quiet (enter-with_pid pid (get_proc_msg fs pid) _ found)
