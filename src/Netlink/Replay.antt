-- ===== src/Netlink/Replay.antt =====
-- The signals of netlink/netlink.go tell all that the service knows of the processes.
use deepin_network_proxy.Prelude.{
  ℕ, ◌≡◌, refl, sym, ap, ◌∙◌, inl, inr, Bool, true, false, not, ◌||◌, Option, none, some, List, [],
  ◌∷◌, ◌++◌, arith, ltb, nat_eq, if◌then◌else◌, Bool-cases, Option-cases, length, take, Bytes,
  codes, nat_Eq, list_Eq, ◌==◌, list_eq_iff, GoMap, lookup, insert, delete, itoa, some_inj,
}
use mathlib.Core.Option.{none-ne-some}
use deepin_network_proxy.Com.Pid.{is_pid}
use deepin_network_proxy.Netlink.{
  proc_file, ProcMessage, Signal, exec_proc, exit_proc, ProcManager, new_proc_manager, Files, later,
  get_proc_msg, add_proc, del_proc, add_found, load_proc, Headers, on_event, on_message,
  on_messages, listen,
}
use deepin_network_proxy.Netlink.Wire.{
  NetlinkMessage, parse_netlink_message, read_cn_msg, read_header, read_exec, read_exit,
}

-- What a client knows that hears the signals and keeps the processes by their own numbers.
abbrev pub replay : List Signal → GoMap Bytes ProcMessage → GoMap Bytes ProcMessage
replay [] m = m
replay (exec_proc msg ∷ ss) m = replay ss (insert msg.pid msg m)
replay (exit_proc msg ∷ ss) m = replay ss (delete msg.pid m)

-- Each process is filed under its own number.
abbrev pub IsKeyed : GoMap Bytes ProcMessage → Type 0
IsKeyed [] = Unit {0}
IsKeyed ((k, msg) ∷ m) = (msg.pid ≡ k) × IsKeyed m

pub record Told (p : ProcManager) : Type 0 where
  pub same : p.procs ≡ replay p.signals []
  pub keyed : IsKeyed p.procs

pub replay-append :
    (ss ts : List Signal) (m : GoMap Bytes ProcMessage)
    → replay (ss ++ ts) m ≡ replay ts (replay ss m)
replay-append [] ts m = refl
replay-append (exec_proc msg ∷ ss) ts m = replay-append ss ts (insert msg.pid msg m)
replay-append (exit_proc msg ∷ ss) ts m = replay-append ss ts (delete msg.pid m)

insert-IsKeyed :
    (k : Bytes) (msg : ProcMessage) (m : GoMap Bytes ProcMessage)
    → msg.pid ≡ k
    → IsKeyed m
    → IsKeyed (insert k msg m)
unfolding insert
insert-IsKeyed k msg [] e h = (e, tt)
insert-IsKeyed k msg ((j, old) ∷ m) e h = elim (Bool-cases (j == k)) [
  | inl here ↦ rw here (e, h.1)
  | inr other ↦ rw other (h.0, insert-IsKeyed k msg m e h.1)
]

delete-IsKeyed : (k : Bytes) (m : GoMap Bytes ProcMessage) → IsKeyed m → IsKeyed (delete k m)
unfolding delete
delete-IsKeyed k [] h = tt
delete-IsKeyed k ((j, old) ∷ m) h = elim (Bool-cases (j == k)) [
  | inl here ↦ rw here (delete-IsKeyed k m h.1)
  | inr other ↦ rw other (h.0, delete-IsKeyed k m h.1)
]

delete_missing : (k : Bytes) (m : GoMap Bytes ProcMessage) → lookup k m ≡ none → delete k m ≡ m
unfolding lookup delete
delete_missing k [] h = refl
delete_missing k ((j, old) ∷ m) h = elim (Bool-cases (j == k)) [
  | inl here ↦ let found : some old ≡ none = rw here at h in absurd (none-ne-some old (sym found))
  | inr other ↦
      let missing : lookup k m ≡ none = rw other at h in
      rw other (ap (◌∷◌ (j, old)) (delete_missing k m missing))
]

lookup-IsKeyed :
    (k : Bytes) {msg : ProcMessage} (m : GoMap Bytes ProcMessage)
    → IsKeyed m
    → lookup k m ≡ some msg
    → msg.pid ≡ k
unfolding lookup
lookup-IsKeyed k [] h e = absurd (none-ne-some _ e)
lookup-IsKeyed k ((j, old) ∷ m) h e = elim (Bool-cases (j == k)) [
  | inl here ↦
      let found : some old ≡ some _ = rw here at e in
      ap (λ (x : ProcMessage). x.pid) (sym (some_inj found)) ∙ ground (arith, h.0, list_eq_iff j k)
  | inr other ↦ let found : lookup k m ≡ some _ = rw other at e in lookup-IsKeyed k m h.1 found
]

add_proc-Told :
    (pid : Bytes) (msg : ProcMessage) (p : ProcManager)
    → msg.pid ≡ pid
    → Told p
    → Told (add_proc pid msg p)
unfolding add_proc
add_proc-Told pid msg p e t = record {
  same =
      rw (sym e)
        (ap (insert msg.pid msg) t.same ∙ sym (replay-append p.signals (exec_proc msg ∷ []) []));
  keyed = insert-IsKeyed pid msg p.procs e t.keyed;
}

del_proc-Told : (pid : Bytes) (p : ProcManager) → Told p → Told (del_proc pid p)
unfolding del_proc
del_proc-Told pid p t = elim (Option-cases (lookup pid p.procs)) [
  | inl missing ↦
      rw (del_proc, missing)
        (record {
          same = delete_missing pid p.procs missing ∙ t.same;
          keyed = delete-IsKeyed pid p.procs t.keyed;
        })
  | inr (msg, found) ↦
      let e = lookup-IsKeyed pid p.procs t.keyed found in
      rw (del_proc, found)
        (record {
          same =
              rw (sym e) (
                ap (delete msg.pid) t.same ∙ sym (replay-append p.signals (exit_proc msg ∷ []) []));
          keyed = delete-IsKeyed pid p.procs t.keyed;
        })
]

get_proc_msg-pid :
    (fs : Files) (pid : Bytes) {msg : ProcMessage} → get_proc_msg fs pid ≡ some msg → msg.pid ≡ pid
unfolding get_proc_msg
get_proc_msg-pid fs pid e =
    elim (Bool-cases (not (is_pid pid) || fs.read_link (proc_file pid (codes "exe")) == [])) [
      | inl bad ↦ let missing : none ≡ some _ = rw bad at e in absurd (none-ne-some _ missing)
      | inr good ↦
          let found : some _ ≡ some _ = rw good at e in
          ap (λ (x : ProcMessage). x.pid) (sym (some_inj found))
    ]

add_found-Told : (fs : Files) (pid : Bytes) (p : ProcManager) → Told p → Told (add_found fs pid p)
unfolding add_found
add_found-Told fs pid p t = elim (Option-cases (get_proc_msg fs pid)) [
  | inl missing ↦ rw (add_found, missing) t
  | inr (msg, found) ↦
      rw (add_found, found) (add_proc-Told pid msg p (get_proc_msg-pid fs pid found) t)
]

load_proc-Told :
    (fs : ℕ → Files) (names : List Bytes) (p : ProcManager) → Told p → Told (load_proc fs names p)
unfolding load_proc
load_proc-Told fs [] p t = t
load_proc-Told fs (name ∷ names) p t =
    load_proc-Told (later fs) names (add_found (fs 0) name p) (add_found-Told (fs 0) name p t)

if-Told : (b : Bool) (p q : ProcManager) → Told p → Told q → Told (if b then p else q)
if-Told true p q t u = t
if-Told false p q t u = u

module _ (H : Headers) where
  on_event-Told :
      (fs : Files) (what : ℕ) (rest : Bytes) (p : ProcManager)
      → Told p
      → Told (on_event H fs what rest p)
  unfolding on_event
  on_event-Told fs what rest p t =
      if-Told (nat_eq what H.exec_event) _ _
        (elim (Option-cases (read_exec rest)) [
          | inl short ↦ rw short t
          | inr ((e, _), whole) ↦
              rw whole (if-Told _ _ _ (add_found-Told fs (itoa e.proc_pid) p t) t)
        ])
        (if-Told (nat_eq what H.exit_event) _ _
          (elim (Option-cases (read_exit rest)) [
            | inl short ↦ rw short t
            | inr ((e, _), whole) ↦
                rw whole (if-Told _ _ _ (del_proc-Told (itoa e.process_pid) p t) t)
          ])
          t)

  on_message-Told : (fs : Files) (b : Bytes) (p : ProcManager) → Told p → Told (on_message H fs b p)
  unfolding on_message
  on_message-Told fs b p t = elim (Option-cases (read_cn_msg b)) [
    | inl short ↦ rw (on_message, short) t
    | inr ((msg, body), read) ↦ elim (Option-cases (read_header body)) [
      | inl short ↦ rw (on_message, read) (rw short t)
      | inr ((header, rest), there) ↦
          rw (on_message, read) (rw there (on_event-Told fs header.what rest p t))
    ]
  ]

  on_messages-Told :
      (fs : ℕ → Files) (ms : List NetlinkMessage) (p : ProcManager)
      → Told p
      → Told (on_messages H fs ms p)
  unfolding on_messages
  on_messages-Told fs [] p t = t
  on_messages-Told fs (m ∷ ms) p t =
      on_messages-Told (later fs) ms (on_message H (fs 0) m.payload p)
        (on_message-Told (fs 0) m.payload p t)

  listen-Told :
      (fs : ℕ → Files) (got : Option Bytes) (p : ProcManager) → Told p → Told (listen H fs got p).1
  unfolding listen
  listen-Told fs none p t = t
  listen-Told fs (some got) p t = elim (Bool-cases (ltb (length (take 1024 got)) 16)) [
    | inl short ↦ rw short t
    | inr long ↦ elim (Option-cases (parse_netlink_message (take 1024 got))) [
      | inl bad ↦ rw (listen, long) (rw bad t)
      | inr (ms, good) ↦ rw (listen, long) (rw good (on_messages-Told fs ms p t))
    ]
  ]

-- What the two goroutines of the service do, one after the other: one reads /proc, the other the socket.
pub data Event : Type 0 where
  loads : (ℕ → Files) → List Bytes → Event
  listens : (ℕ → Files) → Option Bytes → Event

abbrev pub run : Headers → List Event → ProcManager → ProcManager
run H [] p = p
run H (loads fs names ∷ es) p = run H es (load_proc fs names p)
run H (listens fs got ∷ es) p = run H es (listen H fs got p).1

run-Told : (H : Headers) (es : List Event) (p : ProcManager) → Told p → Told (run H es p)
run-Told H [] p t = t
run-Told H (loads fs names ∷ es) p t =
    run-Told H es (load_proc fs names p) (load_proc-Told fs names p t)
run-Told H (listens fs got ∷ es) p t =
    run-Told H es (listen H fs got p).1 (listen-Told H fs got p t)

-- Whatever the kernel sends and /proc holds, as long as loadProc and listen never run at the same time, a
-- client that hears all signals and replays them has the very map of processes that the service has, and
-- each process is filed under its own number.
pub run-new_proc_manager :
    (H : Headers) (es : List Event)
    → ((run H es new_proc_manager).procs ≡ replay (run H es new_proc_manager).signals [])
      × IsKeyed (run H es new_proc_manager).procs
unfolding new_proc_manager
run-new_proc_manager H es =
    let t = run-Told H es new_proc_manager (record { same = refl; keyed = tt }) in (t.same, t.keyed)
