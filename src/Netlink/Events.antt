-- ===== src/Netlink/Events.antt =====
-- What netlink/netlink.go makes of a datagram with one event.
use deepin_network_proxy.Com.Endian.{field, field_at, to_le}
use deepin_network_proxy.Prelude.{
  ◌≢◌, sym, nat_eq_refl, nat_eq-false, ℕ, ◌+◌, ◌%◌, ◌^◌, ◌≤◌, ◌<◌, ◌≡◌, refl, ap, ap₂, ◌∙◌, false,
  some, [], ◌++◌, arith, ltb, ltb-false, length, take, length-append, take_all, Bytes, nat_Eq,
  list_Eq, ok,
}
use deepin_network_proxy.Netlink.{
  del_proc, nat_eq_refl, add_proc, itoa, get_proc_msg, ProcMessage, add_found, ProcManager, Files,
  Headers, on_event, on_message, on_messages, listen,
}
use deepin_network_proxy.Netlink.Wire.{
  read_cn_msg, cn_msg_of, read_header, header_of, read_exec, exec_of, read_exit, exit_of,
}
use deepin_network_proxy.Netlink.Fields.{binary_read_front, parse_netlink_message-datagram}

-- An event as the kernel sends it. `id` are the twelve bytes behind the length, `cn` the message of
-- the connector, `stamp` the processor and the time.
abbrev pub event_body : Bytes → ℕ → Bytes → Bytes → Bytes
event_body cn what stamp event = cn ++ (to_le 4 what ++ (stamp ++ event))

abbrev pub event_size : Bytes → ℕ
event_size event = 52 + length event

abbrev pub datagram_of : Bytes → Bytes → ℕ → Bytes → Bytes → Bytes
datagram_of id cn what stamp event =
    to_le 4 (event_size event) ++ (id ++ event_body cn what stamp event)

-- The event's first two numbers: the process and its group of threads.
abbrev pub of_process : ℕ → ℕ → Bytes → Bytes
of_process pid tgid rest = to_le 4 pid ++ (to_le 4 tgid ++ rest)

read_exec-of_process :
    (pid tgid : ℕ) (rest : Bytes)
    → pid < 256 ^ 4
    → tgid < 256 ^ 4
    → read_exec (of_process pid tgid rest)
      ≡ some (record { proc_pid = pid; proc_tgid = tgid }, rest)
unfolding read_exec exec_of to_le
read_exec-of_process pid tgid rest small small' =
    binary_read_front 8 exec_of (to_le 4 pid ++ to_le 4 tgid) rest refl
    ∙ ap₂ (λ a b. some (record { proc_pid = a; proc_tgid = b }, rest))
        (field_at 0 4 pid [] (to_le 4 tgid) refl small)
        (field_at 4 4 tgid (to_le 4 pid) [] refl small')

read_exit-of_process :
    (pid tgid : ℕ) (ending rest : Bytes)
    → pid < 256 ^ 4
    → tgid < 256 ^ 4
    → length ending ≡ 8
    → read_exit (of_process pid tgid (ending ++ rest))
      ≡ some (
        record {
          process_pid = pid;
          process_tgid = tgid;
          exit_code = field 0 4 ending;
          exit_signal = field 4 4 ending;
        },
        rest,
      )
unfolding read_exit exit_of to_le field
read_exit-of_process pid tgid ending rest small small' size =
    binary_read_front 16 exit_of (to_le 4 pid ++ (to_le 4 tgid ++ ending)) rest (omega arith)
    ∙ ap₂
        (λ a b. some (
          record {
            process_pid = a;
            process_tgid = b;
            exit_code = field 0 4 ending;
            exit_signal = field 4 4 ending;
          },
          rest,
        ))
        (field_at 0 4 pid [] (to_le 4 tgid ++ ending) refl small)
        (field_at 4 4 tgid (to_le 4 pid) ending refl small')

module _ (H : Headers) (fs : ℕ → Files) (p : ProcManager) (id cn stamp : Bytes)
    (id_size : length id ≡ 12) (cn_size : length cn ≡ 20) (stamp_size : length stamp ≡ 12) where
  on_message-event_body :
      (what : ℕ) (event : Bytes)
      → what < 256 ^ 4
      → on_message H (fs 0) (event_body cn what stamp event) p ≡ on_event H (fs 0) what event p
  unfolding on_message read_cn_msg read_header header_of to_le
  on_message-event_body what event small =
      let outer = binary_read_front 20 cn_msg_of cn (to_le 4 what ++ (stamp ++ event)) cn_size in
      let inner = binary_read_front 16 header_of (to_le 4 what ++ stamp) event (omega arith) in
      let kind : field 0 4 (to_le 4 what ++ stamp) ≡ what = field_at 0 4 what [] stamp refl small in
      rw (on_message, outer) (rw (read_header, inner) (rw kind refl))

  listen_event :
      (what : ℕ) (event : Bytes)
      → what < 256 ^ 4
      → event_size event % 4 ≡ 0
      → event_size event ≤ 1024
      → listen H fs (some (datagram_of id cn what stamp event)) p
        ≡ (ok tt, on_event H (fs 0) what event p)
  unfolding listen on_messages to_le
  listen_event what event small even fits =
      let body = event_body cn what stamp event in
      let size : event_size event ≡ 16 + length body =
        omega
          (arith, length-append cn (to_le 4 what ++ (stamp ++ event)), length-append stamp event) in
      let whole : take 1024 (datagram_of id cn what stamp event)
          ≡ datagram_of id cn what stamp event =
        take_all 1024 (datagram_of id cn what stamp event) (omega (arith, length-append id body)) in
      let long : ltb (length (take 1024 (datagram_of id cn what stamp event))) 16 ≡ false =
        ap (λ bs. ltb (length bs) 16) whole
        ∙ ltb-false (length (datagram_of id cn what stamp event)) 16
            (omega (arith, length-append id body)) in
      rw (listen, long)
        (rw whole (
          rw
            (parse_netlink_message-datagram id body (event_size event) id_size size even
              (omega arith))
            (ap (λ q. (ok tt, q)) (on_message-event_body what event small))))

  -- `listen` adds a process that has been executed, as /proc describes it, where the datagram carries
  -- the event of a whole process and fits the buffer.
  pub listen_exec :
      (pid : ℕ) (rest : Bytes) {msg : ProcMessage}
      → H.exec_event < 256 ^ 4
      → pid < 256 ^ 4
      → length rest % 4 ≡ 0
      → length rest ≤ 964
      → get_proc_msg (fs 0) (itoa pid) ≡ some msg
      → listen H fs (some (datagram_of id cn H.exec_event stamp (of_process pid pid rest))) p
        ≡ (ok tt, add_proc (itoa pid) msg p)
  unfolding on_event add_found to_le
  listen_exec pid rest small inside even fits known =
      listen_event H.exec_event (of_process pid pid rest) small (omega arith) (omega arith)
      ∙ rw (on_event, nat_eq_refl H.exec_event)
          (rw (read_exec-of_process pid pid rest inside inside)
            (rw (nat_eq_refl pid) (rw (add_found, known) refl)))

  -- `listen` takes out a process that has ended, where the datagram carries the event of a whole process
  -- and fits the buffer.
  pub listen_exit :
      (pid : ℕ) (ending rest : Bytes)
      → H.exec_event ≢ H.exit_event
      → H.exit_event < 256 ^ 4
      → pid < 256 ^ 4
      → length ending ≡ 8
      → length rest % 4 ≡ 0
      → length rest ≤ 956
      → listen H fs
          (some (datagram_of id cn H.exit_event stamp (of_process pid pid (ending ++ rest))))
          p
        ≡ (ok tt, del_proc (itoa pid) p)
  unfolding on_event to_le
  listen_exit pid ending rest other small inside size even fits =
      listen_event H.exit_event (of_process pid pid (ending ++ rest)) small
        (omega (arith, length-append ending rest)) (omega (arith, length-append ending rest))
      ∙ rw (on_event, nat_eq-false H.exit_event H.exec_event (λ e. other (sym e)))
          (rw (nat_eq_refl H.exit_event) (
            rw (read_exit-of_process pid pid ending rest inside inside size)
              (rw (nat_eq_refl pid) refl)))

  -- `listen` passes over the execution of a thread.
  pub listen_thread :
      (pid tgid : ℕ) (rest : Bytes)
      → pid ≢ tgid
      → H.exec_event < 256 ^ 4
      → pid < 256 ^ 4
      → tgid < 256 ^ 4
      → length rest % 4 ≡ 0
      → length rest ≤ 964
      → listen H fs (some (datagram_of id cn H.exec_event stamp (of_process pid tgid rest))) p
        ≡ (ok tt, p)
  unfolding on_event to_le
  listen_thread pid tgid rest thread small inside inside' even fits =
      listen_event H.exec_event (of_process pid tgid rest) small (omega arith) (omega arith)
      ∙ rw (on_event, nat_eq_refl H.exec_event)
          (rw (read_exec-of_process pid tgid rest inside inside')
            (rw (nat_eq-false pid tgid thread) refl))
