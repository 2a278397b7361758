-- ===== src/Dbus/Listening.antt =====
-- dbus/proxyPriv_proxy.go: listen and listenPacket, with the sockets that they leave open.
use deepin_network_proxy.Prelude.{
  ℕ, ◌+◌, ◌-◌, ◌≡◌, Bool, true, arith, if◌then◌else◌, Bytes, codes, nat_Eq, list_Eq,
}
use deepin_network_proxy.Com.Socket.Options.{
  OptCall, listens, sets_nonblock, duplicates, Fds, Act, ◌>>◌, modify, ask, file, set_sock_opt_trn,
  set_conn_opt_trn, udp_conn, sock_stream, sock_dgram,
}

-- `defer file.Close()`.
abbrev pub then_close_file : Act (Unit {0}) → Act (Unit {0})
then_close_file m s = ((m s).0, record (m s).1 { files = (m s).1.files - 1 })

module _ (allows : OptCall → Bool) where
  abbrev pub net_listen : Bytes → ℕ → Act (Unit {0})
  net_listen network port = do
    ask allows (listens network port)
    modify (λ s. record s { listeners = s.listeners + 1 })

  -- `listen` on the scope's port: a TCP listener.
  unfoldable pub listen : ℕ → Act (Unit {0})
  listen port = do
    net_listen (codes "tcp") port
    file allows
    then_close_file (do set_sock_opt_trn allows sock_stream; ask allows sets_nonblock)

  -- `listenPacket`.
  unfoldable pub listen_packet : ℕ → Act (Unit {0})
  listen_packet port = do net_listen (codes "udp") port; set_conn_opt_trn allows udp_conn sock_dgram

  set_sock_opt_trn_keeps :
      (typ : ℕ) (s : Fds)
      → ((set_sock_opt_trn allows typ s).1.listeners ≡ s.listeners)
        × ((set_sock_opt_trn allows typ s).1.files ≡ s.files)
  unfolding set_sock_opt_trn
  set_sock_opt_trn_keeps typ s = ground arith

  -- However `listen` ends, it leaves no duplicate of the socket open, and the socket itself listens as
  -- soon as `net.Listen` has succeeded: an error behind that keeps the port taken.
  pub listen_leaves :
      (port : ℕ) (s : Fds)
      → ((listen port s).1.files ≡ s.files)
        × ((listen port s).1.listeners
            ≡ (if allows (listens (codes "tcp") port) then s.listeners + 1 else s.listeners))
  unfolding listen file set_sock_opt_trn
  listen_leaves port s = ground arith

  -- However `listenPacket` ends, the duplicate that SetConnOptTrn makes stays open, and so does the
  -- socket.
  pub listen_packet_leaves :
      (port : ℕ) (s : Fds)
      → allows (listens (codes "udp") port) ≡ true
      → allows duplicates ≡ true
      → ((listen_packet port s).1.files ≡ s.files + 1)
        × ((listen_packet port s).1.listeners ≡ s.listeners + 1)
  unfolding listen_packet set_conn_opt_trn file
  listen_packet_leaves port s l d =
      rw (l, d) ((set_sock_opt_trn_keeps sock_dgram _).1, (set_sock_opt_trn_keeps sock_dgram _).0)
