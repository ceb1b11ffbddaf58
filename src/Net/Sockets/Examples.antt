-- ===== src/Net/Sockets/Examples.antt =====
-- Two sockets, a listener and a connection that has come in.
use ralph_os.Base.{◌≡◌, refl, true}
use ralph_os.Net.Tcp.Table.{
  Tcp, is_socket, conn_at, fresh, set_conn, accept, accept_at, find_accept,
}
use ralph_os.Net.Tcp.Tcb.{established, listen}
use ralph_os.Net.Tcp.Table.Reach.{boot}
use ralph_os.Net.Sockets.{api_net_accept}

-- A listener in slot 1, and a connection for it in slot 0.
abbrev waiting : Tcp
waiting =
    set_conn (set_conn boot 0 (record fresh { local_port = 23; state = established })) 1
      (record fresh { local_port = 23; state = listen })

-- The accepted connection is answered as 0, as if there were none.
accept_slot_zero_test : (api_net_accept 1 waiting).0 ≡ 0
unfolding api_net_accept accept accept_at find_accept set_conn conn_at fresh is_socket boot
    ralph_os.Net.Tcp.Tcb.new ralph_os.Net.Tcp.Ring.available ralph_os.Net.Tcp.Ring.new
accept_slot_zero_test = refl

accept_again_test : (api_net_accept 1 (api_net_accept 1 waiting).1).0 ≡ 0
unfolding api_net_accept accept accept_at find_accept set_conn conn_at fresh is_socket boot
    ralph_os.Net.Tcp.Tcb.new ralph_os.Net.Tcp.Ring.available ralph_os.Net.Tcp.Ring.new
accept_again_test = refl

accepted_test : (conn_at (api_net_accept 1 waiting).1 0).accepted ≡ true
unfolding api_net_accept accept accept_at find_accept set_conn conn_at fresh is_socket boot
    ralph_os.Net.Tcp.Tcb.new ralph_os.Net.Tcp.Ring.available ralph_os.Net.Tcp.Ring.new
accepted_test = refl
