-- ===== src/Tests/Listening.antt =====
-- The sockets, and the sample receiver.
use statsgod.Extras.Receiver.Served.{
  none_left, hung_up, first_line, client_read, receiver-ArePrinted,
}
use statsgod.Socket.Listener.{open_listener}
use statsgod.Socket.Listener.Cycle.{create_socket-Listened, Listened, IsNew, made}
use statsgod.Extras.Receiver.{
  Event, error_line, not_accepted, connection_lines, eof, failure, handled, Client, ReadEnd,
  receiver,
}
use statsgod.Socket.Kinds.{socket_type_udp, udp_socket, create_socket, Socket, SocketKind}
use statsgod.Prelude.{
  List, bytes_eq, arith, true, false, ◌++◌, ◌≡◌, [], ◌∷◌, inl, inr, codes, if◌then◌else◌, none, ◌⊎◌,
  Bytes, refl,
}

abbrev net_listen : SocketKind → Bytes → Bytes ⊎ Bytes
net_listen kind addr =
    if bytes_eq addr (codes ":80") then inr (codes "permission denied") else inl (codes "[::]:2003")

abbrev socket : Socket
socket = made udp_socket (codes ":2003")

create_socket-Listened_example :
    IsNew socket × Listened net_listen socket (open_listener net_listen socket)
unfolding create_socket
create_socket-Listened_example =
    create_socket-Listened net_listen socket_type_udp (codes ":2003") socket refl

abbrev client : Bytes → ReadEnd → Client
client text ending = record { addr = codes "[::1]:5000"; text = text; ending = ending }

abbrev two_read : List Event
two_read =
    handled (client (codes "a 1\nb 2\n") (failure (codes "reset")))
    ∷ handled (client (codes "c") eof)
    ∷ []

abbrev their_lines : List Bytes
their_lines =
    connection_lines (codes "[::1]:5000") (codes "a 1\n")
    ++ connection_lines (codes "[::1]:5000") (codes "c")

-- The first client sends two lines, the second one hangs up in a line, the third one is cut off.
receiver-ArePrinted_example :
    (receiver none two_read ≡ (their_lines, false))
    × (receiver none (
          two_read
          ++ handled (client (codes "d") (failure (codes "reset")))
            ∷ not_accepted (codes "late")
            ∷ [])
        ≡ (their_lines ++ error_line (codes "reset") ∷ [], true))
receiver-ArePrinted_example =
    receiver-ArePrinted two_read (not_accepted (codes "late") ∷ []) _
      (client (codes "d") (failure (codes "reset"))) (codes "reset")
      (client_read _ (codes "a 1\n")
        (first_line (codes "a 1") (codes "b 2\n") (ground arith) refl refl)
        (client_read _ (codes "c") (hung_up (ground arith) refl refl) none_left))
      (ground arith) refl
