-- ===== src/Extras/Receiver/Served.antt =====
-- extras/receiver.go: what a client has printed, and what ends the program.
use statsgod.Prelude.{
  append-nil, sym, ◌∙◌, ap, true, arith, none, false, some, [], ◌++◌, ◌==◌, ◌≡◌, ◌∷◌, List, Bytes,
}
use statsgod.Socket.Reassembly.{IsLine}
use statsgod.Prelude.{refl}
use statsgod.Extras.Receiver.{
  failure, receiver, handled, error_line, eof, not_accepted, line_end, connection_lines,
  handle_event, ReadEnd, Event, accept_connections, handle_connection, read_string, Client,
}

-- What is read of a client: its first line, whatever comes after it; or all, if it hangs up before.
pub data IsRead (c : Client) (status : Bytes) : Type 0 where
  first_line :
      (line rest : Bytes)
      → IsLine line
      → c.text ≡ line ++ b'\n' ∷ rest
      → status ≡ line ++ line_end
      → IsRead c status
  hung_up : IsLine c.text → c.ending ≡ eof → status ≡ c.text → IsRead c status

-- What the events print, if each client can be read.
pub data ArePrinted : List Event → List Bytes → Type 0 where
  none_left : ArePrinted [] []
  accept_failed :
      {events : List Event} {lines : List Bytes} (err : Bytes)
      → ArePrinted events lines
      → ArePrinted (not_accepted err ∷ events) (error_line err ∷ lines)
  client_read :
      {events : List Event} {lines : List Bytes} (c : Client) (status : Bytes)
      → IsRead c status
      → ArePrinted events lines
      → ArePrinted (handled c ∷ events) (connection_lines c.addr status ++ lines)

read_string-line :
    (line rest : Bytes) (ending : ReadEnd)
    → IsLine line
    → read_string (line ++ b'\n' ∷ rest) ending ≡ (line ++ line_end, none)
unfolding read_string
read_string-line [] rest ending u = refl
read_string-line (c ∷ line) rest ending (other, u) =
    let no : c == b'\n' ≡ false = ground arith in
    rw (no, read_string, read_string-line line rest ending u) refl

read_string-all :
    (text : Bytes) (ending : ReadEnd) → IsLine text → read_string text ending ≡ (text, some ending)
unfolding read_string
read_string-all [] ending u = refl
read_string-all (c ∷ text) ending (other, u) =
    let no : c == b'\n' ≡ false = ground arith in
    rw (no, read_string, read_string-all text ending u) refl

handle_connection-IsRead :
    (c : Client) (status : Bytes)
    → IsRead c status
    → handle_connection c ≡ (connection_lines c.addr status, false)
unfolding handle_connection
handle_connection-IsRead c status (first_line line rest u e s) =
    let g = ap (λ t. read_string t c.ending) e ∙ read_string-line line rest c.ending u in
    rw (handle_connection, ap (λ r. r.1) g, ap (λ r. r.0) g, s) refl
handle_connection-IsRead c status (hung_up u e s) =
    let g = read_string-all c.text c.ending u in
    rw (handle_connection, ap (λ r. r.1) g, e, ap (λ r. r.0) g, s) refl

accept_connections-ArePrinted :
    (events after : List Event) (lines : List Bytes)
    → ArePrinted events lines
    → accept_connections (events ++ after)
      ≡ (lines ++ (accept_connections after).0, (accept_connections after).1)
unfolding accept_connections handle_event
accept_connections-ArePrinted events after lines none_left = refl
accept_connections-ArePrinted (event ∷ events) after lines (accept_failed {lines = later} err p) =
    let i = accept_connections-ArePrinted events after later p in rw (accept_connections, i) refl
accept_connections-ArePrinted (event ∷ events) after lines
      (client_read {lines = later} c status r p) =
    let i = accept_connections-ArePrinted events after later p in
    rw (accept_connections, handle_event, handle_connection-IsRead c status r, i) refl

accept_connections-broken :
    (after : List Event) (c : Client) (err : Bytes)
    → IsLine c.text
    → c.ending ≡ failure err
    → accept_connections (handled c ∷ after) ≡ (error_line err ∷ [], true)
unfolding accept_connections handle_event handle_connection
accept_connections-broken after c err l e =
    let g = read_string-all c.text c.ending l ∙ ap (λ ending. (c.text, some ending)) e in
    rw (accept_connections, handle_event, handle_connection, g) refl

-- As long as each client sends a line, or hangs up in the middle of one, the receiver goes on and prints
-- the first line of each, whatever the client sends after it. A client whose read fails before its first newline ends it, and with it
-- all the handlers that come after.
pub receiver-ArePrinted :
    (events after : List Event) (lines : List Bytes) (c : Client) (err : Bytes)
    → ArePrinted events lines
    → IsLine c.text
    → c.ending ≡ failure err
    → (receiver none events ≡ (lines, false))
      × (receiver none (events ++ handled c ∷ after) ≡ (lines ++ error_line err ∷ [], true))
unfolding receiver accept_connections
receiver-ArePrinted events after lines c err p l e = (
  ap accept_connections (sym (append-nil events))
      ∙ accept_connections-ArePrinted events [] lines p
      ∙ ap (λ ls. (ls, false)) (append-nil lines),
  accept_connections-ArePrinted events (handled c ∷ after) lines p
      ∙ ap (λ r. (lines ++ r.0, r.1)) (accept_connections-broken after c err l e),
)
