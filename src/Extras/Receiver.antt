-- ===== src/Extras/Receiver.antt =====
-- extras/receiver.go. What is accepted, what a client sends and how its connection ends are parameters.
-- Each handler prints in one piece, in the order in which the handlers come to it; the printed texts and
-- whether the program has exited with 1 are the result.
pub mod Served
use statsgod.Prelude.{
  true, ◌==◌, false, none, ◌++◌, [], if◌then◌else◌, Bool, codes, ◌∷◌, some, Option, List, Bytes, ℕ,
}

-- Why a read stops: io.EOF, or another error with its text.
pub data ReadEnd : Type 0 where
  eof : ReadEnd
  failure : Bytes → ReadEnd

-- A connection: the address of the client, what it sends, and what ends it.
pub record Client : Type 0 where
  pub addr : Bytes
  pub text : Bytes
  pub ending : ReadEnd

-- ReadString('\n'): up to the first newline, with it; or all with the error.
unfoldable pub read_string : Bytes → ReadEnd → Bytes × Option ReadEnd
read_string [] ending = ([], some ending)
read_string (c ∷ s) ending =
    let (line, err) = read_string s ending in if c == b'\n' then (c ∷ [], none) else (c ∷ line, err)

abbrev pub line_end : Bytes
line_end = b'\n' ∷ []

-- fmt.Println("Error: ", err)
abbrev pub error_line : Bytes → Bytes
error_line err = codes "Error:  " ++ err ++ line_end

abbrev pub connection_lines : Bytes → Bytes → List Bytes
connection_lines addr status =
    (codes "New client: " ++ addr ++ line_end ++ status)
    ∷ (codes "Connection from " ++ addr ++ codes " closed." ++ line_end)
    ∷ []

-- What is printed, and whether the program exits.
unfoldable pub handle_connection : Client → List Bytes × Bool
handle_connection c =
    let (status, err) = read_string c.text c.ending in
    elim err [
      | none ↦ (connection_lines c.addr status, false)
      | some ending ↦ elim ending [
        | eof ↦ (connection_lines c.addr status, false)
        | failure e ↦ (error_line e ∷ [], true)
      ]
    ]

-- `Accept` fails, or a handler runs.
pub data Event : Type 0 where
  not_accepted : Bytes → Event
  handled : Client → Event

unfoldable pub handle_event : Event → List Bytes × Bool
unfolding handle_connection
handle_event (not_accepted err) = (error_line err ∷ [], false)
handle_event (handled c) = handle_connection c

unfoldable pub accept_connections : List Event → List Bytes × Bool
accept_connections [] = ([], false)
accept_connections (event ∷ events) =
    let (printed, exits) = handle_event event in
    let (later, exits_later) = accept_connections events in
    if exits then (printed, true) else (printed ++ later, exits_later)

-- `main`, from the error of `Listen`, if there is one.
unfoldable pub receiver : Option Bytes → List Event → List Bytes × Bool
receiver (some err) events = ((err ++ line_end) ∷ [], true)
receiver none events = accept_connections events
