-- ===== src/Service/Started.antt =====
-- What `main` has made and opened when it serves.
use statsgod.Socket.Listener.Cycle.{open_listener-made, made}
use statsgod.Relay.Create.{create_relay}
use statsgod.Config.{ConfigValues}
use statsgod.Carbon.{Affixes}
use statsgod.Socket.Listener.{
  nil_dereference, unix_socket, udp_socket, tcp_socket, Socket, socket_type_unix, socket_type_udp,
  socket_type_tcp, open_listener, SocketKind,
}
use statsgod.Service.Shutdown.{
  shut_down-IsServing, enabled_kinds, newly_enabled, shut_down, IsServing, open_sockets, Serves,
  open_if,
}
use statsgod.Service.{start_profile, host_port, Service, start, socket_if}
use statsgod.Prelude.{
  ◌∙◌, ap, true, refl, none, sym, some, false, if◌then◌else◌, ◌⊎◌, Option, arith, Bytes, ◌≡◌, Bool,
}
use statsgod.Prelude.Outcome.{blocked, done, panics, Outcome, done-inverse, done-injective}
use statsgod.Pool.{Network, World, ◌>>=◌, M}

>>=-inverse :
    {A B : Type 0} (m : M A) (f : A → M B) (w v : World) (b : B)
    → (m >>= f) w ≡ done (b, v)
    → (a : A) × (u : World) × (m w ≡ done (a, u)) × (f a u ≡ done (b, v))
>>=-inverse {A} {B} m f w v b h = of_outcome (m w) refl h
  where
    of_outcome :
        (r : Outcome (A × World))
        → m w ≡ r
        → elim r as (λ x. Outcome (B × World)) [
          | done (a, u) ↦ f a u
          | panics message ↦ panics message
          | blocked ↦ blocked
        ]
          ≡ done (b, v)
        → (a : A) × (u : World) × (m w ≡ done (a, u)) × (f a u ≡ done (b, v))
    of_outcome (done (a, u)) e h = (a, u, e, h)
    of_outcome (panics message) e h = absurd (ground arith)
    of_outcome blocked e h = absurd (ground arith)

start_profile-world :
    (profile : Bool) (failure : Option Bytes) (a : Unit {0}) (w u : World)
    → start_profile profile failure w ≡ done (a, u)
    → w ≡ u
unfolding start_profile
start_profile-world false failure a w u h = ap (λ r. r.1) (done-injective h)
start_profile-world true none a w u h = ap (λ r. r.1) (done-injective h)
start_profile-world true (some err) a w u h = absurd (ground arith)

abbrev socket_made : Bool → SocketKind → Bytes → Option Socket
socket_made b kind addr =
    if b then some (record { kind = kind; addr = addr; listener = none }) else none

socket_if-tcp :
    (b : Bool) (addr : Bytes) (w : World)
    → socket_if b socket_type_tcp addr w ≡ done (socket_made b tcp_socket addr, w)
unfolding socket_if
socket_if-tcp false addr w = refl
socket_if-tcp true addr w = refl

socket_if-udp :
    (b : Bool) (addr : Bytes) (w : World)
    → socket_if b socket_type_udp addr w ≡ done (socket_made b udp_socket addr, w)
unfolding socket_if
socket_if-udp false addr w = refl
socket_if-udp true addr w = refl

socket_if-unix :
    (b : Bool) (addr : Bytes) (w : World)
    → socket_if b socket_type_unix addr w ≡ done (socket_made b unix_socket addr, w)
unfolding socket_if
socket_if-unix false addr w = refl
socket_if-unix true addr w = refl

open_if-Serves :
    (net_listen : SocketKind → Bytes → Bytes ⊎ Bytes) (b : Bool) (kind : SocketKind) (addr : Bytes)
    (opened : Option Socket)
    → open_if net_listen (socket_made b kind addr) ≡ done opened
    → Serves b kind opened
unfolding open_if
open_if-Serves net_listen false kind addr opened h = sym (done-injective h)
open_if-Serves net_listen true kind addr opened h =
    let (l, listens, e) = done-inverse (open_listener net_listen (made kind addr)) _ opened h in
    let (k, active) = open_listener-made net_listen kind addr l listens in
    (l, sym (done-injective e), k, active)

module _ (net : Network) (visited : Affixes → Affixes) (profile_error : Option Bytes) where
  -- The relay is created, and then the rest is made, with no change of the world.
  pub start-made :
      (config : ConfigValues) (w v : World) (service : Service)
      → start net visited profile_error config w ≡ done (service, v)
      → (create_relay net visited config w ≡ done (service.relay, v))
        × (service.relays ≡ config.relay.concurrency)
        × (service.socket_tcp
            ≡ socket_made config.tcp.enabled tcp_socket (host_port config.tcp.host config.tcp.port))
        × (service.socket_udp
            ≡ socket_made config.udp.enabled udp_socket (host_port config.udp.host config.udp.port))
        × (service.socket_unix ≡ socket_made config.unix.enabled unix_socket config.unix.file)
  unfolding start
  start-made config w v service h =
      let (a, u, profiled, h') =
        >>=-inverse (start_profile config.debug.profile profile_error) _ w v service h in
      let (relay, x, created, h'') =
        >>=-inverse (create_relay net visited config) _ u v service h' in
      let made =
        rw
          (
            socket_if-tcp config.tcp.enabled (host_port config.tcp.host config.tcp.port) x,
            socket_if-udp config.udp.enabled (host_port config.udp.host config.udp.port) x,
            socket_if-unix config.unix.enabled config.unix.file x,
            ◌>>=◌,
          )
          at h'' in
      let e = done-injective made in
      (
        ap (create_relay net visited config)
              (start_profile-world config.debug.profile profile_error a w u profiled)
            ∙ created
            ∙ ap (λ (r : Service × World). done (r.0.relay, r.1)) e,
        ap (λ (r : Service × World). r.0.relays) (sym e),
        ap (λ (r : Service × World). r.0.socket_tcp) (sym e),
        ap (λ (r : Service × World). r.0.socket_udp) (sym e),
        ap (λ (r : Service × World). r.0.socket_unix) (sym e),
      )

  start-IsServing :
      (net_listen : SocketKind → Bytes → Bytes ⊎ Bytes) (config : ConfigValues) (w v : World)
      (service opened : Service)
      → start net visited profile_error config w ≡ done (service, v)
      → open_sockets net_listen service ≡ done opened
      → IsServing config opened
  unfolding open_sockets
  start-IsServing net_listen config w v service opened h o =
      let (created, relays, tcp, udp, unix) = start-made config w v service h in
      let (a, ea, oa) = done-inverse (open_if net_listen service.socket_tcp) _ opened o in
      let (b, eb, ob) = done-inverse (open_if net_listen service.socket_udp) _ opened oa in
      let (c, ec, oc) = done-inverse (open_if net_listen service.socket_unix) _ opened ob in
      let e = done-injective oc in
      record {
        tcp = rw (← e) (open_if-Serves net_listen _ tcp_socket _ a (rw tcp at ea));
        udp = rw (← e) (open_if-Serves net_listen _ udp_socket _ b (rw udp at eb));
        unix = rw (← e) (open_if-Serves net_listen _ unix_socket _ c (rw unix at ec));
      }

  -- If `main` has started the service and opened its sockets, and the configuration is another one when
  -- it ends: it closes just the sockets that are enabled then, in the order TCP, UDP, Unix, unless one
  -- is enabled then that was not at the start; then the process panics.
  pub start-shut_down :
      (net_listen : SocketKind → Bytes → Bytes ⊎ Bytes) (was is : ConfigValues) (w v : World)
      (service opened : Service)
      → start net visited profile_error was w ≡ done (service, v)
      → open_sockets net_listen service ≡ done opened
      → shut_down is opened
        ≡ (if newly_enabled was is then nil_dereference else done (enabled_kinds is))
  start-shut_down net_listen was is w v service opened h o =
      shut_down-IsServing was is opened (start-IsServing net_listen was w v service opened h o)
