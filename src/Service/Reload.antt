-- ===== src/Service/Reload.antt =====
-- Signals: how often the configuration is loaded again.
use statsgod.Service.Started.{start-shut_down}
use statsgod.Service.Shutdown.{shut_down, open_sockets}
use statsgod.Prelude.Outcome.{done}
use statsgod.Socket.Listener.{nil_dereference, unix_socket, udp_socket, tcp_socket, SocketKind}
use statsgod.Carbon.{Affixes}
use statsgod.Pool.{World, Network}
use statsgod.Config.Loaded.{default_config, or_else, load_file-unreadable}
use statsgod.Service.{
  sigquit, sigterm, sigint, sigabrt, start, Service, sighup, handle_signal, listen_for_signals,
  Signal,
}
use statsgod.Config.{get_hostname, load_file, ConfigValues, Environment}
use statsgod.Prelude.Int.{pos}
use statsgod.Prelude.{
  codes, refl, arith, ◌&&◌, if◌then◌else◌, ◌⊎◌, Option, ◌∙◌, ap, inr, zero, [], ◌≢◌, ◌≡◌, true, suc,
  false, ◌∷◌, Bool, ℕ, Bytes, List,
}

-- The number of SIGHUPs before the first other signal.
abbrev pub hangups : List Signal → ℕ
hangups [] = 0
hangups (sighup ∷ signals) = suc (hangups signals)
hangups (s ∷ signals) = 0

-- Some signal ends the service.
abbrev pub ends : List Signal → Bool
ends [] = false
ends (sighup ∷ signals) = ends signals
ends (s ∷ signals) = true

module _ {E : Type 0} (env : Environment E) (config_file : Bytes) where
  -- The configuration after loading it so many times again.
  abbrev pub reloaded : ℕ → ConfigValues → ConfigValues
  reloaded zero config = config
  reloaded (suc n) config = reloaded n (load_file env config_file config).0

  -- The configuration is loaded again for each SIGHUP before the first other signal, at which `main`
  -- goes on to its end.
  pub listen_for_signals-reloaded :
      (signals : List Signal) (config : ConfigValues)
      → listen_for_signals env config_file signals config
        ≡ (reloaded (hangups signals) config, ends signals)
  unfolding listen_for_signals handle_signal
  listen_for_signals-reloaded [] config = refl
  listen_for_signals-reloaded (sighup ∷ signals) config =
      listen_for_signals-reloaded signals (load_file env config_file config).0
  listen_for_signals-reloaded (sigabrt ∷ signals) config = refl
  listen_for_signals-reloaded (sigint ∷ signals) config = refl
  listen_for_signals-reloaded (sigterm ∷ signals) config = refl
  listen_for_signals-reloaded (sigquit ∷ signals) config = refl

  reloaded-unreadable :
      (failure : E) (n : ℕ) (config : ConfigValues)
      → config_file ≢ []
      → env.read_file config_file ≡ inr failure
      → reloaded (suc n) config ≡ (load_file env config_file config).0
  reloaded-unreadable failure zero config ne e = refl
  reloaded-unreadable failure (suc n) config ne e =
      reloaded-unreadable failure n (load_file env config_file config).0 ne e
      ∙ ap (λ r. r.0) ((load_file-unreadable env config_file failure config ne e).1)

  -- The configuration file cannot be read when a SIGHUP comes, and `main` has started the service and
  -- opened its sockets: when the service ends, it closes all three kinds of sockets if all were enabled
  -- at its start, and panics if one was not.
  pub shut_down-unreadable :
      (net : Network) (visited : Affixes → Affixes) (profile_error : Option Bytes)
      (net_listen : SocketKind → Bytes → Bytes ⊎ Bytes) (was : ConfigValues) (w v : World)
      (service opened : Service) (failure : E) (signals : List Signal) (n : ℕ)
      → start net visited profile_error was w ≡ done (service, v)
      → open_sockets net_listen service ≡ done opened
      → config_file ≢ []
      → env.read_file config_file ≡ inr failure
      → hangups signals ≡ suc n
      → shut_down (listen_for_signals env config_file signals was).0 opened ≡ (
          if was.tcp.enabled && was.udp.enabled && was.unix.enabled
          then done (tcp_socket ∷ udp_socket ∷ unix_socket ∷ [])
          else nil_dereference)
  shut_down-unreadable net visited profile_error net_listen was w v service opened failure signals n
        h o ne e k =
      let loaded : ConfigValues =
        default_config (or_else was.percentile (pos 80 ∷ []))
          (or_else was.service.tokens ((codes "token-name", false) ∷ []))
          (get_hostname env.os_hostname []) in
      let is : (listen_for_signals env config_file signals was).0 ≡ loaded =
        ap (λ r. r.0) (listen_for_signals-reloaded signals was)
        ∙ ap (λ m. reloaded m was) k
        ∙ reloaded-unreadable failure n was ne e
        ∙ ap (λ r. r.0) ((load_file-unreadable env config_file failure was ne e).0) in
      rw is (
        start-shut_down net visited profile_error net_listen was loaded w v service opened h o
        ∙ ground arith)
