-- ===== src/Server/Services/Start.antt =====
-- One service that starts and finds its port free.
use brix.Base.{ℕ, ◌<◌, ◌≡◌, ◌∙◌, refl, sym, ap, false, none, some, ℤ}
use brix.Net.{Inet, InetLaws, create_sockaddr}
use brix.Net.System.{Os, Socket, any_address, OsLaws, goes, after, ret, ◌>>◌, bind_to_sockaddr}
use brix.Net.System.Setup.{
  Opened, create_udp_socket-then, enable_broadcast-then, set_timeout-then, bind_to_sockaddr-Opened,
}
use brix.Server.Ports.{
  Service, greeter, multiplexer, heartbeat, replication, single_socket, bound_port,
}
use brix.Server.Synchronizer.{new_db_synchronizer}
use brix.Server.Services.{servaddr, open_service, socket_of}

module _ {S : Type 0} (net : Inet) (inet : InetLaws net) (os : Os S) (laws : OsLaws os)
    (port : ℕ) where
  open laws use {at_fd, left, taken}

  pub servaddr-any :
      (service : Service) → servaddr net os port service ≡ any_address (bound_port net port service)
  unfolding create_sockaddr bound_port
  servaddr-any service = ap (λ a. record { ip = a; port = bound_port net port service }) inet.any

  -- The address is written otherwise, and is the same.
  pub replication-any :
      (new_db_synchronizer net port).servaddr ≡ any_address (bound_port net port replication)
  unfolding create_sockaddr bound_port
  replication-any = refl

  -- A service that finds its port free goes into its loop with the socket that it needs.
  abbrev pub Starts : Service → S → Type 0
  Starts service s =
      (fd : ℤ) × (t : S) × (open_service net os port service s ≡ goes fd t)
      × Opened laws s fd (socket_of net port service) t

  module _ (s : S) (room : 0 < left s) where
    abbrev pub Free : Service → Type 0
    Free service =
        (0 < bound_port net port service) × (taken s (bound_port net port service) ≡ false)

    -- The last call of each: the port is free.
    bind-Starts :
        (service : Service) {t : S} {fd : ℤ} {k : Socket}
        → Opened laws s fd k t
        → k.bound ≡ none
        → Free service
        → (u : S) × ((bind_to_sockaddr os fd (servaddr net os port service) >> ret fd) t
            ≡ goes fd u)
          × Opened laws s fd
              (record k { bound = some (any_address (bound_port net port service)) })
              u
    bind-Starts service {t} {fd} h unbound free =
        let (u, bound, l) =
          bind_to_sockaddr-Opened laws (bound_port net port service) h unbound free.0 free.1 in
        (
          u,
          ap (λ a. after (bind_to_sockaddr os fd a t) (λ _. ret fd)) (servaddr-any service)
              ∙ ap (λ o. after o (λ _. ret fd)) bound,
          l,
        )

    greeter-Starts : Free greeter → Starts greeter s
    unfolding open_service
    greeter-Starts free =
        let (fd, t, made, h) = create_udp_socket-then laws _ s room in
        let (u, told, k) = enable_broadcast-then laws _ h in
        let (v, bound, l) = bind-Starts greeter k refl free in (fd, v, made ∙ told ∙ bound, l)

    multiplexer-Starts : Free multiplexer → Starts multiplexer s
    unfolding open_service
    multiplexer-Starts free =
        let (fd, t, made, h) = create_udp_socket-then laws _ s room in
        let (v, bound, l) = bind-Starts multiplexer h refl free in (fd, v, made ∙ bound, l)

    heartbeat-Starts : Free heartbeat → Starts heartbeat s
    unfolding open_service
    heartbeat-Starts free =
        let (fd, t, made, h) = create_udp_socket-then laws _ s room in
        let (v, bound, l) = bind-Starts heartbeat h refl free in (fd, v, made ∙ bound, l)

    replication-Starts : Free replication → Starts replication s
    unfolding open_service
    replication-Starts free =
        let (fd, t, made, h) = create_udp_socket-then laws _ s room in
        let (u, told, k) = enable_broadcast-then laws _ h in
        let (v, bound, l) = bind-Starts replication k refl free in
        let same = replication-any ∙ sym (servaddr-any replication) in
        (
          fd,
          v,
          made ∙ told ∙ ap (λ a. after (bind_to_sockaddr os fd a u) (λ _. ret fd)) same ∙ bound,
          l,
        )

    single_socket-Starts : Free single_socket → Starts single_socket s
    unfolding open_service
    single_socket-Starts free =
        let (fd, t, made, h) = create_udp_socket-then laws _ s room in
        let (u, told, k) = enable_broadcast-then laws _ h in
        let (w, timed, l) = set_timeout-then laws 10 _ k in
        let (v, bound, m) = bind-Starts single_socket l refl free in
        (fd, v, made ∙ told ∙ timed ∙ bound, m)

    pub open_service-Starts : (service : Service) → Free service → Starts service s
    open_service-Starts greeter = greeter-Starts
    open_service-Starts multiplexer = multiplexer-Starts
    open_service-Starts heartbeat = heartbeat-Starts
    open_service-Starts replication = replication-Starts
    open_service-Starts single_socket = single_socket-Starts
