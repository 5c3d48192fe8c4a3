-- ===== src/Server/Services/FreePorts.antt =====
-- The services on a machine whose ports are free.
use brix.Base.{
  ℕ, ◌+◌, ◌<◌, ◌≤◌, ◌≡◌, ◌≢◌, ◌∙◌, refl, sym, ap, subst, false, Option, none, some, List, [], ◌∷◌,
  All, length, arith, ℤ,
}
use mathlib.Core.List.{map}
use brix.Net.{Inet, InetLaws}
use brix.Net.System.{Os, Socket, OsLaws, goes, after, ret, ◌>>=◌}
use brix.Net.System.Setup.{Opened}
use brix.Server.Ports.{Service, bound_port, bound_port_injective}
use brix.Server.Services.{open_services, socket_of}
use brix.Server.Services.Start.{open_service-Starts}

abbrev pub Nodup : List Service → Type 0
Nodup [] = Unit
Nodup (x ∷ xs) = All (λ y. x ≢ y) xs × Nodup xs

module _ {S : Type 0} (net : Inet) (inet : InetLaws net) (os : Os S) (laws : OsLaws os)
    (port : ℕ) where
  open laws use {at_fd, left, taken}

  -- What a service that starts leaves as it was.
  still_open :
      {s t : S} {fd : ℤ} {k : Socket}
      → Opened laws s fd k t
      → (g : ℤ) (l : Socket) → at_fd s g ≡ some l
      → at_fd t g ≡ some l
  still_open {s} h g l e =
      h.puts.others g (λ same. differ (h.was_closed) (subst (λ x. at_fd s x ≡ some l) same e)) ∙ e
    where
      differ : {o : Option Socket} → o ≡ none → o ≡ some l → ⊥
      differ p q = cc

  still_free :
      {s t : S} {fd : ℤ} (service : Service) (services : List Service)
      → Opened laws s fd (socket_of net port service) t
      → All (λ x. service ≢ x) services
      → All (λ x. taken s (bound_port net port x) ≡ false) services
      → All (λ x. taken t (bound_port net port x) ≡ false) services
  still_free service [] h _ _ = tt
  still_free service (x ∷ services) h (ne, apart) (free, rest) = (
    h.ports (bound_port net port x)
          (λ e. ne (sym (bound_port_injective net port x service (port_eq e))))
        ∙ free,
    still_free service services h apart rest,
  )
    where
      port_eq : {a b : ℕ} → some a ≡ some b → a ≡ b
      port_eq e = cc

  -- Let services, none of them twice, open their sockets one after the other, in any order, on a
  -- machine on which their ports are free and with a descriptor left for each; none of their ports,
  -- the server's port plus the service's number modulo 2^16, is 0. Then each comes to its loop with the
  -- socket that it needs, on its own port and with its own options; each takes one descriptor, and no
  -- other socket is touched.
  pub open_services-Opened :
      (services : List Service) (s : S)
      → Nodup services
      → length services ≤ left s
      → All (λ x. 0 < bound_port net port x) services
      → All (λ x. taken s (bound_port net port x) ≡ false) services
      → (opened : List (Service × ℤ)) × (t : S) × (open_services net os port services s
          ≡ goes opened t)
        × (map (λ x. x.0) opened ≡ services)
        × All (λ x. at_fd t x.1 ≡ some (socket_of net port x.0)) opened
        × (left t + length services ≡ left s)
        × ((g : ℤ) (l : Socket) → at_fd s g ≡ some l → at_fd t g ≡ some l)
  unfolding open_services
  open_services-Opened [] s _ _ _ _ = ([], s, refl, refl, tt, omega arith, λ g l e. e)
  open_services-Opened (service ∷ services) s (apart, distinct) room (positive, positives)
        (free, rest) =
      let (fd, t, started, h) =
        open_service-Starts net inet os laws port s (omega arith) service (positive, free) in
      let (opened, u, ended, names, sockets, uses, kept) =
        open_services-Opened services t distinct (omega (arith, h.uses)) positives
          (still_free service services h apart rest) in
      (
        (service, fd) ∷ opened,
        u,
        ap
              (λ o. after o (λ sockfd.
                open_services net os port services >>= λ more. ret ((service, sockfd) ∷ more)))
              started
            ∙ ap (λ o. after o (λ more. ret ((service, fd) ∷ more))) ended,
        ap (λ l. service ∷ l) names,
        (kept fd (socket_of net port service) h.puts.here, sockets),
        omega (arith, uses, h.uses),
        λ g l e. kept g l (still_open h g l e),
      )
