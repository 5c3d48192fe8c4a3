-- ===== src/Tests/System.antt =====
-- A server on a machine with a few descriptors.
use brix.Base.{
  ◌+◌, ◌<◌, length, ◌≡◌, refl, true, false, none, some, List, [], ◌∷◌, All, arith, ℤ, codes,
}
use mathlib.Core.List.{map}
use brix.Net.Dotted.{dotted, dotted_laws}
use brix.Net.System.{Socket, goes, exits}
use brix.Net.System.Machine.{Machine, at_fd, machine, machine_laws}
use brix.Server.Ports.{
  bound_port, Service, greeter, multiplexer, heartbeat, replication, single_socket,
}
use brix.Server.Services.{open_services, socket_of}
use brix.Server.Services.FreePorts.{open_services-Opened}
use brix.Election.Heartbeat.Calls.{heartbeat_tester_loop_calls}
use brix.Election.Heartbeat.Descriptors.{heartbeat_tester_loop_calls-exits}
use brix.Tests.Election.{electing}

-- Three standard streams, and eight descriptors more.
abbrev idle_machine : Machine
idle_machine = record { next = 3; room = 8; sockets = λ n. none; busy = λ p. false }

-- Another program has every port.
abbrev busy_machine : Machine
busy_machine = record idle_machine { busy = λ p. true }

abbrev services : List Service
services = replication ∷ greeter ∷ multiplexer ∷ heartbeat ∷ single_socket ∷ []

ports_positive : All (λ x. 0 < bound_port dotted 9000 x) services
unfolding bound_port
ports_positive = (omega arith, (omega arith, (omega arith, (omega arith, (omega arith, tt)))))

open_services-Opened_example :
    (opened : List (Service × ℤ)) × (t : Machine) × (open_services dotted machine 9000 services
        idle_machine
      ≡ goes opened t)
    × (map (λ x. x.0) opened ≡ services)
    × All (λ x. at_fd t x.1 ≡ some (socket_of dotted 9000 x.0)) opened
    × (t.room + length services ≡ 8)
    × ((g : ℤ) (l : Socket) → at_fd idle_machine g ≡ some l → at_fd t g ≡ some l)
open_services-Opened_example =
    open_services-Opened dotted dotted_laws machine machine_laws 9000 services idle_machine
      (
        ((λ e. cc), ((λ e. cc), ((λ e. cc), ((λ e. cc), tt)))),
        (
          ((λ e. cc), ((λ e. cc), ((λ e. cc), tt))),
          (((λ e. cc), ((λ e. cc), tt)), (((λ e. cc), tt), (tt, tt))),
        ),
      )
      (omega arith) ports_positive (refl, (refl, (refl, (refl, (refl, tt)))))

heartbeat_tester_loop_calls-exits_example :
    ((t : Machine) × (heartbeat_tester_loop_calls dotted machine 9000 8 electing idle_machine
        ≡ goes (electing, []) t)
      × (t.room ≡ 0))
    × ((t : Machine) × (heartbeat_tester_loop_calls dotted machine 9000 9 electing idle_machine
          ≡ exits t))
heartbeat_tester_loop_calls-exits_example =
    heartbeat_tester_loop_calls-exits dotted machine machine_laws electing refl 9000
      (λ fd a text t. ((a, codes "ALV"), refl)) 8 idle_machine refl
