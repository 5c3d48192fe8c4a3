-- ===== src/Server/Location.antt =====
-- A round of the discovery service: who is registered, and what the clients are told.
use brix.Base.{
  ℕ, ◌≡◌, refl, ap, ◌∙◌, Bool, true, false, List, [], ◌∷◌, ◌++◌, append_assoc, Bytes, ℤ, pos,
  if◌then◌else◌, arith, codes, take, ◌<◌, ◌^◌, take_short,
}
use brix.Text.{space, print, print_signed}
use brix.Text.Plain.{Passes, Passes-le, Passes-append, print-short}
use brix.Net.{Inet, InetLaws}
use brix.Snapshot.{to_string}
use brix.Db.State.{DbSnapshot}
use brix.Db.Program.{run, run-bind_done, done, Datagram, reply, update}
use brix.Db.Methods.{register_client, snapshot_of}
use brix.Db.Bank.{open_account}
use brix.Db.Idle.{idle_world}
use brix.Db.Refinement.{register_client_lem}
use brix.Server.{datagram, location_message, discovery_round, c_string}
use brix.Server.Buffer.{c_string-take}

-- The bank after the registration, and what is sent: where the server is, and the new snapshot.
abbrev pub location_sends : Inet → Bytes → ℤ → ℕ → DbSnapshot → List Datagram
location_sends net server_ip server_port ip b =
    reply ip (location_message server_ip server_port) ∷ update (to_string net b) ∷ []

-- One round of the discovery service, with the message that it has made at its start.
pub discovery_round_alone :
    (net : Inet) (server_ip : Bytes) (server_port : ℤ) (is_coordinator : Bool) (ip : ℕ)
    (request : Bytes) (b : DbSnapshot) (sent : List Datagram)
    → run
        (discovery_round net server_ip server_port is_coordinator (datagram ip request))
        (idle_world b sent)
      ≡ done tt (
          if is_coordinator
          then idle_world
              (open_account ip b).1
              (sent ++ location_sends net server_ip server_port ip (open_account ip b).1)
          else idle_world b sent)
unfolding discovery_round run snapshot_of
discovery_round_alone net server_ip server_port false ip request b sent = refl
discovery_round_alone net server_ip server_port true ip request b sent =
    run-bind_done (register_client ip) _ (idle_world b sent) (open_account ip b).0
      (idle_world (open_account ip b).1 sent) (register_client_lem ip b sent)
    ∙ ap (λ ds. done tt (idle_world (open_account ip b).1 ds)) (append_assoc sent _ _)

-- A text `LOC <ip> <port> END`.
abbrev pub location_text : Bytes → ℕ → Bytes
location_text ip port = codes "LOC " ++ (ip ++ space ∷ (print port ++ codes " END"))

module _ (net : Inet) (laws : InetLaws net) (a port : ℕ) (h : a < 2 ^ 32)
    (small : port < 100000) where
  location-Passes : Passes 29 (location_text (laws.text a) port)
  location-Passes =
      Passes-append 4 25 (codes "LOC ") _ (record { short = omega arith; non_zero = omega arith })
        (Passes-append 15 10 (laws.text a) _ (laws.passes a h) (
          Passes-append 1 9 (space ∷ []) _ (record { short = omega arith; non_zero = omega arith })
            (Passes-append 5 4 (print port) _ (print-short 4 port (omega arith))
              (record { short = omega arith; non_zero = omega arith }))))

  -- The message is not cut by the server's buffer, nor by the client's.
  pub location_message-whole :
      c_string (take 2048 (location_message (laws.text a) (pos port)))
      ≡ location_text (laws.text a) port
  unfolding location_message print_signed
  location_message-whole =
      ap (λ s. c_string (take 2048 s))
        (take_short 2048 (location_text (laws.text a) port) whole.short)
      ∙ c_string-take 2048 (location_text (laws.text a) port) whole.short whole.non_zero
    where
      whole : Passes 2048 (location_text (laws.text a) port)
      whole = Passes-le 29 2048 (location_text (laws.text a) port) (omega arith) location-Passes

  location_message-text :
      location_message (laws.text a) (pos port) ≡ location_text (laws.text a) port
  unfolding location_message print_signed
  location_message-text =
      take_short 2048 (location_text (laws.text a) port)
        (Passes-le 29 2048 (location_text (laws.text a) port) (omega arith) location-Passes).short

  -- Let the discovery service know the server's address, of 32 bits, and a port below 100000. One
  -- round, run alone on a database that is between two calls, ends with every mutex free. A
  -- coordinator opens an account for the sender, if it has none, sends it `LOC`, the dotted text of
  -- that address, the port in decimal and `END`, with a space between them, and then sends the
  -- snapshot to the other servers, whatever the request says; any other server does nothing.
  pub discovery_round_lem :
      (is_coordinator : Bool) (ip : ℕ) (request : Bytes) (b : DbSnapshot) (sent : List Datagram)
      → run
          (discovery_round net (laws.text a) (pos port) is_coordinator (datagram ip request))
          (idle_world b sent)
        ≡ done tt (
            let b' = (open_account ip b).1 in
            if is_coordinator
            then idle_world b' (
                sent
                ++ reply ip (location_text (laws.text a) port) ∷ update (to_string net b') ∷ [])
            else idle_world b sent)
  discovery_round_lem is_coordinator ip request b sent =
      discovery_round_alone net (laws.text a) (pos port) is_coordinator ip request b sent
      ∙ ap
          (λ m. done tt (
            if is_coordinator
            then idle_world (open_account ip b).1
                (sent ++ reply ip m ∷ update (to_string net (open_account ip b).1) ∷ [])
            else idle_world b sent))
          location_message-text
