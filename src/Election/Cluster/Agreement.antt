-- ===== src/Election/Cluster/Agreement.antt =====
-- How a server becomes the only coordinator.
use brix.Base.{
  ℕ, ◌%◌, ◌^◌, ◌<◌, ◌==◌, ◌≡◌, ◌≢◌, refl, sym, subst, ◌∙◌, true, false, some, List, [], ◌∷◌, ◌++◌,
  append-nil, get_elem?, length, All, ap, leb_ℤ,
}
use brix.Net.{Inet, InetLaws}
use brix.Election.{
  init, not_in_progress, in_progress, RedundancyManager, Notice, broadcast, silence, arrival,
  coord_announcement_message, election_round, waited, answer_max_wait_time,
}
use brix.Election.Contest.{election_round-follows, quiet_round}
use brix.Election.Cluster.{
  HasAddresses, names, Datagram, Cluster, remove, posted, Turn, receives, waits, commit, taken,
  received, take_turn, run, Reach,
}
use brix.Election.Cluster.Invariant.{announcement, update_self, update_other}
use brix.Election.Cluster.Exclusion.{names-lt, names-distinct, names-Inv}

get_elem?-length :
    {A : Type 0} (xs : List A) (d : A) → get_elem? (xs ++ d ∷ []) (length xs) ≡ some d
get_elem?-length [] d = refl
get_elem?-length (x ∷ xs) d = get_elem?-length xs d

-- A server that takes another one for the coordinator.
abbrev pub Follows : ℕ → RedundancyManager → Type 0
Follows leader m =
    (m.state ≡ not_in_progress) × (m.is_coordinator ≡ false) × (m.coordinator_ip ≡ leader)

-- The turns of others, each with the datagram that stands behind what was in its mailbox.
abbrev pub listeners : ℕ → (ℕ → List Datagram) → List ℕ → List (ℕ × Turn)
listeners now before [] = []
listeners now before (j ∷ js) = (j, receives now (length (before j))) ∷ listeners now before js

abbrev pub Distinct : List ℕ → Type 0
Distinct [] = Unit
Distinct (j ∷ js) = All (λ i. j ≢ i) js × Distinct js

-- What one of them does to the cluster.
record Heard (j leader : ℕ) (c c' : Cluster) : Type 0 where
  follows : Follows leader (c'.servers j)
  others : (i : ℕ) → j ≢ i → c'.servers i ≡ c.servers i
  boxes : (i : ℕ) → j ≢ i → c'.mailbox i ≡ c.mailbox i

-- A server that has the announcement of the server `k` behind what was in its mailbox.
record Ready (ip name : ℕ → ℕ) (k : ℕ) (before : ℕ → List Datagram) (c : Cluster) (j : ℕ)
    : Type 0 where
  other : name k ≢ name j
  named : (c.servers j).id ≡ name j
  running : (c.servers j).state ≢ init
  box : c.mailbox j ≡ before j ++ announcement ip name k ∷ []

abbrev pub Others : ℕ → List ℕ → Type 0
Others k = All (λ j. k ≢ j)

Others-sym : (k : ℕ) (js : List ℕ) → Others k js → All (λ j. j ≢ k) js
Others-sym k [] _ = tt
Others-sym k (i ∷ js) (ne, h) = (λ e. ne (sym e), Others-sym k js h)

module _ (ip name : ℕ → ℕ) (k now : ℕ) (outside : (ip k % 256 == 127) ≡ false)
    (small : name k < 2 ^ 32) where
  received-Heard :
      (j n : ℕ) (c : Cluster)
      → name k ≢ name j
      → (c.servers j).id ≡ name j
      → (c.servers j).state ≢ init
      → Heard j (ip k) c (received ip j now n (some (announcement ip name k)) c)
  unfolding commit posted
  received-Heard j n c ne named running = record {
    follows =
        subst (Follows (ip k)) (sym (update_self c.servers j out.0)) (heard.0, heard.1, heard.2);
    others = λ i other. update_other c.servers j out.0 i other;
    boxes = λ i other.
        ap (λ l. (taken j n c).mailbox i ++ posted (ip j) (ip i) l) heard.3
        ∙ append-nil ((taken j n c).mailbox i)
        ∙ update_other c.mailbox j (remove (c.mailbox j) n) i other;
  }
    where
      out : RedundancyManager × List Notice
      out = election_round now (arrival (ip k) (coord_announcement_message (name k))) (c.servers j)

      heard :
          (out.0.state ≡ not_in_progress)
          × (out.0.is_coordinator ≡ false)
          × (out.0.coordinator_ip ≡ ip k)
          × (out.1 ≡ [])
      heard =
          election_round-follows (name k) small (ip k) (c.servers j) (λ e. ne (e ∙ named)) outside
            now running

  module _ (before : ℕ → List Datagram) where
    turn-Heard :
        (j : ℕ) (c : Cluster)
        → Ready ip name k before c j
        → Heard j (ip k) c (take_turn ip j (receives now (length (before j))) c)
    unfolding take_turn
    turn-Heard j c r =
        subst (λ o. Heard j (ip k) c (received ip j now (length (before j)) o c))
          (sym (
            ap (λ l. get_elem? l (length (before j))) r.box
            ∙ get_elem?-length (before j) (announcement ip name k)))
          (received-Heard j (length (before j)) c r.other r.named r.running)

    Ready-kept :
        (j : ℕ) (c c' : Cluster)
        → Heard j (ip k) c c'
        → (js : List ℕ) → All (λ i. j ≢ i) js
        → All (Ready ip name k before c) js
        → All (Ready ip name k before c') js
    Ready-kept j c c' h [] _ _ = tt
    Ready-kept j c c' h (i ∷ js) (ne, apart) (r, ready) = (
      record {
        other = r.other;
        named = ap (λ m. m.id) (h.others i ne) ∙ r.named;
        running = λ e. r.running (sym (ap (λ m. m.state) (h.others i ne)) ∙ e);
        box = h.boxes i ne ∙ r.box;
      },
      Ready-kept j c c' h js apart ready,
    )

    spread :
        (js : List ℕ) (c : Cluster)
        → Distinct js
        → All (Ready ip name k before c) js
        → let c' = run ip (listeners now before js) c in
          All (λ j. Follows (ip k) (c'.servers j)) js
          × ((i : ℕ) → All (λ j. j ≢ i) js → c'.servers i ≡ c.servers i)
    unfolding run
    spread [] c _ _ = (tt, λ i _. refl)
    spread (j ∷ js) c (apart, rest) (r, ready) =
        let heard = turn-Heard j c r in
        let c1 = take_turn ip j (receives now (length (before j))) c in
        let (follow, same) = spread js c1 rest (Ready-kept j c c1 heard js apart ready) in
        (
          (subst (Follows (ip k)) (sym (same j (Others-sym j js apart))) heard.follows, follow),
          λ i ne. same i ne.1 ∙ heard.others i ne.0,
        )

  -- What its announcement leaves behind.
  commit-Ready :
      (c : Cluster) (m : RedundancyManager) (n : ℕ)
      → ((i : ℕ) → (c.servers i).id ≡ name i)
      → ((i : ℕ) → i < n → k ≢ i → name k ≢ name i)
      → (js : List ℕ) → All (λ j. j < n) js
      → Others k js
      → All (λ j. (c.servers j).state ≢ init) js
      → All
          (Ready ip name k c.mailbox
            (commit ip k (m, broadcast (coord_announcement_message (name k)) ∷ []) c))
          js
  unfolding commit posted
  commit-Ready c m n named unlike [] _ _ _ = tt
  commit-Ready c m n named unlike (j ∷ js) (below, within) (ne, others) (started, running) =
      let same = update_other c.servers k m j ne in
      (
        record {
          other = unlike j below ne;
          named = ap (λ x. x.id) same ∙ named j;
          running = λ e. started (sym (ap (λ x. x.state) same) ∙ e);
          box = refl;
        },
        commit-Ready c m n named unlike js within others running,
      )

  -- After the announcement, those who receive it follow.
  announcement-spreads :
      (c : Cluster) (out : RedundancyManager × List Notice) (n : ℕ)
      → ((i : ℕ) → (c.servers i).id ≡ name i)
      → ((i : ℕ) → i < n → k ≢ i → name k ≢ name i)
      → (js : List ℕ) → All (λ j. j < n) js
      → Others k js
      → Distinct js
      → All (λ j. (c.servers j).state ≢ init) js
      → out.1 ≡ broadcast (coord_announcement_message (name k)) ∷ []
      → let c' = run ip (listeners now c.mailbox js) (commit ip k out c) in
        (c'.servers k ≡ out.0) × All (λ j. Follows (ip k) (c'.servers j)) js
  unfolding commit
  announcement-spreads c (m, sent) n named unlike js within others apart running e =
      let c1 = commit ip k (m, sent) c in
      let ready =
        subst (λ l. All (Ready ip name k c.mailbox (commit ip k (m, l) c)) js) (sym e)
          (commit-Ready c m n named unlike js within others running) in
      let (follow, same) = spread c.mailbox js c1 apart ready in
      (same k (Others-sym k js others) ∙ update_self c.servers k m, follow)

-- Many servers come to one coordinator. In a network of servers with different 32-bit addresses
-- outside 127.0.0.0/8, whose ids come from their addresses, at any point of any schedule: let an
-- election be in progress at a server whose last datagram came from outside 127.0.0.0/8, and let it
-- hear nothing in a round at 200 ms or more of its clock behind the start of its loop. Then let others,
-- any number of them, that are behind the first rounds of their loops, receive its announcement, each
-- in one round. It is the coordinator, each of them takes it for the coordinator, and none of them is
-- one.
pub run-agrees :
    (net : Inet) (laws : InetLaws net) (n : ℕ) (ip : ℕ → ℕ)
    → HasAddresses n ip
    → {c : Cluster} → Reach ip n (names net laws ip) c
    → (k now later : ℕ) (js : List ℕ) → k < n
    → (c.servers k).state ≡ in_progress
    → ((c.servers k).cliaddr % 256 == 127) ≡ false
    → leb_ℤ answer_max_wait_time (waited now (c.servers k)) ≡ true
    → All (λ j. j < n) js
    → Others k js
    → Distinct js
    → All (λ j. (c.servers j).state ≢ init) js
    → let c' = run ip ((k, waits now) ∷ listeners later c.mailbox js) c in
      ((c'.servers k).is_coordinator ≡ true) × All (λ j. Follows (ip k) (c'.servers j)) js
unfolding run take_turn
run-agrees net laws n ip a {c} r k now later js below busy quiet late within others apart running =
    let named = (names-Inv net laws n ip a r).named in
    let won = quiet_round now (c.servers k) quiet busy late in
    let (same, follow) =
      announcement-spreads ip (names net laws ip) k later (a.outside k below)
        (names-lt net laws n ip a k) c (election_round now silence (c.servers k)) n named
        (λ i bi ne. names-distinct net laws n ip a k i below bi ne) js within others apart running
        (won.2 ∙ ap (λ x. broadcast (coord_announcement_message x) ∷ []) (named k)) in
    (ap (λ m. m.is_coordinator) same ∙ won.1, follow)
