-- ===== src/Election/Cluster/Exclusion.antt =====
-- Two coordinators at the same time.
use brix.Base.{
  ℕ, ◌%◌, ◌^◌, ◌<◌, ◌==◌, ==_iff, ◌≡◌, ◌≢◌, refl, sym, subst, ◌∙◌, ◌⊎◌, inl, inr, Bool-cases,
  Option-cases, true, false, some, List, [], ◌∷◌, get_elem?, ap,
}
use brix.Net.{Inet, InetLaws}
use brix.Election.{
  RedundancyManager, Notice, broadcast, Arrival, silence, arrival, coord_announcement_message,
  election_round, backup_election,
}
use brix.Election.Identity.{own_id-lt, own_id-distinct}
use brix.Election.Cluster.{
  HasAddresses, names, Datagram, Cluster, remove, Turn, starts, receives, hears, waits, misses,
  commit, taken, received, take_turn, Reach, fresh, later,
}
use brix.Election.Cluster.Mail.{In, In-remove}
use brix.Election.Cluster.Rounds.{
  election_round-id, election_round-announces, election_round-yields,
}
use brix.Election.Cluster.Invariant.{
  announcement, Awaits, Leads, Apart, Inv, commit-Inv, update_self, update_other,
}

module _ (n : ℕ) (ip name : ℕ → ℕ) (outside : (i : ℕ) → i < n → (ip i % 256 == 127) ≡ false)
    (small : (i : ℕ) → name i < 2 ^ 32)
    (distinct : (i j : ℕ) → i < n → j < n → i ≢ j → name i ≢ name j) where
  -- A round that takes no datagram out of a mailbox.
  round-Inv :
      (k now : ℕ) (a : Arrival) (c : Cluster)
      → Inv ip name n c
      → k < n
      → Inv ip name n (commit ip k (election_round now a (c.servers k)) c)
  round-Inv k now a c v below =
      commit-Inv ip name n k (election_round now a (c.servers k)) c
        (election_round-id now a (c.servers k) ∙ v.named k) v.named
        (λ i j bi bj ne _ _ hi hj. v.apart i j bi bj ne hi hj)
        (λ j bj ne after hj. elim (election_round-announces now a (c.servers k) after) [
          | inl before ↦ inl (v.apart k j below bj ne before hj)
          | inr announced ↦ inr (
              subst
                (λ x.
                  (election_round now a (c.servers k)).1
                  ≡ broadcast (coord_announcement_message x) ∷ [])
                (v.named k) announced)
        ])

  backup_election-Inv :
      (k : ℕ) (c : Cluster)
      → Inv ip name n c
      → k < n
      → Inv ip name n (commit ip k (backup_election (c.servers k)) c)
  backup_election-Inv k c v below =
      commit-Inv ip name n k (backup_election (c.servers k)) c (v.named k) v.named
        (λ i j bi bj ne _ _ hi hj. v.apart i j bi bj ne hi hj)
        (λ j bj ne before hj. inl (v.apart k j below bj ne before hj))

  -- A round with a datagram of the mailbox. If it is another coordinator's announcement, the server is
  -- no coordinator any more.
  received-Inv :
      (k now l : ℕ) (d : Datagram) (c : Cluster)
      → get_elem? (c.mailbox k) l ≡ some d
      → Inv ip name n c
      → k < n
      → Inv ip name n (received ip k now l (some d) c)
  received-Inv k now l (src, text) c got v below =
      commit-Inv ip name n k out (taken k l c) (election_round-id now a m ∙ v.named k) v.named
        (λ i j bi bj ne ki kj hi hj. away i j ki kj (v.apart i j bi bj ne hi hj))
        (λ j bj ne after hj. elim (election_round-announces now a m after) [
          | inl before ↦ inl (own j bj ne after (v.apart k j below bj ne before hj))
          | inr announced ↦ inr (
              subst (λ x. out.1 ≡ broadcast (coord_announcement_message x) ∷ []) (v.named k)
                announced)
        ])
    where
      a : Arrival
      a = arrival src text

      m : RedundancyManager
      m = c.servers k

      out : RedundancyManager × List Notice
      out = election_round now a m

      elsewhere : (i j : ℕ) → k ≢ j → Awaits ip name c i j → Awaits ip name (taken k l c) i j
      elsewhere i j kj h =
          subst (λ l. In (announcement ip name i) l)
            (sym (update_other c.mailbox k (remove (c.mailbox k) l) j kj)) h

      away : (i j : ℕ) → k ≢ i → k ≢ j → Apart ip name c i j → Apart ip name (taken k l c) i j
      away i j ki kj (inl h) = inl (elsewhere i j kj h)
      away i j ki kj (inr h) = inr (elsewhere j i ki h)

      yields :
          (j : ℕ)
          → j < n
          → k ≢ j
          → ◌≡◌ {A = Datagram} (src, text) (announcement ip name j)
          → out.0.is_coordinator ≡ true
          → ⊥
      yields j bj ne e after =
          let other : name j ≢ m.id = λ same. distinct k j below bj ne (sym (same ∙ v.named k)) in
          let no = election_round-yields (name j) (small j) (ip j) now m other (outside j bj) in
          let yes' =
            subst (λ x. (election_round now (arrival x.0 x.1) m).0.is_coordinator ≡ true) e after in
          cc

      own :
          (j : ℕ)
          → j < n
          → k ≢ j
          → out.0.is_coordinator ≡ true
          → Apart ip name c k j
          → Apart ip name (taken k l c) k j
      own j bj ne after (inl h) = inl (elsewhere k j ne h)
      own j bj ne after (inr h) =
          elim (In-remove (announcement ip name j) (c.mailbox k) l (src, text) got h) [
            | inl same ↦ absurd (yields j bj ne same after)
            | inr rest ↦ inr (
                subst (λ l. In (announcement ip name j) l)
                  (sym (update_self c.mailbox k (remove (c.mailbox k) l))) rest)
          ]

  starts-Inv :
      (k now : ℕ) (m : RedundancyManager) (c : Cluster)
      → Inv ip name n c
      → Inv ip name n (take_turn ip k (starts now m) c)
  unfolding take_turn
  starts-Inv k now m c v = record {
    named = λ i. elim (Bool-cases (k == i)) [
      | inl same ↦ rw same (v.named k ∙ ap name ((==_iff k i).0 same))
      | inr other ↦ rw other (v.named i)
    ];
    apart = λ i j bi bj ne hi hj. v.apart i j bi bj ne (led i hi) (led j hj);
  }
    where
      led : (i : ℕ) → Leads (take_turn ip k (starts now m) c) i → Leads c i
      led i h = elim (Bool-cases (k == i)) [
        | inl same ↦ absurd (cc (rw same at h))
        | inr other ↦ rw other at h
      ]

  take_turn-Inv :
      (k : ℕ) (t : Turn) (c : Cluster)
      → Inv ip name n c
      → k < n
      → Inv ip name n (take_turn ip k t c)
  unfolding take_turn
  take_turn-Inv k (starts now m) c v below = starts-Inv k now m c v
  take_turn-Inv k (receives now l) c v below = elim (Option-cases (get_elem? (c.mailbox k) l)) [
    | inl e ↦ subst (λ o. Inv ip name n (received ip k now l o c)) (sym e) v
    | inr (d, e) ↦
        subst (λ o. Inv ip name n (received ip k now l o c)) (sym e)
          (received-Inv k now l d c e v below)
  ]
  take_turn-Inv k (hears now (src, text)) c v below = round-Inv k now (arrival src text) c v below
  take_turn-Inv k (waits now) c v below = round-Inv k now silence c v below
  take_turn-Inv k misses c v below = backup_election-Inv k c v below

  Reach-Inv : {c : Cluster} → Reach ip n name c → Inv ip name n c
  Reach-Inv (fresh times members) = record {
    named = λ i. refl;
    apart = λ i j bi bj ne hi hj. absurd (cc);
  }
  Reach-Inv (later i t below r) = take_turn-Inv i t _ (Reach-Inv r) below

-- The same for ids that come from the addresses.
module _ (net : Inet) (laws : InetLaws net) (n : ℕ) (ip : ℕ → ℕ) (a : HasAddresses n ip) where
  pub names-lt : (i : ℕ) → names net laws ip i < 2 ^ 32
  names-lt i = own_id-lt net (laws.text (ip i))

  pub names-distinct : (i j : ℕ) → i < n → j < n → i ≢ j → names net laws ip i ≢ names net laws ip j
  names-distinct i j bi bj ne =
      own_id-distinct net laws (ip i) (ip j) (a.small i bi) (a.small j bj) (a.distinct i j bi bj ne)

  pub names-Inv : {c : Cluster} → Reach ip n (names net laws ip) c → Inv ip (names net laws ip) n c
  names-Inv = Reach-Inv n ip (names net laws ip) a.outside names-lt names-distinct

-- In a network of any number of servers with different 32-bit addresses outside 127.0.0.0/8, whose
-- ids come from their addresses, whatever the order of their turns and whatever the network delays,
-- loses or adds: if two servers are coordinators at the same time, one of them has not received an
-- announcement that the other has sent to it.
pub coordinators-Awaits :
    (net : Inet) (laws : InetLaws net) (n : ℕ) (ip : ℕ → ℕ)
    → HasAddresses n ip
    → {c : Cluster} → Reach ip n (names net laws ip) c
    → (i j : ℕ) → i < n
    → j < n
    → i ≢ j
    → (c.servers i).is_coordinator ≡ true
    → (c.servers j).is_coordinator ≡ true
    → Awaits ip (names net laws ip) c i j ⊎ Awaits ip (names net laws ip) c j i
coordinators-Awaits net laws n ip a r = (names-Inv net laws n ip a r).apart
