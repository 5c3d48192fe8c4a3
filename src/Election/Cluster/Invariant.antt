-- ===== src/Election/Cluster/Invariant.antt =====
-- What a turn keeps: of two coordinators, the announcement of one stands in the mailbox of the other.
use brix.Base.{
  ℕ, ◌<◌, ◌==◌, ==_iff, ==_refl, ◌≡◌, ◌≢◌, refl, sym, subst, ◌∙◌, ◌⊎◌, inl, inr, Bool-cases, true,
  false, List, [], ◌∷◌, ◌++◌, arith, ap,
}
use brix.Election.{RedundancyManager, Notice, broadcast, coord_announcement_message}
use brix.Election.Cluster.{Datagram, Cluster, update, posted, commit}
use brix.Election.Cluster.Mail.{In, In-append, In-last}

pub update_other : {A : Type 0} (f : ℕ → A) (i : ℕ) (a : A) (j : ℕ) → i ≢ j → update f i a j ≡ f j
update_other f i a j ne = ground (arith, ne)

pub update_self : {A : Type 0} (f : ℕ → A) (i : ℕ) (a : A) → update f i a i ≡ a
update_self f i a = rw (==_refl i) refl

abbrev pub announcement : (ℕ → ℕ) → (ℕ → ℕ) → ℕ → Datagram
announcement ip name i = (ip i, coord_announcement_message (name i))

-- The announcement of the server `i` stands in the mailbox of `j`.
abbrev pub Awaits : (ℕ → ℕ) → (ℕ → ℕ) → Cluster → ℕ → ℕ → Type 0
Awaits ip name c i j = In (announcement ip name i) (c.mailbox j)

abbrev pub Leads : Cluster → ℕ → Type 0
Leads c i = (c.servers i).is_coordinator ≡ true

module _ (ip name : ℕ → ℕ) where
  abbrev pub Apart : Cluster → ℕ → ℕ → Type 0
  Apart c i j = Awaits ip name c i j ⊎ Awaits ip name c j i

  Apart-sym : (c : Cluster) (i j : ℕ) → Apart c i j → Apart c j i
  Apart-sym c i j (inl h) = inr h
  Apart-sym c i j (inr h) = inl h

  pub record Inv (n : ℕ) (c : Cluster) : Type 0 where
    pub named : (i : ℕ) → (c.servers i).id ≡ name i
    pub apart : (i j : ℕ) → i < n → j < n → i ≢ j → Leads c i → Leads c j → Apart c i j

  -- Sending takes nothing out of a mailbox.
  commit-Awaits :
      (k : ℕ) (out : RedundancyManager × List Notice) (c : Cluster) (i j : ℕ)
      → Awaits ip name c i j
      → Awaits ip name (commit ip k out c) i j
  unfolding commit
  commit-Awaits k (m, sent) c i j h = In-append _ (c.mailbox j) (posted (ip k) (ip j) sent) h

  commit-Apart :
      (k : ℕ) (out : RedundancyManager × List Notice) (c : Cluster) (i j : ℕ)
      → Apart c i j
      → Apart (commit ip k out c) i j
  commit-Apart k out c i j (inl h) = inl (commit-Awaits k out c i j h)
  commit-Apart k out c i j (inr h) = inr (commit-Awaits k out c j i h)

  -- What is announced stands in every mailbox.
  commit-announces :
      (k : ℕ) (m : RedundancyManager) (sent : List Notice) (c : Cluster) (j : ℕ)
      → sent ≡ broadcast (coord_announcement_message (name k)) ∷ []
      → Awaits ip name (commit ip k (m, sent) c) k j
  unfolding commit
  commit-announces k m sent c j e =
      subst (λ l. In (announcement ip name k) (c.mailbox j ++ posted (ip k) (ip j) l)) (sym e)
        (In-last _ (c.mailbox j) _ (inl refl))

  -- A turn of the server `k`, whose new state is `out.0`.
  module _ (n k : ℕ) (out : RedundancyManager × List Notice) (c : Cluster)
      (kept : out.0.id ≡ name k) (named : (i : ℕ) → (c.servers i).id ≡ name i)
      (others : (i j : ℕ)
        → i < n
        → j < n
        → i ≢ j
        → k ≢ i
        → k ≢ j
        → Leads c i
        → Leads c j
        → Apart c i j)
      (own : (j : ℕ)
        → j < n
        → k ≢ j
        → out.0.is_coordinator ≡ true
        → Leads c j
        → Apart c k j ⊎ (out.1 ≡ broadcast (coord_announcement_message (name k)) ∷ [])) where
    stays : (j : ℕ) → k ≢ j → Leads (commit ip k out c) j → Leads c j
    unfolding commit
    stays j ne h = rw (update_other c.servers k out.0 j ne) at h

    leads : Leads (commit ip k out c) k → out.0.is_coordinator ≡ true
    unfolding commit
    leads h = rw (update_self c.servers k out.0) at h

    own_pair :
        (j : ℕ)
        → j < n
        → k ≢ j
        → Leads (commit ip k out c) k
        → Leads (commit ip k out c) j
        → Apart (commit ip k out c) k j
    own_pair j below ne hk hj = elim (own j below ne (leads hk) (stays j ne hj)) [
      | inl old ↦ commit-Apart k out c k j old
      | inr announced ↦ inl (commit-announces k out.0 out.1 c j announced)
    ]

    commit_pairs :
        (i j : ℕ)
        → i < n
        → j < n
        → i ≢ j
        → Leads (commit ip k out c) i
        → Leads (commit ip k out c) j
        → Apart (commit ip k out c) i j
    commit_pairs i j bi bj ne hi hj = elim (Bool-cases (k == i)) [
      | inl first ↦ own_at i j bj ((==_iff k i).0 first) ne hi hj
      | inr first ↦ elim (Bool-cases (k == j)) [
        | inl second ↦
            Apart-sym (commit ip k out c) j i
              (own_at j i bi ((==_iff k j).0 second) (λ e. ne (sym e)) hj hi)
        | inr second ↦ commit-Apart k out c i j (
            others i j bi bj ne (differ k i first) (differ k j second)
              (stays i (differ k i first) hi) (stays j (differ k j second) hj))
      ]
    ]
      where
        differ : (a b : ℕ) → (a == b) ≡ false → a ≢ b
        differ a b h e = ground arith

        own_at :
            (a b : ℕ)
            → b < n
            → k ≡ a
            → a ≢ b
            → Leads (commit ip k out c) a
            → Leads (commit ip k out c) b
            → Apart (commit ip k out c) a b
        own_at a b below e =
            subst
              (λ x.
                x ≢ b
                → Leads (commit ip k out c) x
                → Leads (commit ip k out c) b
                → Apart (commit ip k out c) x b)
              e (λ ne' ha hb. own_pair b below ne' ha hb)

    commit-named : (i : ℕ) → ((commit ip k out c).servers i).id ≡ name i
    unfolding commit
    commit-named i = elim (Bool-cases (k == i)) [
      | inl same ↦ rw same (kept ∙ ap name ((==_iff k i).0 same))
      | inr other ↦ rw other (named i)
    ]

    pub commit-Inv : Inv n (commit ip k out c)
    commit-Inv = record { named = commit-named; apart = commit_pairs }
