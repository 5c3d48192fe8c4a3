-- ===== src/Election/Heartbeat/Probes.antt =====
-- When a test of the heartbeat fails.
use brix.Base.{
  ℕ, zero, suc, ◌≡◌, ◌↔◌, refl, sym, ap, ◌∙◌, ◌<◌, Bool, true, false, Option, none, some, Bytes,
  codes, arith, ℤ, Option-cases, inl, inr,
}
use brix.Net.{Inet, SocketAddress, create_sockaddr}
use brix.Election.Heartbeat.{probe, heartbeat_tries, heartbeat_test}

module _ {S : Type 0} (net : Inet)
    (network : S → SocketAddress → Bytes → Option (SocketAddress × Bytes) × S)
    (servaddr : SocketAddress) where
  abbrev pub try_once : S → Option (SocketAddress × Bytes) × S
  try_once s = network s servaddr (codes "TST")

  -- The network behind `k` probes.
  abbrev pub after : ℕ → S → S
  after zero s = s
  after (suc k) s = after k (try_once s).1

  -- None of the first `n` probes is answered.
  abbrev pub Unanswered : ℕ → S → Type 0
  Unanswered n s = (k : ℕ) → k < n → (try_once (after k s)).0 ≡ none

  heartbeat_tries-answered :
      (n : ℕ) (s : S) (x : SocketAddress × Bytes)
      → (try_once s).0 ≡ some x
      → (heartbeat_tries net network (suc n) servaddr s).0 ≡ true
  unfolding heartbeat_tries
  heartbeat_tries-answered n s x e =
      ap (λ o. (probe (λ t. heartbeat_tries net network n servaddr t) (o, (try_once s).1)).0) e

  heartbeat_tries-missed :
      (n : ℕ) (s : S)
      → (try_once s).0 ≡ none
      → heartbeat_tries net network (suc n) servaddr s
        ≡ heartbeat_tries net network n servaddr (try_once s).1
  unfolding heartbeat_tries
  heartbeat_tries-missed n s e =
      ap (λ o. probe (λ t. heartbeat_tries net network n servaddr t) (o, (try_once s).1)) e

  -- The first `n` probes one by one.
  Unanswered-suc :
      (n : ℕ) (s : S) → (try_once s).0 ≡ none → Unanswered n (try_once s).1 → Unanswered (suc n) s
  Unanswered-suc n s e h zero l = e
  Unanswered-suc n s e h (suc k) l = h k (omega arith)

  pub heartbeat_tries-Unanswered :
      (n : ℕ) (s : S)
      → Unanswered n s
      → heartbeat_tries net network n servaddr s ≡ (false, after n s)
  heartbeat_tries-Unanswered zero s h = unfold heartbeat_tries in refl
  heartbeat_tries-Unanswered (suc n) s h =
      heartbeat_tries-missed n s (h zero (omega arith))
      ∙ heartbeat_tries-Unanswered n (try_once s).1 (λ k l. h (suc k) (omega arith))

  heartbeat_tries-false :
      (n : ℕ) (s : S) → (heartbeat_tries net network n servaddr s).0 ≡ false → Unanswered n s
  heartbeat_tries-false zero s h = λ k l. absurd (omega (arith, l))
  heartbeat_tries-false (suc n) s h = elim (Option-cases (try_once s).0) [
    | inl missed ↦ Unanswered-suc n s missed (
        heartbeat_tries-false n (try_once s).1
          (ap (λ o. o.0) (sym (heartbeat_tries-missed n s missed)) ∙ h))
    | inr (x, heard) ↦ absurd (both (heartbeat_tries-answered n s x heard) h)
  ]
    where
      both : {x : Bool} → x ≡ true → x ≡ false → ⊥
      both p q = cc

-- A test of the heartbeat fails exactly when none of its probes, as many as there are tries, brings
-- a datagram back: the first datagram that comes, from whom and whatever it says, makes it succeed.
pub heartbeat_test_iff :
    {S : Type 0} (net : Inet)
    (network : S → SocketAddress → Bytes → Option (SocketAddress × Bytes) × S) (target_ip : Bytes)
    (target_port : ℤ) (tries : ℕ) (s : S)
    → ((heartbeat_test net network target_ip target_port tries s).0 ≡ false)
      ↔ Unanswered net network (create_sockaddr net target_ip target_port) tries s
unfolding heartbeat_test
heartbeat_test_iff net network target_ip target_port tries s =
    let servaddr = create_sockaddr net target_ip target_port in
    (
      heartbeat_tries-false net network servaddr tries s,
      λ h. ap (λ o. o.0) (heartbeat_tries-Unanswered net network servaddr tries s h),
    )
