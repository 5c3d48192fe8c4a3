-- ===== src/Election/Cluster/Mail.antt =====
-- What a mailbox holds.
use brix.Base.{ℕ, zero, suc, ◌≡◌, ◌⊎◌, inl, inr, some, List, [], ◌∷◌, ◌++◌, get_elem?}
use brix.Election.Cluster.{remove}

module _ {A : Type 0} (d : A) where
  abbrev pub In : List A → Type 0
  In [] = ⊥
  In (x ∷ xs) = (x ≡ d) ⊎ In xs

  pub In-append : (xs ys : List A) → In xs → In (xs ++ ys)
  In-append [] ys h = absurd h
  In-append (x ∷ xs) ys (inl e) = inl e
  In-append (x ∷ xs) ys (inr h) = inr (In-append xs ys h)

  pub In-last : (xs ys : List A) → In ys → In (xs ++ ys)
  In-last [] ys h = h
  In-last (x ∷ xs) ys h = inr (In-last xs ys h)

  -- The datagram that is taken is the one that was there, or it is there still.
  pub In-remove :
      (xs : List A) (k : ℕ) (e : A) → get_elem? xs k ≡ some e → In xs → (e ≡ d) ⊎ In (remove xs k)
  In-remove [] k e got h = absurd h
  In-remove (x ∷ xs) zero e got (inl same) = inl (cc)
  In-remove (x ∷ xs) zero e got (inr h) = inr h
  In-remove (x ∷ xs) (suc k) e got (inl same) = inr (inl same)
  In-remove (x ∷ xs) (suc k) e got (inr h) = elim (In-remove xs k e got h) [
    | inl same ↦ inl same
    | inr rest ↦ inr (inr rest)
  ]
