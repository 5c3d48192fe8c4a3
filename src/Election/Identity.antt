-- ===== src/Election/Identity.antt =====
-- The ids of the servers: the constructor of `RedundancyManager`,
-- server/src/election/redundancy_manager.cpp.
use brix.Base.{ℕ, ◌^◌, ◌<◌, ◌≡◌, ◌≢◌, sym, ap, ◌∙◌, some, Bytes}
use brix.Net.{Inet, InetLaws, ntohl, ntohl-lt, ntohl_injective}
use brix.Election.{
  election, answer, coord_announcement, election_message, answer_message,
  coord_announcement_message, classify,
}
use brix.Election.Messages.{classify-message}

-- The id is the address of the server as a number.
unfoldable pub own_id : Inet → Bytes → ℕ
unfolding ntohl
own_id net self_ip = ntohl (net.inet_addr self_ip)

pub own_id-lt : (net : Inet) (self_ip : Bytes) → own_id net self_ip < 2 ^ 32
unfolding own_id
own_id-lt net self_ip = ntohl-lt (net.inet_addr self_ip)

module _ (net : Inet) (laws : InetLaws net) (a b : ℕ) (ha : a < 2 ^ 32) (hb : b < 2 ^ 32)
    (other : a ≢ b) where
  id_of : (c : ℕ) → c < 2 ^ 32 → own_id net (laws.text c) ≡ ntohl c
  unfolding own_id
  id_of c h = ap ntohl (laws.addr c h)

  pub own_id-distinct : own_id net (laws.text a) ≢ own_id net (laws.text b)
  own_id-distinct same = other (ntohl_injective a b ha hb (sym (id_of a ha) ∙ same ∙ id_of b hb))

  -- Two servers with different 32-bit addresses have different ids, so that none of the three
  -- messages of one is dropped by the other as its own: each is read as what it is, with the sender's
  -- id.
  pub classify-own_id :
      let i = own_id net (laws.text a) in
      let j = own_id net (laws.text b) in
      (i ≢ j)
      × (classify j (election_message i) ≡ (election, some i))
      × (classify j (answer_message i) ≡ (answer, some i))
      × (classify j (coord_announcement_message i) ≡ (coord_announcement, some i))
  classify-own_id =
      let read =
        classify-message (own_id net (laws.text a)) (own_id-lt net (laws.text a))
          (own_id net (laws.text b)) own_id-distinct in
      (own_id-distinct, read.0, read.1, read.2)
