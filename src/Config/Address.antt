-- ===== src/Config/Address.antt =====
-- Addresses with a peer id: what is read back, and what is refused.
use tss_libp2p.Prelude.{◌≡◌, ◌↔◌, refl, ap, Option, some, none}
use tss_libp2p.Config.{
  AddressApi, MultiaddrWithPeerId, parsed, concat, to_text, parse_addr, parse_str_addr, from_text,
  Protocol, p2p, other_protocol,
}

module _ {PeerId Multiaddr Multihash : Type 0} (addr : AddressApi PeerId Multiaddr Multihash) where
  parse_addr-concat :
      (ma : MultiaddrWithPeerId PeerId Multiaddr)
      → parse_addr addr (concat addr ma) ≡ parsed (ma.peer_id, ma.multiaddr)
  unfolding parse_addr concat
  parse_addr-concat ma =
      let split = addr.pop-with_p2p (addr.to_multihash ma.peer_id) ma.multiaddr in
      rw (split, addr.from_multihash-to_multihash ma.peer_id, parse_addr)
        (ap (λ r. parsed (ma.peer_id, r.1)) split)

  split_found :
      (a : Multiaddr) (last : Option (Protocol Multihash)) (rest : Multiaddr) (who : PeerId)
      (b : Multiaddr)
      → addr.pop a ≡ (last, rest)
      → parse_addr addr a ≡ parsed (who, b)
      → (h : Multihash) × (last ≡ some (p2p h)) × (addr.from_multihash h ≡ some who) × (rest ≡ b)
  unfolding parse_addr
  split_found a none rest who b found e = let e1 = rw (found, parse_addr) at e in cc e1
  split_found a (some other_protocol) rest who b found e =
      let e1 = rw (found, parse_addr) at e in cc e1
  split_found a (some (p2p h)) rest who b found e = go (addr.from_multihash h) refl
    where
      go :
          (o : Option PeerId)
          → addr.from_multihash h ≡ o
          → (k : Multihash) × (some (p2p h) ≡ some (p2p k))
            × (addr.from_multihash k ≡ some who)
            × (rest ≡ b)
      go none eq = let e1 = rw (found, eq, parse_addr) at e in cc e1
      go (some q) eq = let e1 = rw (found, eq, parse_addr) at e in (h, refl, cc (e1, eq), cc e1)

  -- An address is split into a peer id and a rest exactly when it is that rest followed by the part
  -- that names the peer.
  pub parse_addr-iff-concat :
      (a : Multiaddr) (ma : MultiaddrWithPeerId PeerId Multiaddr)
      → (parse_addr addr a ≡ parsed (ma.peer_id, ma.multiaddr)) ↔ (a ≡ concat addr ma)
  unfolding concat
  parse_addr-iff-concat a ma = (
    λ e.
        let (h, last, who, rest) =
          split_found a (addr.pop a).0 (addr.pop a).1 ma.peer_id ma.multiaddr refl e in
        let key = addr.to_multihash-from_multihash h ma.peer_id who in
        addr.with_p2p-pop (addr.to_multihash ma.peer_id) a ma.multiaddr (cc (last, rest, key)),
    λ e. rw e (parse_addr-concat ma),
  )

  -- The text of an address with a peer id is read back as that address and that peer.
  pub from_text-to_text :
      (ma : MultiaddrWithPeerId PeerId Multiaddr) → from_text addr (to_text addr ma) ≡ parsed ma
  unfolding from_text to_text
  from_text-to_text ma =
      rw (addr.parse-display (concat addr ma), parse_addr-concat ma, from_text, parse_str_addr) refl
