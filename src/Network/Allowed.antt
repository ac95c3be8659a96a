-- ===== src/Network/Allowed.antt =====
-- Which connections `dial` lets through, and which address is found.
use juju_utils.Common.{
  some-injective, ◌≡◌, ◌↔◌, ◌⊎◌, inl, inr, refl, arith, Bool, true, false, Option, none, some, List,
  [], ◌∷◌, ◌++◌, ◌==◌, All, Bool-cases,
}
use juju_utils.Common.Bytes.{Bytes, bytes_eq, bytes_beq_iff, codes}
use juju_utils.Common.Results.{Result, ok, err}
use juju_utils.Network.{
  Net, Dialled, refuses, dials, is_loopback_ip, dial_host, dial, get_ipv4_address, parsed_address,
  if_ipv4,
}

module _ (net : Net) where
  open net use {Ip, Error, split_host_port, parse_ip, is_loopback, parse_cidr, to4, ip_string}

  -- An address without a port, or one on this computer.
  abbrev pub IsLocal : Result Error (Bytes × Bytes) → Type 0
  IsLocal (err e) = Unit
  IsLocal (ok (host, port)) =
      (host ≡ codes "localhost") ⊎ ((ip : Ip) × (parse_ip host ≡ some ip) × (is_loopback ip ≡ true))

  loopback_ip :
      (o : Option Ip)
      → (is_loopback_ip net o ≡ true) ↔ ((ip : Ip) × (o ≡ some ip) × (is_loopback ip ≡ true))
  unfolding is_loopback_ip
  loopback_ip none = (λ h. absurd (ground arith), λ (ip, e, h). absurd (ground arith))
  loopback_ip (some ip) = (λ h. (ip, refl, h), λ (i, e, h). ground (arith, some-injective e))

  refused :
      (network addr host port : Bytes)
      → (host == codes "localhost") ≡ false
      → is_loopback_ip net (parse_ip host) ≡ false
      → dial_host net network addr (ok (host, port)) ≡ refuses addr
  unfolding dial_host
  refused network addr host port other away = rw (other, away) refl

  refuses_is_dials :
      {d : Dialled} {network addr : Bytes} → d ≡ refuses addr → d ≡ dials network addr → ⊥
  refuses_is_dials h k = cc

  not_local :
      (host port : Bytes)
      → IsLocal (ok (host, port))
      → (host == codes "localhost") ≡ false
      → is_loopback_ip net (parse_ip host) ≡ false
      → ⊥
  not_local host port (inl name) other away =
      let same = (bytes_beq_iff host (codes "localhost")).1 name in ground arith
  not_local host port (inr h) other away =
      let here = (loopback_ip (parse_ip host)).1 h in ground arith

  not_allowed : {A : Type 0} → (false ≡ true) ⊎ A → A
  not_allowed (inl h) = absurd (ground arith)
  not_allowed (inr a) = a

  dial_host_iff :
      (network addr : Bytes) (r : Result Error (Bytes × Bytes))
      → (dial_host net network addr r ≡ dials network addr) ↔ IsLocal r
  unfolding dial_host
  dial_host_iff network addr (err e) = (λ h. tt, λ h. refl)
  dial_host_iff network addr (ok (host, port)) =
      let (there, back) = loopback_ip (parse_ip host) in
      elim (Bool-cases (host == codes "localhost")) [
        | inl name ↦ (λ h. inl ((bytes_beq_iff _ _).0 name), λ h. rw name refl)
        | inr other ↦ elim (Bool-cases (is_loopback_ip net (parse_ip host))) [
          | inl here ↦ (λ h. inr (there here), λ h. rw (other, here) refl)
          | inr away ↦ (
            λ h. absurd (refuses_is_dials (refused network addr host port other away) h),
            λ h. absurd (not_local host port h other away),
          )
        ]
      ]

  -- `dial` connects exactly if outgoing access is allowed, or the address is not a host with a port, or the
  -- host is localhost or the text of a loopback address.
  pub dial_iff :
      (allowed : Bool) (network addr : Bytes)
      → (dial net allowed network addr ≡ dials network addr)
        ↔ ((allowed ≡ true) ⊎ IsLocal (split_host_port addr))
  unfolding dial
  dial_iff true network addr = (λ h. inl refl, λ h. refl)
  dial_iff false network addr =
      let (there, back) = dial_host_iff network addr (split_host_port addr) in
      (λ h. inr (there h), λ h. back (not_allowed h))

  -- Addresses that can be read and are not of version 4.
  abbrev pub IsOther : Bytes → Type 0
  IsOther addr = (ip : Ip) × (parse_cidr addr ≡ ok ip) × (to4 ip ≡ none)

  -- `GetIPv4Address` returns the first address of version 4 after others that can be read.
  pub get_ipv4_address_first :
      (before after : List Bytes) (addr : Bytes) (ip ip4 : Ip)
      → All IsOther before
      → parse_cidr addr ≡ ok ip
      → to4 ip ≡ some ip4
      → get_ipv4_address net (before ++ addr ∷ after) ≡ ok (ip_string ip4)
  unfolding get_ipv4_address parsed_address if_ipv4
  get_ipv4_address_first [] after addr ip ip4 h parsed four = rw (parsed, four) refl
  get_ipv4_address_first (b ∷ bs) after addr ip ip4 h parsed four =
      let (other, read, six) = h.0 in
      rw (read, six) (get_ipv4_address_first bs after addr ip ip4 h.1 parsed four)
