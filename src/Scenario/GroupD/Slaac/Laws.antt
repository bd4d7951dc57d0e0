-- ===== src/Scenario/GroupD/Slaac/Laws.antt =====
-- `eui64` forms an address inside the prefix, and another one for every hardware address.
use docker_net_dhcp_lab.Labyaml.Netip.{holds, masked, Prefix, span, Addr, ip6}
use docker_net_dhcp_lab.Prelude.{
  ℕ, ◌≡◌, ◌<◌, ◌^◌, arith, ◌*◌, Text, ◌+◌, Option, ap, ok, some, true, sym, Option-cases, ◌∙◌, inl,
  inr,
}
use docker_net_dhcp_lab.Scenario.GroupD.Slaac.{
  interface_id, flip_local, Mac, eui64_of, eui64, six_bytes,
}

-- six bytes
pub record IsMac (m : Mac) : Type 0 where
  pub w0 : m.b0 < 256
  pub w1 : m.b1 < 256
  pub w2 : m.b2 < 256
  pub w3 : m.b3 < 256
  pub w4 : m.b4 < 256
  pub w5 : m.b5 < 256

flip_local_lt : (b : ℕ) → b < 256 → flip_local b < 256
unfolding flip_local
flip_local_lt b h = ground arith

flip_local_inj : (a b : ℕ) → flip_local a ≡ flip_local b → a ≡ b
unfolding flip_local
flip_local_inj a b h = ground arith

interface_id_lt : (m : Mac) → IsMac m → interface_id m < 2 ^ 64
unfolding interface_id
interface_id_lt m w = omega (arith, flip_local_lt m.b0 w.w0, w.w1, w.w2, w.w3, w.w4, w.w5)

abbrev number : ℕ → ℕ → ℕ → ℕ → ℕ → ℕ → ℕ
number a b c d e f =
    a * 2 ^ 56 + b * 2 ^ 48 + c * 2 ^ 40 + 255 * 2 ^ 32 + 254 * 2 ^ 24 + d * 2 ^ 16 + e * 2 ^ 8 + f

-- the six digits of an interface identifier are those of one number only
digits :
    (a b c d e f a' b' c' d' e' f' : ℕ)
    → a < 256
    → b < 256
    → c < 256
    → d < 256
    → e < 256
    → f < 256
    → a' < 256
    → b' < 256
    → c' < 256
    → d' < 256
    → e' < 256
    → f' < 256
    → number a b c d e f ≡ number a' b' c' d' e' f'
    → (a ≡ a') × (b ≡ b') × (c ≡ c') × (d ≡ d') × (e ≡ e') × (f ≡ f')
digits a b c d e f a' b' c' d' e' f' w0 w1 w2 w3 w4 w5 v0 v1 v2 v3 v4 v5 h =
    (omega arith, omega arith, omega arith, omega arith, omega arith, omega arith)

interface_id_inj : (m n : Mac) → IsMac m → IsMac n → interface_id m ≡ interface_id n → m ≡ n
unfolding interface_id
interface_id_inj m n v w h =
    let (first, b1, b2, b3, b4, b5) =
      digits (flip_local m.b0) m.b1 m.b2 m.b3 m.b4 m.b5 (flip_local n.b0) n.b1 n.b2 n.b3 n.b4 n.b5
        (flip_local_lt m.b0 v.w0) v.w1 v.w2 v.w3 v.w4 v.w5 (flip_local_lt n.b0 w.w0) w.w1 w.w2 w.w3
        w.w4 w.w5 h in
    cc (flip_local_inj m.b0 n.b0 first, b1, b2, b3, b4, b5)

eui64-ok :
    (parse_mac : Text → Option Text) (p : Prefix) (mac : Text) (a : Addr)
    → eui64 parse_mac p mac ≡ ok a
    → (m : Mac) × (six_bytes (parse_mac mac) ≡ some m)
      × (p.bits ≡ 64)
      × (p.addr.family ≡ ip6)
      × (a ≡ eui64_of p m)
unfolding eui64
eui64-ok parse_mac p mac a h = elim (Option-cases (six_bytes (parse_mac mac))) [
  | inl bad ↦ absurd (ground (arith, h, bad))
  | inr (m, good) ↦
      (m, good, ground (arith, h, good), ground (arith, h, good), ground (arith, h, good))
]

eui64_of-holds :
    (p : Prefix) (m : Mac)
    → p.bits ≡ 64
    → p.addr.family ≡ ip6
    → IsMac m
    → holds p (eui64_of p m) ≡ true
unfolding holds eui64_of masked span
eui64_of-holds p m bits fam w =
    let low = interface_id_lt m w in rw (bits, fam) (ground (arith, low))

of_same : (p : Prefix) (m n : Mac) → eui64_of p m ≡ eui64_of p n → interface_id m ≡ interface_id n
unfolding eui64_of
of_same p m n h = let v = ap (λ a. a.value) h in omega (arith, v)

-- The address that `eui64` forms lies in the prefix, and two hardware addresses never form the same.
pub eui64-Distinct :
    (parse_mac : Text → Option Text) (p : Prefix) (mac other : Text) (a : Addr)
    → ((t : Text) (m : Mac) → six_bytes (parse_mac t) ≡ some m → IsMac m)
    → eui64 parse_mac p mac ≡ ok a
    → (holds p a ≡ true)
      × (eui64 parse_mac p other ≡ ok a → six_bytes (parse_mac other) ≡ six_bytes (parse_mac mac))
eui64-Distinct parse_mac p mac other a bytes h =
    let (m, good, bits, fam, e) = eui64-ok parse_mac p mac a h in
    (
      rw e (eui64_of-holds p m bits fam (bytes mac m good)),
      λ g.
          let (n, also, _, _, f) = eui64-ok parse_mac p other a g in
          let ids : interface_id m ≡ interface_id n = of_same p m n (sym e ∙ f) in
          also
          ∙ ap some (sym (interface_id_inj m n (bytes mac m good) (bytes other n also) ids))
          ∙ sym good,
    )
