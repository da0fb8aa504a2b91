-- ===== src/Tun/Router/Accounts.antt =====
-- router.go: what the counters and the routes say of everything that the router was given.
use network_project.Prelude.{
  ℕ, ◌+◌, ◌^◌, ◌≤◌, ◌<◌, ◌≡◌, refl, ap, ◌∙◌, inl, inr, Bool, not, List, [], ◌∷◌, Option, none, some,
  arith, Bytes, if◌then◌else◌, if-rule, Option-cases, equal,
}
use network_project.Prelude.Assoc.{bytes_Eq, lookup, lookup-insert, lookup-delete}
use network_project.Tun.Router.{
  Addr, ip4, no_ip4, parse_ipv4, Router, new_router, set_route, forward, route_packet,
}

module _ (Sink World : Type 0) (send : World → Sink → Bytes → World × Bool) where
  -- the calls of the router's users
  pub data Op : Type 0 where
    routes_to : Addr → Option Sink → Op
    packet : Bytes → Op

  unfoldable pub apply : Router Sink World send × World → Op → Router Sink World send × World
  apply (r, w) (routes_to dst s) = (set_route Sink World send r dst s, w)
  apply (r, w) (packet pkt) = (route_packet Sink World send r w pkt).0

  unfoldable pub run : Router Sink World send × World → List Op → Router Sink World send × World
  run s [] = s
  run s (o ∷ os) = run (apply s o) os

  abbrev pub packets : List Op → ℕ
  packets [] = 0
  packets (routes_to _ _ ∷ os) = packets os
  packets (packet _ ∷ os) = packets os + 1

  unfoldable pub one_malformed : Bytes → ℕ
  one_malformed pkt = elim (parse_ipv4 pkt) [ none ↦ 1 | some _ ↦ 0 ]

  -- the packets that are no IPv4 datagrams
  abbrev pub malformed : List Op → ℕ
  malformed [] = 0
  malformed (routes_to _ _ ∷ os) = malformed os
  malformed (packet pkt ∷ os) = malformed os + one_malformed pkt

  -- the sink that the last call for `dst` set, if it set one
  abbrev pub last_route : Bytes → Option Sink → List Op → Option Sink
  last_route dst now [] = now
  last_route dst now (packet _ ∷ os) = last_route dst now os
  last_route dst now (routes_to no_ip4 s ∷ os) = last_route dst now os
  last_route dst now (routes_to (ip4 a) s ∷ os) = last_route dst (if equal a dst then s else now) os

  -- the counters, after `n` packets of which `k` were malformed
  pub record Counts (r : Router Sink World send) (n k : ℕ) : Type 0 where
    pub all : r.pkts_routed + r.pkts_dropped ≡ n
    pub offered : r.pkts_in + k ≡ n
    pub noise_dropped : k ≤ r.pkts_dropped

  route_packet-Counts :
      (r : Router Sink World send) (w : World) (pkt : Bytes) (n k : ℕ)
      → Counts r n k
      → n + 1 < 2 ^ 64
      → Counts (route_packet Sink World send r w pkt).0.0 (n + 1) (k + one_malformed pkt)
  unfolding route_packet forward one_malformed
  route_packet-Counts r w pkt n k c h =
      let Good = λ (m : ℕ) (x : (Router Sink World send × World) × Bool). Counts x.0.0 (n + 1) m in
      elim (Option-cases (parse_ipv4 pkt)) [
        | inl e ↦
            simp (e, route_packet, one_malformed)
              (record {
                all = omega (arith, c.all, h);
                offered = omega (arith, c.offered, h);
                noise_dropped = omega (arith, c.all, c.noise_dropped, h);
              })
        | inr ((src, dst), e) ↦ elim (Option-cases (lookup dst r.routes)) [
          | inl g ↦
              simp (e, g, route_packet, one_malformed)
                (record {
                  all = omega (arith, c.all, h);
                  offered = omega (arith, c.offered, h);
                  noise_dropped = omega (arith, c.all, c.noise_dropped, h);
                })
          | inr (sink, g) ↦
              simp (e, g, route_packet, one_malformed)
                (if-rule (Good (k + 0)) (not (send w sink pkt).1) _ _
                  (record {
                    all = omega (arith, c.all, h);
                    offered = omega (arith, c.offered, h);
                    noise_dropped = omega (arith, c.all, c.noise_dropped, h);
                  })
                  (record {
                    all = omega (arith, c.all, h);
                    offered = omega (arith, c.offered, h);
                    noise_dropped = omega (arith, c.noise_dropped);
                  }))
        ]
      ]

  set_route-Counts :
      (r : Router Sink World send) (dst : Addr) (s : Option Sink) (n k : ℕ)
      → Counts r n k
      → Counts (set_route Sink World send r dst s) n k
  unfolding set_route
  set_route-Counts r no_ip4 s n k c = c
  set_route-Counts r (ip4 dst) none n k c = record {
    all = c.all;
    offered = c.offered;
    noise_dropped = c.noise_dropped;
  }
  set_route-Counts r (ip4 dst) (some s) n k c = record {
    all = c.all;
    offered = c.offered;
    noise_dropped = c.noise_dropped;
  }

  Counts-at :
      (r : Router Sink World send) (n k n' k' : ℕ) → n ≡ n' → k ≡ k' → Counts r n k → Counts r n' k'
  Counts-at r n k n' k' e f c = record {
    all = c.all ∙ e;
    offered = omega (arith, c.offered, e, f);
    noise_dropped = omega (arith, c.noise_dropped, f);
  }

  run-Counts :
      (s : Router Sink World send × World) (os : List Op) (n k : ℕ)
      → Counts s.0 n k
      → n + packets os < 2 ^ 64
      → Counts (run s os).0 (n + packets os) (k + malformed os)
  unfolding run apply
  run-Counts s [] n k c h = Counts-at s.0 n k _ _ (omega arith) (omega arith) c
  run-Counts (r, w) (routes_to dst x ∷ os) n k c h =
      run-Counts (set_route Sink World send r dst x, w) os n k (set_route-Counts r dst x n k c) h
  run-Counts (r, w) (packet pkt ∷ os) n k c h =
      let one = route_packet-Counts r w pkt n k c (omega (arith, h)) in
      let next = (route_packet Sink World send r w pkt).0 in
      Counts-at (run next os).0 _ _ _ _ (omega arith) (omega arith)
        (run-Counts next os (n + 1) (k + one_malformed pkt) one (omega (arith, h)))

  route_packet-routes :
      (r : Router Sink World send) (w : World) (pkt : Bytes)
      → (route_packet Sink World send r w pkt).0.0.routes ≡ r.routes
  unfolding route_packet forward
  route_packet-routes r w pkt = elim (Option-cases (parse_ipv4 pkt)) [
    | inl e ↦ simp (e, route_packet) refl
    | inr ((src, dst), e) ↦ elim (Option-cases (lookup dst r.routes)) [
      | inl g ↦ simp (e, g, route_packet) refl
      | inr (sink, g) ↦
          simp (e, g, route_packet)
            (if-rule (λ (x : (Router Sink World send × World) × Bool). x.0.0.routes ≡ r.routes)
              (not (send w sink pkt).1) _ _ refl refl)
    ]
  ]

  set_route-lookup :
      (r : Router Sink World send) (a dst : Bytes) (s : Option Sink)
      → lookup dst (set_route Sink World send r (ip4 a) s).routes
        ≡ (if equal a dst then s else lookup dst r.routes)
  unfolding set_route
  set_route-lookup r a dst none = lookup-delete a dst r.routes
  set_route-lookup r a dst (some s) = lookup-insert a dst s r.routes

  run-lookup :
      (s : Router Sink World send × World) (os : List Op) (dst : Bytes)
      → lookup dst (run s os).0.routes ≡ last_route dst (lookup dst s.0.routes) os
  unfolding run apply set_route
  run-lookup s [] dst = refl
  run-lookup (r, w) (packet pkt ∷ os) dst =
      let next = (route_packet Sink World send r w pkt).0 in
      run-lookup next os dst
      ∙ ap (λ (m : List (Bytes × Sink)). last_route dst (lookup dst m) os)
          (route_packet-routes r w pkt)
  run-lookup (r, w) (routes_to no_ip4 x ∷ os) dst = run-lookup (r, w) os dst
  run-lookup (r, w) (routes_to (ip4 a) x ∷ os) dst =
      run-lookup (set_route Sink World send r (ip4 a) x, w) os dst
      ∙ ap (λ (m : Option Sink). last_route dst m os) (set_route-lookup r a dst x)

  -- After any calls of a new router, of fewer than 2^64 packets: every packet was counted as routed or
  -- as dropped, and as offered if it was an IPv4 datagram, and the malformed ones are among the
  -- dropped; and the route of each address is the one that the last call for it set, if it set one.
  pub run-Accounts :
      (os : List Op) (w : World) (dst : Bytes)
      → packets os < 2 ^ 64
      → Counts (run (new_router Sink World send, w) os).0 (packets os) (malformed os)
        × (lookup dst (run (new_router Sink World send, w) os).0.routes ≡ last_route dst none os)
  unfolding new_router lookup
  run-Accounts os w dst h = (
    Counts-at (run (new_router Sink World send, w) os).0 _ _ _ _ (omega arith) (omega arith) (
        run-Counts (new_router Sink World send, w) os 0 0
          (record { all = refl; offered = refl; noise_dropped = omega arith }) (omega (arith, h))),
    run-lookup (new_router Sink World send, w) os dst,
  )
