-- ===== src/Programs/Wiring.antt =====
-- What the gateway's program does with the proxy's channel `in` behind its main.
use fim.Base.{
  some_path, ℕ, ◌≤◌, ◌<◌, ◌≡◌, refl, sym, ap, subst, ◌∙◌, ◌⊎◌, inl, inr, Option, none, some, List,
  [], ◌∷◌, ◌++◌, arith, ltb, ltb→lt, Bool-cases, Option-cases, length, length-append,
}
use fim.Wire.Ksuid.{Ksuids}
use fim.Wire.Relay.{RelayPacket}
use fim.Peer.Client.{WsConn}
use fim.Lgcluster.Cluster.{new_cluster}
use fim.Lgcluster.Proxy.{new_lg_cluster_proxy}
use fim.Lgcluster.Proxy.Channel.{in_capacity, send, send-cases, send-full}
use fim.Gateway.Hub.{new_gateway}
use fim.Gateway.Hub
use fim.Programs.{hub_conf, new_naming_client, Settings, GatewayProgram, program_id, gateway_main}

module _ {K C W G : Type 0} where
  -- Channel `in` of a gateway's program, with the packets that have been sent so far: the gateway sends
  -- packets while there is room, and the proxy's loop takes the first one out if the proxy has been
  -- started, which starts its cluster first.
  pub data Uses (p : GatewayProgram K C W G)
      : List (RelayPacket K) → GatewayProgram K C W G → Type 0 where
    ready : Uses p [] p
    sends :
        {sent waiting : List (RelayPacket K)} {q : GatewayProgram K C W G} (pkt : RelayPacket K)
        → Uses p sent q
        → send pkt q.in_packets ≡ some waiting
        → Uses p (sent ++ (pkt ∷ [])) (record q { in_packets = waiting })
    takes :
        {sent rest : List (RelayPacket K)} {q : GatewayProgram K C W G} (pkt : RelayPacket K)
        → Uses p sent q
        → q.cluster.started ≡ 1
        → q.in_packets ≡ pkt ∷ rest
        → Uses p sent (record q { in_packets = rest })

  -- Nothing has been taken out, and nobody can take.
  record IsIdle (sent : List (RelayPacket K)) (q : GatewayProgram K C W G) : Type 0 where
    held : q.in_packets ≡ sent
    bounded : length sent ≤ in_capacity
    idle : q.cluster.started ≡ 0

  Uses-IsIdle :
      {p q : GatewayProgram K C W G} {sent : List (RelayPacket K)}
      → IsIdle [] p
      → Uses p sent q
      → IsIdle sent q
  Uses-IsIdle i ready = i
  Uses-IsIdle i (sends {sent} {waiting} {q} pkt u e) =
      let v = Uses-IsIdle i u in
      let (room, now) = send-cases pkt q.in_packets waiting e in
      record {
        held = now ∙ ap (λ l. l ++ (pkt ∷ [])) v.held;
        bounded =
            omega (
              arith,
              length-append sent (pkt ∷ []),
              subst (λ l. length l < in_capacity) v.held room,
            );
        idle = v.idle;
      }
  Uses-IsIdle i (takes pkt u on e) = let v = Uses-IsIdle i u in absurd (ground (arith, v.idle, on))

module _ {K C W G : Type 0} ⦃ks : Ksuids K⦄ ⦃ws : WsConn C⦄ where
  gateway_main-IsIdle :
      (st : Settings) (new_random : Option K) (sequence : ℕ) (p : GatewayProgram K C W G)
      → gateway_main st new_random sequence ≡ some p
      → IsIdle [] p
  unfolding gateway_main new_naming_client new_gateway Hub.start new_cluster
  gateway_main-IsIdle st new_random sequence p e = elim (Option-cases (program_id st new_random)) [
    | inl none_named ↦
        let no : gateway_main {C = C} {W = W} {G = G} st new_random sequence ≡ none =
          rw (none_named, gateway_main) in
        absurd (ground (arith, no, e))
    | inr (id, named) ↦
        let made : GatewayProgram K C W G = record {
          gateway = record (new_gateway id (hub_conf st) sequence) { state = 1 };
          proxy = new_lg_cluster_proxy none;
          cluster = new_cluster id;
          in_packets = [];
        } in
        let runs : gateway_main st new_random sequence ≡ some made =
          rw (named, gateway_main) refl in
        subst (IsIdle []) (some_path (sym runs ∙ e))
          (record { held = refl; bounded = omega arith; idle = refl })
  ]

  -- Main of the gateway has come to its wait, and the gateway's program goes on: packets are sent while
  -- there is room, and the proxy's loop takes packets out if the proxy has been started. Then `in`
  -- holds all the packets that have been sent, in their order; they are fewer than a hundred, or a
  -- hundred, and then every further Send blocks.
  pub gateway_main-isolated :
      (st : Settings) (new_random : Option K) (sequence : ℕ) (p q : GatewayProgram K C W G)
      (sent : List (RelayPacket K))
      → gateway_main st new_random sequence ≡ some p
      → Uses p sent q
      → (q.in_packets ≡ sent)
        × ((length sent < 100)
            ⊎ ((length sent ≡ 100) × ((pkt : RelayPacket K) → send pkt q.in_packets ≡ none)))
  gateway_main-isolated st new_random sequence p q sent e u =
      let v = Uses-IsIdle (gateway_main-IsIdle st new_random sequence p e) u in
      (
        v.held,
        elim (Bool-cases (ltb (length sent) in_capacity)) [
          | inl few ↦ inl (ltb→lt (length sent) in_capacity few)
          | inr full ↦
              let hundred : length sent ≡ in_capacity = ground (arith, v.bounded, full) in
              inr (
                hundred,
                λ pkt. send-full pkt q.in_packets (omega (arith, ap length v.held, hundred)),
              )
        ],
      )
