-- ===== src/Sockets/Opens.antt =====
-- nodes/src/socket_utils.c and the two constructors: the sockets that they leave open.
use vlan_tagger.Prelude.{
  ℕ, ◌≡◌, refl, inl, inr, Bool, true, false, ◌||◌, List, ◌∷◌, Option, none, some, leb, ltb, ◌==◌,
  arith, Bytes, length, Bool-cases, Option-cases,
}
use vlan_tagger.Node.{Node, NodeType, NodeProcess, node_create}
use vlan_tagger.Sockets.{
  System, SaddrLl, PacketContext, close, address_of, bind_socket, setup_packet_socket, no_address,
  with_node, packet_node_create,
}

-- The socket that the system gave, bound to the interface with the index that it gave for the name.
pub record Bound (system : System) (dev_name : Bytes) (fd : ℕ) (saddr_ll : SaddrLl) : Type 0 where
  pub opened : system.socket ≡ some fd
  pub ifindex : ℕ
  pub named : system.ioctl dev_name ≡ some ifindex
  pub bound_to : saddr_ll ≡ address_of ifindex
  pub granted : system.bind saddr_ll ≡ true

-- What a setup leaves: a bound socket, open, or nothing that was not open before.
abbrev pub Clean : System → Bytes → List ℕ → Option ℕ × SaddrLl × List ℕ → Type 0
Clean system dev_name fds (none, saddr_ll, fds') = fds' ≡ fds
Clean system dev_name fds (some fd, saddr_ll, fds') =
    (fds' ≡ fd ∷ fds) × Bound system dev_name fd saddr_ll

close_head : (fd : ℕ) (fds : List ℕ) → close fd (fd ∷ fds) ≡ fds
close_head fd fds = ground arith

bind_socket-Clean :
    (system : System) (dev_name : Bytes) (fd : ℕ) (saddr_ll : SaddrLl) (fds : List ℕ)
    → system.socket ≡ some fd
    → Clean system dev_name fds (bind_socket system dev_name fd saddr_ll (fd ∷ fds))
unfolding bind_socket
bind_socket-Clean system dev_name fd saddr_ll fds opened =
    elim (Option-cases (system.ioctl dev_name)) [
      | inl e ↦ rw (bind_socket, e) (close_head fd fds)
      | inr (ifindex, e) ↦ elim (Bool-cases (ifindex == 0)) [
        | inl none_such ↦ rw (bind_socket, e, none_such) (close_head fd fds)
        | inr found ↦ elim (Bool-cases (system.bind (address_of ifindex))) [
          | inr refused ↦ rw (bind_socket, e, found, refused) (close_head fd fds)
          | inl granted ↦
              rw (bind_socket, e, found, granted)
                (
                  refl,
                  record {
                    opened = opened;
                    ifindex = ifindex;
                    named = e;
                    bound_to = refl;
                    granted = granted;
                  },
                )
        ]
      ]
    ]

after_socket :
    (system : System) (dev_name : Bytes) (saddr_ll : SaddrLl) (fds : List ℕ) (socket : Option ℕ)
    → system.socket ≡ socket
    → let r : Option ℕ × SaddrLl × List ℕ = elim socket [
      | none ↦ (none, saddr_ll, fds)
      | some fd ↦ bind_socket system dev_name fd saddr_ll (fd ∷ fds)
    ] in
      Clean system dev_name fds r
after_socket system dev_name saddr_ll fds none e = refl
after_socket system dev_name saddr_ll fds (some fd) e =
    bind_socket-Clean system dev_name fd saddr_ll fds e

setup_packet_socket-Clean :
    (system : System) (dev_name : Bytes) (saddr_ll : SaddrLl) (fds : List ℕ)
    → Clean system dev_name fds (setup_packet_socket system (some dev_name) saddr_ll fds)
unfolding setup_packet_socket
setup_packet_socket-Clean system dev_name saddr_ll fds =
    elim (Bool-cases (leb 16 (length dev_name) || ltb (length dev_name) 1)) [
      | inl bad_name ↦ rw (setup_packet_socket, bad_name)
      | inr named ↦
          rw (setup_packet_socket, named)
            (after_socket system dev_name saddr_ll fds system.socket refl)
    ]

-- What a constructor leaves: a node with a bound socket, open, or nothing that was not open before.
abbrev pub CleanNode : System → Bytes → List ℕ → Option (Node × PacketContext) × List ℕ → Type 0
CleanNode system dev_name fds (none, fds') = fds' ≡ fds
CleanNode system dev_name fds (some (node, ctx), fds') =
    (fds' ≡ ctx.socket ∷ fds) × Bound system dev_name ctx.socket ctx.saddr_ll

with_node-CleanNode :
    (system : System) (dev_name : Bytes) (node : Option Node) (fd : ℕ) (saddr_ll : SaddrLl)
    (fds : List ℕ)
    → Bound system dev_name fd saddr_ll
    → CleanNode system dev_name fds (with_node node fd saddr_ll (fd ∷ fds))
with_node-CleanNode system dev_name none fd saddr_ll fds b = close_head fd fds
with_node-CleanNode system dev_name (some node) fd saddr_ll fds b = (refl, b)

after_setup :
    (system : System) (dev_name : Bytes) (node_made : Option Node) (fds : List ℕ)
    (r : Option ℕ × SaddrLl × List ℕ)
    → Clean system dev_name fds r
    → let made : Option (Node × PacketContext) × List ℕ = elim r.0 [
      | none ↦ (none, r.2)
      | some fd ↦ with_node node_made fd r.1 r.2
    ] in
      CleanNode system dev_name fds made
after_setup system dev_name node_made fds (none, saddr_ll, fds') c = c
after_setup system dev_name node_made fds (some fd, saddr_ll, fds') c =
    rw c.0 (with_node-CleanNode system dev_name node_made fd saddr_ll fds c.1)

-- `sniffer_node_create` and `sender_node_create`, on every branch: either there is no node, and the
-- descriptors that are open are those that were open before; or there is one more, the socket of the
-- node's context, which was bound to the interface of the given name.
pub packet_node_create-CleanNode :
    (node_type : NodeType) (process : NodeProcess) (system : System)
    (ctx_made node_made outputs_made : Bool) (name dev_name : Bytes) (fds : List ℕ)
    → CleanNode system dev_name fds (
        packet_node_create node_type process system ctx_made node_made outputs_made
          (some name)
          (some dev_name)
          fds)
unfolding packet_node_create
packet_node_create-CleanNode node_type process system false n o name dev_name fds = refl
packet_node_create-CleanNode node_type process system true n o name dev_name fds =
    after_setup system dev_name (node_create n o (some name) node_type (some process)) fds
      (setup_packet_socket system (some dev_name) no_address fds)
      (setup_packet_socket-Clean system dev_name no_address fds)
