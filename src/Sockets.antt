-- ===== src/Sockets.antt =====
-- nodes/src/socket_utils.c, nodes/src/sniffer_node.c and nodes/src/sender_node.c: the two nodes that
-- have a packet socket. A socket is a number in the list of the process's open descriptors.
pub mod Opens
pub mod Process
pub mod Hears
pub mod Sends
mod Tests
use vlan_tagger.Prelude.{
  ℕ, zero, suc, ◌+◌, ◌-◌, ◌%◌, ◌^◌, Bool, true, false, not, ◌&&◌, ◌||◌, List, [], ◌∷◌, Option, none,
  some, ltb, leb, ◌==◌, if◌then◌else◌, ℤ, pos, negsuc, Bytes, length, take,
}
use vlan_tagger.Net.{ntohs}
use vlan_tagger.Queue.{Queue}
use vlan_tagger.Node.{
  Node, NodeType, NodeProcess, sniffer, sender, sniffer_process, sender_process, node_create,
  node_send_to_outputs, Round,
}

-- `struct sockaddr_ll`, the fields that the code sets.
pub record SaddrLl : Type 0 where
  pub sll_family : ℕ
  pub sll_protocol : ℕ
  pub sll_ifindex : ℕ

-- `IFNAMSIZ`, `AF_PACKET` and `ETH_P_ALL` of the system's headers.
abbrev pub ifnamsiz : ℕ
ifnamsiz = 16

abbrev pub af_packet : ℕ
af_packet = 17

abbrev pub eth_p_all : ℕ
eth_p_all = 3

-- What the system answers: the descriptor of a new socket, the index of an interface, and whether a
-- socket can be bound. `none` is the return value -1.
pub record System : Type 0 where
  pub socket : Option ℕ
  pub ioctl : Bytes → Option ℕ
  pub bind : SaddrLl → Bool

-- `close`
abbrev pub close : ℕ → List ℕ → List ℕ
close fd [] = []
close fd (x ∷ xs) = if x == fd then xs else x ∷ close fd xs

-- The address that is bound.
abbrev pub address_of : ℕ → SaddrLl
address_of ifindex = record {
  sll_family = af_packet;
  sll_protocol = ntohs eth_p_all;
  sll_ifindex = ifindex;
}

-- From `ioctl` on, with the open socket.
unfoldable pub bind_socket : System → Bytes → ℕ → SaddrLl → List ℕ → Option ℕ × SaddrLl × List ℕ
bind_socket system dev_name socket_fd saddr_ll fds = elim (system.ioctl dev_name) [
  | none ↦ (none, saddr_ll, close socket_fd fds)
  | some ifindex ↦
      if ifindex == 0
      then (none, saddr_ll, close socket_fd fds)
      else if not (system.bind (address_of ifindex))
      then (none, address_of ifindex, close socket_fd fds)
      else (some socket_fd, address_of ifindex, fds)
]

-- `setup_packet_socket`, where `saddr_ll` is given: the socket or `none` for -1, the address, and the
-- descriptors that are open.
unfoldable pub setup_packet_socket :
    System → Option Bytes → SaddrLl → List ℕ → Option ℕ × SaddrLl × List ℕ
setup_packet_socket system none saddr_ll fds = (none, saddr_ll, fds)
setup_packet_socket system (some dev_name) saddr_ll fds =
    if leb ifnamsiz (length dev_name) || ltb (length dev_name) 1
    then (none, saddr_ll, fds)
    else elim system.socket [
      | none ↦ (none, saddr_ll, fds)
      | some socket_fd ↦ bind_socket system dev_name socket_fd saddr_ll (socket_fd ∷ fds)
    ]

-- `sniffer_context_t` and `sender_context_t`
pub record PacketContext : Type 0 where
  pub socket : ℕ
  pub saddr_ll : SaddrLl

-- The fields of a context from `calloc`.
abbrev pub no_address : SaddrLl
no_address = record { sll_family = 0; sll_protocol = 0; sll_ifindex = 0 }

-- The end of the two constructors, from `node_create` on: without a node the socket is closed.
abbrev pub with_node : Option Node → ℕ → SaddrLl → List ℕ → Option (Node × PacketContext) × List ℕ
with_node none socket saddr_ll fds = (none, close socket fds)
with_node (some node) socket saddr_ll fds =
    (some (node, record { socket = socket; saddr_ll = saddr_ll }), fds)

-- What the two constructors have in common.
unfoldable pub packet_node_create :
    NodeType
    → NodeProcess
    → System
    → Bool
    → Bool
    → Bool
    → Option Bytes
    → Option Bytes
    → List ℕ
    → Option (Node × PacketContext) × List ℕ
packet_node_create node_type process system ctx_made node_made outputs_made (some name)
      (some dev_name) fds =
    if not ctx_made
    then (none, fds)
    else (let (socket, saddr_ll, fds') =
          setup_packet_socket system (some dev_name) no_address fds in
        elim socket [
          | none ↦ (none, fds')
          | some fd ↦
              with_node (node_create node_made outputs_made (some name) node_type (some process)) fd
                saddr_ll fds'
        ])
packet_node_create node_type process system ctx_made node_made outputs_made (some name) none fds =
    (none, fds)
packet_node_create node_type process system ctx_made node_made outputs_made none dev_name fds =
    (none, fds)

-- `sniffer_node_create` and `sender_node_create`
abbrev pub sniffer_node_create :
    System
    → Bool
    → Bool
    → Bool
    → Option Bytes
    → Option Bytes
    → List ℕ
    → Option (Node × PacketContext) × List ℕ
sniffer_node_create = packet_node_create sniffer sniffer_process

abbrev pub sender_node_create :
    System
    → Bool
    → Bool
    → Bool
    → Option Bytes
    → Option Bytes
    → List ℕ
    → Option (Node × PacketContext) × List ℕ
sender_node_create = packet_node_create sender sender_process
