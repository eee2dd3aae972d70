-- ===== src/Tunnel/PeerType.antt =====
-- src/cpp/lib/tunnel_lib/module/tunnel_containers.cpp: `PeerType` and `AvailableTypes`, and
-- `SetTypeTunnel` and `CheckTunnelAvailableType` of
-- src/cpp/lib/tunnel_lib/module/tunnel_module.cpp, which keep them in object managers.
use twainet.Prelude.{
  ℕ, ◌≡◌, ◌==◌, Bool, true, false, ◌&&◌, ◌||◌, Option, none, some, List, [], ◌∷◌, arith,
  if◌then◌else◌,
}
use twainet.Prelude.Bytes.{
  Bytes, str_eq, str_lt, str_eq_sound, str_lt_total, str_lt_trans, str_lt_irrefl,
}
use twainet.Order.{
  Order, IsOrder, Bytes-IsLinear, pair_lt, pair_eq, pair-IsLinear, key-IsOrder, key-IsOrder_of_eq,
}
use twainet.ObjectManager.{add_object, get_object, update_object}

-- `TunnelType` (src/messages/client_server.proto).
pub data TunnelType : Type 0 where
  tunnel_all tunnel_local_tcp tunnel_local_udp tunnel_external tunnel_relay_tcp : TunnelType
  tunnel_relay_udp : TunnelType

-- `TunnelConnector::TypeConnection`.
pub data TypeConnection : Type 0 where
  unknown local_tcp local_udp external relay_tcp relay_udp : TypeConnection

pub record PeerType : Type 0 where
  pub one_session_id : Bytes
  pub two_session_id : Bytes
  pub tunnel_type : TunnelType

-- `operator ==`: the two sessions are the same, in either order.
unfoldable pub peer_eq : PeerType → PeerType → Bool
peer_eq a b =
    (str_eq a.one_session_id b.one_session_id && str_eq a.two_session_id b.two_session_id)
    || (str_eq a.one_session_id b.two_session_id && str_eq a.two_session_id b.one_session_id)

-- The lesser and the greater of the sessions.
abbrev pub ordered : PeerType → Bytes × Bytes
ordered p =
    if str_lt p.one_session_id p.two_session_id
    then (p.one_session_id, p.two_session_id)
    else (p.two_session_id, p.one_session_id)

-- `operator <`.
pub peer_lt : PeerType → PeerType → Bool
peer_lt a b =
    let (one, two) = ordered a in
    let (other_one, other_two) = ordered b in
    if str_eq one other_one then str_lt two other_two else str_lt one other_one

ordered_eq :
    (a b : PeerType) → peer_eq a b ≡ pair_eq str_lt str_eq str_lt str_eq (ordered a) (ordered b)
unfolding peer_eq
ordered_eq a b = ground (
  arith,
  str_eq_sound a.one_session_id b.one_session_id,
  str_eq_sound a.two_session_id b.two_session_id,
  str_eq_sound a.one_session_id b.two_session_id,
  str_eq_sound a.two_session_id b.one_session_id,
  str_lt_total a.one_session_id a.two_session_id,
  str_eq_sound a.one_session_id a.two_session_id,
  str_lt_total b.one_session_id b.two_session_id,
  str_eq_sound b.one_session_id b.two_session_id,
  str_lt_trans a.one_session_id a.two_session_id a.one_session_id,
  str_lt_irrefl a.one_session_id,
)

ordered_lt :
    (a b : PeerType) → peer_lt a b ≡ pair_lt str_lt str_eq str_lt str_eq (ordered a) (ordered b)
unfolding peer_lt
ordered_lt a b =
    let one = (ordered a).0 in
    let other = (ordered b).0 in ground (arith, str_eq_sound one other, str_lt_irrefl one)

-- `<` and `==` on pairs of peers, whichever of the two is written first, are a strict weak order and
-- its equivalence.
pub peer-IsOrder : IsOrder peer_lt peer_eq
peer-IsOrder =
    key-IsOrder_of_eq (pair-IsLinear str_lt str_eq str_lt str_eq Bytes-IsLinear Bytes-IsLinear)
      ordered ordered_lt ordered_eq

instance abbrev pub peer_order : Order PeerType
peer_order = record { lt = peer_lt; eqb = peer_eq; lawful = peer-IsOrder }

-- The `switch` of `SetTypeTunnel`.
abbrev pub tunnel_type_of : TypeConnection → TunnelType
tunnel_type_of local_tcp = tunnel_local_tcp
tunnel_type_of local_udp = tunnel_local_udp
tunnel_type_of external = tunnel_external
tunnel_type_of relay_tcp = tunnel_relay_tcp
tunnel_type_of relay_udp = tunnel_relay_udp
tunnel_type_of unknown = tunnel_all

abbrev pub peer_or : PeerType → Option PeerType → PeerType
peer_or p none = p
peer_or p (some found) = found

-- `PeerType()` with its sessions set.
abbrev pub new_peer : Bytes → Bytes → PeerType
new_peer one two = record { one_session_id = one; two_session_id = two; tunnel_type = tunnel_all }

-- `SetTypeTunnel`, on `m_typePeers`.
unfoldable pub set_type_tunnel : List PeerType → Bytes → Bytes → TypeConnection → List PeerType
set_type_tunnel peers one two type =
    let plain = new_peer one two in
    let found = get_object peers plain in
    let peer = record (peer_or plain found) { tunnel_type = tunnel_type_of type } in
    elim found [ none ↦ (add_object peers peer).0 | some old ↦ (update_object peers peer).0 ]

-- `AvailableTypes`.
pub record AvailableTypes : Type 0 where
  pub session_id : Bytes
  pub types : List TunnelType

pub types_eq : AvailableTypes → AvailableTypes → Bool
types_eq a b = str_eq a.session_id b.session_id

pub types_lt : AvailableTypes → AvailableTypes → Bool
types_lt a b = str_lt a.session_id b.session_id

pub types-IsOrder : IsOrder types_lt types_eq
unfolding types_lt types_eq
types-IsOrder = key-IsOrder Bytes-IsLinear (λ (t : AvailableTypes). t.session_id)

instance abbrev pub types_order : Order AvailableTypes
types_order = record { lt = types_lt; eqb = types_eq; lawful = types-IsOrder }

-- `==` on `TunnelType`.
abbrev pub type_number : TunnelType → ℕ
type_number tunnel_all = 0
type_number tunnel_local_tcp = 1
type_number tunnel_local_udp = 2
type_number tunnel_external = 3
type_number tunnel_relay_tcp = 4
type_number tunnel_relay_udp = 5

-- The loop of `CheckTunnelAvailableType`.
has_type : List TunnelType → TunnelType → Bool
has_type [] type = false
has_type (t ∷ ts) type = type_number t == type_number type || has_type ts type

-- `CheckTunnelAvailableType`, on `m_avalablePeerTypes`.
unfoldable pub check_tunnel_available_type : List AvailableTypes → Bytes → TunnelType → Bool
unfolding has_type
check_tunnel_available_type peer_types session_id type =
    elim (get_object peer_types (record { session_id = session_id; types = [] })) [
      | none ↦ true
      | some found ↦ has_type found.types type
    ]
