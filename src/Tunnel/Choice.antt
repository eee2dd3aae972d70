-- ===== src/Tunnel/Choice.antt =====
-- What the server reads of the tunnel types that were set.
use twainet.Prelude.{
  ◌≡◌, refl, sym, ap, ◌∙◌, Bool, true, ◌&&◌, ◌||◌, Option, none, some, List, [], ◌∷◌, arith,
  if◌then◌else◌, Option-cases, inl, inr,
}
use twainet.Prelude.Bytes.{Bytes, str_eq, str_eq_refl}
use twainet.ObjectManager.{add_object, get_object, update_object}
use twainet.ObjectManager.Sorted.{IsSorted, add_object-IsSorted, update_object-IsSorted}
use twainet.ObjectManager.Refinement.{
  lookup, lookup_same, get_object-lookup, lookup-add_object, lookup-update_object,
}
use twainet.Tunnel.PeerType.{
  PeerType, TunnelType, TypeConnection, peer_eq, peer_order, new_peer, peer_or, tunnel_type_of,
  set_type_tunnel,
}

-- The type that is set for two sessions.
abbrev pub type_of : Option PeerType → Option TunnelType
type_of none = none
type_of (some p) = some p.tunnel_type

abbrev pub chosen : List PeerType → Bytes → Bytes → Option TunnelType
chosen peers a b = type_of (get_object peers (new_peer a b))

-- The sessions of a call are these two, in either order.
abbrev pub is_pair : Bytes → Bytes → Bytes → Bytes → Bool
is_pair one two a b = (str_eq one a && str_eq two b) || (str_eq one b && str_eq two a)

pub lookup-peer_eq :
    (peers : List PeerType) (q : PeerType) {p : PeerType}
    → lookup peers q ≡ some p
    → peer_eq p q ≡ true
unfolding lookup
lookup-peer_eq [] q e = ground arith
lookup-peer_eq (x ∷ peers) q {p} e = ground (arith, lookup-peer_eq peers q {p = p})

set_type_tunnel-IsSorted :
    (peers : List PeerType) (one two : Bytes) (type : TypeConnection)
    → IsSorted peers
    → IsSorted (set_type_tunnel peers one two type)
unfolding set_type_tunnel
set_type_tunnel-IsSorted peers one two type s =
    let plain = new_peer one two in
    let peer : PeerType = record (peer_or plain (get_object peers plain)) {
      tunnel_type = tunnel_type_of type;
    } in
    ground (arith, add_object-IsSorted peers peer s, update_object-IsSorted peers peer s)

pub same_sessions :
    (p q : PeerType)
    → p.one_session_id ≡ q.one_session_id
    → p.two_session_id ≡ q.two_session_id
    → peer_eq p q ≡ true
unfolding peer_eq
same_sessions p q e f =
    ground (arith, e, f, str_eq_refl q.one_session_id, str_eq_refl q.two_session_id)

peer_eq_swap : (p q r : PeerType) → peer_eq p q ≡ true → peer_eq p r ≡ peer_eq q r
peer_eq_swap p q r e = ground (
  arith,
  peer_order.lawful.eq_trans p q r,
  peer_order.lawful.eq_trans q p r,
  peer_order.lawful.eq_sym p q,
)

set_type_tunnel_new :
    (peers : List PeerType) (one two : Bytes) (type : TypeConnection)
    → get_object peers (new_peer one two) ≡ none
    → set_type_tunnel peers one two type
      ≡ (add_object peers (record (new_peer one two) { tunnel_type = tunnel_type_of type })).0
unfolding set_type_tunnel
set_type_tunnel_new peers one two type e = ground (arith, e)

set_type_tunnel_old :
    (peers : List PeerType) (one two : Bytes) (type : TypeConnection) {old : PeerType}
    → get_object peers (new_peer one two) ≡ some old
    → set_type_tunnel peers one two type
      ≡ (update_object peers (record old { tunnel_type = tunnel_type_of type })).0
unfolding set_type_tunnel
set_type_tunnel_old peers one two type e = ground (arith, e)

-- The record that is stored, whatever it was made of, is found for the two sessions, and the other
-- pairs are as before.
get_object-set_type_tunnel :
    (peers : List PeerType) (one two : Bytes) (type : TypeConnection) (q : PeerType)
    → IsSorted peers
    → let plain = new_peer one two in
      let peer : PeerType = record (peer_or plain (get_object peers plain)) {
        tunnel_type = tunnel_type_of type;
      } in
      get_object (set_type_tunnel peers one two type) q
      ≡ (if peer_eq plain q then some peer else get_object peers q)
get_object-set_type_tunnel peers one two type q s =
    let plain = new_peer one two in
    elim (Option-cases (get_object peers plain)) [
      | inl none_there ↦
          let peer : PeerType = record plain { tunnel_type = tunnel_type_of type } in
          ground (
            arith,
            set_type_tunnel_new peers one two type none_there,
            get_object-lookup (add_object peers peer).0 q (add_object-IsSorted peers peer s),
            ap (λ f. f q) (lookup-add_object peers peer s).0,
            get_object-lookup peers q s,
            get_object-lookup peers plain s,
            lookup_same peers peer plain (same_sessions peer plain refl refl),
            peer_eq_swap peer plain q (same_sessions peer plain refl refl),
            none_there,
          )
      | inr (old, found) ↦
          let peer : PeerType = record old { tunnel_type = tunnel_type_of type } in
          let found' = sym (get_object-lookup peers plain s) ∙ found in
          let same : peer_eq peer plain ≡ true =
            peer_eq_swap peer old plain (same_sessions peer old refl refl)
            ∙ lookup-peer_eq peers plain {p = old} found' in
          ground (
            arith,
            set_type_tunnel_old peers one two type {old = old} found,
            get_object-lookup (update_object peers peer).0 q (update_object-IsSorted peers peer s),
            ap (λ f. f q) (lookup-update_object peers peer s).0,
            get_object-lookup peers q s,
            lookup_same peers peer plain same,
            peer_eq_swap peer plain q same,
            found,
            found',
          )
    ]

chosen-set_type_tunnel :
    (peers : List PeerType) (one two a b : Bytes) (type : TypeConnection)
    → IsSorted peers
    → chosen (set_type_tunnel peers one two type) a b
      ≡ (if is_pair one two a b then some (tunnel_type_of type) else chosen peers a b)
unfolding peer_eq
chosen-set_type_tunnel peers one two a b type s =
    ap type_of (get_object-set_type_tunnel peers one two type (new_peer a b) s) ∙ ground arith

-- A call of `SetTypeTunnel`.
pub record Setting : Type 0 where
  pub one : Bytes
  pub two : Bytes
  pub type : TypeConnection

pub set_all : List PeerType → List Setting → List PeerType
set_all peers [] = peers
set_all peers (c ∷ cs) = set_all (set_type_tunnel peers c.one c.two c.type) cs

-- The type in the last of the calls that names the two sessions, in either order.
abbrev pub last_set : Option TunnelType → List Setting → Bytes → Bytes → Option TunnelType
last_set before [] a b = before
last_set before (c ∷ cs) a b =
    last_set (if is_pair c.one c.two a b then some (tunnel_type_of c.type) else before) cs a b

set_all-last_set :
    (peers : List PeerType) (cs : List Setting) (a b : Bytes)
    → IsSorted peers
    → chosen (set_all peers cs) a b ≡ last_set (chosen peers a b) cs a b
unfolding set_all
set_all-last_set peers [] a b s = refl
set_all-last_set peers (c ∷ cs) a b s =
    set_all-last_set (set_type_tunnel peers c.one c.two c.type) cs a b
      (set_type_tunnel-IsSorted peers c.one c.two c.type s)
    ∙ ap (λ before. last_set before cs a b) (chosen-set_type_tunnel peers c.one c.two a b c.type s)

-- After any sequence of calls of `SetTypeTunnel` on a new module, the type that is found for two
-- sessions is that of the last call that names the two, whichever of them it names first, and none
-- is found if no call does.
chosen-set_all :
    (cs : List Setting) (a b : Bytes) → chosen (set_all [] cs) a b ≡ last_set none cs a b
unfolding get_object
chosen-set_all cs a b = set_all-last_set [] cs a b tt
