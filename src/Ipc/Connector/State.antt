-- ===== src/Ipc/Connector/State.antt =====
-- `ModuleState`, by which the connectors of two connections between the same two modules, made at the
-- same time, compare their random values.
use twainet.Prelude.{◌≡◌, Bool, true, false, not, ◌&&◌, ◌||◌, List, [], ◌∷◌, Any, arith, inl, inr}
use twainet.Prelude.Bytes.{
  Bytes, str_eq, str_eq_sound, str_eq_refl, str_lt, str_lt_total, str_lt_trans, str_lt_irrefl,
}
use twainet.Ipc.Connector.{IpcConnector, on_module_state_message, on_connected_connector}
use twainet.Ipc.Connector.Handler.{on_message_module_state, ask_connectors}

-- Another connector has the same id.
abbrev pub has_namesake : List IpcConnector → Bytes → Bool
has_namesake [] id = false
has_namesake (d ∷ ds) id = str_eq id d.id || has_namesake ds id

-- `rand` is less than the value of each connector that has the id.
abbrev pub is_below : List IpcConnector → Bytes → Bytes → Bool
is_below [] id rand = true
is_below (d ∷ ds) id rand = (not (str_eq id d.id) || str_lt rand d.rand) && is_below ds id rand

ask_connectors-exist :
    (ds : List IpcConnector) (id rand : Bytes) (e : Bool)
    → (ask_connectors ds id (e, rand)).0 ≡ (e || has_namesake ds id)
unfolding ask_connectors on_module_state_message
ask_connectors-exist [] id rand e = ground arith
ask_connectors-exist (d ∷ ds) id rand e = ground (
  arith,
  ask_connectors-exist ds id rand e,
  ask_connectors-exist ds id rand true,
  ask_connectors-exist ds id d.rand true,
)

str_lt_le : (a b c : Bytes) → str_lt a b ≡ true → str_lt c b ≡ false → str_lt a c ≡ true
str_lt_le a b c h k = ground (arith, str_lt_total c b, str_eq_sound c b, str_lt_trans a b c)

ask_connectors-below :
    (ds : List IpcConnector) (id rnd_val rand : Bytes) (e : Bool)
    → str_lt rand (ask_connectors ds id (e, rnd_val)).1
      ≡ (str_lt rand rnd_val && is_below ds id rand)
unfolding ask_connectors on_module_state_message
ask_connectors-below [] id rnd_val rand e = ground arith
ask_connectors-below (d ∷ ds) id rnd_val rand e = ground (
  arith,
  ask_connectors-below ds id rnd_val rand e,
  ask_connectors-below ds id rnd_val rand true,
  ask_connectors-below ds id d.rand rand true,
  str_lt_trans rand d.rand rnd_val,
  str_lt_le rand rnd_val d.rand,
)

-- When the peer says that it knows a module of this name already, and this side has not seen one, the
-- connector becomes connected exactly if another connector of the module has the same id and its own
-- random value is less than the peer's and than that of each such connector.
pub on_message_module_state-connected :
    (c : IpcConnector) (others : List IpcConnector) (rnd_val : Bytes)
    → c.is_connected ≡ false
    → c.is_exist ≡ false
    → (on_message_module_state c others true rnd_val).0.is_connected
      ≡ (has_namesake others c.id && (str_lt c.rand rnd_val && is_below others c.id c.rand))
unfolding on_message_module_state on_connected_connector
on_message_module_state-connected c others rnd_val off new =
    let last = (ask_connectors others c.id (false, rnd_val)).1 in
    ground (
      arith,
      ask_connectors-exist others c.id rnd_val false,
      ask_connectors-below others c.id rnd_val c.rand false,
      str_lt_total last c.rand,
      str_eq_sound last c.rand,
      str_eq_sound c.rand last,
      str_eq_refl c.rand,
      str_lt_trans c.rand last c.rand,
      str_lt_irrefl c.rand,
    )

-- `x` is the connector `d`, in whatever state: its id and its random value stay.
abbrev pub IsSameConnector : IpcConnector → IpcConnector → Type 0
IsSameConnector d x = (x.id ≡ d.id) × (x.rand ≡ d.rand)

is_below-Any :
    (ds : List IpcConnector) (d : IpcConnector) (rand : Bytes)
    → Any (IsSameConnector d) ds
    → is_below ds d.id rand ≡ true
    → str_lt rand d.rand ≡ true
is_below-Any [] d rand a h = elim a [ ]
is_below-Any (x ∷ ds) d rand a h = elim a [
  | inl e ↦ ground (arith, e, str_eq_refl d.id)
  | inr b ↦ ground (arith, is_below-Any ds d rand b)
]

-- `ModuleState` leaves a connector the same.
pub on_message_module_state_same :
    (c : IpcConnector) (others : List IpcConnector) (exist : Bool) (rnd_val : Bytes)
    → IsSameConnector c (on_message_module_state c others exist rnd_val).0
unfolding on_message_module_state on_connected_connector
on_message_module_state_same c others exist rnd_val = ground arith

-- Of two connectors of a module that have the same id, at most one becomes connected by `ModuleState`,
-- if each of them is among the others that the other one asks: as it was, or as it is after its own
-- `ModuleState`, so that either may be asked before or after it has answered.
pub on_message_module_state_once :
    (c d : IpcConnector) (cs ds : List IpcConnector) (r s : Bytes)
    → c.is_connected ≡ false
    → d.is_connected ≡ false
    → c.is_exist ≡ false
    → d.is_exist ≡ false
    → c.id ≡ d.id
    → Any (IsSameConnector d) cs
    → Any (IsSameConnector c) ds
    → (on_message_module_state c cs true r).0.is_connected ≡ true
    → (on_message_module_state d ds true s).0.is_connected ≡ false
on_message_module_state_once c d cs ds r s off off' new new' same a b won = ground (
  arith,
  on_message_module_state-connected c cs r off new,
  on_message_module_state-connected d ds s off' new',
  is_below-Any cs d c.rand a,
  is_below-Any ds c d.rand b,
  str_lt_trans c.rand d.rand c.rand,
  str_lt_irrefl c.rand,
)
