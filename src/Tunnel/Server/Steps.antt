-- ===== src/Tunnel/Server/Steps.antt =====
-- The steps that the server keeps while a tunnel between two sessions is being made.
use twainet.Prelude.{
  ℕ, ◌≡◌, refl, ap, Bool, false, ◌&&◌, ◌||◌, Option, none, some, List, [], ◌∷◌, arith,
  if◌then◌else◌,
}
use twainet.Prelude.Bytes.{Bytes}
use twainet.ObjectManager.{remove_object}
use twainet.ObjectManager.Sorted.{IsSorted, remove_object-IsSorted}
use twainet.ObjectManager.Refinement.{lookup, lookup-Above, lookup-remove_object}
use twainet.Tunnel.PeerType.{peer_order, new_peer, types_order}
use twainet.Tunnel.Server.{TunnelStep, step_order, step_eq}
use twainet.Tunnel.Server.Listener.{check_steps, is_old}

-- A step of this object is in the copy, and old.
old_in : ℕ → List TunnelStep → TunnelStep → Bool
old_in now [] q = false
old_in now (step ∷ copy) q = (step_eq step q && is_old now step.creation_time) || old_in now copy q

pub check_steps-IsSorted :
    (now : ℕ) (steps copy : List TunnelStep)
    → IsSorted steps
    → IsSorted (check_steps now steps copy)
unfolding check_steps
check_steps-IsSorted now steps [] s = s
check_steps-IsSorted now steps (step ∷ copy) s = ground (
  arith,
  check_steps-IsSorted now steps copy s,
  check_steps-IsSorted now (remove_object steps step).0 copy (remove_object-IsSorted steps step s),
)

lookup-check_steps_old :
    (now : ℕ) (steps copy : List TunnelStep) (q : TunnelStep)
    → IsSorted steps
    → lookup (check_steps now steps copy) q ≡ (if old_in now copy q then none else lookup steps q)
unfolding check_steps old_in
lookup-check_steps_old now steps [] q s = refl
lookup-check_steps_old now steps (step ∷ copy) q s = ground (
  arith,
  lookup-check_steps_old now steps copy q s,
  lookup-check_steps_old now (remove_object steps step).0 copy q
      (remove_object-IsSorted steps step s),
  ap (λ f. f q) (lookup-remove_object steps step s).0,
)

-- What is left of a step that is looked up.
abbrev pub young : ℕ → Option TunnelStep → Option TunnelStep
young now none = none
young now (some step) = if is_old now step.creation_time then none else some step

abbrev is_old_step : ℕ → Option TunnelStep → Bool
is_old_step now none = false
is_old_step now (some step) = is_old now step.creation_time

old_in-lookup :
    (now : ℕ) (steps : List TunnelStep) (q : TunnelStep)
    → IsSorted steps
    → old_in now steps q ≡ is_old_step now (lookup steps q)
unfolding old_in lookup
old_in-lookup now [] q s = refl
old_in-lookup now (step ∷ steps) q s =
    ground (arith, old_in-lookup now steps q s.1, lookup-Above step q steps)

-- `CheckTunnels` drops exactly the steps that are old.
pub lookup-check_steps :
    (now : ℕ) (steps : List TunnelStep) (q : TunnelStep)
    → IsSorted steps
    → lookup (check_steps now steps steps) q ≡ young now (lookup steps q)
lookup-check_steps now steps q s =
    ground (arith, lookup-check_steps_old now steps steps q s, old_in-lookup now steps q s)

-- The step of two sessions.
abbrev pub step_of : Bytes → Bytes → TunnelStep
step_of one two = record { peer = new_peer one two; creation_time = 0 }
