-- ===== src/Order.antt =====
-- What `ObjectManager<Object>` asks of the class that it stores: the `operator <` and
-- `operator ==` that the class declares, and that the two belong together. The classes of the
-- program fill it from a key that they compare by.
use twainet.Prelude.{◌≡◌, Bool, true, false, arith, if◌then◌else◌}
use mathlib.Core.Path.{fun_ext, subst₂, sym}
use twainet.Prelude.Bytes.{
  str_eq, str_lt, str_eq_sound, str_eq_refl, str_lt_irrefl, str_lt_trans, str_lt_total,
}

-- A strict linear order given by Boolean tests.
pub record IsLinear {ℓ} {K : Type ℓ} (lt eqb : K → K → Bool) : Type ℓ where
  pub eq_refl : (a : K) → eqb a a ≡ true
  pub eq_sound : (a b : K) → eqb a b ≡ true → a ≡ b
  pub lt_irrefl : (a : K) → lt a a ≡ false
  pub lt_trans : (a b c : K) → lt a b ≡ true → lt b c ≡ true → lt a c ≡ true
  pub lt_total : (a b : K) → lt a b ≡ false → eqb a b ≡ false → lt b a ≡ true

pub Bytes-IsLinear : IsLinear str_lt str_eq
Bytes-IsLinear = record {
  eq_refl = str_eq_refl;
  eq_sound = str_eq_sound;
  lt_irrefl = str_lt_irrefl;
  lt_trans = str_lt_trans;
  lt_total = str_lt_total;
}

-- The tests of a pair, the first component first.
module _ {ℓ κ} {J : Type ℓ} {K : Type κ} (lt eqb : J → J → Bool) (lt' eqb' : K → K → Bool) where
  abbrev pub pair_lt : J × K → J × K → Bool
  pair_lt a b = if lt a.0 b.0 then true else if eqb a.0 b.0 then lt' a.1 b.1 else false

  abbrev pub pair_eq : J × K → J × K → Bool
  pair_eq a b = if eqb a.0 b.0 then eqb' a.1 b.1 else false

  pub pair-IsLinear : IsLinear lt eqb → IsLinear lt' eqb' → IsLinear {K = J × K} pair_lt pair_eq
  pair-IsLinear p q = record {
    eq_refl = λ a. ground (arith, p.eq_refl a.0, q.eq_refl a.1);
    eq_sound = λ a b. ground (arith, p.eq_sound a.0 b.0, q.eq_sound a.1 b.1);
    lt_irrefl = λ a. ground (arith, p.lt_irrefl a.0, q.lt_irrefl a.1);
    lt_trans = λ a b c. ground (
      arith,
      p.eq_sound a.0 b.0,
      p.eq_sound b.0 c.0,
      p.eq_refl c.0,
      p.lt_irrefl a.0,
      p.lt_trans a.0 b.0 c.0,
      q.lt_trans a.1 b.1 c.1,
    );
    lt_total = λ a b.
        ground (arith, p.lt_total a.0 b.0, p.eq_sound a.0 b.0, p.eq_refl a.0, q.lt_total a.1 b.1);
  }

-- `<` is a strict weak order, and `==` is its equivalence. Objects that are `==` may differ.
pub record IsOrder {ℓ} {A : Type ℓ} (lt eqb : A → A → Bool) : Type ℓ where
  pub eq_refl : (a : A) → eqb a a ≡ true
  pub eq_sym : (a b : A) → eqb a b ≡ true → eqb b a ≡ true
  pub eq_trans : (a b c : A) → eqb a b ≡ true → eqb b c ≡ true → eqb a c ≡ true
  pub lt_not_eq : (a b : A) → lt a b ≡ true → eqb a b ≡ false
  pub lt_trans : (a b c : A) → lt a b ≡ true → lt b c ≡ true → lt a c ≡ true
  pub lt_eq : (a b c : A) → lt a b ≡ true → eqb b c ≡ true → lt a c ≡ true
  pub eq_lt : (a b c : A) → eqb a b ≡ true → lt b c ≡ true → lt a c ≡ true
  pub lt_total : (a b : A) → lt a b ≡ false → eqb a b ≡ false → lt b a ≡ true

pub record Order {ℓ} (A : Type ℓ) : Type ℓ where
  pub lt : A → A → Bool
  pub eqb : A → A → Bool
  pub lawful : IsOrder lt eqb
  pub open lawful use *

-- A class whose two operators compare a key is ordered.
module _ {ℓ κ} {A : Type ℓ} {K : Type κ} {lt eqb : K → K → Bool} (l : IsLinear lt eqb)
    (key : A → K) where
  pub key-IsOrder : IsOrder {A = A} (λ a b. lt (key a) (key b)) (λ a b. eqb (key a) (key b))
  key-IsOrder = record {
    eq_refl = λ a. l.eq_refl (key a);
    eq_sym = λ a b. ground (arith, l.eq_sound (key a) (key b), l.eq_refl (key a));
    eq_trans = λ a b c. ground (arith, l.eq_sound (key a) (key b));
    lt_not_eq = λ a b. ground (arith, l.eq_sound (key a) (key b), l.lt_irrefl (key a));
    lt_trans = λ a b c. l.lt_trans (key a) (key b) (key c);
    lt_eq = λ a b c. ground (arith, l.eq_sound (key b) (key c));
    eq_lt = λ a b c. ground (arith, l.eq_sound (key a) (key b));
    lt_total = λ a b. l.lt_total (key a) (key b);
  }

  -- The operators of a class, where they are written out otherwise than by the key.
  pub key-IsOrder_of_eq :
      {lt' eqb' : A → A → Bool}
      → ((a b : A) → lt' a b ≡ lt (key a) (key b))
      → ((a b : A) → eqb' a b ≡ eqb (key a) (key b))
      → IsOrder lt' eqb'
  key-IsOrder_of_eq p q =
      subst₂ (λ l e. IsOrder l e) (sym (fun_ext λ a. fun_ext (p a)))
        (sym (fun_ext λ a. fun_ext (q a))) key-IsOrder

-- A class that inherits its operators, or compares one field by them.
pub inherited-IsOrder {ℓ κ} :
    {A : Type ℓ} {B : Type κ} {lt eqb : A → A → Bool}
    → IsOrder lt eqb
    → (part : B → A) → IsOrder {A = B} (λ a b. lt (part a) (part b)) (λ a b. eqb (part a) (part b))
inherited-IsOrder o part = record {
  eq_refl = λ a. o.eq_refl (part a);
  eq_sym = λ a b. o.eq_sym (part a) (part b);
  eq_trans = λ a b c. o.eq_trans (part a) (part b) (part c);
  lt_not_eq = λ a b. o.lt_not_eq (part a) (part b);
  lt_trans = λ a b c. o.lt_trans (part a) (part b) (part c);
  lt_eq = λ a b c. o.lt_eq (part a) (part b) (part c);
  eq_lt = λ a b c. o.eq_lt (part a) (part b) (part c);
  lt_total = λ a b. o.lt_total (part a) (part b);
}
