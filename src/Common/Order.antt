-- ===== src/Common/Order.antt =====
-- The orders that Python's `<` gives to numbers, texts and tuples, as an interface.
use Prim.Native.Nat.{ℕ}
use mathlib.Core.Path.{◌≡◌, refl}
use mathlib.Core.Bool.{Bool, true, false}
use mathlib.Core.List.{List, [], ◌∷◌}
use native.Mathlib.Omega.{arith}
use package.personal_deadline_manage.Common.Tests.{ltb, if◌then◌else◌}

-- A strict order whose negation is transitive.
pub record Order {ℓ} (A : Type ℓ) : Type ℓ where
  pub lt : A → A → Bool
  pub asym : (a b : A) → lt a b ≡ true → lt b a ≡ false
  pub not_lt_trans : (a b c : A) → lt b a ≡ false → lt c b ≡ false → lt c a ≡ false

pub ltb_asym : (a b : ℕ) → ltb a b ≡ true → ltb b a ≡ false
ltb_asym a b h = ground arith

pub ltb_not_lt_trans : (a b c : ℕ) → ltb b a ≡ false → ltb c b ≡ false → ltb c a ≡ false
ltb_not_lt_trans a b c h k = ground arith

instance abbrev pub nat_order : Order ℕ
nat_order = record { lt = ltb; asym = ltb_asym; not_lt_trans = ltb_not_lt_trans }

-- Python compares strings by code points, from the left.
abbrev pub text_lt : List ℕ → List ℕ → Bool
text_lt [] [] = false
text_lt [] (y ∷ ys) = true
text_lt (x ∷ xs) [] = false
text_lt (x ∷ xs) (y ∷ ys) =
    let rest = text_lt xs ys in if ltb x y then true else if ltb y x then false else rest

pub text_lt_asym : (a b : List ℕ) → text_lt a b ≡ true → text_lt b a ≡ false
text_lt_asym [] [] h = refl
text_lt_asym [] (y ∷ ys) h = refl
text_lt_asym (x ∷ xs) [] h = cc
text_lt_asym (x ∷ xs) (y ∷ ys) h = ground (arith, text_lt_asym xs ys)

pub text_lt_not_lt_trans :
    (a b c : List ℕ) → text_lt b a ≡ false → text_lt c b ≡ false → text_lt c a ≡ false
text_lt_not_lt_trans [] [] [] h k = refl
text_lt_not_lt_trans [] [] (z ∷ zs) h k = refl
text_lt_not_lt_trans [] (y ∷ ys) [] h k = refl
text_lt_not_lt_trans [] (y ∷ ys) (z ∷ zs) h k = refl
text_lt_not_lt_trans (x ∷ xs) [] c h k = cc
text_lt_not_lt_trans (x ∷ xs) (y ∷ ys) [] h k = cc
text_lt_not_lt_trans (x ∷ xs) (y ∷ ys) (z ∷ zs) h k = ground (arith, text_lt_not_lt_trans xs ys zs)

instance abbrev pub text_order : Order (List ℕ)
text_order = record { lt = text_lt; asym = text_lt_asym; not_lt_trans = text_lt_not_lt_trans }

-- Tuples are compared from the left too: the second parts decide where the first are level.
module _ {ℓ κ} {A : Type ℓ} {B : Type κ} ⦃o : Order A⦄ ⦃p : Order B⦄ where
  abbrev pub pair_lt : A × B → A × B → Bool
  pair_lt (a, b) (c, d) = if o.lt a c then true else if o.lt c a then false else p.lt b d

  pub pair_lt_asym : (x y : A × B) → pair_lt x y ≡ true → pair_lt y x ≡ false
  pair_lt_asym (a, b) (c, d) h = ground (arith, o.asym a c, o.asym c a, p.asym b d)

  pub pair_lt_not_lt_trans :
      (x y z : A × B) → pair_lt y x ≡ false → pair_lt z y ≡ false → pair_lt z x ≡ false
  pair_lt_not_lt_trans (a, b) (c, d) (e, f) h k = ground (
    arith,
    o.not_lt_trans a c e,
    o.not_lt_trans c e a,
    o.not_lt_trans e a c,
    o.asym a c,
    o.asym c e,
    o.asym e a,
    p.not_lt_trans b d f,
  )

  instance abbrev pub pair_order : Order (A × B)
  pair_order = record { lt = pair_lt; asym = pair_lt_asym; not_lt_trans = pair_lt_not_lt_trans }
