-- ===== src/Container/Order.antt =====
-- The template parameters `KeyType` and `Compare` of the ordered containers (include/basket/map/map.h,
-- set.h, multimap.h, priority_queue.h): `Compare` is `std::less<KeyType>`, so `a > b` is `b < a`.
use basket.Prelude.{◌≡◌, Bool, true, false, if◌then◌else◌, arith}

pub record Order {ℓ} (K : Type ℓ) : Type ℓ where
  pub lt : K → K → Bool
  pub lt_irrefl : (a : K) → lt a a ≡ false
  pub lt_trans : (a b c : K) → lt a b ≡ true → lt b c ≡ true → lt a c ≡ true
  pub lt_connex : (a b : K) → lt a b ≡ false → lt b a ≡ false → a ≡ b

module _ {ℓ} {K : Type ℓ} ⦃o : Order K⦄ where
  infix 50 ◌<?◌
  abbrev pub ◌<?◌ : K → K → Bool
  a <? b = o.lt a b

  -- Neither is less: the equivalence of `Compare`.
  abbrev pub same : K → K → Bool
  same a b = if o.lt a b then false else if o.lt b a then false else true

  pub same-eq : (a b : K) → same a b ≡ true → a ≡ b
  same-eq a b h = ground (arith, o.lt_connex a b)

  pub same_refl : (a : K) → same a a ≡ true
  same_refl a = ground (arith, o.lt_irrefl a)

  pub lt_asymm : (a b : K) → o.lt a b ≡ true → o.lt b a ≡ false
  lt_asymm a b h = ground (arith, o.lt_trans a b a, o.lt_irrefl a)
