-- ===== src/Rpc/Singleton.antt =====
-- `Singleton<T>::GetInstance` of include/basket/common/singleton.h.
use basket.Prelude.{ℕ, ◌≡◌, refl, ap, List, [], ◌∷◌, ◌++◌, Option, none, some, length, All}

-- The static `instance`, the address of an object if it is set, and the objects of the class by address.
pub record Static {ℓ} (T : Type ℓ) : Type ℓ where
  pub the_instance : Option ℕ
  pub objects : List T

module _ {ℓ} {T Args : Type ℓ} (new : Args → T) where
  unfoldable pub get_instance : Args → Static T → Static T × ℕ
  get_instance args s = elim s.the_instance [
    | none ↦ (
      record { the_instance = some (length s.objects); objects = s.objects ++ new args ∷ [] },
      length s.objects,
    )
    | some p ↦ (s, p)
  ]

  -- Calls one after the other, and what each returns.
  abbrev pub get_instances : List Args → Static T → Static T × List ℕ
  get_instances [] s = (s, [])
  get_instances (args ∷ calls) s =
      let (s', p) = get_instance args s in let (s'', ps) = get_instances calls s' in (s'', p ∷ ps)

  pub get_instance-set :
      (args : Args) (s : Static T) (p : ℕ) → s.the_instance ≡ some p → get_instance args s ≡ (s, p)
  unfolding get_instance
  get_instance-set args s p e = rw e refl

  later-same :
      (calls : List Args) (s : Static T) (p : ℕ)
      → s.the_instance ≡ some p
      → ((get_instances calls s).0 ≡ s) × All (λ q. q ≡ p) (get_instances calls s).1
  later-same [] s p e = (refl, tt)
  later-same (args ∷ calls) s p e =
      let (same, all) = later-same calls s p e in
      rw (get_instance-set args s p e) (same, (refl, all))

  -- However often `GetInstance` is called, and with whatever arguments, one object is made, with the
  -- arguments of the first call, and every call returns it.
  pub get_instances-one :
      (args : Args) (calls : List Args) (s : Static T)
      → s.the_instance ≡ none
      → ((get_instances (args ∷ calls) s).0.objects ≡ s.objects ++ new args ∷ [])
        × All (λ p. p ≡ length s.objects) (get_instances (args ∷ calls) s).1
  unfolding get_instance
  get_instances-one args calls s e =
      let made : Static T = record {
        the_instance = some (length s.objects);
        objects = s.objects ++ new args ∷ [];
      } in
      let first : get_instance args s ≡ (made, length s.objects) = rw e refl in
      let (same, all) = later-same calls made (length s.objects) refl in
      rw first (ap (λ x. x.objects) same, (refl, all))
