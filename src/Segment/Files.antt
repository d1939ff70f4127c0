-- ===== src/Segment/Files.antt =====
-- The mapped files of one machine, `boost::interprocess::managed_mapped_file` and `file_mapping`, libraries
-- outside the repository: what the constructors use of them, by what their documentation says.
use basket.Prelude.{ℕ, ◌-◌, ◌<◌, ◌≡◌, false, Option, none, some, List}
use basket.Prelude.{str_eq}

-- What a segment holds under a name: a container, or a mutex.
pub data Shared (C : Type 0) : Type 0 where
  container : C → Shared C
  mutex : Shared C

pub record ManagedFiles (X : Type 0) : Type 1 where
  pub T : Type 0
  pub Segment : Type 0
  pub remove : List ℕ → T → T
  pub create_only : List ℕ → ℕ → T → Option (T × Segment)
  pub open_only : List ℕ → T → Option Segment
  pub construct : Segment → List ℕ → X → T → Option T
  pub find : Segment → List ℕ → T → Option X
  -- How many more objects a segment holds, and how many one of a given size does.
  pub room : Segment → T → ℕ
  pub capacity : ℕ → ℕ
  -- A file that was removed cannot be opened. Segments that are mapped stay.
  pub open-remove : (p : List ℕ) (t : T) → open_only p (remove p t) ≡ none
  pub open-remove_ne :
      (p q : List ℕ) (t : T) → str_eq p q ≡ false → open_only q (remove p t) ≡ open_only q t
  pub find-remove :
      (p : List ℕ) (s : Segment) (n : List ℕ) (t : T) → find s n (remove p t) ≡ find s n t
  -- Where there is no file, one with an empty segment is made.
  pub created :
      (p : List ℕ) (size : ℕ) (t : T)
      → open_only p t ≡ none
      → 0 < capacity size
      → (t' : T) × (s : Segment) × (create_only p size t ≡ some (t', s))
        × (open_only p t' ≡ some s)
        × (room s t' ≡ capacity size)
        × ((n : List ℕ) → find s n t' ≡ none)
        × ((q : List ℕ) → str_eq p q ≡ false → open_only q t' ≡ open_only q t)
        × ((r : Segment) (n : List ℕ) (x : X) → find r n t ≡ some x → find r n t' ≡ some x)
  -- A new object under a free name.
  pub constructed :
      (s : Segment) (n : List ℕ) (x : X) (t : T)
      → find s n t ≡ none
      → 0 < room s t
      → (t' : T) × (construct s n x t ≡ some t')
        × (find s n t' ≡ some x)
        × (room s t' ≡ room s t - 1)
        × ((m : List ℕ) → str_eq n m ≡ false → find s m t' ≡ find s m t)
        × ((q : List ℕ) → open_only q t' ≡ open_only q t)
        × ((r : Segment) (m : List ℕ) (y : X) → find r m t ≡ some y → find r m t' ≡ some y)
