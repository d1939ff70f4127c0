-- ===== src/Tests/Machine.antt =====
-- The mapped files of a machine, as functions.
use basket.Prelude.{
  ℕ, suc, ◌-◌, ◌<◌, ◌≡◌, refl, true, false, ◌==◌, ==_refl, ==_iff, ltb, if◌then◌else◌, Bool-cases,
  inl, inr, arith, List, Option, none, some, str_eq, str_eq_refl, str_eq-eq,
}
use basket.Segment.Files.{ManagedFiles}

-- The segment of each file, the objects of each segment, and the room in it. Segments are numbered as
-- they are made.
pub record Machine (X : Type 0) : Type 0 where
  pub files : List ℕ → Option ℕ
  pub next : ℕ
  pub objects : ℕ → List ℕ → Option X
  pub rooms : ℕ → ℕ

-- A new one only where there is none.
abbrev unless : {A B : Type 0} → Option A → Option B → Option B
unless none b = b
unless (some a) b = none

module _ {X : Type 0} where
  abbrev pub blank : Machine X
  blank = record { files = λ p. none; next = 0; objects = λ s n. none; rooms = λ s. 0 }

  abbrev remove_file : List ℕ → Machine X → Machine X
  remove_file p t = record t { files = λ q. if str_eq p q then none else t.files q }

  abbrev find_object : ℕ → List ℕ → Machine X → Option X
  find_object s n t = if ltb s t.next then t.objects s n else none

  abbrev room_of : ℕ → Machine X → ℕ
  room_of s t = if ltb s t.next then t.rooms s else 0

  -- A segment with an object more.
  abbrev with_object : ℕ → List ℕ → X → Machine X → Machine X
  with_object s n x t = record t {
    objects =
        λ r m. if r == s then (if str_eq n m then some x else t.objects r m) else t.objects r m;
    rooms = λ r. if r == s then t.rooms r - 1 else t.rooms r;
  }

  -- A file with a new segment.
  abbrev with_file : List ℕ → ℕ → Machine X → Machine X
  with_file p size t = record {
    files = λ q. if str_eq p q then some t.next else t.files q;
    next = suc t.next;
    objects = λ r m. if r == t.next then none else t.objects r m;
    rooms = λ r. if r == t.next then size else t.rooms r;
  }

  abbrev create_file : List ℕ → ℕ → Machine X → Option (Machine X × ℕ)
  create_file p size t = unless (t.files p) (some (with_file p size t, t.next))

  abbrev construct_object : ℕ → List ℕ → X → Machine X → Option (Machine X)
  construct_object s n x t =
      unless (find_object s n t) (if ltb 0 (room_of s t) then some (with_object s n x t) else none)

  pub created :
      (p : List ℕ) (size : ℕ) (t : Machine X)
      → t.files p ≡ none
      → (t' : Machine X) × (s : ℕ) × (create_file p size t ≡ some (t', s))
        × (t'.files p ≡ some s)
        × (room_of s t' ≡ size)
        × ((n : List ℕ) → find_object s n t' ≡ none)
        × ((q : List ℕ) → str_eq p q ≡ false → t'.files q ≡ t.files q)
        × ((r : ℕ) (n : List ℕ) (x : X) → find_object r n t ≡ some x → find_object r n t' ≡ some x)
  created p size t free =
      let own : ltb t.next (suc t.next) ≡ true = ground arith in
      (
        with_file p size t,
        t.next,
        rw free refl,
        rw (str_eq_refl p) refl,
        rw (own, ==_refl t.next) refl,
        λ n. rw (own, ==_refl t.next) refl,
        λ q differ. rw differ refl,
        λ r n x found. elim (Bool-cases (ltb r t.next)) [
          | inl old ↦
              let older : ltb r (suc t.next) ≡ true = ground (arith, old) in
              let other : (r == t.next) ≡ false = ground (arith, old) in
              rw (older, other) (rw old at found)
          | inr new ↦ cc (rw new at found)
        ],
      )

  pub constructed :
      (s : ℕ) (n : List ℕ) (x : X) (t : Machine X)
      → find_object s n t ≡ none
      → 0 < room_of s t
      → (t' : Machine X) × (construct_object s n x t ≡ some t')
        × (find_object s n t' ≡ some x)
        × (room_of s t' ≡ room_of s t - 1)
        × ((m : List ℕ) → str_eq n m ≡ false → find_object s m t' ≡ find_object s m t)
        × ((q : List ℕ) → t'.files q ≡ t.files q)
        × ((r : ℕ) (m : List ℕ) (y : X) → find_object r m t ≡ some y → find_object r m t' ≡ some y)
  constructed s n x t free space = elim (Bool-cases (ltb s t.next)) [
    | inr new ↦ absurd (omega (arith, (rw new at space)))
    | inl old ↦
        let some_room : ltb 0 (room_of s t) ≡ true = ground (arith, space) in
        let absent : t.objects s n ≡ none = rw old at free in
        let same = ==_refl s in
        (
          with_object s n x t,
          rw (old, absent, (rw old at some_room)) refl,
          rw (old, same, str_eq_refl n) refl,
          rw (old, same) refl,
          λ m differ. rw (old, same, differ) refl,
          λ q. refl,
          λ r m y found. elim (Bool-cases (r == s)) [
            | inr other ↦ rw other found
            | inl here ↦ elim (Bool-cases (str_eq n m)) [
              | inr differ ↦ rw (here, differ) found
              | inl taken ↦
                  let e : find_object r m t ≡ none =
                    rw ((==_iff r s).0 here, ← str_eq-eq n m taken) free in
                  cc
            ]
          ],
        )
  ]

  abbrev pub machine : ManagedFiles X
  machine = record {
    T = Machine X;
    Segment = ℕ;
    remove = remove_file;
    create_only = create_file;
    open_only = λ p t. t.files p;
    construct = construct_object;
    find = find_object;
    room = room_of;
    capacity = λ size. size;
    open-remove = λ p t. rw (str_eq_refl p) refl;
    open-remove_ne = λ p q t differ. rw differ refl;
    find-remove = λ p s n t. refl;
    created = λ p size t free enough. created p size t free;
    constructed = constructed;
  }
