-- ===== src/Prelude/Map.antt =====
-- Finite maps as association lists: `HashMap`, `DashMap`, and the sets `DashSet` and `HashSet`.
-- The order of the list stands for the order in which the program's iterators visit the entries.
use mathlib.Core.Logic.{◌≢◌, ite, if_pos, if_neg}
use mathlib.Core.Path.{◌≡◌, refl, subst}
use mathlib.Core.Bool.{Bool, true, false}
use mathlib.Core.Option.{Option, none, some}
use mathlib.Core.List.{List, [], ◌∷◌}
use native.Mathlib.Omega.{arith}

abbrev pub Map {ℓ} : Type ℓ → Type ℓ → Type ℓ
Map K V = List (K × V)

module _ {ℓ} {K V : Type ℓ} where
  unfoldable pub retain : (K → V → Bool) → Map K V → Map K V
  retain p [] = []
  retain p ((k, v) ∷ m) =
      let rest = retain p m in elim (p k v) [ true ↦ (k, v) ∷ rest | false ↦ rest ]

module _ {ℓ} {K V : Type ℓ} (dec : Discrete K) where
  unfoldable pub get : K → Map K V → Option V
  get k [] = none
  get k ((j, v) ∷ m) = ite (dec j k) (some v) (get k m)

  unfoldable pub insert : K → V → Map K V → Map K V
  insert k v [] = (k, v) ∷ []
  insert k v ((j, w) ∷ m) = ite (dec j k) ((k, v) ∷ m) ((j, w) ∷ insert k v m)

  unfoldable pub remove : K → Map K V → Map K V
  remove k [] = []
  remove k ((j, v) ∷ m) = let rest = remove k m in ite (dec j k) rest ((j, v) ∷ rest)

  -- No key stands twice.
  abbrev pub IsUnique : Map K V → Type ℓ
  IsUnique [] = Unit
  IsUnique ((k, v) ∷ m) = (get k m ≡ none) × IsUnique m

  pub get-nil : (k : K) → get k [] ≡ none
  unfolding get
  get-nil k = refl

  pub get-cons_self : (k : K) (v : V) (m : Map K V) → get k ((k, v) ∷ m) ≡ some v
  unfolding get
  get-cons_self k v m = ground arith

  pub get-insert :
      (k j : K) (v : V) (m : Map K V) → get j (insert k v m) ≡ ite (dec k j) (some v) (get j m)
  unfolding get insert
  get-insert k j v [] = refl
  get-insert k j v ((i, w) ∷ m) = ground (arith, get-insert k j v m)

  pub get-insert_self : (k : K) (v : V) (m : Map K V) → get k (insert k v m) ≡ some v
  get-insert_self k v m = ground (arith, get-insert k k v m)

  pub get-insert_ne : (k j : K) (v : V) (m : Map K V) → k ≢ j → get j (insert k v m) ≡ get j m
  get-insert_ne k j v m h = ground (arith, get-insert k j v m)

  pub get-remove : (k j : K) (m : Map K V) → get j (remove k m) ≡ ite (dec k j) none (get j m)
  unfolding get remove
  get-remove k j [] = ground arith
  get-remove k j ((i, w) ∷ m) = ground (arith, get-remove k j m)

  get-retain-none :
      (p : K → V → Bool) (k : K) (m : Map K V) → get k m ≡ none → get k (retain p m) ≡ none
  unfolding get retain
  get-retain-none p k [] h = refl
  get-retain-none p k ((j, v) ∷ m) h = ground (arith, get-retain-none p k m)

  -- What `retain` leaves at a key.
  abbrev pub kept : (K → V → Bool) → K → Option V → Option V
  kept p k none = none
  kept p k (some v) = elim (p k v) [ true ↦ some v | false ↦ none ]

  pub get-retain :
      (p : K → V → Bool) (k : K) (m : Map K V)
      → IsUnique m
      → get k (retain p m) ≡ kept p k (get k m)
  unfolding get retain
  get-retain p k [] u = refl
  get-retain p k ((j, v) ∷ m) (f, u) = ground (arith, get-retain p k m u, get-retain-none p k m)

  pub insert-IsUnique : (k : K) (v : V) (m : Map K V) → IsUnique m → IsUnique (insert k v m)
  unfolding get insert
  insert-IsUnique k v [] u = ground arith
  insert-IsUnique k v ((j, w) ∷ m) (f, u) =
      ground (arith, insert-IsUnique k v m u, get-insert k j v m)

  pub remove-IsUnique : (k : K) (m : Map K V) → IsUnique m → IsUnique (remove k m)
  unfolding get remove
  remove-IsUnique k [] u = u
  remove-IsUnique k ((j, w) ∷ m) (f, u) = ground (arith, remove-IsUnique k m u, get-remove k j m)

  pub retain-IsUnique : (p : K → V → Bool) (m : Map K V) → IsUnique m → IsUnique (retain p m)
  unfolding get retain
  retain-IsUnique p [] u = u
  retain-IsUnique p ((j, w) ∷ m) (f, u) =
      ground (arith, retain-IsUnique p m u, get-retain-none p j m)

-- A property of every entry.
module _ {ℓ κ} {K V : Type ℓ} (P : K → V → Type κ) where
  abbrev pub Each : Map K V → Type κ
  Each [] = Unit
  Each ((k, v) ∷ m) = P k v × Each m

module _ {ℓ κ} {K V : Type ℓ} (dec : Discrete K) (P : K → V → Type κ) where
  pub Each-insert : (k : K) (v : V) (m : Map K V) → P k v → Each P m → Each P (insert dec k v m)
  unfolding insert
  Each-insert k v [] p h = (p, h)
  Each-insert k v ((j, w) ∷ m) p (q, h) = elim (dec j k) [
    | yes e ↦ rw (if_pos _ e) (p, h)
    | no n ↦ rw (if_neg _ n) (q, Each-insert k v m p h)
  ]

  pub Each-get : (k : K) (v : V) (m : Map K V) → Each P m → get dec k m ≡ some v → P k v
  unfolding get
  Each-get k v [] h e = cc
  Each-get k v ((j, w) ∷ m) (q, h) e = elim (dec j k) [
    | yes p ↦
        let found : some w ≡ some v = rw (if_pos _ p) at e in
        let same : w ≡ v = cc in subst (λ x. P x v) p (subst (P j) same q)
    | no n ↦ Each-get k v m h (rw (if_neg _ n) at e)
  ]
