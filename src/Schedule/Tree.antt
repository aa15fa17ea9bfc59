-- ===== src/Schedule/Tree.antt =====
-- The red-black tree of the sleeping coroutines, a copy of the BSD macros of include/dyco/sys_tree.h:
-- what the scheduler calls and what it relies on. A node is the address of a coroutine, and its key
-- the `sleep_usecs` that the coroutine had when it was inserted.
use mathlib.Core.Option.{some-injective, none-ne-some}
use dyco_coroutine.Base.{
  ℕ, refl, ◌<◌, ◌≡◌, ◌⊎◌, inl, inr, Option, none, some, List, [], ◌∷◌, ltb, ◌==◌, if◌then◌else◌,
  ◌>>=◌, All,
}

pub record Sleeper : Type 0 where
  pub key : ℕ
  pub co : ℕ

pub record SleepTree (T : Type 0) : Type 0 where
  -- The nodes in the order of an inorder walk.
  pub entries : T → List Sleeper
  pub find : T → ℕ → Option ℕ
  -- `RB_INSERT` of a coroutine at a key: the tree, or the coroutine that is there already.
  pub insert : T → ℕ → ℕ → T ⊎ ℕ
  -- `RB_REMOVE` of a coroutine. `none` where the coroutine is no node of the tree.
  pub remove : T → ℕ → Option T
  pub min : T → Option ℕ

unfoldable pub find_key : ℕ → List Sleeper → Option ℕ
find_key k [] = none
find_key k (e ∷ es) = if k == e.key then some e.co else find_key k es

unfoldable pub insert_key : Sleeper → List Sleeper → List Sleeper
insert_key x [] = x ∷ []
insert_key x (e ∷ es) = if ltb x.key e.key then x ∷ e ∷ es else e ∷ insert_key x es

unfoldable pub remove_co : ℕ → List Sleeper → Option (List Sleeper)
remove_co co [] = none
remove_co co (e ∷ es) =
    let rest = remove_co co es in if co == e.co then some es else (rest >>= λ es'. some (e ∷ es'))

unfoldable pub first_co : List Sleeper → Option ℕ
first_co [] = none
first_co (e ∷ es) = some e.co

-- Keys increase along the walk.
unfoldable pub IsSorted : List Sleeper → Type 0
IsSorted [] = Unit
IsSorted (e ∷ es) = All (λ x. e.key < x.key) es × IsSorted es

pub data Inserts {T : Type 0} (tree : SleepTree T) (t : T) (x : Sleeper) : T ⊎ ℕ → Type 0 where
  found : {other : ℕ} → find_key x.key (tree.entries t) ≡ some other → Inserts tree t x (inr other)
  added :
      {t' : T}
      → find_key x.key (tree.entries t) ≡ none
      → tree.entries t' ≡ insert_key x (tree.entries t)
      → Inserts tree t x (inl t')

unfoldable pub map_entries : {T : Type 0} → SleepTree T → Option T → Option (List Sleeper)
map_entries tree none = none
map_entries tree (some t) = some (tree.entries t)

-- What the macros of the tree promise.
pub record Laws {T : Type 0} (tree : SleepTree T) : Type 0 where
  pub find-key : (t : T) (k : ℕ) → tree.find t k ≡ find_key k (tree.entries t)
  pub insert-Inserts :
      (t : T) (k co : ℕ) → Inserts tree t (record { key = k; co = co }) (tree.insert t k co)
  pub remove-entries :
      (t : T) (co : ℕ) → map_entries tree (tree.remove t co) ≡ remove_co co (tree.entries t)
  pub min-first : (t : T) → tree.min t ≡ first_co (tree.entries t)

pub removed :
    {T : Type 0} (tree : SleepTree T) (es : List Sleeper) (o : Option T)
    → map_entries tree o ≡ some es
    → (t : T) × (o ≡ some t) × (tree.entries t ≡ es)
unfolding map_entries
removed tree es none h = absurd (none-ne-some _ h)
removed tree es (some t) h = (t, refl, some-injective _ _ h)
