-- ===== src/Tableau/TupleTable.antt =====
-- src/tableau/tuple_table.rs: a growable store of tuples of one arity over a flat vector.
pub mod Stored
pub mod Removal
pub mod Comparison
use hermit_rs.Base.{
  ◌/◌, ℕ, zero, suc, ◌+◌, ◌*◌, Bool, true, false, Option, none, some, List, [], ◌∷◌, ◌++◌,
  if◌then◌else◌, length, get_elem?, nat_eq, Eq, ◌==◌,
}
use hermit_rs.Base.Panic.{◌>>=◌}
use hermit_rs.Base.Vectors.{set_elem?, repeat}

abbrev pub page_size : ℕ
page_size = 512

pub record TupleTable {ℓ} (T : Type ℓ) : Type ℓ where
  pub arity : ℕ
  pub objects : List (Option T)
  pub first_free_tuple_index : ℕ

-- `v[start .. start + len]`, which panics if the end is out of range.
abbrev pub slice? {ℓ} : {A : Type ℓ} → List A → (start len : ℕ) → Option (List A)
slice? v zero zero = some []
slice? [] zero (suc len) = none
slice? (x ∷ v) zero (suc len) = slice? v zero len >>= λ rest. some (x ∷ rest)
slice? [] (suc start) len = none
slice? (x ∷ v) (suc start) len = slice? v start len

module _ {ℓ} {T : Type ℓ} where
  unfoldable pub clear : TupleTable T → TupleTable T
  clear t = record t { objects = repeat (t.arity * page_size) none; first_free_tuple_index = 0 }

  unfoldable pub new : ℕ → TupleTable T
  unfolding clear
  new arity = clear (record { arity = arity; objects = []; first_free_tuple_index = 0 })

  unfoldable pub get_first_free_tuple_index : TupleTable T → ℕ
  get_first_free_tuple_index t = t.first_free_tuple_index

  unfoldable pub slot : TupleTable T → ℕ → ℕ → ℕ
  slot t tuple_index object_index = tuple_index * t.arity + object_index

  -- In the operations below `none` is a panic.
  unfoldable pub get_tuple_object : TupleTable T → ℕ → ℕ → Option (Option T)
  unfolding slot
  get_tuple_object t tuple_index object_index =
      get_elem? t.objects (slot t tuple_index object_index)

  unfoldable pub set_tuple_object : TupleTable T → ℕ → ℕ → Option T → Option (TupleTable T)
  unfolding slot
  set_tuple_object t tuple_index object_index object =
      set_elem? t.objects (slot t tuple_index object_index) object >>= λ objects.
      some (record t { objects = objects })

  unfoldable pub truncate : TupleTable T → ℕ → TupleTable T
  truncate t n = record t { first_free_tuple_index = n }

  -- Setting the slots of a slice to `None`, from its start on.
  unfoldable pub nullify_slots : (start len : ℕ) → List (Option T) → Option (List (Option T))
  nullify_slots start zero objects = some objects
  nullify_slots start (suc len) objects =
      set_elem? objects start none >>= nullify_slots (suc start) len

  unfoldable pub nullify_tuple : TupleTable T → ℕ → Option (TupleTable T)
  nullify_tuple t tuple_index =
      nullify_slots (tuple_index * t.arity) t.arity t.objects >>= λ objects.
      some (record t { objects = objects })

  -- Writing the values of the buffer, from a slot on.
  unfoldable pub write_slots : ℕ → List T → List (Option T) → Option (List (Option T))
  write_slots start [] objects = some objects
  write_slots start (x ∷ xs) objects =
      set_elem? objects start (some x) >>= write_slots (suc start) xs

  unfoldable pub grow : TupleTable T → List (Option T)
  grow t =
      if t.first_free_tuple_index == length t.objects / t.arity
      then t.objects ++ repeat (t.arity * page_size) none
      else t.objects

  -- The division by an arity of 0 panics.
  unfoldable pub add_tuple : TupleTable T → List T → Option (TupleTable T × ℕ)
  add_tuple t tuple_buffer =
      if t.arity == 0
      then none
      else (write_slots (t.first_free_tuple_index * t.arity) tuple_buffer (grow t) >>= λ objects.
          some (
            record t { objects = objects; first_free_tuple_index = suc t.first_free_tuple_index },
            t.first_free_tuple_index,
          ))

  unfoldable pub retrieve_tuple : TupleTable T → ℕ → Option (List (Option T))
  retrieve_tuple t tuple_index = slice? t.objects (tuple_index * t.arity) t.arity

module _ {ℓ} {T : Type ℓ} ⦃e : Eq T⦄ where
  -- The loop of `tuple_equals`, from the last position down.
  unfoldable pub slots_equal : List (Option T) → List T → (start n : ℕ) → Option Bool
  slots_equal objects buffer start zero = some true
  slots_equal objects buffer start (suc n) =
      let rest = slots_equal objects buffer start n in
      get_elem? objects (start + n) >>= λ stored. elim stored [
        | none ↦ some false
        | some x ↦ get_elem? buffer n >>= λ y. if x == y then rest else some false
      ]

  unfoldable pub tuple_equals : TupleTable T → List T → ℕ → ℕ → Option Bool
  tuple_equals t buffer tuple_index compare_length =
      slots_equal t.objects buffer (tuple_index * t.arity) compare_length

  unfoldable pub slots_equal_indexed :
      List (Option T) → List T → List ℕ → (start n : ℕ) → Option Bool
  slots_equal_indexed objects buffer positions start zero = some true
  slots_equal_indexed objects buffer positions start (suc n) =
      let rest = slots_equal_indexed objects buffer positions start n in
      get_elem? objects (start + n) >>= λ stored. elim stored [
        | none ↦ some false
        | some x ↦ get_elem? positions n >>= λ position.
            get_elem? buffer position >>= λ y. if x == y then rest else some false
      ]

  unfoldable pub tuple_equals_indexed : TupleTable T → List T → List ℕ → ℕ → ℕ → Option Bool
  tuple_equals_indexed t buffer positions tuple_index compare_length =
      slots_equal_indexed t.objects buffer positions (tuple_index * t.arity) compare_length
