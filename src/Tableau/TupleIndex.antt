-- ===== src/Tableau/TupleIndex.antt =====
-- src/tableau/tuple_index.rs: a trie over the columns of the tuples, whose edges stand in one hash
-- table of buckets. A link of the source is an `i32`, with -1 for no node; here it is an `Option`.
-- In all operations `none` is a panic, or a loop that would not end.
pub mod Links
pub mod Find
pub mod Rehash
pub mod Valid
pub mod Insert
pub mod Child
pub mod Paths
pub mod Content
pub mod Adding
pub mod Start
pub mod Growth
use hermit_rs.Base.{
  ◌%◌, ◌/◌, ◌^◌, option_eq, ℕ, zero, suc, ◌+◌, ◌-◌, ◌*◌, ◌≡◌, true, false, ◌&&◌, Option, none, some,
  List, [], ◌∷◌, ◌++◌, if◌then◌else◌, length, get_elem?, ltb, nat_eq, ◌==◌, leb,
}
use hermit_rs.Base.Panic.{◌>>=◌}
use hermit_rs.Base.Vectors.{set_elem?, repeat}

-- The trait `EdgeKey`: a key for each object, different for different objects; `none` is the panic
-- of an implementation.
pub record EdgeKey {ℓ} (T : Type ℓ) : Type ℓ where
  pub unique_key : T → Option ℕ
  pub unique_key_inj : (x y : T) (k : ℕ) → unique_key x ≡ some k → unique_key y ≡ some k → x ≡ y

pub record TrieNode : Type 0 where
  pub parent : Option ℕ
  pub first_child : Option ℕ
  pub previous_sibling : Option ℕ
  pub next_sibling : Option ℕ
  pub tuple_index : Option ℕ
  pub next_entry : Option ℕ
  pub key : ℕ

abbrev pub empty : TrieNode
empty = record {
  parent = none;
  first_child = none;
  previous_sibling = none;
  next_sibling = none;
  tuple_index = none;
  next_entry = none;
  key = 0;
}

pub record TupleIndex : Type 0 where
  pub indexing_sequence : List ℕ
  pub nodes : List TrieNode
  pub free : List ℕ
  pub root : ℕ
  pub buckets : List (Option ℕ)
  pub buckets_mask : ℕ
  pub resize_threshold : ℕ
  pub number_of_nodes : ℕ

abbrev pub initial_buckets : ℕ
initial_buckets = 1024

-- `(len as f64 * 0.8) as usize`, for a power of two `len`.
abbrev pub threshold_of : ℕ → ℕ
threshold_of len = len * 4 / 5

-- The words of 64 bits.
abbrev word : ℕ
word = 2 ^ 64

xor_bits : (bits a b : ℕ) → ℕ
xor_bits zero a b = 0
xor_bits (suc bits) a b = (a + b) % 2 + 2 * xor_bits bits (a / 2) (b / 2)

unfoldable pub edge_hash_key : (key parent : ℕ) → ℕ
unfolding xor_bits
edge_hash_key key parent =
    let h₀ = (key + parent) % word in
    let h₁ = (h₀ + (word - 1 - h₀ * 2 ^ 9 % word)) % word in
    let h₂ = xor_bits 64 h₁ (h₁ / 2 ^ 14) in
    let h₃ = (h₂ + h₂ * 2 ^ 4 % word) % word in xor_bits 64 h₃ (h₃ / 2 ^ 10)

-- `hash & mask`: the mask is a power of two less one.
unfoldable pub bucket_of : (key parent mask : ℕ) → ℕ
bucket_of key parent mask = edge_hash_key key parent % suc mask

abbrev pub update_node : List TrieNode → ℕ → (TrieNode → TrieNode) → Option (List TrieNode)
update_node nodes c f = get_elem? nodes c >>= λ n. set_elem? nodes c (f n)

unfoldable pub new_trie_node : TupleIndex → Option (TupleIndex × ℕ)
new_trie_node t = elim t.free [
  | [] ↦ some (record t { nodes = t.nodes ++ empty ∷ [] }, length t.nodes)
  | reused ∷ free ↦ set_elem? t.nodes reused empty >>= λ nodes.
      some (record t { nodes = nodes; free = free }, reused)
]

unfoldable pub clear : TupleIndex → Option TupleIndex
clear t =
    let len =
      if ltb (length t.buckets) initial_buckets then initial_buckets else length t.buckets in
    new_trie_node (record t {
      nodes = [];
      free = [];
      buckets = repeat len none;
      buckets_mask = len - 1;
      resize_threshold = threshold_of len;
      number_of_nodes = 0;
    })
    >>= λ (cleared, root). some (record cleared { root = root })

unfoldable pub new : List ℕ → Option TupleIndex
unfolding clear
new indexing_sequence = clear (record {
  indexing_sequence = indexing_sequence;
  nodes = [];
  free = [];
  root = 0;
  buckets = [];
  buckets_mask = 0;
  resize_threshold = 0;
  number_of_nodes = 0;
})

-- The walk along a chain of a bucket, which ends after at most as many rounds as there are
-- nodes, the fuel.
unfoldable pub find_child :
    List TrieNode → (fuel : ℕ) → Option ℕ → (parent key : ℕ) → Option (Option ℕ)
find_child nodes zero child parent key = none
find_child nodes (suc fuel) none parent key = some none
find_child nodes (suc fuel) (some c) parent key = get_elem? nodes c >>= λ n.
    let rest = find_child nodes fuel n.next_entry parent key in
    if n.parent == some parent && n.key == key then some (some c) else rest

unfoldable pub get_child_node : TupleIndex → (parent key : ℕ) → Option (Option ℕ)
get_child_node t parent key = get_elem? t.buckets (bucket_of key parent t.buckets_mask) >>= λ head.
    find_child t.nodes (suc t.number_of_nodes) head parent key

-- Moving the nodes of a chain to the new buckets.
unfoldable pub rehash_chain :
    (fuel mask : ℕ)
    → Option ℕ
    → List TrieNode
    → List (Option ℕ)
    → Option (List TrieNode × List (Option ℕ))
rehash_chain zero mask head nodes buckets = none
rehash_chain (suc fuel) mask none nodes buckets = some (nodes, buckets)
rehash_chain (suc fuel) mask (some c) nodes buckets = get_elem? nodes c >>= λ trie.
    trie.parent >>= λ parent. get_elem? buckets (bucket_of trie.key parent mask) >>= λ head.
    set_elem? nodes c (record trie { next_entry = head }) >>= λ moved.
    set_elem? buckets (bucket_of trie.key parent mask) (some c) >>= λ filled.
    rehash_chain fuel mask trie.next_entry moved filled

unfoldable pub rehash :
    (fuel mask : ℕ)
    → List (Option ℕ)
    → List TrieNode
    → List (Option ℕ)
    → Option (List TrieNode × List (Option ℕ))
rehash fuel mask [] nodes buckets = some (nodes, buckets)
rehash fuel mask (head ∷ heads) nodes buckets =
    rehash_chain fuel mask head nodes buckets >>= λ r. rehash fuel mask heads r.0 r.1

unfoldable pub resize_buckets : TupleIndex → Option TupleIndex
resize_buckets t =
    let new_len = length t.buckets * 2 in
    rehash (suc t.number_of_nodes) (new_len - 1) t.buckets t.nodes (repeat new_len none) >>= λ r.
    some (record t {
      nodes = r.0;
      buckets = r.1;
      buckets_mask = new_len - 1;
      resize_threshold = threshold_of new_len;
    })

-- Linking a new node into the list of the parent's children and the chain of its bucket.
unfoldable pub insert_child : TupleIndex → (parent key : ℕ) → Option (TupleIndex × ℕ)
insert_child t parent key =
    let bucket = bucket_of key parent t.buckets_mask in
    new_trie_node t >>= λ r.
    let child = r.1 in
    get_elem? r.0.nodes parent >>= λ p.
    elim p.first_child [
      | none ↦ some r.0.nodes
      | some s ↦ update_node r.0.nodes s (λ n. record n { previous_sibling = some child })
    ]
    >>= λ nodes₁.
        update_node nodes₁ parent (λ n. record n { first_child = some child }) >>= λ nodes₂.
        get_elem? t.buckets bucket >>= λ bucket_head.
        update_node nodes₂ child (λ n. record {
          parent = some parent;
          first_child = none;
          previous_sibling = none;
          next_sibling = p.first_child;
          tuple_index = none;
          next_entry = bucket_head;
          key = key;
        })
        >>= λ nodes₃. set_elem? t.buckets bucket (some child) >>= λ buckets. some (
          record r.0 { nodes = nodes₃; buckets = buckets; number_of_nodes = suc t.number_of_nodes },
          child,
        )

unfoldable pub get_child_node_add_if_necessary :
    TupleIndex → (parent key : ℕ) → Option (TupleIndex × ℕ)
get_child_node_add_if_necessary t parent key = get_child_node t parent key >>= λ child. elim child [
  | some c ↦ some (t, c)
  | none ↦ elim (leb t.resize_threshold t.number_of_nodes) [
    | true ↦ resize_buckets t >>= λ grown. insert_child grown parent key
    | false ↦ insert_child t parent key
  ]
]

-- The descents, along the keys of the columns of a tuple.
unfoldable pub descend_add : TupleIndex → ℕ → List ℕ → Option (TupleIndex × ℕ)
descend_add t node [] = some (t, node)
descend_add t node (k ∷ ks) =
    get_child_node_add_if_necessary t node k >>= λ r. descend_add r.0 r.1 ks

unfoldable pub descend : TupleIndex → ℕ → List ℕ → Option (Option ℕ)
descend t node [] = some (some node)
descend t node (k ∷ ks) =
    get_child_node t node k >>= λ child. elim child [ none ↦ some none | some c ↦ descend t c ks ]

module _ {ℓ} {T : Type ℓ} ⦃e : EdgeKey T⦄ where
  -- The keys of the columns of a tuple, in the order of the indexing sequence.
  unfoldable pub keys_of : List ℕ → List T → Option (List ℕ)
  keys_of [] tuple = some []
  keys_of (column ∷ columns) tuple = get_elem? tuple column >>= λ object.
      e.unique_key object >>= λ key. keys_of columns tuple >>= λ rest. some (key ∷ rest)

  unfoldable pub add_tuple : TupleIndex → List T → ℕ → Option (TupleIndex × ℕ)
  add_tuple t tuple potential_tuple_index = keys_of t.indexing_sequence tuple >>= λ ks.
      descend_add t t.root ks >>= λ r. get_elem? r.0.nodes r.1 >>= λ leaf. elim leaf.tuple_index [
        | none ↦
            set_elem? r.0.nodes r.1 (record leaf { tuple_index = some potential_tuple_index })
            >>= λ nodes. some (record r.0 { nodes = nodes }, potential_tuple_index)
        | some i ↦ some (r.0, i)
      ]

  unfoldable pub get_tuple_index : TupleIndex → List T → Option (Option ℕ)
  get_tuple_index t tuple = keys_of t.indexing_sequence tuple >>= λ ks.
      descend t t.root ks >>= λ found. elim found [
        | none ↦ some none
        | some leaf ↦ get_elem? t.nodes leaf >>= λ n. some n.tuple_index
      ]
