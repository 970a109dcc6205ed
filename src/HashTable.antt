-- ===== src/HashTable.antt =====
-- src/ht.c, the table of the metrics by their keys. The table itself is the one of the concurrency
-- kit: its operations are given, with what its documentation says of them. A metric is the number by
-- which the server knows it; the write mutex makes each operation one step.
pub mod Assoc
use brubeck.Prelude.{
  ℕ, ◌≡◌, ◌≢◌, ◌↔◌, ◌⊎◌, List, [], ◌∷◌, Option, none, some, Bool, true, false, ◌==◌, if◌then◌else◌,
  ◌>>=◌, take, length, u16,
}

-- `ck_ht_get_spmc`, `ck_ht_put_spmc` (`none` is false), `ck_ht_count`, and what `ck_ht_next` gives from
-- a new iterator on.
pub record CkHt (T : Type 0) : Type 0 where
  pub get_spmc : T → List ℕ → Option ℕ
  pub put_spmc : T → List ℕ → ℕ → Option T
  pub count : T → ℕ
  pub entries : T → List (List ℕ × ℕ)

abbrev pub Listed : {A : Type 0} → A → List A → Type 0
Listed a [] = ⊥
Listed a (x ∷ xs) = (a ≡ x) ⊎ Listed a xs

abbrev pub Distinct : {A : Type 0} → List A → Type 0
Distinct [] = Unit
Distinct (x ∷ xs) = (Listed x xs → ⊥) × Distinct xs

-- A key that is not there is put in, one that is there is not, a put changes no other key, and the
-- iteration meets every entry once. Memory does not run out, since `xmalloc` stops the program.
pub record IsTable {T : Type 0} (ck : CkHt T) : Type 0 where
  pub put_absent :
      (t : T) (k : List ℕ) (v : ℕ)
      → ck.get_spmc t k ≡ none
      → (t' : T) × (ck.put_spmc t k v ≡ some t')
  pub put_present :
      (t : T) (k : List ℕ) (u v : ℕ) → ck.get_spmc t k ≡ some u → ck.put_spmc t k v ≡ none
  pub get-put :
      (t t' : T) (k : List ℕ) (v : ℕ) → ck.put_spmc t k v ≡ some t' → ck.get_spmc t' k ≡ some v
  pub get-put_other :
      (t t' : T) (k j : List ℕ) (v : ℕ)
      → ck.put_spmc t k v ≡ some t'
      → j ≢ k
      → ck.get_spmc t' j ≡ ck.get_spmc t j
  pub listed :
      (t : T) (k : List ℕ) (v : ℕ) → (ck.get_spmc t k ≡ some v) ↔ Listed (k, v) (ck.entries t)
  pub once : (t : T) → Distinct (ck.entries t)
  pub counted : (t : T) → ck.count t ≡ length (ck.entries t)

module _ {T : Type 0} (ck : CkHt T) where
  -- The length of the key is a `uint16_t`.
  abbrev pub hashtable_find : T → List ℕ → ℕ → Option ℕ
  hashtable_find ht key key_len = ck.get_spmc ht (take (u16 key_len) key)

  -- `none` is false: the table is as it was.
  abbrev pub hashtable_insert : T → List ℕ → ℕ → ℕ → Option T
  hashtable_insert ht key key_len val = ck.put_spmc ht (take (u16 key_len) key) val

  abbrev pub hashtable_size : T → ℕ
  hashtable_size ht = ck.count ht

  -- The values in the order of the iteration.
  abbrev pub values : List (List ℕ × ℕ) → List ℕ
  values [] = []
  values ((k, v) ∷ es) = v ∷ values es

  -- The callback changes the state that `payload` and the metrics make up.
  unfoldable pub for_each : {S : Type 0} → (ℕ → S → S) → List ℕ → S → S
  for_each callback [] s = s
  for_each callback (v ∷ vs) s = for_each callback vs (callback v s)

  unfoldable pub hashtable_foreach : {S : Type 0} → T → (ℕ → S → S) → S → S
  unfolding for_each
  hashtable_foreach ht callback s = for_each callback (values (ck.entries ht)) s

  -- The array; `none` is the assertion that the iteration met as many as the count says.
  unfoldable pub hashtable_to_a : T → Option (List ℕ)
  hashtable_to_a ht =
      let array = values (ck.entries ht) in if ck.count ht == length array then some array else none
