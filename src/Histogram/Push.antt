-- ===== src/Histogram/Push.antt =====
-- `brubeck_histo_push` of src/histogram.c: it writes inside its block, and keeps the first 65535
-- values of a sampling period.
use mathlib.Core.List.{append-nil, append_assoc}
use brubeck.Prelude.{
  Bool, true, false, take-append_of_length, ℕ, zero, suc, ◌+◌, ◌≤◌, ◌<◌, ◌≡◌, refl, ap, sym, ◌∙◌,
  List, [], ◌∷◌, ◌++◌, arith, length, take, ◌==◌, if◌then◌else◌, u16, length-take, take_of_le,
}
use brubeck.Value.{Double}
use brubeck.Histogram.{
  Histo, ushrt_max, write, contents, new_size, grow, append, add_count, histo_push,
}

-- The cells in use were written and lie in the block, whose length fits a `uint16_t`.
pub record IsValid {V : Type 0} (h : Histo V) : Type 0 where
  pub written : h.size ≤ length h.values
  pub inside : length h.values ≤ h.alloc
  pub short : h.alloc ≤ ushrt_max

module _ {V : Type 0} where
  length-write : (xs : List V) (i : ℕ) (v : V) → i < length xs → length (write xs i v) ≡ length xs
  length-write [] i v h = absurd (omega arith)
  length-write (x ∷ xs) zero v h = refl
  length-write (x ∷ xs) (suc i) v h = ap suc (length-write xs i v (omega arith))

  length-write_end : (xs : List V) (v : V) → length (write xs (length xs) v) ≡ suc (length xs)
  length-write_end [] v = refl
  length-write_end (x ∷ xs) v = ap suc (length-write_end xs v)

  length-write-le :
      (xs : List V) (i n : ℕ) (v : V)
      → i ≤ length xs
      → length xs ≤ n
      → i < n
      → (i < length (write xs i v)) × (length (write xs i v) ≤ n)
  length-write-le [] i n v h k l = omega arith
  length-write-le (x ∷ xs) zero n v h k l = omega arith
  length-write-le (x ∷ xs) (suc i) zero v h k l = absurd (omega arith)
  length-write-le (x ∷ xs) (suc i) (suc n) v h k l =
      omega (arith, length-write-le xs i n v (omega arith) (omega arith) (omega arith))

  take-write :
      (xs : List V) (i : ℕ) (v : V)
      → i ≤ length xs
      → take (suc i) (write xs i v) ≡ take i xs ++ (v ∷ [])
  take-write [] zero v h = refl
  take-write [] (suc i) v h = absurd (omega arith)
  take-write (x ∷ xs) zero v h = refl
  take-write (x ∷ xs) (suc i) v h = ap (◌∷◌ x) (take-write xs i v (omega arith))

  -- The outcome of `append` where the block has room.
  append_lem :
      (h : Histo V) (v : V)
      → IsValid h
      → h.size < h.alloc
      → IsValid (append h v) × (contents (append h v) ≡ contents h ++ (v ∷ []))
  append_lem h v ok room =
      let fits = length-write-le h.values h.size h.alloc v ok.written ok.inside room in
      let wraps : u16 (h.size + 1) ≡ suc h.size = omega arith in
      (omega (arith, fits), rw wraps (take-write h.values h.size v ok.written))

  grow_lem :
      (h : Histo V)
      → IsValid h
      → h.size ≡ h.alloc
      → h.size < ushrt_max
      → IsValid (grow h) × ((grow h).size < (grow h).alloc) × (contents (grow h) ≡ contents h)
  grow_lem h ok full room = ground (arith, take_of_le (new_size h.alloc) h.values)

module _ {V : Type 0} ⦃d : Double V⦄ where
  -- From a valid histogram: the histogram stays valid, so that the write lies inside the block; the
  -- value is the last one of the contents, unless there are 65535 already, and then it is dropped;
  -- and the count grows by the sample frequency in either case.
  pub histo_push_lem :
      (h : Histo V) (v freq : V)
      → IsValid h
      → IsValid (histo_push h v freq)
        × (contents (histo_push h v freq)
            ≡ (if h.size == ushrt_max then contents h else contents h ++ (v ∷ [])))
        × ((histo_push h v freq).count ≡ d.to_u32 (d.add (d.of_nat h.count) freq))
  unfolding histo_push
  histo_push_lem h v freq ok =
      let counted = add_count h freq in
      ground (arith, append_lem counted v, grow_lem counted, append_lem (grow counted) v)

  -- A sampling period: the values and frequencies that are recorded, in order.
  abbrev pub push_all : Histo V → List (V × V) → Histo V
  push_all h [] = h
  push_all h ((v, freq) ∷ rest) = push_all (histo_push h v freq) rest

  abbrev pub recorded : List (V × V) → List V
  recorded [] = []
  recorded ((v, freq) ∷ rest) = v ∷ recorded rest

  pub length-contents : (h : Histo V) → IsValid h → length (contents h) ≡ h.size
  length-contents h ok = omega (arith, length-take h.size h.values, ok.written)

  contents-push_all_below :
      (limit : ℕ) (h : Histo V) (samples : List (V × V))
      → limit ≡ ushrt_max
      → IsValid h
      → IsValid (push_all h samples)
        × (contents (push_all h samples) ≡ take limit (contents h ++ recorded samples))
  contents-push_all_below limit h [] e ok =
      (ok, rw (append-nil, take_of_le limit (contents h) (omega (arith, length-contents h ok))))
  contents-push_all_below limit h ((v, freq) ∷ rest) e ok =
      let (ok', same, _) = histo_push_lem h v freq ok in
      let (valid, all) = contents-push_all_below limit (histo_push h v freq) rest e ok' in
      (valid, all ∙ step (h.size == ushrt_max) same refl)
    where
      step :
          (full : Bool)
          → contents (histo_push h v freq) ≡ (if full then contents h else contents h ++ (v ∷ []))
          → (h.size == ushrt_max) ≡ full
          → take limit (contents (histo_push h v freq) ++ recorded rest)
            ≡ take limit (contents h ++ v ∷ recorded rest)
      step true same test =
          let long : length (contents h) ≡ limit = ground (arith, length-contents h ok) in
          rw same (
            take-append_of_length (contents h) (recorded rest) limit long
            ∙ sym (take-append_of_length (contents h) (v ∷ recorded rest) limit long))
      step false same test = rw (same, append_assoc)

  -- From a valid histogram, whatever is recorded, the contents are the first 65535 of the values
  -- that were there and of those recorded since, in order, and the histogram is valid.
  pub contents-push_all :
      (h : Histo V) (samples : List (V × V))
      → IsValid h
      → IsValid (push_all h samples)
        × (contents (push_all h samples) ≡ take ushrt_max (contents h ++ recorded samples))
  contents-push_all h samples ok = contents-push_all_below ushrt_max h samples refl ok
