-- ===== src/HashTable/Assoc.antt =====
-- A list of entries that does what src/ht.c asks of its table, for tests and witnesses.
use brubeck.Prelude.{
  ℕ, ◌≡◌, ◌≢◌, ◌↔◌, inl, inr, refl, ap, sym, ◌∙◌, List, [], ◌∷◌, Option, none, some, if◌then◌else◌,
  length, Bool-cases, text_eq, text_eq_iff, text_eq_self, text_ne,
}
use brubeck.HashTable.{CkHt, Listed, Distinct, IsTable}

abbrev pub Entries : Type 0
Entries = List (List ℕ × ℕ)

abbrev pub lookup : Entries → List ℕ → Option ℕ
lookup [] k = none
lookup ((j, v) ∷ es) k = if text_eq j k then some v else lookup es k

abbrev pub remove : List ℕ → Entries → Entries
remove k [] = []
remove k ((j, v) ∷ es) = if text_eq j k then remove k es else (j, v) ∷ remove k es

-- The entries that a look-up can meet.
abbrev pub live : Entries → Entries
live [] = []
live ((j, v) ∷ es) = (j, v) ∷ remove j (live es)

abbrev pub put : Entries → List ℕ → ℕ → Option Entries
put es k v = elim (lookup es k) [ none ↦ some ((k, v) ∷ es) | some _ ↦ none ]

abbrev pub assoc : CkHt Entries
assoc = record { get_spmc = lookup; put_spmc = put; count = λ es. length (live es); entries = live }

Listed-remove :
    (j k : List ℕ) (v : ℕ) (es : Entries)
    → Listed (k, v) (remove j es) ↔ ((j ≢ k) × Listed (k, v) es)
Listed-remove j k v [] = (λ h. absurd h, λ (_, h). h)
Listed-remove j k v ((i, u) ∷ es) =
    let (to, from) = Listed-remove j k v es in
    elim (Bool-cases (text_eq i j)) [
      | inl e ↦ rw e (
        λ h. let (ne, l) = to h in (ne, inr l),
        λ (ne, h). elim h [
          | inl same ↦ absurd (ne (sym ((text_eq_iff i j).0 e) ∙ sym (ap (λ x. x.0) same)))
          | inr l ↦ from (ne, l)
        ],
      )
      | inr e ↦ rw e (
        λ h. elim h [
          | inl same ↦ (λ eq. cc (text_eq_self j, eq, e, same), inl same)
          | inr l ↦ let (ne, l') = to l in (ne, inr l')
        ],
        λ (ne, h). elim h [ inl same ↦ inl same | inr l ↦ inr (from (ne, l)) ],
      )
    ]

listed : (es : Entries) (k : List ℕ) (v : ℕ) → (lookup es k ≡ some v) ↔ Listed (k, v) (live es)
listed [] k v = (λ e. cc, λ h. absurd h)
listed ((j, u) ∷ es) k v =
    let (to, from) = listed es k v in
    let (out, into) = Listed-remove j k v (live es) in
    elim (Bool-cases (text_eq j k)) [
      | inl e ↦
          let same : j ≡ k = (text_eq_iff j k).0 e in
          rw e (λ h. inl (cc), λ h. elim h [ inl eq ↦ cc | inr l ↦ absurd ((out l).0 same) ])
      | inr e ↦ rw e (
        λ h. inr (into (λ eq. cc (text_eq_self k, eq, e), to h)),
        λ h. elim h [ inl eq ↦ absurd (cc (text_eq_self k, eq, e)) | inr l ↦ from ((out l).1) ],
      )
    ]

Distinct-remove : (j : List ℕ) (es : Entries) → Distinct es → Distinct (remove j es)
Distinct-remove j [] h = tt
Distinct-remove j ((i, u) ∷ es) (fresh, h) = elim (Bool-cases (text_eq i j)) [
  | inl e ↦ rw e (Distinct-remove j es h)
  | inr e ↦ rw e (λ l. fresh ((Listed-remove j i u es).0 l).1, Distinct-remove j es h)
]

Distinct-live : (es : Entries) → Distinct (live es)
Distinct-live [] = tt
Distinct-live ((j, v) ∷ es) = (
  λ l. ((Listed-remove j j v (live es)).0 l).0 refl,
  Distinct-remove j (live es) (Distinct-live es),
)

put_absent :
    (es : Entries) (k : List ℕ) (v : ℕ) → lookup es k ≡ none → put es k v ≡ some ((k, v) ∷ es)
put_absent es k v e = rw (e, put)

put_present : (es : Entries) (k : List ℕ) (u v : ℕ) → lookup es k ≡ some u → put es k v ≡ none
put_present es k u v e = rw (e, put)

put-some : (es es' : Entries) (k : List ℕ) (v : ℕ) → put es k v ≡ some es' → es' ≡ (k, v) ∷ es
put-some es es' k v = split (lookup es k) refl
  where
    split : (r : Option ℕ) → lookup es k ≡ r → put es k v ≡ some es' → es' ≡ (k, v) ∷ es
    split none e h = cc (put_absent es k v e, h)
    split (some u) e h = cc (rw (e, put) at h)

-- The list does what the table promises.
pub assoc-IsTable : IsTable assoc
assoc-IsTable = record {
  put_absent = λ t k v e. ((k, v) ∷ t, put_absent t k v e);
  put_present = put_present;
  get-put = λ t t' k v e. rw (put-some t t' k v e, text_eq_self k);
  get-put_other = λ t t' k j v e ne. rw (put-some t t' k v e, text_ne k j (λ x. ne (sym x)));
  listed = listed;
  once = Distinct-live;
  counted = λ t. refl;
}
