-- ===== src/Title/Bounds.antt =====
-- The buffer of `update_proctitle` in src/server.c is large enough, and so is that of
-- src/setproctitle.c.
use mathlib.Core.List.{append-nil, append_assoc}
use brubeck.Prelude.{
  ℕ, zero, suc, ◌+◌, ◌-◌, ◌*◌, ◌^◌, ◌≤◌, ◌<◌, ◌≡◌, refl, ap, ◌∙◌, List, [], ◌∷◌, ◌++◌, Option, none,
  some, Bool, true, false, inl, inr, arith, ltb, if◌then◌else◌, codes, length, take,
  get_elem?_total, All-get_elem?, All, Bool-cases, length-append, take_of_le,
}
use brubeck.Value.{Double}
use brubeck.Title.{
  buffer_size, puts, puts_all, size_suffix, Shown, Listened, scaled, comma, backend_line,
  backend_text, sampler_text, backend_texts, sampler_texts, uparrow, downarrow, update_proctitle,
}

abbrev pub joined : List (List ℕ) → List ℕ
joined [] = []
joined (text ∷ texts) = text ++ joined texts

length-joined :
    (xs ys : List (List ℕ)) → length (joined (xs ++ ys)) ≡ length (joined xs) + length (joined ys)
length-joined [] ys = omega arith
length-joined (x ∷ xs) ys =
    omega
      (arith, length-append x (joined (xs ++ ys)), length-append x (joined xs), length-joined xs ys)

-- As long as all fits, `PUTS` appends.
puts_all-joined :
    (texts : List (List ℕ)) (buf : List ℕ)
    → length buf + length (joined texts) < buffer_size
    → puts_all texts (record { buf = buf; pos = length buf })
      ≡ some (record { buf = buf ++ joined texts; pos = length (buf ++ joined texts) })
unfolding puts_all puts
puts_all-joined [] buf h = rw (append-nil buf) refl
puts_all-joined (text ∷ texts) buf h =
    let split = length-append text (joined texts) in
    let both = length-append buf text in
    let inside : ltb buffer_size (length buf) ≡ false = ground (arith, split) in
    let whole : take (buffer_size - 1) (buf ++ text) ≡ buf ++ text =
      take_of_le (buffer_size - 1) (buf ++ text) (omega (arith, split, both)) in
    rw (inside, whole, ← both)
      (puts_all-joined texts (buf ++ text) (omega (arith, split, both))
        ∙ ap (λ (b : List ℕ). some (record { buf = b; pos = length b }))
            (append_assoc buf text (joined texts)))

length-comma : (i : ℕ) → length (comma i) ≤ 1
length-comma i = elim (Bool-cases (ltb 0 i)) [
  | inl e ↦ rw e (omega arith)
  | inr e ↦ rw e (omega arith)
]

length-dc : (connected : Bool) → length (if connected then [] else codes " (dc)") ≤ 5
length-dc true = omega arith
length-dc false = omega arith

short_suffix : All (λ suffix. length suffix ≤ 2) size_suffix
short_suffix = omega arith

module _ {V : Type 0} ⦃d : Double V⦄ (show : ℕ → List ℕ) (show_tenths : V → List ℕ) where
  -- So many divisions by 1024 leave a number below 1024.
  abbrev pub Falls : ℕ → V → Type 0
  Falls zero v = d.le (d.of_nat 1024) v ≡ false
  Falls (suc n) v = Falls n (d.div v (d.of_nat 1024))

  scaled-le : (n j : ℕ) (v : V) → Falls n v → (scaled show show_tenths (suc n) j v).0 ≤ j + n
  unfolding scaled
  scaled-le zero j v f = rw f (omega arith)
  scaled-le (suc n) j v f =
      by_test (d.le (d.of_nat 1024) v) (scaled show show_tenths (suc n) (suc j) w)
        (omega (arith, scaled-le n (suc j) w f))
    where
      w : V
      w = d.div v (d.of_nat 1024)

      by_test : (b : Bool) (r : ℕ × V) → r.0 ≤ j + suc n → (if b then r else (j, v)).0 ≤ j + suc n
      by_test true r h = h
      by_test false r h = omega arith

  -- A number of 32 bits takes at most eleven bytes; a count of 64 bits is below 1024 after six
  -- divisions, and what is left takes at most six bytes with one decimal.
  pub record Prints : Type 0 where
    pub numbers : (n : ℕ) → length (show n) ≤ 11
    pub falls : (n : ℕ) → n < 2 ^ 64 → Falls 6 (d.of_nat n)
    pub tenths :
        (n : ℕ)
        → n < 2 ^ 64
        → length (show_tenths ((scaled show show_tenths 7 0 (d.of_nat n)).1)) ≤ 6

  abbrev pub IsCount : Option Shown → Type 0
  IsCount none = Unit
  IsCount (some b) = b.sent < 2 ^ 64

  module _ (prints : Prints) where
    length-backend_line :
        (i n : ℕ) (connected : Bool) (suffix : List ℕ)
        → n < 2 ^ 64
        → length suffix ≤ 2
        → let sent = (scaled show show_tenths 7 0 (d.of_nat n)).1 in
          length (backend_line show show_tenths i connected sent suffix) ≤ 28
    length-backend_line i n connected suffix h few =
        let tenths = show_tenths ((scaled show show_tenths 7 0 (d.of_nat n)).1) in
        let dc : List ℕ = if connected then [] else codes " (dc)" in
        omega (
          arith,
          length-comma i,
          length-dc connected,
          prints.numbers (i + 1),
          prints.tenths n h,
          length-append (comma i)
              (codes " #" ++ (show (i + 1) ++ (codes " " ++ (tenths ++ (suffix ++ dc))))),
          length-append (show (i + 1)) (codes " " ++ (tenths ++ (suffix ++ dc))),
          length-append tenths (suffix ++ dc),
          length-append suffix dc,
        )

    backend_text_lem :
        (i : ℕ) (b : Shown)
        → b.sent < 2 ^ 64
        → (text : List ℕ) × (backend_text show show_tenths i b ≡ some text) × (length text ≤ 28)
    unfolding backend_text
    backend_text_lem i b h =
        let (suffix, at) = get_elem?_total size_suffix reached.0 inside in
        let few = All-get_elem? (λ s. length s ≤ 2) size_suffix reached.0 suffix short_suffix at in
        (
          backend_line show show_tenths i b.connected reached.1 suffix,
          rw at refl,
          length-backend_line i b.sent b.connected suffix h few,
        )
      where
        reached : ℕ × V
        reached = scaled show show_tenths 7 0 (d.of_nat b.sent)

        inside : reached.0 < 7
        inside = omega (arith, scaled-le 6 0 (d.of_nat b.sent) (prints.falls b.sent h))

    backend_texts_lem :
        (i : ℕ) (bs : List (Option Shown))
        → All IsCount bs
        → (texts : List (List ℕ)) × (backend_texts show show_tenths i bs ≡ some texts)
          × (length (joined texts) ≤ 28 * length bs)
    unfolding backend_texts
    backend_texts_lem i [] h = ([], refl, omega arith)
    backend_texts_lem i (none ∷ bs) (_, h) =
        let (texts, e, few) = backend_texts_lem (suc i) bs h in (texts, e, omega arith)
    backend_texts_lem i (some b ∷ bs) (k, h) =
        let (text, e, short) = backend_text_lem i b k in
        let (texts, e', few) = backend_texts_lem (suc i) bs h in
        (text ∷ texts, rw (e, e') refl, omega (arith, length-append text (joined texts)))

    sampler_texts_lem :
        (i : ℕ) (ss : List Listened)
        → length (joined (sampler_texts show show_tenths i ss)) ≤ 28 * length ss
    unfolding sampler_texts sampler_text
    sampler_texts_lem i [] = omega arith
    sampler_texts_lem i (s ∷ ss) =
        let behind = joined (sampler_texts show show_tenths (suc i) ss) in
        let flow = show s.current_flow ++ codes "/s" in
        omega (
          arith,
          length-comma i,
          prints.numbers s.port,
          prints.numbers s.current_flow,
          length-append (sampler_text show show_tenths i s) behind,
          length-append (comma i) (codes " :" ++ (show s.port ++ (codes " " ++ flow))),
          length-append (show s.port) (codes " " ++ flow),
          length-append (show s.current_flow) (codes "/s"),
          sampler_texts_lem (suc i) ss,
        )

    -- What is written, given the texts of the backends.
    abbrev pub pieces : List ℕ → List (List ℕ) → List Listened → List (List ℕ)
    pieces config_name sent samplers =
        (codes "[" ++ (config_name ++ (codes "] [ " ++ uparrow)))
        ∷ (sent
            ++ ((codes " ] [ " ++ downarrow)
                ∷ (sampler_texts show show_tenths 0 samplers ++ (codes " ]" ∷ []))))

    length-pieces :
        (config_name : List ℕ) (sent : List (List ℕ)) (samplers : List Listened)
        → length (joined (pieces config_name sent samplers))
          ≡ length config_name
            + length (joined sent)
            + length (joined (sampler_texts show show_tenths 0 samplers))
            + 18
    length-pieces config_name sent samplers =
        let texts = sampler_texts show show_tenths 0 samplers in
        let behind = (codes " ] [ " ++ downarrow) ∷ (texts ++ (codes " ]" ∷ [])) in
        omega (
          arith,
          length-append config_name (codes "] [ " ++ uparrow),
          length-append (config_name ++ (codes "] [ " ++ uparrow)) (joined (sent ++ behind)),
          length-joined sent behind,
          length-joined texts (codes " ]" ∷ []),
        )

    -- For a name of at most 255 bytes and at most eight backends and eight samplers: the index of no suffix
    -- lies outside of the table, nothing is cut off, and the buffer has all the pieces in order; they
    -- come to 721 bytes at most, so that setproctitle does not turn them away. For counts of 64 bits,
    -- and printed numbers of at most eleven bytes, or six where they are below 1024.
    pub update_proctitle-joined :
        (config_name : List ℕ) (backends : List (Option Shown)) (samplers : List Listened)
        → length config_name ≤ 255
        → length backends ≤ 8
        → length samplers ≤ 8
        → All IsCount backends
        → (sent : List (List ℕ)) × (backend_texts show show_tenths 0 backends ≡ some sent)
          × (let buf = joined (pieces config_name sent samplers) in
              (update_proctitle show show_tenths config_name backends samplers
                ≡ some (record { buf = buf; pos = length buf }))
              × (length buf ≤ 721))
    unfolding update_proctitle
    update_proctitle-joined config_name backends samplers short few few' counts =
        let (sent, e, sizes) = backend_texts_lem 0 backends counts in
        let all = length-pieces config_name sent samplers in
        let flows = sampler_texts_lem 0 samplers in
        let fits : length (joined (pieces config_name sent samplers)) ≤ 721 =
          omega (arith, all, sizes, flows) in
        (
          sent,
          e,
          (rw e (puts_all-joined (pieces config_name sent samplers) [] (omega arith)), fits),
        )
