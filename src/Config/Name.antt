-- ===== src/Config/Name.antt =====
-- The name of a configuration in src/server.c is the name of its file without the extension.
use brubeck.Prelude.{
  ℕ, ◌≡◌, ◌≢◌, refl, ap, List, [], ◌∷◌, ◌++◌, none, some, arith, ◌==◌, All, false, true,
}
use brubeck.Config.{after_last, before_last, get_config_name}

-- No such byte in a text.
abbrev pub Free : ℕ → List ℕ → Type 0
Free c = All (λ x. x ≢ c)

after_last-Free : (c : ℕ) (xs : List ℕ) → Free c xs → after_last c xs ≡ none
unfolding after_last
after_last-Free c [] h = refl
after_last-Free c (x ∷ xs) (h, hs) =
    let other : (x == c) ≡ false = ground arith in rw (after_last-Free c xs hs, other) refl

after_last-append : (c : ℕ) (xs ys : List ℕ) → Free c ys → after_last c (xs ++ (c ∷ ys)) ≡ some ys
unfolding after_last
after_last-append c [] ys h =
    let same : (c == c) ≡ true = ground arith in rw (after_last-Free c ys h, same) refl
after_last-append c (x ∷ xs) ys h = rw (after_last-append c xs ys h) refl

before_last-append : (c : ℕ) (xs ys : List ℕ) → Free c ys → before_last c (xs ++ (c ∷ ys)) ≡ xs
unfolding before_last
before_last-append c [] ys h =
    let same : (c == c) ≡ true = ground arith in rw (after_last-Free c ys h, same, before_last) refl
before_last-append c (x ∷ xs) ys h =
    rw (after_last-append c xs ys h, before_last) (ap (◌∷◌ x) (before_last-append c xs ys h))

-- A file with an extension, in a directory, gives its name without the two.
pub get_config_name-file :
    (dir name ext : List ℕ)
    → Free b'/' (name ++ (b'.' ∷ ext))
    → Free b'.' ext
    → get_config_name (dir ++ (b'/' ∷ name ++ (b'.' ∷ ext))) ≡ name
unfolding get_config_name
get_config_name-file dir name ext plain h =
    rw (after_last-append b'/' dir (name ++ (b'.' ∷ ext)) plain)
      (before_last-append b'.' name ext h)
