-- ===== src/Title.antt =====
-- src/setproctitle.c, with `update_proctitle` of src/server.c. The memory of the arguments and of the
-- environment that was moved away is a list of bytes; how `snprintf` writes a number is given. A fault
-- (a write outside of an array) is `none`.
pub mod Bounds
pub mod Text
mod Tests
use brubeck.Prelude.{
  ℕ, zero, suc, ◌+◌, ◌-◌, List, [], ◌∷◌, ◌++◌, Option, none, some, Bool, true, false, ltb, leb,
  ◌==◌, if◌then◌else◌, ◌>>=◌, codes, length, take, drop, replicate, get_elem?,
}
use brubeck.Value.{Double}

-- `SPT_BUFSIZE`, which is also the size of the buffer of `update_proctitle`
abbrev pub buffer_size : ℕ
buffer_size = 2048

-- A text with its zero byte, over the first bytes of an array.
unfoldable pub strcpy : List ℕ → List ℕ → Option (List ℕ)
strcpy dest src =
    if ltb (length src) (length dest)
    then some (src ++ (0 ∷ drop (suc (length src)) dest))
    else none

abbrev pub titled : List ℕ → List ℕ → List ℕ
titled prog txt = prog ++ (codes " -- " ++ txt)

-- `buf[i]` lies in front of the buffer where the area is shorter than two bytes.
unfoldable pub clipped : ℕ → List ℕ → Option (List ℕ)
clipped argv_lth buf =
    if ltb (argv_lth - 2) (length buf)
    then (if ltb argv_lth 2 then none else some (take (argv_lth - 2) buf))
    else some buf

-- `argv0` is null until `initproctitle` has set it.
unfoldable pub setproctitle : Option (List ℕ) → List ℕ → List ℕ → Option (Option (List ℕ))
unfolding clipped strcpy
setproctitle none prog txt = some none
setproctitle (some area) prog txt =
    if ltb buffer_size (length prog + length txt + 5) then some (some area) else (do
      buf ← clipped (length area) (titled prog txt)
      area' ← strcpy (replicate (length area) 0) buf
      some (some area'))

-- `getproctitle` clears the area and gives it.
unfoldable pub getproctitle : Option (List ℕ) → Option (List ℕ)
getproctitle none = none
getproctitle (some area) = some (replicate (length area) 0)

-- The buffer of `PUTS` up to the zero byte, and the position behind what was to be written.
pub record Line : Type 0 where
  pub buf : List ℕ
  pub pos : ℕ

-- `sizeof(buf) - pos` wraps around where the position lies behind the buffer.
unfoldable pub puts : List ℕ → Line → Option Line
puts text l =
    if ltb buffer_size l.pos
    then none
    else some (record { buf = take (buffer_size - 1) (l.buf ++ text); pos = l.pos + length text })

unfoldable pub puts_all : List (List ℕ) → Line → Option Line
unfolding puts
puts_all [] l = some l
puts_all (text ∷ texts) l = do l' ← puts text l; puts_all texts l'

abbrev pub size_suffix : List (List ℕ)
size_suffix =
    codes "b" ∷ codes "kb" ∷ codes "mb" ∷ codes "gb" ∷ codes "tb" ∷ codes "pb" ∷ codes "eb" ∷ []

-- What is shown of a carbon backend and of a sampler.
pub record Shown : Type 0 where
  pub sent : ℕ
  pub connected : Bool

pub record Listened : Type 0 where
  pub port : ℕ
  pub current_flow : ℕ

-- The bytes of the two arrows are those of UTF-8.
abbrev pub uparrow : List ℕ
uparrow = 226 ∷ 134 ∷ 145 ∷ []

abbrev pub downarrow : List ℕ
downarrow = 226 ∷ 134 ∷ 147 ∷ []

abbrev pub comma : ℕ → List ℕ
comma i = if ltb 0 i then codes "," else []

module _ {V : Type 0} ⦃d : Double V⦄ (show : ℕ → List ℕ) (show_tenths : V → List ℕ) where
  -- The loop over `j`, for so many turns at most.
  unfoldable pub scaled : ℕ → ℕ → V → ℕ × V
  scaled zero j sent = (j, sent)
  scaled (suc turns) j sent =
      let rest = scaled turns (suc j) (d.div sent (d.of_nat 1024)) in
      if d.le (d.of_nat 1024) sent then rest else (j, sent)

  abbrev pub backend_line : ℕ → Bool → V → List ℕ → List ℕ
  backend_line i connected sent suffix =
      comma i
      ++ (codes " #"
          ++ (show (i + 1)
              ++ (codes " "
                  ++ (show_tenths sent ++ (suffix ++ (if connected then [] else codes " (dc)"))))))

  unfoldable pub backend_text : ℕ → Shown → Option (List ℕ)
  unfolding scaled
  backend_text i b =
      let (j, sent) = scaled 7 0 (d.of_nat b.sent) in
      do suffix ← get_elem? size_suffix j; some (backend_line i b.connected sent suffix)

  unfoldable pub sampler_text : ℕ → Listened → List ℕ
  sampler_text i s =
      comma i ++ (codes " :" ++ (show s.port ++ (codes " " ++ (show s.current_flow ++ codes "/s"))))

  -- The entry of a backend that is not a carbon one is `none`.
  unfoldable pub backend_texts : ℕ → List (Option Shown) → Option (List (List ℕ))
  unfolding backend_text
  backend_texts i [] = some []
  backend_texts i (none ∷ bs) = backend_texts (suc i) bs
  backend_texts i (some b ∷ bs) = do
    text ← backend_text i b
    texts ← backend_texts (suc i) bs
    some (text ∷ texts)

  unfoldable pub sampler_texts : ℕ → List Listened → List (List ℕ)
  unfolding sampler_text
  sampler_texts i [] = []
  sampler_texts i (s ∷ ss) = sampler_text i s ∷ sampler_texts (suc i) ss

  unfoldable pub update_proctitle : List ℕ → List (Option Shown) → List Listened → Option Line
  unfolding backend_texts sampler_texts puts_all
  update_proctitle config_name backends samplers = do
    sent ← backend_texts 0 backends
    puts_all
        ((codes "[" ++ (config_name ++ (codes "] [ " ++ uparrow)))
          ∷ (sent
              ++ ((codes " ] [ " ++ downarrow) ∷ (sampler_texts 0 samplers ++ (codes " ]" ∷ [])))))
        (record { buf = []; pos = 0 })
