-- ===== src/Mmio/Text.antt =====
-- What `strsvcopy` leaves in an array, read back as a C string.
use webcm.Common.{
  ap, ℕ, suc, ◌-◌, ◌<◌, ◌≡◌, ◌≢◌, refl, ◌∙◌, List, [], ◌∷◌, ◌++◌, min, length, take, drop, All,
  length-append, length-take, length-drop, length-set, ok, ne→==_false, arith,
}
use webcm.Mmio.Structs.{HeaderRow, strsvcopy, c_str}

-- The array keeps its size: nothing is written past its end.
pub length-strsvcopy : (dest sv : List ℕ) → length (strsvcopy dest sv) ≡ length dest
unfolding strsvcopy
length-strsvcopy dest sv =
    let n = min (length sv) (length dest) in
    length-set (take n sv ++ drop n dest) (min (length sv) (length dest - 1)) 0
    ∙ omega (arith, length-append (take n sv) (drop n dest), length-take n sv, length-drop n dest)

-- The copy, an element at a time.
strsvcopy-nil : (d : ℕ) (dest : List ℕ) → strsvcopy (d ∷ dest) [] ≡ 0 ∷ dest
unfolding strsvcopy
strsvcopy-nil d dest = rw (none_copied, none_set)
  where
    none_copied : min (length {A = ℕ} []) (length (d ∷ dest)) ≡ 0
    none_copied = omega arith

    none_set : min (length {A = ℕ} []) (length (d ∷ dest) - 1) ≡ 0
    none_set = omega arith

strsvcopy-full : (d c : ℕ) (sv : List ℕ) → strsvcopy (d ∷ []) (c ∷ sv) ≡ 0 ∷ []
unfolding strsvcopy
strsvcopy-full d c sv = rw (one_copied, none_set)
  where
    one_copied : min (length (c ∷ sv)) (length (d ∷ [])) ≡ 1
    one_copied = omega arith

    none_set : min (length (c ∷ sv)) (length (d ∷ []) - 1) ≡ 0
    none_set = omega arith

strsvcopy-cons :
    (d e c : ℕ) (dest sv : List ℕ) → strsvcopy (d ∷ e ∷ dest) (c ∷ sv) ≡ c ∷ strsvcopy (e ∷ dest) sv
unfolding strsvcopy
strsvcopy-cons d e c dest sv = rw (more_copied, later_set)
  where
    more_copied :
        min (length (c ∷ sv)) (length (d ∷ e ∷ dest)) ≡ suc (min (length sv) (length (e ∷ dest)))
    more_copied = omega arith

    later_set :
        min (length (c ∷ sv)) (length (d ∷ e ∷ dest) - 1)
        ≡ suc (min (length sv) (length (e ∷ dest) - 1))
    later_set = omega arith

-- What a text leaves in an array: its characters, as long as there is room for a null byte behind them,
-- that byte, and what stood in the array behind it.
abbrev pub written : List ℕ → List ℕ → List ℕ
written [] sv = []
written (d ∷ []) sv = 0 ∷ []
written (d ∷ e ∷ dest) [] = 0 ∷ e ∷ dest
written (d ∷ e ∷ dest) (c ∷ sv) = c ∷ written (e ∷ dest) sv

pub strsvcopy-written : (dest sv : List ℕ) → strsvcopy dest sv ≡ written dest sv
strsvcopy-written [] sv = empty (strsvcopy [] sv) (length-strsvcopy [] sv)
  where
    empty : (xs : List ℕ) → length xs ≡ 0 → xs ≡ []
    empty [] h = refl
    empty (x ∷ xs) h = absurd (omega arith)
strsvcopy-written (d ∷ []) [] = strsvcopy-nil d []
strsvcopy-written (d ∷ []) (c ∷ sv) = strsvcopy-full d c sv
strsvcopy-written (d ∷ e ∷ dest) [] = strsvcopy-nil d (e ∷ dest)
strsvcopy-written (d ∷ e ∷ dest) (c ∷ sv) =
    strsvcopy-cons d e c dest sv ∙ ap (λ xs. c ∷ xs) (strsvcopy-written (e ∷ dest) sv)

suc-sub_one : (n : ℕ) → suc n - 1 ≡ n
suc-sub_one n = omega arith

abbrev pub IsText : List ℕ → Type 0
IsText sv = All (λ c. c ≢ 0) sv

-- A text with no null byte, copied into an array that is not empty, comes back as a C string, cut to
-- one less than the size of the array.
pub c_str-strsvcopy :
    (dest sv : List ℕ)
    → 0 < length dest
    → IsText sv
    → c_str (strsvcopy dest sv) ≡ ok (take (length dest - 1) sv)
unfolding c_str
c_str-strsvcopy [] sv h v = absurd (omega arith)
c_str-strsvcopy (d ∷ []) [] h v = rw (strsvcopy-nil d []) refl
c_str-strsvcopy (d ∷ []) (c ∷ sv) h v = rw (strsvcopy-full d c sv) refl
c_str-strsvcopy (d ∷ e ∷ dest) [] h v = rw (strsvcopy-nil d (e ∷ dest), suc-sub_one)
c_str-strsvcopy (d ∷ e ∷ dest) (c ∷ sv) h v = rw (
  strsvcopy-cons d e c dest sv,
  ne→==_false c 0 v.0,
  c_str-strsvcopy (e ∷ dest) sv (omega arith) v.1,
  suc-sub_one,
  suc-sub_one,
)

-- The same, for an array whose size is known.
pub c_str-strsvcopy_size :
    (n : ℕ) (dest sv : List ℕ)
    → length dest ≡ suc n
    → IsText sv
    → c_str (strsvcopy dest sv) ≡ ok (take n sv)
c_str-strsvcopy_size n dest sv h v =
    c_str-strsvcopy dest sv (omega arith) v ∙ ap (λ k. ok (take k sv)) (omega arith)

-- The rows hold these names and values as C strings, from the first row on.
abbrev pub Reads : List HeaderRow → List (List ℕ × List ℕ) → Type 0
Reads rows [] = Unit
Reads [] (t ∷ ts) = ⊥
Reads (r ∷ rows) ((name, value) ∷ ts) =
    ((c_str r.name ≡ ok name) × (c_str r.value ≡ ok value)) × Reads rows ts
