-- ===== src/DeviceTree/Words.antt =====
-- Reading big-endian words, padding and strings behind an address.
use matte_os.Base.{
  ℕ, zero, suc, ◌+◌, ◌-◌, ◌/◌, ◌%◌, ◌^◌, ◌<◌, ◌≡◌, ◌≢◌, refl, sym, ap, ◌∙◌, List, [], ◌∷◌, ◌++◌,
  take, drop, replicate, length, length-replicate, arith, take_append_le, take_all,
  drop-length-append,
}
use matte_os.Strings.{String, calculate_size}
use matte_os.DeviceTree.{be32, string_at, align_to}

-- A number as a big-endian word.
abbrev pub be_word : ℕ → List ℕ
be_word n = n / 2 ^ 24 % 256 ∷ (n / 2 ^ 16 % 256 ∷ (n / 2 ^ 8 % 256 ∷ (n % 256 ∷ [])))

-- Zeros up to the next multiple of four.
unfoldable pub padding : ℕ → List ℕ
padding n = replicate ((4 - n % 4) % 4) 0

pub length-padding : (n : ℕ) → length (padding n) ≡ (4 - n % 4) % 4
unfolding padding
length-padding n = length-replicate ((4 - n % 4) % 4) 0

pub be32-be_word : (n : ℕ) (rest : List ℕ) → n < 2 ^ 32 → be32 (be_word n ++ rest) ≡ n
unfolding be32
be32-be_word n rest h = omega arith

drop_nil : (n : ℕ) → drop {A = ℕ} n [] ≡ []
drop_nil zero = refl
drop_nil (suc n) = refl

drop-drop : (a b : ℕ) (xs : List ℕ) → drop (a + b) xs ≡ drop b (drop a xs)
drop-drop zero b xs = ap (λ k. drop k xs) (omega arith)
drop-drop (suc a) b [] = drop_nil (suc a + b) ∙ sym (drop_nil b)
drop-drop (suc a) b (x ∷ xs) =
    let e : suc a + b ≡ suc (a + b) = omega arith in ap (λ k. drop k (x ∷ xs)) e ∙ drop-drop a b xs

-- What stands behind a text that was read.
pub drop_past :
    (a : ℕ) (memory text rest : List ℕ) (n : ℕ)
    → drop a memory ≡ text ++ rest
    → length text ≡ n
    → drop (a + n) memory ≡ rest
drop_past a memory text rest n e size =
    drop-drop a n memory
    ∙ (ap (drop n) e
        ∙ (ap (λ k. drop k (text ++ rest)) (omega arith) ∙ drop-length-append text rest 0))

pub align-lem :
    (a n : ℕ) → a % 4 ≡ 0 → a + n + 3 < 2 ^ 32 → align_to 4 (a + n) ≡ a + n + (4 - n % 4) % 4
unfolding align_to
align-lem a n h low = omega arith

unfoldable pub IsName : String → Type 0
IsName [] = Unit
IsName (c ∷ cs) = (c ≢ 0) × IsName cs

size-IsName :
    (name : String) (rest : List ℕ) → IsName name → calculate_size (name ++ 0 ∷ rest) ≡ length name
unfolding calculate_size IsName
size-IsName [] rest h = refl
size-IsName (c ∷ cs) rest (ne, h) = ground (arith, size-IsName cs rest h)

pub string_at-IsName :
    (name : String) (rest : List ℕ) → IsName name → string_at (name ++ 0 ∷ rest) ≡ name
unfolding string_at
string_at-IsName name rest h =
    ap (λ n. take n (name ++ 0 ∷ rest)) (size-IsName name rest h)
    ∙ (take_append_le (length name) name (0 ∷ rest) (omega arith)
        ∙ take_all (length name) name (omega arith))
