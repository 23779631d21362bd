-- ===== src/Numerals/RoundTrip.antt =====
-- `atoi` of what `itoa` writes.
use mathlib.Core.List.{append_assoc}
use mathlib.Core.Path.{subst}
use native.Mathlib.Nat.{
  pow-suc, mul-le-mul_left, div-lt_iff_lt-mul, div-add-mod', mod-lt, div-le_self,
}
use matte_os.Base.{
  ◌∙◌, ap, sym, ℕ, zero, suc, ◌+◌, ◌-◌, ◌*◌, ◌/◌, ◌%◌, ◌^◌, ◌≤◌, ◌<◌, ◌≡◌, ◌≢◌, inl, inr, refl,
  true, false, some, List, [], ◌∷◌, ◌++◌, arith, length, ◌==◌, ℕ_discrete, length-append,
}
use matte_os.Pages.{u64_mod}
use matte_os.Numerals.{digit_char, digit_loop, swap_loop, itoa, digit_value, atoi_loop, atoi}
use matte_os.Numerals.Reversal.{
  reversed, reversed_snoc, last_of, length-reversed, swap_loop-reversed,
}

-- The characters spell a number, the lowest digit first.
unfoldable Spells : ℕ → List ℕ → ℕ → Type 0
Spells base [] n = n ≡ 0
Spells base (c ∷ cs) n =
    (digit_value c ≡ some (n % base)) × (c ≢ 0) × (c ≢ 45) × Spells base cs (n / base)

digit_value-digit_char : (d : ℕ) → d < 16 → digit_value (digit_char d) ≡ some d
unfolding digit_value digit_char
digit_value-digit_char d lt = ground arith

digit_char_range : (d : ℕ) → d < 16 → 47 < digit_char d
unfolding digit_char
digit_char_range d lt = ground arith

smaller : (n base fuel : ℕ) → 2 ≤ base → n < 2 ^ suc fuel → n / base < 2 ^ fuel
smaller n base fuel two lt =
    let (to, from) = div-lt_iff_lt-mul {k = base} {x = n} {y = 2 ^ fuel} (omega arith) in
    from (omega (arith, pow-suc 2 fuel, mul-le-mul_left (2 ^ fuel) two))

fuel_left : (fuel q : ℕ) → q < 2 ^ fuel → q ≢ 0 → 0 < fuel
fuel_left zero q lt ne = absurd (ne (omega arith))
fuel_left (suc fuel) q lt ne = omega arith

loop_end :
    (fuel n base : ℕ)
    → n / base ≡ 0
    → digit_loop (suc fuel) n base ≡ some (digit_char (n % base) ∷ [])
unfolding digit_loop
loop_end fuel n base e = let t : (n / base == 0) ≡ true = ground arith in rw (digit_loop, t) refl

loop_more :
    (fuel n base : ℕ) (rest : List ℕ)
    → n / base ≢ 0
    → digit_loop fuel (n / base) base ≡ some rest
    → digit_loop (suc fuel) n base ≡ some (digit_char (n % base) ∷ rest)
unfolding digit_loop
loop_more fuel n base rest ne run =
    let t : (n / base == 0) ≡ false = ground arith in rw (digit_loop, t, run) refl

module _ (base : ℕ) (two : 2 ≤ base) (sixteen : base ≤ 16) where
  digits_spell :
      (fuel n : ℕ)
      → n < 2 ^ fuel
      → 0 < fuel
      → (ds : List ℕ) × (digit_loop fuel n base ≡ some ds)
        × Spells base ds n
        × (0 < length ds)
        × (length ds ≤ fuel)
  unfolding Spells
  digits_spell zero n lt pos = absurd (omega arith)
  digits_spell (suc fuel) n lt pos =
      let d_lt : n % base < 16 = omega (arith, mod-lt n {m = base} (omega arith)) in
      let range = digit_char_range (n % base) d_lt in
      let value = digit_value-digit_char (n % base) d_lt in
      elim (ℕ_discrete (n / base) 0) [
        | yes e ↦ (
          digit_char (n % base) ∷ [],
          loop_end fuel n base e,
          (value, (λ c. omega arith), (λ c. omega arith), e),
          omega arith,
          omega arith,
        )
        | no ne ↦
            let below = smaller n base fuel two lt in
            let (ds, run, spelt, some_digit, few) =
              digits_spell fuel (n / base) below (fuel_left fuel (n / base) below ne) in
            (
              digit_char (n % base) ∷ ds,
              loop_more fuel n base ds ne run,
              (value, (λ c. omega arith), (λ c. omega arith), spelt),
              omega arith,
              omega arith,
            )
      ]

  read_digit :
      (r c d : ℕ) (cs : List ℕ)
      → c ≢ 0
      → digit_value c ≡ some d
      → atoi_loop base r (c ∷ cs) ≡ atoi_loop base ((r * base + d) % u64_mod) cs
  unfolding atoi_loop
  read_digit r c d cs ne e = let t : (c == 0) ≡ false = ground arith in rw (atoi_loop, t, e) refl

  read_spelt :
      (cs : List ℕ) (n : ℕ) (post : List ℕ)
      → Spells base cs n
      → n < u64_mod
      → atoi_loop base 0 (reversed cs ++ post) ≡ atoi_loop base n post
  unfolding Spells reversed
  read_spelt [] n post e lt = ap (λ r. atoi_loop base r post) (sym e)
  read_spelt (c ∷ cs) n post (value, ne, minus, rest) lt =
      let whole = div-add-mod' n base in
      ap (atoi_loop base 0) (append_assoc (reversed cs) (c ∷ []) post)
      ∙ (read_spelt cs (n / base) (c ∷ post) rest (omega (arith, div-le_self n base))
          ∙ (read_digit (n / base) c (n % base) post ne value
              ∙ ap (λ r. atoi_loop base r post) (omega (arith, whole))))

  last_digit : (ys : List ℕ) (y n : ℕ) → Spells base (ys ++ y ∷ []) n → y ≢ 45
  unfolding Spells
  last_digit [] y n (value, ne, minus, rest) = minus
  last_digit (c ∷ ys) y n (value, ne, minus, rest) = last_digit ys y (n / base) rest

  atoi_plain : (y : ℕ) (t : List ℕ) → y ≢ 45 → atoi (y ∷ t) base ≡ atoi_loop base 0 (y ∷ t)
  unfolding atoi
  atoi_plain y t ne = let e : (y == 45) ≡ false = ground arith in rw (atoi, e) refl

  read_end : (n : ℕ) → atoi_loop base n (0 ∷ []) ≡ n
  unfolding atoi_loop
  read_end n = refl

  atoi_spelt :
      (cs : List ℕ) (n : ℕ)
      → 0 < length cs
      → Spells base cs n
      → n < u64_mod
      → atoi (reversed cs ++ 0 ∷ []) base ≡ n
  atoi_spelt cs n pos spelt lt = elim (last_of cs) [
    | inl e ↦ absurd (omega (arith, ap length e))
    | inr (ys, y, e) ↦
        let back : reversed cs ++ 0 ∷ [] ≡ y ∷ (reversed ys ++ 0 ∷ []) =
          ap (λ l. l ++ 0 ∷ []) (ap reversed e ∙ reversed_snoc ys y) in
        ap (λ l. atoi l base) back
        ∙ (atoi_plain y (reversed ys ++ 0 ∷ [])
              (last_digit ys y n (subst (λ l. Spells base l n) e spelt))
            ∙ (ap (atoi_loop base 0) (sym back) ∙ (read_spelt cs n (0 ∷ []) spelt lt ∙ read_end n)))
  ]

itoa_step :
    (fuel n base : ℕ) (written buf : List ℕ)
    → digit_loop fuel n base ≡ some written
    → swap_loop fuel 0 (length written - 1) (written ++ 0 ∷ []) ≡ some buf
    → itoa fuel n base ≡ some buf
unfolding itoa
itoa_step fuel n base written buf run turn = rw (itoa, run, turn) refl

-- In every base from 2 to 16 `itoa` ends and writes at most 65 characters, the terminator included, and `atoi`
-- reads the number back: 64 rounds of its loops are enough for a 64-bit number.
pub atoi-itoa :
    (n base : ℕ)
    → 2 ≤ base
    → base ≤ 16
    → n < u64_mod
    → (buf : List ℕ) × (itoa 64 n base ≡ some buf) × (length buf ≤ 65) × (atoi buf base ≡ n)
atoi-itoa n base two sixteen lt =
    let (ds, run, spelt, some_digit, few) = digits_spell base two sixteen 64 n lt (omega arith) in
    (
      reversed ds ++ 0 ∷ [],
      itoa_step 64 n base ds (reversed ds ++ 0 ∷ []) run
          (swap_loop-reversed 64 ds [] (0 ∷ []) 0 (length ds - 1) refl (omega arith) (omega arith)),
      omega (arith, length-append (reversed ds) (0 ∷ []), length-reversed ds),
      atoi_spelt base two sixteen ds n some_digit spelt lt,
    )
