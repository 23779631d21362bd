-- ===== src/DeviceTree/Reserved.antt =====
-- The memory reservation block: `parse_reserve_entries` of Kernel/Firmware/FDT/FDTParser.cpp.
use mathlib.Core.List.{append_assoc, append-nil}
use matte_os.Base.{
  ℕ, zero, suc, ◌+◌, ◌/◌, ◌%◌, ◌^◌, ◌<◌, ◌≡◌, ◌≢◌, ◌⊎◌, refl, sym, ap, ◌∙◌, true, false, Option,
  none, some, List, [], ◌∷◌, ◌++◌, ◌==◌, ◌||◌, if◌then◌else◌, drop, length, arith,
}
use matte_os.DeviceTree.{be64, Blob, off_mem_rsvmap}
use matte_os.DeviceTree.Words.{be_word, be32-be_word, drop_past}

pub record ReserveEntry : Type 0 where
  pub address : ℕ
  pub size : ℕ

-- The loop of `parse_reserve_entries` at an address, over `fuel` entries at most; `none` is fuel that ran out.
unfoldable pub reserve_loop : List ℕ → ℕ → ℕ → List ReserveEntry → Option (List ReserveEntry)
unfolding be64
reserve_loop memory zero entry m_reserve_entries = none
reserve_loop memory (suc fuel) entry m_reserve_entries =
    let address = be64 (drop entry memory) in
    let size = be64 (drop (entry + 8) memory) in
    let found : ReserveEntry = record { address = address; size = size } in
    let rest = reserve_loop memory fuel (entry + 16) (m_reserve_entries ++ found ∷ []) in
    if address == 0 || size == 0 then some m_reserve_entries else rest

unfoldable pub parse_reserve_entries : Blob → ℕ → Option (List ReserveEntry)
unfolding reserve_loop off_mem_rsvmap
parse_reserve_entries b fuel = reserve_loop b.memory fuel (b.header + off_mem_rsvmap b) []

-- A number as two words.
abbrev pub be_double : ℕ → List ℕ
be_double n = be_word (n / 2 ^ 32) ++ be_word (n % 2 ^ 32)

be64-be_double : (n : ℕ) (rest : List ℕ) → n < 2 ^ 64 → be64 (be_double n ++ rest) ≡ n
unfolding be64
be64-be_double n rest h =
    let high = be32-be_word (n / 2 ^ 32) (be_word (n % 2 ^ 32) ++ rest) (omega arith) in
    let low = be32-be_word (n % 2 ^ 32) rest (omega arith) in rw (high, low) (omega arith)

abbrev pub encode_entry : ReserveEntry → List ℕ
encode_entry e = be_double e.address ++ be_double e.size

unfoldable pub encode_entries : List ReserveEntry → List ℕ
encode_entries [] = []
encode_entries (e ∷ es) = encode_entry e ++ encode_entries es

-- Entries with an address and a size that are not 0.
unfoldable pub AreEntries : List ReserveEntry → Type 0
AreEntries [] = Unit
AreEntries (e ∷ es) =
    (e.address < 2 ^ 64) × (e.size < 2 ^ 64) × (e.address ≢ 0) × (e.size ≢ 0) × AreEntries es

module _ (memory : List ℕ) where
  entry_step :
      (fuel a : ℕ) (e : ReserveEntry) (found : List ReserveEntry) (rest : List ℕ)
      → drop a memory ≡ encode_entry e ++ rest
      → e.address < 2 ^ 64
      → e.size < 2 ^ 64
      → reserve_loop memory (suc fuel) a found ≡ (
          if e.address == 0 || e.size == 0
          then some found
          else reserve_loop memory fuel (a + 16) (found ++ e ∷ []))
  unfolding reserve_loop
  entry_step fuel a e found rest at ha hs =
      let first : be64 (drop a memory) ≡ e.address =
        ap be64 at ∙ be64-be_double e.address (be_double e.size ++ rest) ha in
      let second : be64 (drop (a + 8) memory) ≡ e.size =
        ap be64 (drop_past a memory (be_double e.address) (be_double e.size ++ rest) 8 at refl)
        ∙ be64-be_double e.size rest hs in
      λ i.
        if first i == 0 || second i == 0
        then some found
        else reserve_loop memory fuel (a + 16)
            (found ++ record { address = first i; size = second i } ∷ [])

  entry_taken :
      (e : ReserveEntry) → e.address ≢ 0 → e.size ≢ 0 → (e.address == 0 || e.size == 0) ≡ false
  entry_taken e ha hs = ground arith

  entry_last :
      (e : ReserveEntry) → (e.address ≡ 0) ⊎ (e.size ≡ 0) → (e.address == 0 || e.size == 0) ≡ true
  entry_last e h = ground arith

  entries_lem :
      (es : List ReserveEntry) (last : ReserveEntry) (fuel a : ℕ) (found : List ReserveEntry)
      (after : List ℕ)
      → drop a memory ≡ encode_entries es ++ (encode_entry last ++ after)
      → AreEntries es
      → last.address < 2 ^ 64
      → last.size < 2 ^ 64
      → (last.address ≡ 0) ⊎ (last.size ≡ 0)
      → length es < fuel
      → reserve_loop memory fuel a found ≡ some (found ++ es)
  unfolding encode_entries AreEntries
  entries_lem es last zero a found after at h hx hy stops enough = absurd (omega arith)
  entries_lem [] last (suc fuel) a found after at h hx hy stops enough =
      entry_step fuel a last found after at hx hy
      ∙ rw (entry_last last stops) (ap some (sym (append-nil found)))
  entries_lem (e ∷ es) last (suc fuel) a found after at (ha, hs, na, ns, h) hx hy stops enough =
      let layout =
        at ∙ append_assoc (encode_entry e) (encode_entries es) (encode_entry last ++ after) in
      entry_step fuel a e found (encode_entries es ++ (encode_entry last ++ after)) layout ha hs
      ∙ (rw (entry_taken e na ns) (
            entries_lem es last fuel (a + 16) (found ++ e ∷ []) after
              (drop_past a memory (encode_entry e) _ 16 layout refl) h hx hy stops (omega arith))
          ∙ ap some (append_assoc found (e ∷ []) es))

-- `parse_reserve_entries` reads the entries up to the first whose address or size is 0, which need not be the last
-- one of the block: with more fuel than entries it returns them in order, and never runs out.
pub parse_reserve_entries-encode :
    (b : Blob) (es : List ReserveEntry) (last : ReserveEntry) (before after : List ℕ) (fuel : ℕ)
    → b.memory ≡ before ++ (encode_entries es ++ (encode_entry last ++ after))
    → length before ≡ b.header + off_mem_rsvmap b
    → AreEntries es
    → last.address < 2 ^ 64
    → last.size < 2 ^ 64
    → (last.address ≡ 0) ⊎ (last.size ≡ 0)
    → length es < fuel
    → parse_reserve_entries b fuel ≡ some es
unfolding parse_reserve_entries
parse_reserve_entries-encode b es last before after fuel layout start h hx hy stops enough =
    ap (λ (a : ℕ). reserve_loop b.memory fuel a []) (sym start)
    ∙ entries_lem b.memory es last fuel (length before) [] after
        (ap (λ (k : ℕ). drop k b.memory) (omega arith)
          ∙ drop_past 0 b.memory before _ (length before) layout refl)
        h hx hy stops enough
