-- ===== src/Fat/Position.antt =====
-- Arithmetic of `read`: offsets into clusters, and the bytes of one round.
use mathlib.Core.List.{append_assoc}
use native.Mathlib.Nat.{div-add-mod, div-add-mod'}
use matte_os.Base.{
  ap, ℕ, suc, ◌+◌, ◌-◌, ◌*◌, ◌/◌, ◌%◌, ◌≤◌, ◌<◌, ◌≡◌, ◌∙◌, sym, refl, ◌++◌, arith, length, take,
  drop, drop-append, take_append_le, take_append_ge, take_all, length-drop,
}
use matte_os.Fat.{Bytes, chunk, offset_in_cluster}

pub chunk_last :
    (cs total initial done off : ℕ)
    → offset_in_cluster initial done ≡ off
    → total - done ≤ cs - off
    → chunk cs total initial done ≡ total - done
unfolding chunk
chunk_last cs total initial done off e h = rw e (omega arith)

pub chunk_more :
    (cs total initial done off : ℕ)
    → offset_in_cluster initial done ≡ off
    → cs - off ≤ total - done
    → chunk cs total initial done ≡ cs - off
unfolding chunk
chunk_more cs total initial done off e h = rw e (omega arith)

pub later_start : (initial done : ℕ) → 0 < done → offset_in_cluster initial done ≡ 0
unfolding offset_in_cluster
later_start initial done h = ground arith

pub long_rest :
    (total done off cs n : ℕ)
    → total - done + off ≤ suc n * cs
    → off < cs
    → total - (done + (cs - off)) + 0 ≤ n * cs
long_rest total done off cs n h lt = omega arith

-- a position inside a file, as a cluster and an offset into it
pub position : (offset cs : ℕ) → offset / cs * cs + offset % cs ≡ offset
position offset cs = div-add-mod' offset cs

pub position_reached :
    (offset size n cs : ℕ) → offset < size → size ≤ n * cs → 0 < cs → offset / cs < n
position_reached offset size n cs before covers pos = grind (arith, div-add-mod)

pub covered :
    (offset size n k r m cs : ℕ)
    → k * cs + r ≡ offset
    → offset < size
    → size ≤ n * cs
    → k < n
    → m + offset ≤ size
    → m - 0 + r ≤ (n - k) * cs
covered offset size n k r m cs e before covers lt fits =
    let q : n ≡ k + (n - k) = omega arith in omega (arith, ap (λ t. t * cs) q)

pub first_start : (initial : ℕ) → offset_in_cluster initial 0 ≡ initial
unfolding offset_in_cluster
first_start initial = refl

-- the bytes of a last round, and those of a round with more to come
pub bytes_last :
    (d r : Bytes) (off n : ℕ)
    → n + off ≤ length d
    → take n (drop off d) ≡ take n (drop off (d ++ r))
bytes_last d r off n h = sym (
    ap (take n) (drop-append off d r (omega arith))
    ∙ take_append_le n (drop off d) r (omega (arith, length-drop off d)))

pub bytes_more :
    (out d r : Bytes) (off cs n m : ℕ)
    → length d ≡ cs
    → off ≤ cs
    → cs - off + m ≡ n
    → (out ++ take (cs - off) (drop off d)) ++ take m (drop 0 r) ≡ out ++ take n (drop off (d ++ r))
bytes_more out d r off cs n m full inside sum =
    append_assoc out (take (cs - off) (drop off d)) (take m r)
    ∙ ap (λ l. out ++ (l ++ take m r))
        (take_all (cs - off) (drop off d) (omega (arith, length-drop off d)))
    ∙ ap (λ l. out ++ l)
        (sym (
          ap (take n) (drop-append off d r (omega arith))
          ∙ take_append_ge (drop off d) r n m (omega (arith, length-drop off d))))
