-- ===== src/Paths/Joining.antt =====
-- The relative path that `open` hands to a file system, split again.
use mathlib.Core.List.{append_assoc, append-nil}
use matte_os.Base.{◌∙◌, ap, sym, ℕ, ◌≡◌, ◌≢◌, refl, false, List, [], ◌∷◌, ◌++◌, ◌==◌, arith, drop}
use matte_os.Strings.{String}
use matte_os.Paths.{split, join, relative_path}
use matte_os.Paths.Splitting.{parts, with_part, EndsWithout, split-parts}

-- No character is a slash.
unfoldable pub NoSlash : String → Type 0
NoSlash [] = Unit
NoSlash (c ∷ cs) = (c ≢ 47) × NoSlash cs

-- Names that can stand in a path: not empty, and without a slash.
unfoldable pub Names : List String → Type 0
Names [] = Unit
Names ([] ∷ ps) = ⊥
Names ((c ∷ p) ∷ ps) = NoSlash (c ∷ p) × Names ps

parts_begun :
    (c : ℕ) (begun cs : String) → c ≢ 47 → parts 47 begun (c ∷ cs) ≡ parts 47 (begun ++ c ∷ []) cs
unfolding parts
parts_begun c begun cs ne = let e : (c == 47) ≡ false = ground arith in rw e refl

parts-name :
    (name begun rest : String)
    → NoSlash name
    → parts 47 begun (name ++ rest) ≡ parts 47 (begun ++ name) rest
unfolding NoSlash
parts-name [] begun rest h = ap (λ b. parts 47 b rest) (sym (append-nil begun))
parts-name (c ∷ name) begun rest (ne, h) =
    parts_begun c begun (name ++ rest) ne
    ∙ (parts-name name (begun ++ c ∷ []) rest h
        ∙ ap (λ b. parts 47 b rest) (append_assoc begun (c ∷ []) name))

parts-slash :
    (begun rest : String) → parts 47 begun (47 ∷ rest) ≡ with_part begun (parts 47 [] rest)
unfolding parts
parts-slash begun rest = refl

parts-join : (ps : List String) → Names ps → parts 47 [] (join ps) ≡ ps
unfolding Names join with_part
parts-join [] h = unfold parts in refl
parts-join ([] ∷ ps) h = absurd h
parts-join ((c ∷ p) ∷ []) (clean, h) =
    ap (parts 47 []) (sym (append-nil (c ∷ p)))
    ∙ (parts-name (c ∷ p) [] [] clean ∙ unfold parts in refl)
parts-join ((c ∷ p) ∷ q ∷ ps) (clean, h) =
    parts-name (c ∷ p) [] (47 ∷ join (q ∷ ps)) clean
    ∙ (parts-slash (c ∷ p) (join (q ∷ ps)) ∙ ap (λ l. (c ∷ p) ∷ l) (parts-join (q ∷ ps) h))

ends_append :
    (a : String) (c : ℕ) (b : String) → EndsWithout 47 (c ∷ b) → EndsWithout 47 (a ++ c ∷ b)
unfolding EndsWithout
ends_append [] c b h = h
ends_append (x ∷ []) c b h = h
ends_append (x ∷ y ∷ a) c b h = ends_append (y ∷ a) c b h

ends_name : (c : ℕ) (p : String) → NoSlash (c ∷ p) → EndsWithout 47 (c ∷ p)
unfolding EndsWithout NoSlash
ends_name c [] (ne, h) = ne
ends_name c (d ∷ p) (ne, h) = ends_name d p h

-- Joined names, behind one more character, do not end with a slash.
ends_join :
    (x : ℕ) (p : String) (ps : List String) → Names (p ∷ ps) → EndsWithout 47 (x ∷ join (p ∷ ps))
unfolding Names join
ends_join x [] ps h = absurd h
ends_join x (c ∷ p) [] (clean, h) = ends_append (x ∷ []) c p (ends_name c p clean)
ends_join x (c ∷ p) (q ∷ ps) (clean, h) =
    ends_append (x ∷ c ∷ p) 47 (join (q ∷ ps)) (ends_join 47 q ps h)

split-Names :
    (p : String) (ps : List String) → Names (p ∷ ps) → split 47 (47 ∷ join (p ∷ ps)) ≡ p ∷ ps
unfolding with_part
split-Names p ps h =
    split-parts 47 (47 ∷ join (p ∷ ps)) (ends_join 47 p ps h)
    ∙ (parts-slash [] (join (p ∷ ps)) ∙ parts-join (p ∷ ps) h)

-- Where names are left of a path behind the mount, `split` gives them back from the relative path that `open`
-- hands to the file system.
pub split-relative_path :
    (path_parts : List String) (longest : ℕ) (p : String) (ps : List String)
    → drop longest path_parts ≡ p ∷ ps
    → Names (p ∷ ps)
    → split 47 (relative_path path_parts longest) ≡ drop longest path_parts
split-relative_path path_parts longest p ps left h =
    ap (λ l. split 47 (47 ∷ join l)) left ∙ (split-Names p ps h ∙ sym left)
