-- ===== src/Text/Laws.antt =====
-- Case folding is an equivalence, and a text that ends with "*" is its prefix before the star.

use Prim.Native.String.{[], ◌∷◌, ◌++◌}
use text.Mathlib.TextLemmas.{cons-append}
use text.Mathlib.TextEquality.{Char-path}
use trustyca.Base.{String, ◌≡◌, refl, true, arith, sym, ap, ◌∙◌}
use trustyca.Text.{equal_fold, ends_with_star, drop_last}

pub equal_fold_symm : (s t : String) → equal_fold s t ≡ true → equal_fold t s ≡ true
unfolding equal_fold
equal_fold_symm [] [] h = refl
equal_fold_symm [] (d ∷ t) h = cc
equal_fold_symm (c ∷ s) [] h = cc
equal_fold_symm (c ∷ s) (d ∷ t) h = ground (arith, equal_fold_symm s t)

pub equal_fold_trans :
    (s t u : String) → equal_fold s t ≡ true → equal_fold t u ≡ true → equal_fold s u ≡ true
unfolding equal_fold
equal_fold_trans [] [] u h k = k
equal_fold_trans [] (d ∷ t) u h k = cc
equal_fold_trans (c ∷ s) [] u h k = cc
equal_fold_trans (c ∷ s) (d ∷ t) [] h k = cc
equal_fold_trans (c ∷ s) (d ∷ t) (e ∷ u) h k = ground (arith, equal_fold_trans s t u)

pub ends_with_star_lem : (s : String) → ends_with_star s ≡ true → s ≡ drop_last s ++ "*"
unfolding ends_with_star drop_last
ends_with_star_lem [] h = cc
ends_with_star_lem (c ∷ []) h = ap (λ x. x ∷ []) (Char-path c "*" (ground arith))
ends_with_star_lem (c ∷ d ∷ s) h =
    ap (λ t. c ∷ t) (ends_with_star_lem (d ∷ s) h) ∙ sym (cons-append c (drop_last (d ∷ s)) "*")

pub ends_with_star-append : (s : String) → ends_with_star (s ++ "*") ≡ true
unfolding ends_with_star
ends_with_star-append [] = refl
ends_with_star-append (c ∷ []) = rw (cons-append c [] "*") refl
ends_with_star-append (c ∷ d ∷ s) =
    rw (cons-append c (d ∷ s) "*", cons-append d s "*")
      (rw (cons-append d s "*") at (ends_with_star-append (d ∷ s)))

pub drop_last-append : (s : String) → drop_last (s ++ "*") ≡ s
unfolding drop_last
drop_last-append [] = refl
drop_last-append (c ∷ []) = rw (cons-append c [] "*") refl
drop_last-append (c ∷ d ∷ s) =
    rw (cons-append c (d ∷ s) "*", cons-append d s "*")
      (ap (λ t. c ∷ t) (rw (cons-append d s "*") at (drop_last-append (d ∷ s))))
