-- ===== src/Roads/Order/Texts.antt =====
-- The order of texts.
use model_lib.Base.{◌≡◌, sym, ◌∙◌, arith}
use Prim.Native.Nat.{Ordering, compare as compare_ℕ}
use Prim.Native.Char.{Char, code}
use Prim.Native.String.{String, [], ◌∷◌, compare, then as or_else}
use Prim.Native.String.compare
use text.Mathlib.TextEquality.{path_by_compare}
use text.Mathlib.TextPositions.{compare_refl}
use model_lib.Roads.Order.{IsOrder}

module _ (c d : Char) (s t : String) where
  code_back :
      (compare s t ≡ Ordering.gt → compare t s ≡ Ordering.lt)
      → or_else (compare_ℕ (code c) (code d)) (compare s t) ≡ Ordering.gt
      → or_else (compare_ℕ (code d) (code c)) (compare t s) ≡ Ordering.lt
  code_back h e = ground arith

  code_trans :
      (e : Char) (u : String)
      → (compare s t ≡ Ordering.lt → compare t u ≡ Ordering.lt → compare s u ≡ Ordering.lt)
      → or_else (compare_ℕ (code c) (code d)) (compare s t) ≡ Ordering.lt
      → or_else (compare_ℕ (code d) (code e)) (compare t u) ≡ Ordering.lt
      → or_else (compare_ℕ (code c) (code e)) (compare s u) ≡ Ordering.lt
  code_trans e u h k l = ground arith

text_back : (a b : String) → compare a b ≡ Ordering.gt → compare b a ≡ Ordering.lt
text_back [] [] e = ground (arith, sym compare.nil-nil ∙ e)
text_back [] (d ∷ t) e = ground (arith, sym (compare.nil-cons d t) ∙ e)
text_back (c ∷ s) [] e = compare.nil-cons c s
text_back (c ∷ s) (d ∷ t) e =
    compare.cons-cons d c t s
    ∙ code_back c d s t (text_back s t) (sym (compare.cons-cons c d s t) ∙ e)

text_trans :
    (a b c : String)
    → compare a b ≡ Ordering.lt
    → compare b c ≡ Ordering.lt
    → compare a c ≡ Ordering.lt
text_trans a [] [] e f = ground (arith, sym compare.nil-nil ∙ f)
text_trans [] [] (d ∷ t) e f = f
text_trans (c ∷ s) [] (d ∷ t) e f = ground (arith, sym (compare.cons-nil c s) ∙ e)
text_trans a (c ∷ s) [] e f = ground (arith, sym (compare.cons-nil c s) ∙ f)
text_trans [] (c ∷ s) (d ∷ t) e f = compare.nil-cons d t
text_trans (b ∷ r) (c ∷ s) (d ∷ t) e f =
    compare.cons-cons b d r t
    ∙ code_trans b c r s d t (text_trans r s t) (sym (compare.cons-cons b c r s) ∙ e)
        (sym (compare.cons-cons c d s t) ∙ f)

pub text_IsOrder : IsOrder compare
text_IsOrder = record {
  same = compare_refl;
  only = path_by_compare;
  back = text_back;
  trans = text_trans;
}
