-- ===== src/Types/Order/Lawful.antt =====
-- The derived orders tell equal rows, names and kinds, and only those, to be equal.
use winrt_rs.Base.{ℕ, ◌≡◌, refl, ap, [], ◌∷◌, arith}
use Prim.Native.Nat.{compare, Ordering}
use winrt_rs.Base.Maps.{Ord}
use winrt_rs.File.TableId.{TableIndex, position}
use winrt_rs.Row.{Row, TypeDef}
use winrt_rs.Text.{Text}
use winrt_rs.Types.{TypeName, type_name, TypeKind, TypeKinds, no_kinds, kind}
use winrt_rs.Types.Order.{
  then_by, compare_text, compare_row, compare_name, compare_kinds, compare_kind,
}

compare-same : (x y : ℕ) → compare x y ≡ Ordering.eq → x ≡ y
compare-same x y h = ground arith

compare-itself : (x : ℕ) → compare x x ≡ Ordering.eq
compare-itself x = ground arith

then_by-eq : (a b : Ordering) → then_by a b ≡ Ordering.eq → (a ≡ Ordering.eq) × (b ≡ Ordering.eq)
then_by-eq Ordering.lt b h = cc
then_by-eq Ordering.eq b h = (refl, h)
then_by-eq Ordering.gt b h = cc

compare_text-same : (x y : Text) → compare_text x y ≡ Ordering.eq → x ≡ y
unfolding compare_text
compare_text-same [] [] h = refl
compare_text-same [] (y ∷ ys) h = cc
compare_text-same (x ∷ xs) [] h = cc
compare_text-same (x ∷ xs) (y ∷ ys) h =
    let (first, rest) = then_by-eq _ _ h in
    let p = compare-same x y first in let q = compare_text-same xs ys rest in cc

compare_text-itself : (x : Text) → compare_text x x ≡ Ordering.eq
unfolding compare_text
compare_text-itself [] = refl
compare_text-itself (x ∷ xs) = rw (compare-itself x) (compare_text-itself xs)

position-same : (t u : TableIndex) → position t ≡ position u → t ≡ u
position-same t u h = ground arith

compare_row-same : (r s : Row) → compare_row r s ≡ Ordering.eq → r ≡ s
unfolding compare_row
compare_row-same r s h =
    let (index, rest) = then_by-eq _ _ h in
    let (table, file) = then_by-eq _ _ rest in
    let p = compare-same r.index s.index index in
    let q = position-same r.table_index s.table_index (compare-same _ _ table) in
    let o = compare-same r.file_index s.file_index file in cc

compare_row-itself : (r : Row) → compare_row r r ≡ Ordering.eq
unfolding compare_row
compare_row-itself r =
    rw (compare-itself r.index, compare-itself (position r.table_index))
      (compare-itself r.file_index)

pub def_order : Ord TypeDef
def_order = record {
  compare = λ d e. compare_row d.row e.row;
  same = λ d e h. let p = compare_row-same d.row e.row h in cc;
  itself = λ d. compare_row-itself d.row;
}

mutual
  unfolding compare_name compare_kinds compare_kind

  compare_name-same : (n m : TypeName) → compare_name n m ≡ Ordering.eq → n ≡ m
  compare_name-same (type_name namespace name generics def)
        (type_name namespace' name' generics' def') h =
      let (first, h') = then_by-eq _ _ h in
      let (second, h'') = then_by-eq _ _ h' in
      let (third, last) = then_by-eq _ _ h'' in
      let p = compare_text-same namespace namespace' first in
      let q = compare_text-same name name' second in
      let r = compare_kinds-same generics generics' third in
      let o = compare_row-same def.row def'.row last in cc

  compare_kinds-same : (ks ls : TypeKinds) → compare_kinds ks ls ≡ Ordering.eq → ks ≡ ls
  compare_kinds-same no_kinds no_kinds h = refl
  compare_kinds-same no_kinds (kind l ls) h = cc
  compare_kinds-same (kind k ks) no_kinds h = cc
  compare_kinds-same (kind k ks) (kind l ls) h =
      let (first, rest) = then_by-eq _ _ h in
      let p = compare_kind-same k l first in let q = compare_kinds-same ks ls rest in cc

  compare_kind-same : (k l : TypeKind) → compare_kind k l ≡ Ordering.eq → k ≡ l
  compare_kind-same (TypeKind.class n) (TypeKind.class m) h =
      ap TypeKind.class (compare_name-same n m h)
  compare_kind-same (TypeKind.interface n) (TypeKind.interface m) h =
      ap TypeKind.interface (compare_name-same n m h)
  compare_kind-same (TypeKind.enum n) (TypeKind.enum m) h =
      ap TypeKind.enum (compare_name-same n m h)
  compare_kind-same (TypeKind.struct n) (TypeKind.struct m) h =
      ap TypeKind.struct (compare_name-same n m h)
  compare_kind-same (TypeKind.delegate n) (TypeKind.delegate m) h =
      ap TypeKind.delegate (compare_name-same n m h)
  compare_kind-same (TypeKind.generic n) (TypeKind.generic m) h =
      ap TypeKind.generic (compare_text-same n m h)
  compare_kind-same k l h = ground arith

mutual
  unfolding compare_name compare_kinds compare_kind

  compare_name-itself : (n : TypeName) → compare_name n n ≡ Ordering.eq
  compare_name-itself (type_name namespace name generics def) =
      rw (compare_text-itself namespace, compare_text-itself name, compare_kinds-itself generics)
        (compare_row-itself def.row)

  compare_kinds-itself : (ks : TypeKinds) → compare_kinds ks ks ≡ Ordering.eq
  compare_kinds-itself no_kinds = refl
  compare_kinds-itself (kind k ks) = rw (compare_kind-itself k) (compare_kinds-itself ks)

  compare_kind-itself : (k : TypeKind) → compare_kind k k ≡ Ordering.eq
  compare_kind-itself (TypeKind.class n) = compare_name-itself n
  compare_kind-itself (TypeKind.interface n) = compare_name-itself n
  compare_kind-itself (TypeKind.enum n) = compare_name-itself n
  compare_kind-itself (TypeKind.struct n) = compare_name-itself n
  compare_kind-itself (TypeKind.delegate n) = compare_name-itself n
  compare_kind-itself (TypeKind.generic n) = compare_text-itself n
  compare_kind-itself k = refl

pub name_order : Ord TypeName
name_order = record {
  compare = compare_name;
  same = compare_name-same;
  itself = compare_name-itself;
}
