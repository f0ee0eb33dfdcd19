-- ===== src/Types/Order.antt =====
-- The derived order of names and kinds, by which `BTreeMap<TypeName, _>` goes: by the first field, or
-- the variant, in which they differ.
pub mod Lawful
use winrt_rs.Base.{ℕ, [], ◌∷◌}
use Prim.Native.Nat.{compare, Ordering}
use winrt_rs.File.TableId.{position}
use winrt_rs.Row.{Row}
use winrt_rs.Text.{Text}
use winrt_rs.Types.{TypeName, type_name, TypeKind, TypeKinds, no_kinds, kind}

abbrev pub then_by : Ordering → Ordering → Ordering
then_by Ordering.lt later = Ordering.lt
then_by Ordering.eq later = later
then_by Ordering.gt later = Ordering.gt

unfoldable pub compare_text : Text → Text → Ordering
compare_text [] [] = Ordering.eq
compare_text [] (y ∷ ys) = Ordering.lt
compare_text (x ∷ xs) [] = Ordering.gt
compare_text (x ∷ xs) (y ∷ ys) = then_by (compare x y) (compare_text xs ys)

unfoldable pub compare_row : Row → Row → Ordering
compare_row row other = then_by (compare row.index other.index) (
    then_by (compare (position row.table_index) (position other.table_index))
      (compare row.file_index other.file_index))

-- The variants in their order.
abbrev pub rank : TypeKind → ℕ
rank TypeKind.bool = 0
rank TypeKind.char = 1
rank TypeKind.i8 = 2
rank TypeKind.u8 = 3
rank TypeKind.i16 = 4
rank TypeKind.u16 = 5
rank TypeKind.i32 = 6
rank TypeKind.u32 = 7
rank TypeKind.i64 = 8
rank TypeKind.u64 = 9
rank TypeKind.f32 = 10
rank TypeKind.f64 = 11
rank TypeKind.string = 12
rank TypeKind.object = 13
rank TypeKind.guid = 14
rank (TypeKind.class name) = 15
rank (TypeKind.interface name) = 16
rank (TypeKind.enum name) = 17
rank (TypeKind.struct name) = 18
rank (TypeKind.delegate name) = 19
rank (TypeKind.generic name) = 20

unfoldable mutual
  pub compare_name : TypeName → TypeName → Ordering
  compare_name (type_name namespace name generics def) (type_name namespace' name' generics' def') =
      then_by (compare_text namespace namespace') (
        then_by (compare_text name name')
          (then_by (compare_kinds generics generics') (compare_row def.row def'.row)))

  pub compare_kinds : TypeKinds → TypeKinds → Ordering
  compare_kinds no_kinds no_kinds = Ordering.eq
  compare_kinds no_kinds (kind k ks) = Ordering.lt
  compare_kinds (kind k ks) no_kinds = Ordering.gt
  compare_kinds (kind k ks) (kind k' ks') = then_by (compare_kind k k') (compare_kinds ks ks')

  pub compare_kind : TypeKind → TypeKind → Ordering
  compare_kind (TypeKind.class name) (TypeKind.class name') = compare_name name name'
  compare_kind (TypeKind.interface name) (TypeKind.interface name') = compare_name name name'
  compare_kind (TypeKind.enum name) (TypeKind.enum name') = compare_name name name'
  compare_kind (TypeKind.struct name) (TypeKind.struct name') = compare_name name name'
  compare_kind (TypeKind.delegate name) (TypeKind.delegate name') = compare_name name name'
  compare_kind (TypeKind.generic name) (TypeKind.generic name') = compare_text name name'
  compare_kind k k' = compare (rank k) (rank k')
