-- ===== src/File/Sections/Inside.antt =====
-- The section that `section_from_rva` finds, and the offset for it.
use winrt_rs.Base.{
  ℕ, ◌+◌, ◌≤◌, ◌<◌, ◌≡◌, Bool, true, false, List, [], ◌∷◌, ◌++◌, All, ap, arith, if◌then◌else◌, ok,
  >>=-eq-ok, add32, sub, add32-inv, sub-inv,
}
use winrt_rs.File.Pe.{ImageSectionHeader}
use winrt_rs.File.Sections.{contains_rva, section_from_rva, offset_from_rva}

abbrev pub Contains : ImageSectionHeader → ℕ → Type 0
Contains s rva =
    (s.virtual_address ≤ rva) × (rva < s.virtual_address + s.physical_address_or_virtual_size)

contains_rva-true :
    (s : ImageSectionHeader) (rva : ℕ) → contains_rva s rva ≡ ok true → Contains s rva
unfolding contains_rva add32
contains_rva-true s rva h = ground arith

contains_rva-false :
    (s : ImageSectionHeader) (rva : ℕ) → contains_rva s rva ≡ ok false → ¬ Contains s rva
unfolding contains_rva add32
contains_rva-false s rva h inside = ground arith

-- A section in the list that contains the address, and none before it does.
record First (sections : List ImageSectionHeader) (rva : ℕ) (s : ImageSectionHeader) : Type 0 where
  pub before : List ImageSectionHeader
  pub after : List ImageSectionHeader
  pub place : sections ≡ before ++ (s ∷ after)
  pub none_before : All (λ other. ¬ Contains other rva) before
  pub inside : Contains s rva

section_from_rva-First :
    (sections : List ImageSectionHeader) (rva : ℕ) (s : ImageSectionHeader)
    → section_from_rva sections rva ≡ ok s
    → First sections rva s
unfolding section_from_rva
section_from_rva-First [] rva s h = absurd cc
section_from_rva-First (head ∷ rest) rva s h =
    let (found, tested, h') = >>=-eq-ok (contains_rva head rva) _ h in
    by_test found tested h' (section_from_rva-First rest rva s)
  where
    by_test :
        (found : Bool)
        → contains_rva head rva ≡ ok found
        → (if found then ok head else section_from_rva rest rva) ≡ ok s
        → (section_from_rva rest rva ≡ ok s → First rest rva s)
        → First (head ∷ rest) rva s
    by_test true tested h later =
        let e : head ≡ s = cc in
        record {
          before = [];
          after = rest;
          place = ap (λ x. x ∷ rest) e;
          none_before = tt;
          inside = rw e at (contains_rva-true head rva tested);
        }
    by_test false tested h later =
        let first = later h in
        record {
          before = head ∷ first.before;
          after = first.after;
          place = ap (λ xs. head ∷ xs) first.place;
          none_before = (contains_rva-false head rva tested, first.none_before);
          inside = first.inside;
        }

-- Where `section_from_rva` returns a section, it is the first of the list whose virtual address and
-- virtual size contain the address. Where `offset_from_rva` returns an offset for it, the offset is as far
-- behind the section's pointer to its raw data as the address is behind the section's virtual address,
-- and that is less than the virtual size. (The size of the raw data is not looked at.)
pub section_from_rva-offset :
    (sections : List ImageSectionHeader) (rva offset : ℕ) (s : ImageSectionHeader)
    → section_from_rva sections rva ≡ ok s
    → offset_from_rva s rva ≡ ok offset
    → (before : List ImageSectionHeader) × (after : List ImageSectionHeader) × (sections
        ≡ before ++ (s ∷ after))
      × All (λ other. ¬ Contains other rva) before
      × (offset + s.virtual_address ≡ rva + s.pointer_to_raw_data)
      × (s.pointer_to_raw_data ≤ offset)
      × (offset < s.pointer_to_raw_data + s.physical_address_or_virtual_size)
unfolding offset_from_rva
section_from_rva-offset sections rva offset s found at =
    let first = section_from_rva-First sections rva s found in
    let (from, to) = first.inside in
    let (distance, e, h) = >>=-eq-ok (sub rva s.virtual_address) _ at in
    let below = sub-inv rva s.virtual_address distance e in
    let sum = add32-inv distance s.pointer_to_raw_data offset h in
    (
      first.before,
      first.after,
      first.place,
      first.none_before,
      omega arith,
      omega arith,
      omega arith,
    )
