-- ===== src/Types/Signature/Read.antt =====
-- `TypeKind::from_blob` on the bytes of a signature.
use winrt_rs.Base.{
  ℕ, zero, suc, ◌≤◌, ◌<◌, ◌≡◌, refl, ap, ◌∙◌, inl, inr, List, ◌++◌, arith, get_elem?, out_of_range,
  explicit, stuck, Result, ok, panic, >>=-eq-ok, require, require-inv, Returns, append_assoc,
  append_nil,
}
use winrt_rs.File.TableId.{TableIndex}
use winrt_rs.Blob.{Blob}
use winrt_rs.Blob.Unsigned.{compress}
use winrt_rs.Blob.Modifiers.{modifiers}
use winrt_rs.Codes.{TypeCode, Coded, decode}
use winrt_rs.Reader.{TypeReader}
use winrt_rs.Tables.{type_def_name, type_def_or_ref_resolve}
use winrt_rs.Types.{TypeKind, TypeKinds, to_list}
use winrt_rs.Types.Reading.{
  plain_kind, from_type_def, from_type_ref, read_args, from_type_spec_blob, from_type_def_or_ref,
  kind_by_tag, from_blob,
}
use winrt_rs.Types.Signature.{
  Sig, sig, Body, plain, named, param, inst, Sigs, no_sigs, more, count, mark, tag_of, bytes,
  rest_of, all_bytes, size, body_size, sizes, Written, BodyWritten, AllWritten, named_kind,
  inst_kind, meaning, body_meaning, meanings,
}
use winrt_rs.Types.Signature.Steps.{
  At, read_unsigned-At, read_modifiers-At, read_mark, tag_of-small,
}

-- A read that returns the kind of the signature in front of it.
abbrev pub Reads :
    TypeReader → TypeKinds → (i n : ℕ) → (read : Blob → Result (TypeKind × Blob)) → Type 0
Reads reader generics i n read =
    (s : Sig) (blob : Blob) (front rest : List ℕ) (k : TypeKind)
    → Written s
    → size s ≤ n
    → meaning reader generics i s ≡ ok k
    → At i blob front (bytes s ++ rest)
    → (blob' : Blob) × (read blob ≡ ok (k, blob')) × At i blob' (front ++ bytes s) rest

module _ (reader : TypeReader) (generics : TypeKinds) (i : ℕ) where
  module _ (n : ℕ) (read : Blob → Result (TypeKind × Blob))
      (reads : Reads reader generics i n read) where
    read_args-bytes :
        (ss : Sigs) (blob : Blob) (front rest : List ℕ) (ks : TypeKinds)
        → AllWritten ss
        → sizes ss ≤ n
        → meanings reader generics i ss ≡ ok ks
        → At i blob front (all_bytes ss ++ rest)
        → (blob' : Blob) × (read_args reader read (count ss) blob ≡ ok (ks, blob'))
          × At i blob' (front ++ all_bytes ss) rest
    unfolding read_args all_bytes sizes meanings AllWritten
    read_args-bytes no_sigs blob front rest ks w fits h (s, here) =
        (blob, ground arith, (rw (append_nil front) s, here))
    read_args-bytes (more x xs) blob front rest ks (w, ws) fits h (s, here) =
        let (k, e, h') = >>=-eq-ok (meaning reader generics i x) _ h in
        let (ks', es, h'') = >>=-eq-ok (meanings reader generics i xs) _ h' in
        let (blob1, read1, at1) =
          reads x blob front (all_bytes xs ++ rest) k w (omega arith) e
            (rw (append_assoc (bytes x) (all_bytes xs) rest) at s, here) in
        let (end, read2, (s2, here2)) =
          read_args-bytes xs blob1 (front ++ bytes x) rest ks' ws (omega arith) es at1 in
        (
          end,
          rw (read1, read2) (ground arith),
          (rw (append_assoc front (bytes x) (all_bytes xs)) at s2, here2),
        )

    named_row :
        (coded : Coded) (k : TypeKind)
        → (elim (coded.variant) [
          | TableIndex.type_ref ↦ from_type_ref reader (record { row = coded.row })
          | TableIndex.type_def ↦ from_type_def reader (record { row = coded.row })
          | _ ↦ panic stuck
        ])
          ≡ ok k
        → from_type_def_or_ref reader read coded ≡ ok k
    unfolding from_type_def_or_ref
    named_row coded k h = ground arith

    named-bytes :
        (tag code : ℕ) (blob : Blob) (front rest : List ℕ) (k : TypeKind)
        → BodyWritten (named tag code)
        → named_kind reader i code ≡ ok k
        → At i blob front (compress code ++ rest)
        → (blob' : Blob) × (kind_by_tag reader generics read tag blob ≡ ok (k, blob'))
          × At i blob' (front ++ compress code) rest
    unfolding kind_by_tag named_kind plain_kind BodyWritten
    named-bytes tag code blob front rest k (inl same, small) h (s, here) =
        let (coded, e, h') = >>=-eq-ok (decode TypeCode.type_def_or_ref code i) _ h in
        let (end, read1, at1) = read_unsigned-At i blob front rest code small (s, here) in
        (end, rw (same, read1, here, e, named_row coded k h') refl, at1)
    named-bytes tag code blob front rest k (inr same, small) h (s, here) =
        let (coded, e, h') = >>=-eq-ok (decode TypeCode.type_def_or_ref code i) _ h in
        let (end, read1, at1) = read_unsigned-At i blob front rest code small (s, here) in
        (end, rw (same, read1, here, e, named_row coded k h') refl, at1)

    param-bytes :
        (index : ℕ) (blob : Blob) (front rest : List ℕ) (k : TypeKind)
        → index < 0x2000_0000
        → require (get_elem? (to_list generics) index) out_of_range ≡ ok k
        → At i blob front (compress index ++ rest)
        → (blob' : Blob) × (kind_by_tag reader generics read 0x13 blob ≡ ok (k, blob'))
          × At i blob' (front ++ compress index) rest
    unfolding kind_by_tag plain_kind
    param-bytes index blob front rest k small h at0 =
        let (end, read1, at1) = read_unsigned-At i blob front rest index small at0 in
        (end, rw (read1, h) refl, at1)

    inst-bytes :
        (tag code : ℕ) (args : Sigs) (blob : Blob) (front rest : List ℕ) (k : TypeKind)
        → BodyWritten (inst tag code args)
        → sizes args ≤ n
        → body_meaning reader generics i (inst tag code args) ≡ ok k
        → At i blob front (rest_of (inst tag code args) ++ rest)
        → (blob' : Blob) × (kind_by_tag reader generics read 0x15 blob ≡ ok (k, blob'))
          × At i blob' (front ++ rest_of (inst tag code args)) rest
    unfolding kind_by_tag plain_kind body_meaning BodyWritten rest_of from_type_spec_blob inst_kind
    inst-bytes tag code args blob front rest k (tag_small, code_small, few, ws) fits h (s, here) =
        let (ks, es, h1) = >>=-eq-ok (meanings reader generics i args) _ h in
        let (coded, e, h2) = >>=-eq-ok (decode TypeCode.type_def_or_ref code i) _ h1 in
        let (def, resolved, h3) = >>=-eq-ok (type_def_or_ref_resolve reader coded) _ h2 in
        let (name, called, h4) = >>=-eq-ok (type_def_name reader def) _ h3 in
        let decoded = ap (λ j. decode TypeCode.type_def_or_ref code j) here ∙ e in
        let front1 = front ++ compress tag in
        let front2 = front1 ++ compress code in
        let front3 = front2 ++ compress (count args) in
        let parted : (compress tag ++ (compress code ++ (compress (count args) ++ all_bytes args)))
              ++ rest
            ≡ compress tag
              ++ (compress code ++ (compress (count args) ++ (all_bytes args ++ rest))) =
          rw
            (
              append_assoc (compress tag)
                  (compress code ++ (compress (count args) ++ all_bytes args)) rest,
              append_assoc (compress code) (compress (count args) ++ all_bytes args) rest,
              append_assoc (compress (count args)) (all_bytes args) rest,
            )
            refl in
        let joined : front3 ++ all_bytes args
            ≡ front
              ++ (compress tag ++ (compress code ++ (compress (count args) ++ all_bytes args))) =
          append_assoc front2 (compress (count args)) (all_bytes args)
          ∙ append_assoc front1 (compress code) (compress (count args) ++ all_bytes args)
          ∙ append_assoc front (compress tag)
              (compress code ++ (compress (count args) ++ all_bytes args)) in
        let (blob1, read1, at1) =
          read_unsigned-At i blob front
            (compress code ++ (compress (count args) ++ (all_bytes args ++ rest))) tag tag_small
            (rw parted at s, here) in
        let (blob2, read2, at2) =
          read_unsigned-At i blob1 front1 (compress (count args) ++ (all_bytes args ++ rest)) code
            code_small at1 in
        let (blob3, read3, at3) =
          read_unsigned-At i blob2 front2 (all_bytes args ++ rest) (count args) few at2 in
        let (end, read4, (s4, here4)) = read_args-bytes args blob3 front3 rest ks ws fits es at3 in
        (
          end,
          rw (read1, read2, decoded, resolved, read3, read4, called, h4) refl,
          (rw joined at s4, here4),
        )

    body-bytes :
        (body : Body) (blob : Blob) (front rest : List ℕ) (k : TypeKind)
        → BodyWritten body
        → body_size body ≤ n
        → body_meaning reader generics i body ≡ ok k
        → At i blob front (rest_of body ++ rest)
        → (blob' : Blob) × (kind_by_tag reader generics read (tag_of body) blob ≡ ok (k, blob'))
          × At i blob' (front ++ rest_of body) rest
    unfolding kind_by_tag body_meaning body_size rest_of BodyWritten
    body-bytes (plain tag) blob front rest k w fits h (s, here) = (
      blob,
      rw (kind_by_tag, require-inv (plain_kind tag) explicit k h) refl,
      (rw (append_nil front) s, here),
    )
    body-bytes (named tag code) blob front rest k w fits h at0 =
        named-bytes tag code blob front rest k w h at0
    body-bytes (param index) blob front rest k w fits h at0 =
        param-bytes index blob front rest k w h at0
    body-bytes (inst tag code args) blob front rest k w fits h at0 =
        inst-bytes tag code args blob front rest k w fits h at0

  -- What from_blob does with one level of fuel less for the arguments.
  from_blob-Reads : (fuel : ℕ) → Reads reader generics i fuel (from_blob reader generics fuel)
  unfolding from_blob Written size meaning bytes
  from_blob-Reads zero (sig array ms body) blob front rest k w fits h at0 = absurd (omega arith)
  from_blob-Reads (suc fuel) (sig array ms body) blob front rest k (all, w) fits h (s, here) =
      let t = tag_of body in
      let low = tag_of-small body w in
      let after = rest_of body ++ rest in
      let parted : (mark array ++ (modifiers ms ++ (compress t ++ rest_of body))) ++ rest
          ≡ mark array ++ (modifiers ms ++ (compress t ++ after)) =
        rw
          (
            append_assoc (mark array) (modifiers ms ++ (compress t ++ rest_of body)) rest,
            append_assoc (modifiers ms) (compress t ++ rest_of body) rest,
            append_assoc (compress t) (rest_of body) rest,
          )
          refl in
      let front1 = front ++ mark array in
      let front2 = front1 ++ modifiers ms in
      let joined : (front2 ++ compress t) ++ rest_of body
          ≡ front ++ (mark array ++ (modifiers ms ++ (compress t ++ rest_of body))) =
        append_assoc front2 (compress t) (rest_of body)
        ∙ append_assoc front1 (modifiers ms) (compress t ++ rest_of body)
        ∙ append_assoc front (mark array) (modifiers ms ++ (compress t ++ rest_of body)) in
      let (blob1, read1, at1) =
        read_mark i blob front after t (omega arith) (omega arith) array ms all
          (rw parted at s, here) in
      let (blob2, read2, at2) =
        read_modifiers-At i blob1 front1 after ms t (omega arith) (omega arith, omega arith) all
          at1 in
      let (blob3, read3, at3) = read_unsigned-At i blob2 front2 after t (omega arith) at2 in
      let (end, read4, (s4, here4)) =
        body-bytes fuel (from_blob reader generics fuel) (from_blob-Reads fuel) body blob3
          (front2 ++ compress t) rest k w (omega arith) h at3 in
      (end, rw (read1, read2, read3, read4) refl, (rw joined at s4, here4))

  -- Where the bytes of a signature with small numbers stand at a blob of a file, and the signature
  -- tells of a kind in that file, `from_blob` with fuel for the signature's size returns that kind,
  -- and the blob then stands behind the signature.
  pub from_blob-bytes :
      (fuel : ℕ) (s : Sig) (blob : Blob) (front rest : List ℕ) (k : TypeKind)
      → size s ≤ fuel
      → Written s
      → meaning reader generics i s ≡ ok k
      → At i blob front (bytes s ++ rest)
      → Returns
          (from_blob reader generics fuel blob)
          (λ r. (r.0 ≡ k) × At i r.1 (front ++ bytes s) rest)
  from_blob-bytes fuel s blob front rest k fits w h at0 =
      let (end, read, at1) = from_blob-Reads fuel s blob front rest k w fits h at0 in
      rw read (refl, at1)
