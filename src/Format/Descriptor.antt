-- ===== src/Format/Descriptor.antt =====
-- The store descriptor: its bytes, and how an upgrade raises it.
use origofs.Base.{◌≡◌, ◌≤◌, refl, ◌∙◌, [], ◌∷◌, ◌++◌, ok, arith}
use origofs.Format.{
  StoreDescriptor, store_kind, header, encode_descriptor, decode_descriptor, decode_descriptor_v1,
  raised_over, check_readable, current, current_format_version, max_readable_format_version,
  greatest,
}
use origofs.Format.Headers.{IsKind, decode_with-header}

store_kind-IsKind : IsKind store_kind
store_kind-IsKind = omega arith

-- A descriptor decodes to itself.
pub decode_descriptor-encode_descriptor :
    (d : StoreDescriptor) → decode_descriptor (encode_descriptor d) ≡ ok d
unfolding decode_descriptor encode_descriptor
decode_descriptor-encode_descriptor d =
    let body = d.format_version ∷ d.min_reader_version ∷ [] in
    let e : decode_descriptor_v1 (header store_kind ++ body) ≡ ok d =
      unfold decode_descriptor_v1 header in refl in
    decode_with-header store_kind decode_descriptor_v1 body store_kind-IsKind refl ∙ e

-- Raising a descriptor over what this build writes never lowers the format version, reaches what the
-- build writes, and leaves the build's answer on whether it can read the store as it was.
raised_over_sound :
    (d : StoreDescriptor)
    → (d.format_version ≤ (raised_over d current).format_version)
      × (current_format_version ≤ (raised_over d current).format_version)
      × (check_readable (raised_over d current) ≡ check_readable d)
unfolding raised_over current check_readable max_readable_format_version greatest
raised_over_sound d = (omega arith, omega arith, ground arith)
