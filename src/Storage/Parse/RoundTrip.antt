-- ===== src/Storage/Parse/RoundTrip.antt =====
-- NewVolumeBinding after ToString (storage/types/volume.go): the JSON form of bindings and plans.
use mathlib.Core.Bool.{false≢true}
use resource_extend.Base.Dict.{=s_iff}
use text.Mathlib.TextLemmas.{append_assoc}
use Prim.Native.String.{String}
use resource_extend.Base.{false, ◌≡◌, refl, ◌∙◌, ap, subst, List, [], ◌∷◌, All, arith}
use resource_extend.Base.Int.{ℤ}
use resource_extend.Errors.{Result, ok, ◌>>=◌}
use resource_extend.Storage.Binding.{VolumeBinding, validate_one, has_char}
use resource_extend.Storage.Binding.Text.{to_string, spell_flags, replace_all, decimal}
use resource_extend.Storage.Disk.Text.{split, join}
use resource_extend.Storage.Disk.Text.Numbers.{decimal-has_char}
use resource_extend.Storage.Disk.Text.Parts.{split-join, colon_lem}
use resource_extend.Storage.Disk.Text.RoundTrip.{IsExact, ReadsNumbers}
use resource_extend.Storage.Parse.{
  insert_char, sort_chars, flags_or_rw, sort_chars, flags_or_rw, new_from_parts, binding_of_parts,
  new_volume_binding,
}
use resource_extend.Storage.Parse.Flags.{IsSpellable, flags_of, spelled}
use resource_extend.Storage.Parse.Made.{
  HasNone, split-HasNone, IsMade, checked, flags_eq, binding_of_parts-IsMade,
}

-- The numbers of a binding are from 0 to 2 ^ 53, which core reads exactly.
pub record HasExactSizes (vb : VolumeBinding) : Type 0 where
  pub size : IsExact vb.size_in_bytes
  pub read_iops : IsExact vb.read_iops
  pub write_iops : IsExact vb.write_iops
  pub read_bps : IsExact vb.read_bps
  pub write_bps : IsExact vb.write_bps

exact-HasNone : (a : ℤ) → IsExact a → HasNone b':' (decimal a)
exact-HasNone a h = decimal-has_char a (omega (arith, h.0, h.1))

-- The eight parts of the text.
abbrev more_parts : VolumeBinding → List String
more_parts vb =
    vb.destination
    ∷ spell_flags false vb.flags
    ∷ decimal vb.size_in_bytes
    ∷ decimal vb.read_iops
    ∷ decimal vb.write_iops
    ∷ decimal vb.read_bps
    ∷ decimal vb.write_bps
    ∷ []

to_string-join : (vb : VolumeBinding) → to_string false vb ≡ join ":" (vb.source ∷ more_parts vb)
unfolding to_string join
to_string-join vb = simp append_assoc

numbers-HasNone :
    (vb : VolumeBinding)
    → HasExactSizes vb
    → All (HasNone b':') (
        decimal vb.size_in_bytes
        ∷ decimal vb.read_iops
        ∷ decimal vb.write_iops
        ∷ decimal vb.read_bps
        ∷ decimal vb.write_bps
        ∷ [])
numbers-HasNone vb x = (
  exact-HasNone vb.size_in_bytes x.size,
  (
    exact-HasNone vb.read_iops x.read_iops,
    (
      exact-HasNone vb.write_iops x.write_iops,
      (exact-HasNone vb.read_bps x.read_bps, (exact-HasNone vb.write_bps x.write_bps, tt)),
    ),
  ),
)

split-to_string :
    (vb : VolumeBinding)
    → IsMade vb
    → HasExactSizes vb
    → HasNone b':' (spell_flags false vb.flags)
    → split b':' (to_string false vb) ≡ vb.source ∷ more_parts vb
split-to_string vb m x h =
    ap (split b':') (to_string-join vb)
    ∙ split-join b':' ":" vb.source (more_parts vb) colon_lem
        (m.source, (m.destination, (h, numbers-HasNone vb x)))

module _ (parse_ram : String → Result ℤ) (reads : ReadsNumbers parse_ram) where
  from_own_parts :
      (vb : VolumeBinding) (f : String)
      → HasExactSizes vb
      → validate_one vb ≡ ok tt
      → flags_of f ≡ vb.flags
      → new_from_parts parse_ram vb.source vb.destination f
          (decimal vb.size_in_bytes)
          (decimal vb.read_iops)
          (decimal vb.write_iops)
          (decimal vb.read_bps)
          (decimal vb.write_bps)
        ≡ ok vb
  unfolding new_from_parts
  from_own_parts vb f x v e =
      rw
        (
          reads _ x.size,
          reads _ x.read_iops,
          reads _ x.write_iops,
          reads _ x.read_bps,
          reads _ x.write_bps,
          e,
        )
        (rw v refl)

  -- The flags r, w and o are printed as rowo, which is read as oorw.
  rwo_changed :
      (vb : VolumeBinding)
      → HasExactSizes vb
      → vb.flags ≡ "orw"
      → ¬ (
          new_from_parts parse_ram vb.source vb.destination "rowo"
            (decimal vb.size_in_bytes)
            (decimal vb.read_iops)
            (decimal vb.write_iops)
            (decimal vb.read_bps)
            (decimal vb.write_bps)
          ≡ ok vb)
  unfolding new_from_parts sort_chars insert_char flags_or_rw
  rwo_changed vb x rwo h =
      let made : VolumeBinding = record vb { flags = "oorw" } in
      let kept : (validate_one made >>= λ _. ok made) ≡ ok vb =
        rw
          (
            reads _ x.size,
            reads _ x.read_iops,
            reads _ x.write_iops,
            reads _ x.read_bps,
            reads _ x.write_bps,
          )
          at h in
      let same = (checked (validate_one made) made kept).1 in
      let flags : "oorw" ≡ "orw" = flags_eq same ∙ rwo in false≢true ((=s_iff "oorw" "orw").1 flags)

  -- Where core reads plain numbers, for a binding that NewVolumeBinding has made, from whatever text,
  -- with numbers from 0 to 2 ^ 53: NewVolumeBinding reads the binding back from the text that ToString
  -- prints of it for JSON if the flags have no `o` or are one of or, ow, mor and mow, as a read-only or
  -- write-only volume has them; and it does not read it back if the flags are orw.
  pub new_volume_binding-to_string :
      (text : String) (vb : VolumeBinding)
      → new_volume_binding parse_ram text ≡ ok vb
      → HasExactSizes vb
      → (IsSpellable vb.flags → new_volume_binding parse_ram (to_string false vb) ≡ ok vb)
        × (vb.flags ≡ "orw" → ¬ (new_volume_binding parse_ram (to_string false vb) ≡ ok vb))
  unfolding new_volume_binding binding_of_parts
  new_volume_binding-to_string text vb e x =
      let m = binding_of_parts-IsMade parse_ram (split b':' text) vb (split-HasNone b':' text) e in
      (
        λ h.
            let flags =
              spelled m.read_flags (rw (← m.flags) m.flags_text) (subst IsSpellable m.flags h) in
            let same : flags_of (spell_flags false vb.flags) ≡ vb.flags = rw m.flags flags.0 in
            let plain : HasNone b':' (spell_flags false vb.flags) = rw m.flags flags.1 in
            rw (split-to_string vb m x plain)
              (from_own_parts vb (spell_flags false vb.flags) x m.valid same),
        λ rwo again.
            let text_eq : spell_flags false vb.flags ≡ "rowo" =
              rw rwo (unfold spell_flags replace_all has_char in refl) in
            let plain : HasNone b':' (spell_flags false vb.flags) =
              rw text_eq (unfold has_char in refl) in
            rwo_changed vb x rwo (rw (split-to_string vb m x plain, text_eq) at again),
      )
