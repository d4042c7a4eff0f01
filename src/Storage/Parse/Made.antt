-- ===== src/Storage/Parse/Made.antt =====
-- What NewVolumeBinding (storage/types/volume.go) makes sure of in the bindings that it makes.
use text.Mathlib.TextLemmas.{cons-append, nil-append}
use Prim.Native.String.{String}
use Prim.Native.Char.{Char, code}
use resource_extend.Base.{
  ℕ, false, ◌==◌, ◌≡◌, refl, ◌∙◌, ap, subst, List, [], ◌∷◌, inl, inr, Bool-cases, All,
}
use resource_extend.Base.Int.{ℤ}
use resource_extend.Base.Dict.{◌=s◌}
use resource_extend.Errors.{Result, ok, err, ◌>>=◌}
use resource_extend.Storage.Binding.{VolumeBinding, validate_one, has_char}
use resource_extend.Storage.Disk.Text.{split, to_first}
use resource_extend.Storage.Parse.{
  sort_chars, flags_or_rw, sort_chars, flags_or_rw, new_from_parts, binding_of_parts,
}
use resource_extend.Storage.Parse.Flags.{flags_of, has_char-sort_chars}

abbrev pub HasNone : ℕ → String → Type 0
HasNone n p = has_char n p ≡ false

to_first-HasNone :
    (n : ℕ) (c : Char) (parts : List String)
    → (code c == n) ≡ false
    → All (HasNone n) parts
    → All (HasNone n) (to_first (String.◌∷◌ c String.[]) parts)
unfolding has_char
to_first-HasNone n c [] e h = (rw e refl, tt)
to_first-HasNone n c (part ∷ parts) e h = (rw cons-append (rw nil-append (rw e h.0)), h.1)

-- No part has the separator.
pub split-HasNone : (n : ℕ) (s : String) → All (HasNone n) (split n s)
unfolding split has_char
split-HasNone n String.[] = (refl, tt)
split-HasNone n (String.◌∷◌ c s) = elim (Bool-cases (code c == n)) [
  | inl e ↦ rw e (refl, split-HasNone n s)
  | inr e ↦ rw e (to_first-HasNone n c (split n s) e (split-HasNone n s))
]

-- What NewVolumeBinding makes sure of.
pub record IsMade (vb : VolumeBinding) : Type 0 where
  pub source : HasNone b':' vb.source
  pub destination : HasNone b':' vb.destination
  pub valid : validate_one vb ≡ ok tt
  pub read_flags : String
  pub flags : vb.flags ≡ flags_of read_flags
  pub flags_text : HasNone b':' vb.flags

flags_of-HasNone : (f : String) → HasNone b':' f → HasNone b':' (flags_of f)
unfolding flags_or_rw
flags_of-HasNone f h = elim (Bool-cases (sort_chars f =s "")) [
  | inl e ↦ rw e (unfold has_char in refl)
  | inr e ↦ rw e (has_char-sort_chars b':' f ∙ h)
]

-- The rest of a reading that succeeds, after its first part.
rest_ok :
    {A B : Type 0} {b : B} (go_on : A → Result B) (first : Result A)
    → (first >>= go_on) ≡ ok b
    → (a : A) × (go_on a ≡ ok b)
rest_ok go_on (err e) h = absurd (cc)
rest_ok go_on (ok a) h = (a, h)

pub checked :
    {A : Type 0} {b : A} (test : Result (Unit {0})) (a : A)
    → (test >>= λ _. ok a) ≡ ok b
    → (test ≡ ok tt) × (ok a ≡ ok b)
checked (err e) a h = absurd (cc)
checked (ok u) a h = (refl, h)

pub flags_eq : {a b : VolumeBinding} → ok a ≡ ok b → a.flags ≡ b.flags
flags_eq e = ap flags_in e
  where
    flags_in : Result VolumeBinding → String
    flags_in (ok a) = a.flags
    flags_in (err f) = ""

module _ (parse_ram : String → Result ℤ) where
  new_from_parts-IsMade :
      (s d f n ri wi rb wb : String) (vb : VolumeBinding)
      → HasNone b':' s
      → HasNone b':' d
      → HasNone b':' f
      → new_from_parts parse_ram s d f n ri wi rb wb ≡ ok vb
      → IsMade vb
  unfolding new_from_parts
  new_from_parts-IsMade s d f n ri wi rb wb vb hs hd hf e =
      let (size, e1) = rest_ok _ (parse_ram n) e in
      let (r1, e2) = rest_ok _ (parse_ram ri) e1 in
      let (r2, e3) = rest_ok _ (parse_ram wi) e2 in
      let (r3, e4) = rest_ok _ (parse_ram rb) e3 in
      let (r4, e5) = rest_ok _ (parse_ram wb) e4 in
      let made : VolumeBinding = record {
        source = s;
        destination = d;
        flags = flags_of f;
        size_in_bytes = size;
        rates = record { read_iops = r1; write_iops = r2; read_bps = r3; write_bps = r4 };
      } in
      let (valid, last) = checked (validate_one made) made e5 in
      let same : made ≡ vb = cc in
      subst IsMade same (record {
        source = hs;
        destination = hd;
        valid = valid;
        read_flags = f;
        flags = refl;
        flags_text = flags_of-HasNone f hf;
      })

  rw-HasNone : HasNone b':' "rw"
  unfolding has_char
  rw-HasNone = refl

  pub binding_of_parts-IsMade :
      (parts : List String) (vb : VolumeBinding)
      → All (HasNone b':') parts
      → binding_of_parts parse_ram parts ≡ ok vb
      → IsMade vb
  unfolding binding_of_parts
  binding_of_parts-IsMade [] vb h e = absurd (cc)
  binding_of_parts-IsMade (s ∷ []) vb h e = absurd (cc)
  binding_of_parts-IsMade (s ∷ d ∷ []) vb h e =
      new_from_parts-IsMade s d "rw" _ _ _ _ _ vb h.0 h.1.0 rw-HasNone e
  binding_of_parts-IsMade (s ∷ d ∷ f ∷ []) vb h e =
      new_from_parts-IsMade s d f _ _ _ _ _ vb h.0 h.1.0 h.1.1.0 e
  binding_of_parts-IsMade (s ∷ d ∷ f ∷ n ∷ []) vb h e =
      new_from_parts-IsMade s d f _ _ _ _ _ vb h.0 h.1.0 h.1.1.0 e
  binding_of_parts-IsMade (s ∷ d ∷ f ∷ n ∷ ri ∷ []) vb h e =
      new_from_parts-IsMade s d f _ _ _ _ _ vb h.0 h.1.0 h.1.1.0 e
  binding_of_parts-IsMade (s ∷ d ∷ f ∷ n ∷ ri ∷ wi ∷ []) vb h e =
      new_from_parts-IsMade s d f _ _ _ _ _ vb h.0 h.1.0 h.1.1.0 e
  binding_of_parts-IsMade (s ∷ d ∷ f ∷ n ∷ ri ∷ wi ∷ rb ∷ []) vb h e =
      new_from_parts-IsMade s d f _ _ _ _ _ vb h.0 h.1.0 h.1.1.0 e
  binding_of_parts-IsMade (s ∷ d ∷ f ∷ n ∷ ri ∷ wi ∷ rb ∷ wb ∷ []) vb h e =
      new_from_parts-IsMade s d f _ _ _ _ _ vb h.0 h.1.0 h.1.1.0 e
  binding_of_parts-IsMade (s ∷ d ∷ f ∷ n ∷ ri ∷ wi ∷ rb ∷ wb ∷ more ∷ parts) vb h e = absurd (cc)
