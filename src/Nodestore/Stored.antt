-- ===== src/Nodestore/Stored.antt =====
-- What holds of every stored info: whatever validation guarantees, after any write, failed ones
-- included.
use text.Mathlib.TextEquality.{eq_iff}
use resource_extend.Base.{
  String, ◌≡◌, refl, sym, ◌∙◌, ◌⊎◌, inl, inr, none, some, Bool-cases, subst, arith,
}
use resource_extend.Base.Dict.{◌=s◌, =s_iff}
use resource_extend.Errors.{Error, Result, ok, err, Result-cases}
use resource_extend.Nodestore.{Store, key, get, put, put_encoded, delete, decode_found}
use resource_extend.Nodestore.Laws.{IsKv, RoundTrips}

module _ {T : Type 0} (s : Store T) (P : T → Type 0) where
  open s use {kv, info}

  abbrev pub AllStored : kv.State → Type 0
  AllStored st = (n : String) (i : T) → get s n st ≡ ok i → P i

ok_injective : {T : Type 0} {a b : T} → ok a ≡ ok b → a ≡ b
ok_injective e = cc

missing : {T : Type 0} {f : Error} {a : T} → ◌≡◌ {A = Result T} (err f) (ok a) → ⊥
missing e = cc

module _ {T : Type 0} (s : Store T) (P : T → Type 0) (laws : IsKv s.kv) (trip : RoundTrips s.info)
    (guaranteed : (i j : T) → s.info.validate i ≡ ok j → P j) where
  open s use {kv, info}

  -- After a write of one key every other key reads as before, and that key as before or as written.
  read_after :
      (k j v : String) (st st' : kv.State) (r : Result (Unit {0}))
      → kv.put k v st ≡ (r, st')
      → (kv.get j st' ≡ kv.get j st) ⊎ (kv.get j st' ≡ ok (some v))
  read_after k j v st st' (ok tt) e = elim (Bool-cases (k =s j)) [
    | inl same ↦ inr (rw (← (=s_iff k j).0 same) (laws.put_read k v st st' e))
    | inr other ↦ inl (laws.put_read_other k j v st st' e (ground (arith, eq_iff k j)))
  ]
  read_after k j v st st' (err f) e = elim (laws.put_failed k j v st st' e) [
    | inl old ↦ inl old
    | inr new ↦ inr new.1
  ]

  read_after_delete :
      (k j : String) (st st' : kv.State) (r : Result (Unit {0}))
      → kv.delete k st ≡ (r, st')
      → (kv.get j st' ≡ kv.get j st) ⊎ (kv.get j st' ≡ ok none)
  read_after_delete k j st st' (ok tt) e = elim (Bool-cases (k =s j)) [
    | inl same ↦ inr (rw (← (=s_iff k j).0 same) (laws.delete_read k st st' e))
    | inr other ↦ inl (laws.delete_read_other k j st st' e (ground (arith, eq_iff k j)))
  ]
  read_after_delete k j st st' (err f) e = elim (laws.delete_failed k j st st' e) [
    | inl old ↦ inl old
    | inr new ↦ inr new.1
  ]

  put_encoded-AllStored :
      (n : String) (i j : T) (text : String) (st : kv.State)
      → info.validate i ≡ ok j
      → info.marshal j ≡ ok text
      → AllStored s P st
      → AllStored s P (kv.put (key s n) text st).1
  unfolding get decode_found
  put_encoded-AllStored n i j text st vj mt all m x e =
      elim (read_after (key s n) (key s m) text st (kv.put (key s n) text st).1
        (kv.put (key s n) text st).0 refl) [
          | inl old ↦ all m x (rw (← old) e)
          | inr new ↦
              let d : info.unmarshal text info.new_info ≡ ok x = (rw new at e) in
              subst P (ok_injective (sym (trip j text mt) ∙ d)) (guaranteed i j vj)
        ]

  -- Whatever comes of a `Put`, every stored info has what validation guarantees.
  pub put-AllStored :
      (n : String) (i : T) (st : kv.State) → AllStored s P st → AllStored s P (put s n i st).1
  unfolding put put_encoded
  put-AllStored n i st all = elim (Result-cases (info.validate i)) [
    | inr (f, e) ↦ rw e all
    | inl (j, e) ↦ elim (Result-cases (info.marshal j)) [
      | inr (f, d) ↦ rw e (rw d all)
      | inl (text, d) ↦ rw e (rw d (put_encoded-AllStored n i j text st e d all))
    ]
  ]

  pub delete-AllStored :
      (n : String) (st : kv.State) → AllStored s P st → AllStored s P (delete s n st).1
  unfolding delete get decode_found
  delete-AllStored n st all m x e =
      elim (read_after_delete (key s n) (key s m) st (kv.delete (key s n) st).1
        (kv.delete (key s n) st).0 refl) [
          | inl old ↦ all m x (rw (← old) e)
          | inr new ↦ absurd (missing (rw new at e))
        ]
