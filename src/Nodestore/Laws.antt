-- ===== src/Nodestore/Laws.antt =====
-- What a store promises of single nodes, on an etcd client that keeps its own promises.
use text.Mathlib.TextLemmas.{append_cancel_left}
use resource_extend.Base.{String, ◌≡◌, refl, ◌≢◌, none, some, arith, ◌⊎◌}
use resource_extend.Errors.{Error, node_exists, node_not_exists, ok, err, is_node_not_exists}
use resource_extend.Nodestore.{Kv, Info, Store, key, get, get_or_empty, put, delete, check_absent}

-- What etcd documents: a read sees the last write of its key, and a write touches no other key.
pub record IsKv (kv : Kv) : Type 0 where
  pub put_read :
      (k v : String) (s t : kv.State) → kv.put k v s ≡ (ok tt, t) → kv.get k t ≡ ok (some v)
  pub put_read_other :
      (k j v : String) (s t : kv.State)
      → kv.put k v s ≡ (ok tt, t)
      → k ≢ j
      → kv.get j t ≡ kv.get j s
  pub delete_read :
      (k : String) (s t : kv.State) → kv.delete k s ≡ (ok tt, t) → kv.get k t ≡ ok none
  pub delete_read_other :
      (k j : String) (s t : kv.State) → kv.delete k s ≡ (ok tt, t) → k ≢ j → kv.get j t ≡ kv.get j s
  -- A write that fails may have been made or not.
  pub put_failed :
      (k j v : String) (s t : kv.State) {e : Error}
      → kv.put k v s ≡ (err e, t)
      → (kv.get j t ≡ kv.get j s) ⊎ ((k ≡ j) × (kv.get j t ≡ ok (some v)))
  pub delete_failed :
      (k j : String) (s t : kv.State) {e : Error}
      → kv.delete k s ≡ (err e, t)
      → (kv.get j t ≡ kv.get j s) ⊎ ((k ≡ j) × (kv.get j t ≡ ok none))

-- A value that is encoded can be decoded again.
abbrev pub RoundTrips : {T : Type 0} → Info T → Type 0
RoundTrips {T} i =
    (a : T) (text : String) → i.marshal a ≡ ok text → i.unmarshal text i.new_info ≡ ok a

module _ {T : Type 0} (s : Store T) where
  pub key_injective : (m n : String) → key s m ≡ key s n → m ≡ n
  unfolding key
  key_injective m n e = append_cancel_left s.key_prefix m n e

module _ {T : Type 0} (s : Store T) (laws : IsKv s.kv) where
  open s use {kv, info}

  -- A successful `Put` has validated the info and written its encoding.
  pub put-written :
      (n : String) (i : T) (st : kv.State) {st' : kv.State}
      → put s n i st ≡ (ok tt, st')
      → (j : T) × (text : String) × (info.validate i ≡ ok j)
        × (info.marshal j ≡ ok text)
        × (kv.put (key s n) text st ≡ (ok tt, st'))
  unfolding put
  put-written n i st h = ground arith

  -- On an etcd client that keeps its promises, and if encoded infos decode to themselves, `Get` after a successful `Put` of the same node gives the
  -- info that validation has made of the one that was put.
  pub get-put :
      (n : String) (i : T) (st : kv.State) {st' : kv.State}
      → RoundTrips info
      → put s n i st ≡ (ok tt, st')
      → get s n st' ≡ info.validate i
  unfolding get
  get-put n i st {st'} trip h =
      let w = put-written n i st h in
      rw (laws.put_read (key s n) w.1 st st' w.4, w.2) (trip w.0 w.1 w.3)

  -- On an etcd client that keeps its promises, a successful `Put` of one node leaves what `Get` gives
  -- for any other.
  pub get-put_other :
      (n m : String) (i : T) (st : kv.State) {st' : kv.State}
      → put s n i st ≡ (ok tt, st')
      → n ≢ m
      → get s m st' ≡ get s m st
  unfolding get
  get-put_other n m i st {st'} h ne =
      let w = put-written n i st h in
      rw (laws.put_read_other (key s n) (key s m) w.1 st st' w.4 (λ e. ne (key_injective s n m e)))

  -- Info that does not validate is not written.
  pub put_invalid :
      (n : String) (i : T) (st : kv.State) {e : Error}
      → info.validate i ≡ err e
      → put s n i st ≡ (err e, st)
  unfolding put
  put_invalid n i st h = rw h

  -- On an etcd client that keeps its promises, `Get` after a successful `Delete` of a node reports that
  -- it does not exist.
  pub get-delete :
      (n : String) (st : kv.State) {st' : kv.State}
      → delete s n st ≡ (ok tt, st')
      → get s n st' ≡ err node_not_exists
  unfolding get delete
  get-delete n st {st'} h = rw (laws.delete_read (key s n) st st' h)

  pub get-delete_other :
      (n m : String) (st : kv.State) {st' : kv.State}
      → delete s n st ≡ (ok tt, st')
      → n ≢ m
      → get s m st' ≡ get s m st
  unfolding get delete
  get-delete_other n m st {st'} h ne =
      rw (laws.delete_read_other (key s n) (key s m) st st' h (λ e. ne (key_injective s n m e)))

module _ {T : Type 0} (s : Store T) (laws : IsKv s.kv) where
  open s use {kv, info}

  -- On an etcd client that keeps its promises, and if encoded infos decode to themselves: after a
  -- successful `Put` of a node, `CheckAbsent` reports that the node exists and `GetOrEmpty` gives what
  -- `Get` gives, the validated info; after a successful `Delete` of it then, `CheckAbsent` accepts the
  -- name and `GetOrEmpty` gives a new info.
  pub check_absent-put-delete :
      (n : String) (i : T) (st : kv.State) {st' st'' : kv.State}
      → RoundTrips info
      → put s n i st ≡ (ok tt, st')
      → delete s n st' ≡ (ok tt, st'')
      → (check_absent s n st' ≡ err node_exists)
        × (get_or_empty s n st' ≡ info.validate i)
        × (check_absent s n st'' ≡ ok tt)
        × (get_or_empty s n st'' ≡ ok info.new_info)
  unfolding check_absent get_or_empty is_node_not_exists
  check_absent-put-delete n i st {st'} {st''} trip h gone =
      let w = put-written s laws n i st h in
      let read = get-put s laws n i st trip h in
      let absent = get-delete s laws n st' gone in
      (rw (read, w.2) refl, rw (read, w.2) refl, rw absent refl, rw absent refl)
