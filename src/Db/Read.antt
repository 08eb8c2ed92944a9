-- ===== src/Db/Read.antt =====
-- lib.rs, `Db::get`: what it makes of a deletion in the active memtable.
use easy_lsm.Base.{Option, none, some, ◌≡◌, refl}
use easy_lsm.Error.{Result, ok}
use easy_lsm.Codec.{Bytes}
use easy_lsm.Value.{Value}
use easy_lsm.Entry.{first_of}
use easy_lsm.SkipMap.{SkipMap}
use easy_lsm.Memtable
use easy_lsm.Memtable.{Memtable, visible, entries}
use easy_lsm.Memtable.Lookup.{IsValid, new-IsValid, get-first_of, first_of-new}
use easy_lsm.Db.{DbVersion, get, search_frozen, search_levels}

abbrev pub or_else : Option Value → Result (Option Value) → Result (Option Value)
or_else (some val) rest = ok (some val)
or_else none rest = rest

module _ (skip_map : SkipMap) (Table : Type 0)
    (search : Table → Bytes → Result (Option Value)) where
  -- A key whose newest version in the active memtable is a put is answered with that put, whatever
  -- the frozen memtables and the tables hold. One whose newest version there is a tombstone, or
  -- which has none there, is answered as if the active memtable were empty: the deletion does not
  -- hide what is older. The active memtable is valid.
  pub get-mutable :
      (v : DbVersion skip_map Table) (k : Bytes)
      → IsValid skip_map v.mutable_memtable
      → get skip_map Table search v k
        ≡ or_else
            (visible (first_of k (entries skip_map v.mutable_memtable)))
            (get skip_map Table search (record v { mutable_memtable = Memtable.new skip_map }) k)
  unfolding get visible
  get-mutable v k valid =
      rw (get-first_of skip_map (Memtable.new skip_map) k (new-IsValid skip_map), get)
        (rw (first_of-new skip_map k) (
          rw (get-first_of skip_map v.mutable_memtable k valid, get)
            (either (visible (first_of k (entries skip_map v.mutable_memtable))))))
    where
      either :
          (o : Option Value)
          → ◌≡◌ {A = Result (Option Value)}
              (elim o [
                | some val ↦ ok (some val)
                | none ↦ elim (search_frozen skip_map Table v.frozen_memtables k) [
                  | some val ↦ ok (some val)
                  | none ↦ search_levels skip_map Table search v.sstables k
                ]
              ])
              (or_else o (elim (search_frozen skip_map Table v.frozen_memtables k) [
                | some val ↦ ok (some val)
                | none ↦ search_levels skip_map Table search v.sstables k
              ]))
      either none = refl
      either (some val) = refl
